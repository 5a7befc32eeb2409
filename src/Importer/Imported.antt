-- ===== src/Importer/Imported.antt =====
-- What an import that succeeds leaves in the database.
use painkiller.Prelude.{◌≡◌, ◌⊎◌, inl, inr, true, List, [], ◌∷◌, ◌++◌, some, All2, Text}
use painkiller.Outside.{Outside}
use painkiller.Models.{Uuid, Instant, ScenarioVersion, Task, Check, Test, Product}
use painkiller.Store.{World}
use painkiller.Store.Scenarios
use painkiller.Scenarios.Schema
use painkiller.Scenarios.Topology.{encode_topology}
use painkiller.Importer.Files.{ParsedScenario, get}
use painkiller.Importer.Rows.{version_row}
use painkiller.Importer.Tasks.{TaskMade, is_task}
use painkiller.Importer.Offer.{ProductFor}

-- The row of a check, under one of the task rows: the one whose name the check gives.
abbrev pub CheckUnder : List Task → Schema.Check → Check → Type 0
CheckUnder tasks c r =
    (is_task c.task_id r.task_id tasks ≡ true)
    × (r.external_id ≡ c.id)
    × (r.cluster_id ≡ c.cluster_id)
    × (r.check_type ≡ c.check_type)
    × (r.command ≡ c.command)
    × (r.points ≡ c.points)

-- The second state is the first one with one version, a row for each task and each check, one test,
-- and the product of the test, if it is a new one. Nothing else is written.
pub record Imported (ps : ParsedScenario) (commit : Text) (v w : World) : Type 0 where
  pub version : ScenarioVersion
  pub tasks : List Task
  pub checks : List Check
  pub products : List Product
  pub test : Test
  pub names : (version.external_id ≡ ps.scenario.id) × (version.git_commit ≡ commit)
  pub version_fields :
      (version.title ≡ ps.scenario.title)
      × (version.duration_minutes ≡ ps.scenario.duration_minutes)
      × (version.access_window_hours ≡ ps.scenario.access_window_hours)
      × (version.attempts_allowed ≡ ps.scenario.attempts_allowed)
      × (version.topology_json ≡ encode_topology ps.scenario.topology)
  pub of_tasks : All2 (TaskMade ps.prompts version.id) ps.scenario.tasks tasks
  pub of_checks : All2 (CheckUnder tasks) ps.checks.checks checks
  pub test_fields :
      (test.scenario_version_id ≡ version.id)
      × (test.duration_minutes ≡ ps.scenario.duration_minutes)
      × (test.access_window_hours ≡ ps.scenario.access_window_hours)
      × (test.attempts_allowed ≡ ps.scenario.attempts_allowed)
  pub of_product : ProductFor ps.scenario test.product_id v.products products
  pub after : w ≡ record v {
    scenario_versions = v.scenario_versions ++ version ∷ [];
    tasks = v.tasks ++ tasks;
    checks = v.checks ++ checks;
    products = products;
    tests = v.tests ++ test ∷ [];
    calls = w.calls;
  }

-- What the map knows after the loop is what the loop made.
pub only_new :
    (ids : List (Text × Uuid)) (tasks : List Task)
    → ((key : Text) (id : Uuid)
        → get key ids ≡ some id
        → (get key [] ≡ some id) ⊎ (is_task key id tasks ≡ true))
    → (key : Text) (id : Uuid) → get key ids ≡ some id
    → is_task key id tasks ≡ true
unfolding get
only_new ids tasks known key id found = elim (known key id found) [
  | inl before ↦ cc
  | inr there ↦ there
]

module _ (o : Outside) (ps : ParsedScenario) (commit : Text) (time : Instant) (id : Uuid) where
  -- The state with the version, the tasks and the checks.
  abbrev with_rows : List Task → List Check → World → World → World
  with_rows tasks checks v w = record v {
    scenario_versions = v.scenario_versions ++ version_row ps.scenario commit id time ∷ [];
    tasks = v.tasks ++ tasks;
    checks = v.checks ++ checks;
    calls = w.calls;
  }
