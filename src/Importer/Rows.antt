-- ===== src/Importer/Rows.antt =====
-- internal/importer/importer.go from the parsed files to the rows of the database. There is no
-- transaction: each statement stands alone.
use painkiller.Prelude.{true, false, Option, none, some, List, [], ◌∷◌, ⊤, Text, is_empty}
use painkiller.Outside.{Outside}
use painkiller.Models.{Uuid, Instant, ScenarioVersion, Task, Check, Product, Test}
use painkiller.Store.{
  World, Result, Action, ok, err, pure, raise, or_wrap, wrap, ◌>>=◌, ◌>>◌, now, new_uuid, no_rows,
  unknown_task, failed_to_check_version, failed_to_create_version, failed_to_create_task,
  failed_to_create_check, failed_to_create_product, failed_to_create_test,
}
use painkiller.Store.Scenarios
use painkiller.Store.Products
use painkiller.Store.Tests
use painkiller.Scenarios.Schema
use painkiller.Scenarios.Schema.{Scenario}
use painkiller.Scenarios.Topology.{encode_topology}
use painkiller.Importer.Files.{
  Repository, ImportError, Parsed, parsed, failed, empty_path, ParsedScenario, get,
  discover_scenarios, resolve_git_commit,
}

abbrev pub version_row : Scenario → Text → Uuid → Instant → ScenarioVersion
version_row s commit id time = record {
  id = id;
  external_id = s.id;
  title = s.title;
  git_commit = commit;
  duration_minutes = s.duration_minutes;
  access_window_hours = s.access_window_hours;
  attempts_allowed = s.attempts_allowed;
  topology_json = encode_topology s.topology;
  created_at = time;
}

-- `prompts[t.ID]`: the empty text where the key is missing.
abbrev pub or_blank : Option Text → Text
or_blank none = []
or_blank (some prompt) = prompt

abbrev pub task_row : Schema.Task → Text → Uuid → Uuid → Instant → Task
task_row t prompt version id time = record {
  id = id;
  scenario_version_id = version;
  external_id = t.id;
  cluster_id = t.cluster_id;
  kube_context = t.kube_context;
  points = t.points;
  prompt = prompt;
  created_at = time;
}

abbrev pub check_row : Schema.Check → Uuid → Uuid → Instant → Check
check_row c task id time = record {
  id = id;
  task_id = task;
  external_id = c.id;
  cluster_id = c.cluster_id;
  check_type = c.check_type;
  command = c.command;
  points = c.points;
  created_at = time;
}

abbrev pub product_row : Scenario → Uuid → Instant → Product
product_row s id time = record {
  id = id;
  stripe_price_id = none;
  title = s.title;
  description = s.title;
  is_free = false;
  created_at = time;
}

abbrev pub test_row : Scenario → Uuid → Uuid → Uuid → Instant → Test
test_row s product version id time = record {
  id = id;
  product_id = product;
  scenario_version_id = version;
  duration_minutes = s.duration_minutes;
  access_window_hours = s.access_window_hours;
  attempts_allowed = s.attempts_allowed;
  created_at = time;
}

-- `taskUUIDs[c.TaskID]`, or the error.
abbrev pub known_task : Option Uuid → Action Uuid
known_task none = raise unknown_task
known_task (some id) = pure id

-- A version that is there ends the import, and so does an error other than `sql.ErrNoRows`.
abbrev pub unless_there : Result ScenarioVersion × World → Action ⊤ → Result ⊤ × World
unless_there (ok _, w) rest = (ok tt, w)
unless_there (err no_rows, w) rest = rest w
unless_there (err e, w) rest = (err (wrap failed_to_check_version e), w)

module _ (o : Outside) where
  unfoldable pub create_tasks :
      List (Text × Text)
      → Uuid
      → Instant
      → List Schema.Task
      → List (Text × Uuid)
      → Action (List (Text × Uuid))
  create_tasks prompts version time [] ids = pure ids
  create_tasks prompts version time (t ∷ ts) ids = do
    id ← new_uuid o
    or_wrap (Scenarios.create_task o (task_row t (or_blank (get t.id prompts)) version id time))
        failed_to_create_task
    create_tasks prompts version time ts ((t.id, id) ∷ ids)

  unfoldable pub create_checks : Instant → List (Text × Uuid) → List Schema.Check → Action ⊤
  create_checks time ids [] = pure tt
  create_checks time ids (c ∷ cs) = do
    task ← known_task (get c.task_id ids)
    id ← new_uuid o
    or_wrap (Scenarios.create_check o (check_row c task id time)) failed_to_create_check
    create_checks time ids cs

  unfoldable pub create_product : Scenario → Instant → Action Uuid
  create_product s time = do
    id ← new_uuid o
    or_wrap (Products.create o (product_row s id time)) failed_to_create_product
    pure id

  -- `GetByTitle` answers every error with no product, so the branch for the other errors is never
  -- taken.
  abbrev pub or_create : Result Product × World → Action Uuid → Result Uuid × World
  or_create (ok p, w) rest = (ok p.id, w)
  or_create (err _, w) rest = rest w

  unfoldable pub product_for : Scenario → Instant → Action Uuid
  product_for s time w = or_create (Products.get_by_title o s.title w) (create_product s time)

  -- From the product on.
  unfoldable pub create_offer : Scenario → Uuid → Instant → Action ⊤
  create_offer s version time = do
    product ← product_for s time
    id ← new_uuid o
    or_wrap (Tests.create o (test_row s product version id time)) failed_to_create_test

  -- `importParsedScenario` where the version is new.
  unfoldable pub create_all : ParsedScenario → Text → Action ⊤
  create_all ps commit = do
    time ← now o
    version ← new_uuid o
    or_wrap (Scenarios.create_version o (version_row ps.scenario commit version time))
        failed_to_create_version
    ids ← create_tasks ps.prompts version time ps.scenario.tasks []
    create_checks time ids ps.checks.checks
    create_offer ps.scenario version time

  unfoldable pub import_parsed_scenario : ParsedScenario → Text → Action ⊤
  import_parsed_scenario ps commit w =
      unless_there (Scenarios.get_version_by_external_id o ps.scenario.id commit w)
        (create_all ps commit)

  -- An import that fails is noted in the log, and the next one follows.
  unfoldable pub import_each : List ParsedScenario → Text → World → World
  import_each [] commit w = w
  import_each (ps ∷ rest) commit w = import_each rest commit (import_parsed_scenario ps commit w).1

  abbrev pub imported : Parsed (List ParsedScenario) → Text → World → Option ImportError × World
  imported (failed e) commit w = (some e, w)
  imported (parsed all) commit w = (none, import_each all commit w)

  -- `ImportAll`: the error that it returns, and what it leaves.
  unfoldable pub import_all : Repository → Text → World → Option ImportError × World
  import_all repo path w = elim (is_empty path) [
    | true ↦ (some empty_path, w)
    | false ↦ imported (discover_scenarios repo) (resolve_git_commit repo) w
  ]
