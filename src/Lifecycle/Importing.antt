-- ===== src/Lifecycle/Importing.antt =====
-- The writes of the importer.
use painkiller.Prelude.{◌≡◌, refl, Option, none, some, List, [], ◌∷◌, ⊤, Text, pos, ◌≤ℤ◌, All}
use painkiller.Outside.{Outside}
use painkiller.Models.{Uuid, Instant, Product, ScenarioVersion, Task, Check}
use painkiller.Store.{World, Result, Action, ok, err, no_rows}
use painkiller.Store.Scenarios
use painkiller.Store.Products
use painkiller.Store.Tests
use painkiller.Scenarios.Schema
use painkiller.Scenarios.Schema.{Scenario}
use painkiller.Importer.Files.{
  Repository, Parsed, parsed, failed, ParsedScenario, discover_scenarios, resolve_git_commit,
}
use painkiller.Importer.Rows.{
  known_task, or_create, unless_there, test_row, create_tasks, create_checks, create_product,
  product_for, create_offer, create_all, import_parsed_scenario, import_each, imported, import_all,
}
use painkiller.Importer.Read.{discover-allows}
use painkiller.Lifecycle.Writes.{add_version, add_task, add_check, add_test}
use painkiller.Lifecycle.Frame.{read-Ends, exec-Ends}
use painkiller.Lifecycle.Rules.{Ends, ◌↝*◌, counted, plain-Ends, and_then-Ends, wrapped-Ends}
use painkiller.Lifecycle.Answers.{create_product-Ends}

module _ (start : World) where
  known_task-Ends : (m : Option Uuid) (w : World) → start ↝* w → Ends start (known_task m w)
  known_task-Ends none w h = record { holds = h }
  known_task-Ends (some t) w h = record { holds = h }

  or_create-Ends :
      (o : Outside) (r : Result Product × World) (rest : Action Uuid)
      → Ends start r
      → ((w : World) → start ↝* w → Ends start (rest w))
      → Ends start (or_create o r rest)
  or_create-Ends o (ok p, w) rest h k = record { holds = h.holds }
  or_create-Ends o (err e, w) rest h k = k w h.holds

  unless_there-Ends :
      (r : Result ScenarioVersion × World) (rest : Action ⊤)
      → Ends start r
      → ((w : World) → start ↝* w → Ends start (rest w))
      → Ends start (unless_there r rest)
  unless_there-Ends (ok a, w) rest h k = record { holds = h.holds }
  unless_there-Ends (err no_rows, w) rest h k = k w h.holds
  unless_there-Ends (err e, w) rest h k = record { holds = h.holds }

  module _ (o : Outside) where
    version-Ends :
        (x : ScenarioVersion) (w : World) → start ↝* w → Ends start (Scenarios.create_version o x w)
    unfolding Scenarios.create_version
    version-Ends x w h = exec-Ends start o _ w h (λ w' e. add_version x e)

    task-Ends : (t : Task) (w : World) → start ↝* w → Ends start (Scenarios.create_task o t w)
    unfolding Scenarios.create_task
    task-Ends t w h = exec-Ends start o _ w h (λ w' e. add_task t e)

    check-Ends : (c : Check) (w : World) → start ↝* w → Ends start (Scenarios.create_check o c w)
    unfolding Scenarios.create_check
    check-Ends c w h = exec-Ends start o _ w h (λ w' e. add_check c e)

    by_title-Ends : (t : Text) (w : World) → start ↝* w → Ends start (Products.get_by_title o t w)
    unfolding Products.get_by_title
    by_title-Ends t w h = read-Ends start o _ w h

    by_external-Ends :
        (s commit : Text) (w : World)
        → start ↝* w
        → Ends start (Scenarios.get_version_by_external_id o s commit w)
    unfolding Scenarios.get_version_by_external_id
    by_external-Ends s commit w h = read-Ends start o _ w h

    offer_test-Ends :
        (s : Scenario) (product version id : Uuid) (time : Instant) (w : World)
        → pos 1 ≤ℤ s.attempts_allowed
        → start ↝* w
        → Ends start (Tests.create o (test_row s product version id time) w)
    unfolding Tests.create
    offer_test-Ends s product version id time w allowed h =
        exec-Ends start o _ w h (λ w' e. add_test (test_row s product version id time) allowed e)

  ruleset importing = (
    known_task-Ends, or_create-Ends, unless_there-Ends, version-Ends, task-Ends, check-Ends,
    by_title-Ends, by_external-Ends, offer_test-Ends, create_product-Ends, counted, plain-Ends,
    and_then-Ends, wrapped-Ends,
  )

  module _ (o : Outside) where
    tasks_keep :
        (prompts : List (Text × Text)) (version : Uuid) (time : Instant) (ts : List Schema.Task)
        (ids : List (Text × Uuid)) (w : World)
        → start ↝* w
        → Ends start (create_tasks o prompts version time ts ids w)
    unfolding create_tasks
    tasks_keep prompts version time [] ids w h = plain-Ends start _ w h
    tasks_keep prompts version time (t ∷ ts) ids w h =
        let rest = tasks_keep prompts version time ts in
        search (importing, rest) depth 12 fits 20000

    checks_keep :
        (time : Instant) (ids : List (Text × Uuid)) (cs : List Schema.Check) (w : World)
        → start ↝* w
        → Ends start (create_checks o time ids cs w)
    unfolding create_checks
    checks_keep time ids [] w h = plain-Ends start _ w h
    checks_keep time ids (c ∷ cs) w h =
        let rest = checks_keep time ids cs in search (importing, rest) depth 12 fits 20000

    offer_keeps :
        (s : Scenario) (version : Uuid) (time : Instant) (w : World)
        → pos 1 ≤ℤ s.attempts_allowed
        → start ↝* w
        → Ends start (create_offer o s version time w)
    unfolding create_offer product_for create_product
    offer_keeps s version time w allowed h = search importing depth 14 fits 20000

    one_keeps :
        (ps : ParsedScenario) (commit : Text) (w : World)
        → pos 1 ≤ℤ ps.scenario.attempts_allowed
        → start ↝* w
        → Ends start (import_parsed_scenario o ps commit w)
    unfolding import_parsed_scenario create_all
    one_keeps ps commit w allowed h =
        search (importing, tasks_keep, checks_keep, offer_keeps) depth 16 fits 40000

    each_keeps :
        (all : List ParsedScenario) (commit : Text) (w : World)
        → All (λ ps. pos 1 ≤ℤ ps.scenario.attempts_allowed) all
        → start ↝* w
        → start ↝* import_each o all commit w
    unfolding import_each
    each_keeps [] commit w allowed h = h
    each_keeps (ps ∷ rest) commit w (allowed, others) h =
        each_keeps rest commit _ others (one_keeps ps commit w allowed h).holds

    found_keeps :
        (m : Parsed (List ParsedScenario)) (commit : Text) (w : World)
        → ((all : List ParsedScenario)
            → m ≡ parsed all
            → All (λ ps. pos 1 ≤ℤ ps.scenario.attempts_allowed) all)
        → start ↝* w
        → start ↝* (imported o m commit w).1
    found_keeps (failed e) commit w allowed h = h
    found_keeps (parsed all) commit w allowed h = each_keeps all commit w (allowed all refl) h

    pub import_keeps :
        (repo : Repository) (path : Text) (w : World)
        → start ↝* w
        → start ↝* (import_all o repo path w).1
    unfolding import_all
    import_keeps repo [] w h = h
    import_keeps repo (c ∷ path) w h =
        found_keeps (discover_scenarios repo) (resolve_git_commit repo) w (discover-allows repo) h
