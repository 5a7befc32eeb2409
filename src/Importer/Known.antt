-- ===== src/Importer/Known.antt =====
-- Every check of a valid file names a task whose identifier the importer knows.
use painkiller.Prelude.{
  ◌+◌, ◌≡◌, refl, ap, Bool, true, false, ◌||◌, List, [], ◌∷◌, ◌++◌, Option, none, some, arith, All,
  map, Text,
}
use painkiller.Outside.{Outside}
use painkiller.Models.{Uuid, Instant, Task}
use painkiller.Store.{World, ok, and_then_ok, wrapped, failed_to_create_task}
use painkiller.Store.Scenarios
use painkiller.Store.Table.{has}
use painkiller.Scenarios.Schema
use painkiller.Scenarios.Schema.{Scenario, ChecksFile}
use painkiller.Scenarios.Validate.{valid, is_in, cluster_ids_of, check_checks, validate_checks}
use painkiller.Importer.Files.{get}
use painkiller.Importer.Rows.{or_blank, task_row, create_tasks}
use painkiller.Importer.Tasks.{is_task}

abbrev pub is_some : {A : Type 0} → Option A → Bool
is_some none = false
is_some (some a) = true

pub get-create_tasks :
    (o : Outside) (prompts : List (Text × Text)) (version : Uuid) (time : Instant)
    (ts : List Schema.Task) (ids ids' : List (Text × Uuid)) (w w' : World) (key : Text)
    → create_tasks o prompts version time ts ids w ≡ (ok ids', w')
    → is_some (get key ids') ≡ is_some (get key ids) || is_in key (map (λ t. t.id) ts)
unfolding create_tasks get is_in
get-create_tasks o prompts version time [] ids ids' w w' key h =
    let kept : ids ≡ ids' = ground arith in ground (arith, ap (λ m. is_some (get key m)) kept)
get-create_tasks o prompts version time (t ∷ ts) ids ids' w w' key h =
    let row = task_row t (or_blank (get t.id prompts)) version (o.new_uuid w.calls) time in
    let (x, v, wrote, rest) =
      and_then_ok
        (wrapped failed_to_create_task
          (Scenarios.create_task o row (record w { calls = w.calls + 1 })))
        (λ _. create_tasks o prompts version time ts ((t.id, o.new_uuid w.calls) ∷ ids)) ids' w'
        h in
    let next =
      get-create_tasks o prompts version time ts ((t.id, o.new_uuid w.calls) ∷ ids) ids' v w' key
        rest in
    ground (arith, next)

names_known :
    (tasks clusters seen : List Text) (cs : List Schema.Check)
    → check_checks tasks clusters seen cs ≡ valid
    → All (λ c. is_in c.task_id tasks ≡ true) cs
unfolding check_checks
names_known tasks clusters seen [] h = tt
names_known tasks clusters seen (c ∷ cs) h =
    (ground arith, names_known tasks clusters (c.id ∷ seen) cs (ground arith))

pub validate_checks-known :
    (cf : ChecksFile) (s : Scenario)
    → validate_checks cf s ≡ valid
    → All (λ c. is_in c.task_id (map (λ t. t.id) s.tasks) ≡ true) cf.checks
unfolding validate_checks
validate_checks-known cf s h =
    names_known (map (λ t. t.id) s.tasks) (cluster_ids_of s) [] cf.checks (ground arith)

pub has_of_is_task :
    (key : Text) (id : Uuid) (rows old : List Task)
    → is_task key id rows ≡ true
    → has (λ (t : Task). t.id) id (old ++ rows) ≡ true
unfolding has
has_of_is_task key id [] old h = let wrong : false ≡ true = h in cc
has_of_is_task key id (r ∷ rows) [] h = ground (arith, has_of_is_task key id rows [])
has_of_is_task key id (r ∷ rows) (s ∷ old) h =
    ground (arith, has_of_is_task key id (r ∷ rows) old h)

some_of_is_some : {A : Type 0} (m : Option A) → is_some m ≡ true → (a : A) × (m ≡ some a)
some_of_is_some none h = cc
some_of_is_some (some a) h = (a, refl)

-- A check whose name is known finds a row.
pub known_rows :
    (names : List Text) (ids : List (Text × Uuid)) (t : List Task) (cs : List Schema.Check)
    → ((key : Text) → is_in key names ≡ true → is_some (get key ids) ≡ true)
    → ((key : Text) (id : Uuid) → get key ids ≡ some id → has (λ (t : Task). t.id) id t ≡ true)
    → All (λ c. is_in c.task_id names ≡ true) cs
    → All
        (λ c. (id : Uuid) × (get c.task_id ids ≡ some id) × (has (λ (t : Task). t.id) id t ≡ true))
        cs
known_rows names ids t [] known there h = tt
known_rows names ids t (c ∷ cs) known there (named, rest) =
    let (id, found) = some_of_is_some (get c.task_id ids) (known c.task_id named) in
    ((id, found, there c.task_id id found), known_rows names ids t cs known there rest)
