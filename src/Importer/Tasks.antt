-- ===== src/Importer/Tasks.antt =====
-- The loop of internal/importer/importer.go over the tasks.
use painkiller.Prelude.{
  ◌+◌, ◌≡◌, refl, Bool, true, ◌&&◌, List, [], ◌∷◌, ◌++◌, some, arith, any, All2, Text, text_eq,
  ◌==◌, ◌⊎◌, inl, inr, append-nil, append_assoc, Bool-cases,
}
use painkiller.Outside.{Outside}
use painkiller.Models.{Uuid, Instant, Task}
use painkiller.Store.{World, ok, and_then_ok, wrapped, failed_to_create_task}
use painkiller.Store.Scenarios
use painkiller.Scenarios.Schema
use painkiller.Importer.Files.{get}
use painkiller.Importer.Rows.{or_blank, task_row, create_tasks}

-- The row of a task, under a version.
abbrev pub TaskMade : List (Text × Text) → Uuid → Schema.Task → Task → Type 0
TaskMade prompts version t r =
    (r.scenario_version_id ≡ version)
    × (r.external_id ≡ t.id)
    × (r.cluster_id ≡ t.cluster_id)
    × (r.kube_context ≡ t.kube_context)
    × (r.points ≡ t.points)
    × (r.prompt ≡ or_blank (get t.id prompts))

-- A row for the task `key` has the identifier.
abbrev pub is_task : Text → Uuid → List Task → Bool
is_task key id rows = any (λ r. text_eq r.external_id key && r.id == id) rows

created_task :
    (o : Outside) (r : Task) (x : Unit) (w v : World)
    → wrapped failed_to_create_task (Scenarios.create_task o r w) ≡ (ok x, v)
    → v ≡ record w { tasks = w.tasks ++ r ∷ []; calls = w.calls + 1 }
unfolding Scenarios.create_task
created_task o r x w v h = ground arith

pub create_tasks_ok :
    (o : Outside) (prompts : List (Text × Text)) (version : Uuid) (time : Instant)
    (ts : List Schema.Task) (ids ids' : List (Text × Uuid)) (w w' : World)
    → create_tasks o prompts version time ts ids w ≡ (ok ids', w')
    → (rows : List Task) × All2 (TaskMade prompts version) ts rows
      × (w' ≡ record w { tasks = w.tasks ++ rows; calls = w'.calls })
      × ((key : Text) (id : Uuid)
          → get key ids' ≡ some id
          → (get key ids ≡ some id) ⊎ (is_task key id rows ≡ true))
unfolding create_tasks get
create_tasks_ok o prompts version time [] ids ids' w w' h =
    let kept : ids ≡ ids' = ground arith in
    let still : w ≡ w' = ground arith in
    ([], tt, ground (arith, append-nil w.tasks), λ key id found. inl (ground arith))
create_tasks_ok o prompts version time (t ∷ ts) ids ids' w w' h =
    let n = w.calls in
    let (x, v, wrote, rest) = and_then_ok _ _ ids' w' h in
    let row = task_row t (or_blank (get t.id prompts)) version (o.new_uuid n) time in
    let first = created_task o row x (record w { calls = n + 1 }) v wrote in
    let (rows, made, grown, known) =
      create_tasks_ok o prompts version time ts ((t.id, o.new_uuid n) ∷ ids) ids' v w' rest in
    (
      row ∷ rows,
      ((refl, refl, refl, refl, refl, refl), made),
      ground (arith, append_assoc w.tasks (row ∷ []) rows),
      λ key id found. elim (known key id found) [
        | inl early ↦ elim (Bool-cases (text_eq t.id key)) [
          | inl same ↦ inr (ground arith)
          | inr other ↦ inl (ground arith)
        ]
        | inr late ↦ inr (ground arith)
      ],
    )
