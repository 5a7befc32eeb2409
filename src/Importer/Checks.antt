-- ===== src/Importer/Checks.antt =====
-- The loop of internal/importer/importer.go over the checks.
use painkiller.Prelude.{
  ◌+◌, ◌≡◌, refl, List, [], ◌∷◌, ◌++◌, Option, some, arith, All2, Text, append-nil, append_assoc,
}
use painkiller.Outside.{Outside}
use painkiller.Models.{Uuid, Instant, Check}
use painkiller.Store.{World, ok, and_then_ok, wrapped, failed_to_create_check}
use painkiller.Store.Scenarios
use painkiller.Scenarios.Schema
use painkiller.Importer.Files.{get}
use painkiller.Importer.Rows.{known_task, check_row, create_checks}

-- The row of a check, under a task that the map knows.
abbrev pub CheckMade : List (Text × Uuid) → Schema.Check → Check → Type 0
CheckMade ids c r =
    (get c.task_id ids ≡ some r.task_id)
    × (r.external_id ≡ c.id)
    × (r.cluster_id ≡ c.cluster_id)
    × (r.check_type ≡ c.check_type)
    × (r.command ≡ c.command)
    × (r.points ≡ c.points)

known_task_ok :
    (found : Option Uuid) (id : Uuid) (w v : World)
    → known_task found w ≡ (ok id, v)
    → (found ≡ some id) × (v ≡ w)
known_task_ok found id w v h = (ground arith, ground arith)

created_check :
    (o : Outside) (r : Check) (x : Unit) (w v : World)
    → wrapped failed_to_create_check (Scenarios.create_check o r w) ≡ (ok x, v)
    → v ≡ record w { checks = w.checks ++ r ∷ []; calls = w.calls + 1 }
unfolding Scenarios.create_check
created_check o r x w v h = ground arith

pub create_checks_ok :
    (o : Outside) (time : Instant) (ids : List (Text × Uuid)) (cs : List Schema.Check) (x : Unit)
    (w w' : World)
    → create_checks o time ids cs w ≡ (ok x, w')
    → (rows : List Check) × All2 (CheckMade ids) cs rows
      × (w' ≡ record w { checks = w.checks ++ rows; calls = w'.calls })
unfolding create_checks
create_checks_ok o time ids [] x w w' h =
    let still : w ≡ w' = ground arith in ([], tt, ground (arith, append-nil w.checks))
create_checks_ok o time ids (c ∷ cs) x w w' h =
    let (task, v, looked, next) = and_then_ok _ _ x w' h in
    let (found, same_world) = known_task_ok (get c.task_id ids) task w v looked in
    let (y, u, wrote, rest) = and_then_ok _ _ x w' next in
    let row = check_row c task (o.new_uuid v.calls) time in
    let first = created_check o row y (record v { calls = v.calls + 1 }) u wrote in
    let (rows, made, grown) = create_checks_ok o time ids cs x u w' rest in
    (
      row ∷ rows,
      ((found, refl, refl, refl, refl, refl), made),
      ground (arith, append_assoc w.checks (row ∷ []) rows),
    )
