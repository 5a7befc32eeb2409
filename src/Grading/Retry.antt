-- ===== src/Grading/Retry.antt =====
-- What internal/grading/engine.go does with a job that River runs again.
use painkiller.Prelude.{◌≡◌, Bool, true, false, some, arith}
use painkiller.Outside.{Outside}
use painkiller.Models.{Uuid, Attempt, AttemptStatus, grading, submitted, expired, expired_running}
use painkiller.Store.{World, is_ok, attempt_payload}
use painkiller.Store.Attempts
use painkiller.Store.Table.{lookup}
use painkiller.Attempts.StateMachine.{valid_transition}
use painkiller.Attempts.Service.{transition_attempt}
use painkiller.Grading.Engine.{grade_attempt}

-- The statuses from which grading can start.
abbrev pub is_gradable : AttemptStatus → Bool
is_gradable submitted = true
is_gradable expired = true
is_gradable expired_running = true
is_gradable _ = false

refused : (s : AttemptStatus) → is_gradable s ≡ false → valid_transition s grading ≡ false
unfolding valid_transition
refused s h = ground arith

-- On an attempt that is not in `submitted`, `expired` or `expired_running`, as on one that an earlier
-- run of the job has left in `grading`, a grading job fails and changes nothing.
pub grade_attempt_stuck :
    (o : Outside) (id : Uuid) (a : Attempt) (w : World)
    → lookup Attempts.key id w.attempts ≡ some a
    → is_gradable a.status ≡ false
    → let (r, w') = grade_attempt o (attempt_payload id) w in
      (is_ok r ≡ false) × (w' ≡ record w { calls = w'.calls })
unfolding grade_attempt transition_attempt Attempts.get_by_id
grade_attempt_stuck o id a w found other =
    (ground (arith, refused a.status other), ground (arith, refused a.status other))
