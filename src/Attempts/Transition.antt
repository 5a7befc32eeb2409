-- ===== src/Attempts/Transition.antt =====
-- What `TransitionAttempt` of internal/attempts/service.go does to the attempts.
use painkiller.Prelude.{◌+◌, ◌≡◌, ◌⊎◌, inl, inr, true, false, some, arith, Bool-cases, Option-cases}
use painkiller.Outside.{Outside}
use painkiller.Models.{Uuid, Attempt, AttemptStatus}
use painkiller.Store.{World, is_ok, ok}
use painkiller.Store.Attempts
use painkiller.Store.Table.{lookup, modify}
use painkiller.Attempts.StateMachine.{valid_transition}
use painkiller.Attempts.Service.{transition_attempt}

-- Either the call fails and writes nothing, or a valid transition leads from the attempt's status
-- to the target, and the call sets the status of that attempt alone: its other columns, `started_at`
-- and `ended_at` among them, stay as they are.
pub transition_attempt_lem :
    (o : Outside) (id : Uuid) (to : AttemptStatus) (w : World)
    → let (r, w') = transition_attempt o id to w in
      ((is_ok r ≡ false) × (w' ≡ record w { calls = w'.calls }))
      ⊎ ((a : Attempt) × (r ≡ ok tt)
          × (lookup Attempts.key id w.attempts ≡ some a)
          × (valid_transition a.status to ≡ true)
          × (w' ≡ record w {
            attempts = modify Attempts.key id (λ r. record r { status = to }) w.attempts;
            calls = w.calls + 1 + 1;
          }))
unfolding transition_attempt Attempts.get_by_id Attempts.update_status
transition_attempt_lem o id to w = elim (Bool-cases (o.fails w.calls)) [
  | inl down ↦ inl (ground arith, ground arith)
  | inr up ↦ elim (Option-cases (lookup Attempts.key id w.attempts)) [
    | inl missing ↦ inl (ground arith, ground arith)
    | inr (a, found) ↦ elim (Bool-cases (valid_transition a.status to)) [
      | inr invalid ↦ inl (ground arith, ground arith)
      | inl valid ↦ elim (Bool-cases (o.fails (w.calls + 1))) [
        | inl down ↦ inl (ground arith, ground arith)
        | inr up' ↦ inr (a, ground arith, found, valid, ground arith)
      ]
    ]
  ]
]
