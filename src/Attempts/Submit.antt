-- ===== src/Attempts/Submit.antt =====
-- What submit.go and expire.go of internal/attempts do.
use painkiller.Prelude.{
  ℕ, ◌+◌, ◌≡◌, inl, inr, true, false, none, some, [], ◌∷◌, ◌++◌, arith, Option-cases,
}
use painkiller.Outside.{Outside}
use painkiller.Models.{
  Uuid, Attempt, AttemptStatus, PurchasedTest, running, submitted, expired, grade_attempt,
  status_eq, status_eq_refl,
}
use painkiller.Store.{
  World, ok, count_call, attempt_payload, or_wrap, ◌>>◌, failed_to_submit, failed_to_enqueue,
}
use painkiller.Store.Attempts
use painkiller.Store.Purchases
use painkiller.Store.Table.{lookup, modify}
use painkiller.Jobs.{enqueue}
use painkiller.Attempts.StateMachine.{valid_transition}
use painkiller.Attempts.Transition.{transition_attempt_lem}
use painkiller.Attempts.Service.{submit_attempt, handle_expire_attempt, transition_attempt}

-- The attempt in the new status, its other columns as they were, and one job to grade it.
abbrev pub sent_to_grading : Uuid → AttemptStatus → World → World → World
sent_to_grading id to w w' = record w {
  attempts = modify Attempts.key id (λ r. record r { status = to }) w.attempts;
  jobs =
      w.jobs
      ++ record { kind = grade_attempt; payload = attempt_payload id; scheduled_at = none } ∷ [];
  calls = w'.calls;
}

-- The end of a submission: the transition, then the job.
send_ok :
    (o : Outside) (id : Uuid) (to : AttemptStatus) (w : World)
    → let m =
        or_wrap (transition_attempt o id to) failed_to_submit
        >> or_wrap (enqueue o grade_attempt (attempt_payload id) none) failed_to_enqueue in
      (m w).0 ≡ ok tt → (m w).1 ≡ sent_to_grading id to w (m w).1
unfolding enqueue
send_ok o id to w h = elim (transition_attempt_lem o id to w) [
  | inl (failed, _) ↦ ground (arith, failed)
  | inr (a, done, _, _, world) ↦ ground (arith, done, world)
]

-- A submission that succeeds was made by the buyer of an attempt that ran; it sets the status of
-- this attempt to `submitted`, queues one job to grade it, and changes nothing else; `ended_at` stays
-- as it was.
pub submit_attempt_ok :
    (o : Outside) (user id : Uuid) (w : World)
    → (submit_attempt o user id w).0 ≡ ok tt
    → (a : Attempt) × (p : PurchasedTest) × (lookup Attempts.key id w.attempts ≡ some a)
      × (lookup Purchases.key a.purchased_test_id w.purchased_tests ≡ some p)
      × (p.user_id ≡ user)
      × (status_eq a.status running ≡ true)
      × ((submit_attempt o user id w).1
          ≡ sent_to_grading id submitted w (submit_attempt o user id w).1)
unfolding submit_attempt Attempts.get_by_id Purchases.get_by_id
submit_attempt_ok o user id w h = elim (Option-cases (lookup Attempts.key id w.attempts)) [
  | inl missing ↦ ground arith
  | inr (a, found) ↦
      elim (Option-cases (lookup Purchases.key a.purchased_test_id w.purchased_tests)) [
        | inl missing ↦ ground arith
        | inr (p, bought) ↦
            let sent = send_ok o id submitted (record w { calls = w.calls + 1 + 1 }) in
            (a, p, found, bought, ground arith, ground arith, ground (arith, sent))
      ]
]

-- A job to expire an attempt that does not run, or no longer, succeeds and changes nothing.
pub expire_other :
    (o : Outside) (id : Uuid) (a : Attempt) (w : World)
    → o.fails w.calls ≡ false
    → lookup Attempts.key id w.attempts ≡ some a
    → status_eq a.status running ≡ false
    → handle_expire_attempt o (attempt_payload id) w ≡ (ok tt, count_call w)
unfolding handle_expire_attempt Attempts.get_by_id
expire_other o id a w up found other = ground arith

-- Where no call fails, a job to expire an attempt that runs sets its status to `expired`, queues one
-- job to grade it, and changes nothing else; `ended_at` stays as it was.
pub expire_running :
    (o : Outside) (id : Uuid) (a : Attempt) (w : World)
    → ((n : ℕ) → o.fails n ≡ false)
    → lookup Attempts.key id w.attempts ≡ some a
    → a.status ≡ running
    → let (r, w') = handle_expire_attempt o (attempt_payload id) w in
      (r ≡ ok tt) × (w' ≡ sent_to_grading id expired w w')
unfolding handle_expire_attempt transition_attempt valid_transition Attempts.get_by_id
    Attempts.update_status enqueue
expire_running o id a w up found here = ground (
  arith,
  up w.calls,
  up (w.calls + 1),
  up (w.calls + 1 + 1),
  up (w.calls + 1 + 1 + 1),
  status_eq_refl running,
)
