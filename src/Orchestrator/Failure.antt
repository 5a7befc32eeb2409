-- ===== src/Orchestrator/Failure.antt =====
-- What a provisioning job of internal/orchestrator/provision_job.go does where it has nothing to
-- provision, and where a call outside fails.
use painkiller.Prelude.{
  ℕ, ◌+◌, ◌≡◌, refl, true, false, Option, none, some, [], ◌∷◌, ◌++◌, arith, Text,
}
use painkiller.Outside.{Outside}
use painkiller.Models.{
  Uuid, Attempt, environment_provisioning, provision_failed, cleanup_environment,
}
use painkiller.Store.{World, ok, count_call, attempt_payload}
use painkiller.Store.Attempts
use painkiller.Store.Purchases
use painkiller.Store.Table.{lookup, modify, lookup-modify}
use painkiller.Jobs.{enqueue}
use painkiller.Attempts.StateMachine.{valid_transition}
use painkiller.Attempts.Service.{transition_attempt, restore_attempt_count}
use painkiller.Orchestrator.Provision.{
  handle_provision_environment, handle_provision_failure, enqueue_cleanup, is_stale,
}

-- If the attempt can be read, a job for an attempt that is neither requested nor being provisioned
-- succeeds and changes nothing.
pub provision_stale :
    (o : Outside) (proxy : Option Text) (id : Uuid) (a : Attempt) (w : World)
    → o.fails w.calls ≡ false
    → lookup Attempts.key id w.attempts ≡ some a
    → is_stale a.status ≡ true
    → handle_provision_environment o proxy (attempt_payload id) w ≡ (ok tt, count_call w)
unfolding handle_provision_environment Attempts.get_by_id
provision_stale o proxy id a w up found stale = ground arith

-- The handling of a failure, for an attempt that is being provisioned and where no call of the store
-- or the queue fails: the attempt is set to `provision_failed`, one cleanup job is queued, its
-- purchase gets the attempt back, and nothing else changes.
pub handle_provision_failure_lem :
    (o : Outside) (id : Uuid) (a : Attempt) (w : World)
    → ((n : ℕ) → o.fails n ≡ false)
    → lookup Attempts.key id w.attempts ≡ some a
    → a.status ≡ environment_provisioning
    → let (r, w') = handle_provision_failure o id w in
      (r ≡ ok tt)
      × (w' ≡ record w {
        attempts = modify Attempts.key id (Attempts.set_status provision_failed) w.attempts;
        purchased_tests =
            modify Purchases.key a.purchased_test_id Purchases.give_one w.purchased_tests;
        jobs =
            w.jobs
            ++ record {
              kind = cleanup_environment;
              payload = attempt_payload id;
              scheduled_at = none;
            }
              ∷ [];
        calls = w'.calls;
      })
unfolding handle_provision_failure enqueue_cleanup transition_attempt valid_transition
    restore_attempt_count enqueue Attempts.get_by_id Attempts.update_status
    Purchases.increment_attempts_remaining
handle_provision_failure_lem o id a w up found here =
    let n = w.calls in
    let again =
      lookup-modify Attempts.key id id (Attempts.set_status provision_failed) w.attempts
        (λ r. refl) in
    (
      ground (
        arith,
        again,
        up n,
        up (n + 1),
        up (n + 1 + 1),
        up (n + 1 + 1 + 1),
        up (n + 1 + 1 + 1 + 1),
      ),
      ground (
        arith,
        again,
        up n,
        up (n + 1),
        up (n + 1 + 1),
        up (n + 1 + 1 + 1),
        up (n + 1 + 1 + 1 + 1),
      ),
    )
