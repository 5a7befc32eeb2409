-- ===== src/Orchestrator/Reconciler.antt =====
-- internal/orchestrator/reconciler.go: one tick of the reconciler. Its errors are only logged.
use painkiller.Prelude.{ℤ, pos, ◌-ℤ◌, ltb_ℤ, List, [], ◌∷◌, ⊤, if◌then◌else◌}
use painkiller.Outside.{Outside}
use painkiller.Models.{
  Instant, Attempt, AttemptStatus, Environment, environment_provisioning, cleanup_pending,
  provision_failed, scored, expired_before_start, is_destroyed,
}
use painkiller.Store.{World, Result, Action, pure, ignore, ok, err, ◌>>=◌, ◌>>◌, now}
use painkiller.Store.Attempts
use painkiller.Store.Environments
use painkiller.Attempts.Service.{transition_attempt}
use painkiller.Orchestrator.Provision.{enqueue_cleanup}

-- A list or row that cannot be read is skipped.
abbrev pub or_skip : {A : Type 0} → Result A × World → (A → Action ⊤) → Result ⊤ × World
or_skip (ok a, w) rest = rest a w
or_skip (err e, w) rest = (ok tt, w)

-- `-30 * time.Minute`, in nanoseconds.
abbrev stale_after : ℤ
stale_after = pos 1800000000000

module _ (o : Outside) where
  abbrev fail_stale : Instant → Attempt → Action ⊤
  fail_stale threshold attempt =
      if ltb_ℤ attempt.created_at threshold
      then (ignore (transition_attempt o attempt.id provision_failed)
          >> ignore (enqueue_cleanup o attempt.id))
      else pure tt

  unfoldable pub fail_all_stale : Instant → List Attempt → Action ⊤
  fail_all_stale threshold [] = pure tt
  fail_all_stale threshold (attempt ∷ rest) =
      fail_stale threshold attempt >> fail_all_stale threshold rest

  unfoldable pub cleanup_stale_provisioning : Action ⊤
  unfolding fail_all_stale
  cleanup_stale_provisioning w =
      or_skip (Attempts.list_by_status o environment_provisioning w)
        λ attempts. do time ← now o; fail_all_stale (time -ℤ stale_after) attempts

  unfoldable pub enqueue_all : List Attempt → Action ⊤
  enqueue_all [] = pure tt
  enqueue_all (attempt ∷ rest) = ignore (enqueue_cleanup o attempt.id) >> enqueue_all rest

  unfoldable pub cleanup_pending_attempts : Action ⊤
  unfolding enqueue_all
  cleanup_pending_attempts w = or_skip (Attempts.list_by_status o cleanup_pending w) enqueue_all

  abbrev clean_unless_destroyed : Attempt → Environment → Action ⊤
  clean_unless_destroyed attempt env =
      if is_destroyed env.status then pure tt else ignore (enqueue_cleanup o attempt.id)

  unfoldable pub clean_all : List Attempt → Action ⊤
  clean_all [] = pure tt
  clean_all (attempt ∷ rest) =
      (λ w.
        or_skip (Environments.get_by_attempt_id o attempt.id w) (clean_unless_destroyed attempt))
      >> clean_all rest

  abbrev clean_status : AttemptStatus → Action ⊤
  clean_status s w = or_skip (Attempts.list_by_status o s w) clean_all

  unfoldable pub cleanup_terminal_states : Action ⊤
  unfolding clean_all
  cleanup_terminal_states = clean_status scored >> clean_status expired_before_start

  unfoldable pub reconcile : Action ⊤
  unfolding cleanup_stale_provisioning cleanup_pending_attempts cleanup_terminal_states
  reconcile = cleanup_stale_provisioning >> cleanup_pending_attempts >> cleanup_terminal_states
