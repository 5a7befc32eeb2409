-- ===== src/Orchestrator/Cleanup.antt =====
-- handleCleanupEnvironment of internal/orchestrator/provision_job.go.
use painkiller.Prelude.{⊤, if◌then◌else◌}
use painkiller.Json.{Json}
use painkiller.Outside.{Outside}
use painkiller.Models.{Uuid, Environment, EnvironmentStatus, AttemptStatus, destroying, failed}
use painkiller.Store.{
  World, Result, Action, Payload, or_wrap, ignore, ok, err, wrap, ◌>>=◌, ◌>>◌, count_call,
  provider_error, failed_to_update_status, failed_to_destroy,
}
use painkiller.Store.Environments
use painkiller.Attempts.Service.{transition_attempt, parse_payload}

-- `if err := call(); err != nil { _ = note(); return fmt.Errorf(…) }`
abbrev pub or_note : Action ⊤ → Result ⊤ × World → Result ⊤ × World
or_note note (ok a, w) = (ok a, w)
or_note note (err e, w) = (err (wrap failed_to_destroy e), (note w).1)

-- No environment: a warning, and `return nil`.
abbrev pub or_done : {A : Type 0} → Result A × World → (A → Action ⊤) → Result ⊤ × World
or_done (ok a, w) rest = rest a w
or_done (err e, w) rest = (ok tt, w)

module _ (o : Outside) where
  abbrev destroy_environment : Json → Action ⊤
  destroy_environment metadata w =
      (if o.destroy_environment w.calls metadata then ok tt else err provider_error, count_call w)

  unfoldable pub destroy_found : Uuid → Environment → Action ⊤
  destroy_found attempt_id env = do
    or_wrap (Environments.update_status o env.id destroying) failed_to_update_status
    λ w.
        or_note (Environments.update_status o env.id failed)
          (destroy_environment env.provider_metadata w)
    or_wrap (Environments.update_status o env.id EnvironmentStatus.destroyed)
        failed_to_update_status
    ignore (transition_attempt o attempt_id AttemptStatus.destroyed)

  unfoldable pub handle_cleanup_environment : Payload → Action ⊤
  handle_cleanup_environment payload = do
    attempt_id ← parse_payload payload
    λ w. or_done (Environments.get_by_attempt_id o attempt_id w) (destroy_found attempt_id)
