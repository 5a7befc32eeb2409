-- ===== src/Attempts/StateMachine.antt =====
-- internal/attempts/statemachine.go.
use painkiller.Prelude.{Bool, true, false, Option, none, some, List, [], ◌∷◌, if◌then◌else◌}
use painkiller.Models.{
  AttemptStatus, status_eq, purchased, available, attempt_requested, environment_provisioning,
  environment_ready, terminal_opened, running, submitted, expired, grading, scored, cleanup_pending,
  destroyed, provision_failed, expired_before_start, expired_running, cleanup_failed,
}

-- The map literal `validTransitions`; `none` where it has no key.
pub valid_transitions : AttemptStatus → Option (List AttemptStatus)
valid_transitions purchased = some (available ∷ expired_before_start ∷ [])
valid_transitions available = some (attempt_requested ∷ expired_before_start ∷ [])
valid_transitions attempt_requested = some (environment_provisioning ∷ provision_failed ∷ [])
valid_transitions environment_provisioning = some (environment_ready ∷ provision_failed ∷ [])
valid_transitions environment_ready = some (terminal_opened ∷ expired_before_start ∷ [])
valid_transitions terminal_opened = some (running ∷ [])
valid_transitions running = some (submitted ∷ expired ∷ expired_running ∷ [])
valid_transitions submitted = some (grading ∷ [])
valid_transitions expired = some (grading ∷ [])
valid_transitions expired_running = some (grading ∷ [])
valid_transitions grading = some (scored ∷ [])
valid_transitions scored = some (cleanup_pending ∷ [])
valid_transitions cleanup_pending = some (destroyed ∷ cleanup_failed ∷ [])
valid_transitions provision_failed = some (cleanup_pending ∷ attempt_requested ∷ [])
valid_transitions expired_before_start = some (cleanup_pending ∷ [])
valid_transitions cleanup_failed = some (cleanup_pending ∷ [])
valid_transitions destroyed = none

-- The loop `for _, status := range allowed`.
pub is_among : AttemptStatus → List AttemptStatus → Bool
is_among to [] = false
is_among to (status ∷ rest) = if status_eq status to then true else is_among to rest

unfoldable pub valid_transition : AttemptStatus → AttemptStatus → Bool
unfolding valid_transitions is_among status_eq
valid_transition from to = elim (valid_transitions from) [
  | none ↦ false
  | some allowed ↦ is_among to allowed
]

-- `CanTransition`: `none` stands for `"", false`.
unfoldable pub can_transition : AttemptStatus → List AttemptStatus → Option AttemptStatus
unfolding valid_transition
can_transition from [] = none
can_transition from (target ∷ rest) =
    if valid_transition from target then some target else can_transition from rest
