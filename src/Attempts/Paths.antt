-- ===== src/Attempts/Paths.antt =====
-- Paths through the state machine of internal/attempts/statemachine.go.
use painkiller.Prelude.{
  ◌≡◌, refl, ◌↔◌, ◌⊎◌, inl, inr, Bool, true, false, none, some, List, [], ◌∷◌, arith, All, ◌++◌,
  ◌∙◌, sym, Bool-cases,
}
use painkiller.Models.{
  AttemptStatus, purchased, available, attempt_requested, environment_provisioning,
  environment_ready, terminal_opened, running, scored, cleanup_pending, destroyed, provision_failed,
  expired_before_start, cleanup_failed, submitted, grading, expired, expired_running,
}
use painkiller.Attempts.StateMachine.{valid_transition, can_transition}
use painkiller.Attempts.Graph.{
  ◌⟶◌, ◌⟶*◌, here, next, unlock, request, provision, finish_provisioning, open_terminal, start,
  submit, grade_submitted, grade_expired, grade_expired_running, score, clean_scored, clean_failed,
  clean_expired, clean_again, destroy, valid_transition_iff,
}
use mathlib.Core.Path.{subst}
use mathlib.Core.Bool.{true≢false}
use mathlib.Core.Option.{some-ne-none}

-- A status of an attempt whose learner has not begun, or never will.
abbrev pub is_unstarted : AttemptStatus → Bool
is_unstarted purchased = true
is_unstarted available = true
is_unstarted attempt_requested = true
is_unstarted environment_provisioning = true
is_unstarted environment_ready = true
is_unstarted terminal_opened = true
is_unstarted provision_failed = true
is_unstarted expired_before_start = true
is_unstarted cleanup_pending = true
is_unstarted cleanup_failed = true
is_unstarted destroyed = true
is_unstarted _ = false

leave_unstarted :
    {s t : AttemptStatus} → s ⟶ t → is_unstarted s ≡ true → (t ≡ running) ⊎ (is_unstarted t ≡ true)
leave_unstarted start h = inl refl
leave_unstarted _ h = ground arith

step_unstarted :
    {s t u : AttemptStatus}
    → s ⟶* t
    → t ⟶ u
    → is_unstarted t ≡ true
    → (is_unstarted u ≡ true) ⊎ ((s ⟶* running) × (running ⟶* u))
step_unstarted {s} {t} {u} p e h = elim (leave_unstarted e h) [
  | inl started ↦ inr (subst (λ v. s ⟶* v) started (next p e), subst (λ v. v ⟶* u) started here)
  | inr early ↦ inl early
]

unstarted-path :
    {s t : AttemptStatus}
    → s ⟶* t
    → is_unstarted s ≡ true
    → (is_unstarted t ≡ true) ⊎ ((s ⟶* running) × (running ⟶* t))
unstarted-path here h = inl h
unstarted-path (next p e) h = elim (unstarted-path p h) [
  | inl early ↦ step_unstarted p e early
  | inr (before, after) ↦ inr (before, next after e)
]

-- Every path of valid transitions from `attempt_requested` to `scored` leads through `running`.
pub scored_needs_running :
    attempt_requested ⟶* scored → (attempt_requested ⟶* running) × (running ⟶* scored)
scored_needs_running p = elim (unstarted-path p refl) [ inl early ↦ cc | inr parts ↦ parts ]

infixr 45 ◌then◌
◌then◌ : {s t u : AttemptStatus} → s ⟶ t → t ⟶* u → s ⟶* u
◌then◌ e here = next here e
◌then◌ e (next p f) = next (e then p) f

from_pending : cleanup_pending ⟶* destroyed
from_pending = destroy then here

from_scored : scored ⟶* destroyed
from_scored = clean_scored then from_pending

from_grading : grading ⟶* destroyed
from_grading = score then from_scored

from_submitted : submitted ⟶* destroyed
from_submitted = grade_submitted then from_grading

from_running : running ⟶* destroyed
from_running = submit then from_submitted

from_opened : terminal_opened ⟶* destroyed
from_opened = start then from_running

from_ready : environment_ready ⟶* destroyed
from_ready = open_terminal then from_opened

from_provisioning : environment_provisioning ⟶* destroyed
from_provisioning = finish_provisioning then from_ready

from_requested : attempt_requested ⟶* destroyed
from_requested = provision then from_provisioning

from_available : available ⟶* destroyed
from_available = request then from_requested

from_purchased : purchased ⟶* destroyed
from_purchased = unlock then from_available

reach_destroyed : (s : AttemptStatus) → s ⟶* destroyed
reach_destroyed purchased = from_purchased
reach_destroyed available = from_available
reach_destroyed attempt_requested = from_requested
reach_destroyed environment_provisioning = from_provisioning
reach_destroyed environment_ready = from_ready
reach_destroyed terminal_opened = from_opened
reach_destroyed running = from_running
reach_destroyed submitted = from_submitted
reach_destroyed grading = from_grading
reach_destroyed scored = from_scored
reach_destroyed cleanup_pending = from_pending
reach_destroyed expired = grade_expired then from_grading
reach_destroyed expired_running = grade_expired_running then from_grading
reach_destroyed destroyed = here
reach_destroyed provision_failed = clean_failed then from_pending
reach_destroyed expired_before_start = clean_expired then from_pending
reach_destroyed cleanup_failed = clean_again then from_pending

exit_or_destroyed :
    (s : AttemptStatus) → ((t : AttemptStatus) → valid_transition s t ≡ false) → s ≡ destroyed
unfolding valid_transition
exit_or_destroyed destroyed h = refl
exit_or_destroyed purchased h = cc (h available)
exit_or_destroyed available h = cc (h attempt_requested)
exit_or_destroyed attempt_requested h = cc (h environment_provisioning)
exit_or_destroyed environment_provisioning h = cc (h environment_ready)
exit_or_destroyed environment_ready h = cc (h terminal_opened)
exit_or_destroyed terminal_opened h = cc (h running)
exit_or_destroyed running h = cc (h submitted)
exit_or_destroyed submitted h = cc (h grading)
exit_or_destroyed expired h = cc (h grading)
exit_or_destroyed expired_running h = cc (h grading)
exit_or_destroyed grading h = cc (h scored)
exit_or_destroyed scored h = cc (h cleanup_pending)
exit_or_destroyed cleanup_pending h = cc (h destroyed)
exit_or_destroyed provision_failed h = cc (h cleanup_pending)
exit_or_destroyed expired_before_start h = cc (h cleanup_pending)
exit_or_destroyed cleanup_failed h = cc (h cleanup_pending)

no_exit : (s t : AttemptStatus) → s ≡ destroyed → valid_transition s t ≡ false
unfolding valid_transition
no_exit s t e = rw e

-- From every status a path of valid transitions leads to `destroyed`, and `destroyed` is the only
-- status that no valid transition leaves.
pub destroyed_final :
    (s : AttemptStatus)
    → (s ⟶* destroyed) × (((t : AttemptStatus) → valid_transition s t ≡ false) ↔ (s ≡ destroyed))
destroyed_final s = (reach_destroyed s, (exit_or_destroyed s, λ e t. no_exit s t e))

refused : {from t : AttemptStatus} → valid_transition from t ≡ false → ¬ (from ⟶ t)
refused {from} {t} h e = elim (true≢false ((sym ((valid_transition_iff from t).1 e)) ∙ h)) [ ]

-- The targets up to the one that is returned.
abbrev pub IsFirst : AttemptStatus → List AttemptStatus → AttemptStatus → Type 0
IsFirst from targets t =
    (before : List AttemptStatus) × (after : List AttemptStatus) × (targets ≡ before ++ t ∷ after)
    × (from ⟶ t)
    × All (λ u. ¬ (from ⟶ u)) before

head-IsFirst :
    {from u t : AttemptStatus} (us : List AttemptStatus)
    → from ⟶ u
    → some u ≡ some t
    → IsFirst from (u ∷ us) t
head-IsFirst {from} {u} {t} us edge e =
    let same : u ≡ t = cc in ([], us, rw same, subst (λ v. from ⟶ v) same edge, tt)

tail-IsFirst :
    {from t : AttemptStatus} (u : AttemptStatus) (us : List AttemptStatus)
    → ¬ (from ⟶ u)
    → IsFirst from us t
    → IsFirst from (u ∷ us) t
tail-IsFirst u us none_here (before, after, e, edge, no_earlier) =
    (u ∷ before, after, rw e, edge, (none_here, no_earlier))

can_transition-some :
    (from : AttemptStatus) (targets : List AttemptStatus) (t : AttemptStatus)
    → can_transition from targets ≡ some t
    → IsFirst from targets t
unfolding can_transition
can_transition-some from [] t h = cc
can_transition-some from (u ∷ us) t h = elim (Bool-cases (valid_transition from u)) [
  | inl valid ↦ head-IsFirst us ((valid_transition_iff from u).0 valid) (rw valid at h)
  | inr invalid ↦
      tail-IsFirst u us (refused invalid) (can_transition-some from us t (rw invalid at h))
]

can_transition-none :
    (from : AttemptStatus) (targets : List AttemptStatus)
    → (can_transition from targets ≡ none) ↔ All (λ u. ¬ (from ⟶ u)) targets
unfolding can_transition
can_transition-none from [] = (λ _. tt, λ _. refl)
can_transition-none from (u ∷ us) = elim (Bool-cases (valid_transition from u)) [
  | inl valid ↦
      rw valid
        (λ e. absurd (some-ne-none u e), λ h. absurd (h.0 ((valid_transition_iff from u).0 valid)))
  | inr invalid ↦
      let ih = can_transition-none from us in
      rw invalid (λ e. (refused invalid, ih.0 e), λ h. ih.1 h.1)
]

-- `CanTransition` returns the first of the targets that a valid transition leads to, and fails
-- exactly when there is none.
pub can_transition-IsFirst :
    (from : AttemptStatus) (targets : List AttemptStatus)
    → ((t : AttemptStatus) → can_transition from targets ≡ some t → IsFirst from targets t)
      × ((can_transition from targets ≡ none) ↔ All (λ u. ¬ (from ⟶ u)) targets)
can_transition-IsFirst from targets =
    (can_transition-some from targets, can_transition-none from targets)
