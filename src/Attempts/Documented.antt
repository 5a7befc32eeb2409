-- ===== src/Attempts/Documented.antt =====
-- What docs/architecture.md says of the statuses of an attempt, their order and which of them are
-- failures, against internal/attempts/statemachine.go.
use painkiller.Prelude.{
  ℕ, suc, ◌≡◌, refl, ◌⊎◌, inl, inr, Bool, true, false, Option, none, some, ◌==◌, Bool-cases, arith,
}
use painkiller.Models.{
  AttemptStatus, purchased, available, attempt_requested, environment_provisioning,
  environment_ready, terminal_opened, running, submitted, expired, grading, scored, cleanup_pending,
  destroyed, provision_failed, expired_before_start, expired_running, cleanup_failed,
}
use painkiller.Attempts.StateMachine.{valid_transition}
use painkiller.Attempts.Graph.{
  ◌⟶◌, unlock, request, provision, finish_provisioning, open_terminal, start, submit, expire,
  expire_running, grade_submitted, grade_expired, grade_expired_running, score, clean_scored,
  clean_failed, clean_expired, clean_again, destroy, fail_cleanup, fail_requested,
  fail_provisioning, retry, lapse_purchased, lapse_available, lapse_ready, valid_transition_iff,
}

-- The failure states that docs/architecture.md names.
abbrev pub is_failure : AttemptStatus → Bool
is_failure provision_failed = true
is_failure expired_before_start = true
is_failure expired_running = true
is_failure cleanup_failed = true
is_failure _ = false

-- The place of a status in the attempt lifecycle of docs/architecture.md, which lets `submitted` and
-- `expired` stand at one place; a failure state has none.
abbrev pub place : AttemptStatus → Option ℕ
place purchased = some 0
place available = some 1
place attempt_requested = some 2
place environment_provisioning = some 3
place environment_ready = some 4
place terminal_opened = some 5
place running = some 6
place submitted = some 7
place expired = some 7
place grading = some 8
place scored = some 9
place cleanup_pending = some 10
place destroyed = some 11
place _ = none

abbrev one_further : Option ℕ → Option ℕ → Bool
one_further (some n) (some m) = suc n == m
one_further _ _ = false

-- The second status stands one place further on.
abbrev pub follows : AttemptStatus → AttemptStatus → Bool
follows s t = one_further (place s) (place t)

follows_sound : (s t : AttemptStatus) → follows s t ≡ true → s ⟶ t
follows_sound purchased available h = unlock
follows_sound available attempt_requested h = request
follows_sound attempt_requested environment_provisioning h = provision
follows_sound environment_provisioning environment_ready h = finish_provisioning
follows_sound environment_ready terminal_opened h = open_terminal
follows_sound terminal_opened running h = start
follows_sound running submitted h = submit
follows_sound running expired h = expire
follows_sound submitted grading h = grade_submitted
follows_sound expired grading h = grade_expired
follows_sound grading scored h = score
follows_sound scored cleanup_pending h = clean_scored
follows_sound cleanup_pending destroyed h = destroy
follows_sound destroyed destroyed h = cc
follows_sound _ _ h = cc

follows_complete :
    {s t : AttemptStatus} → s ⟶ t → is_failure s ≡ false → is_failure t ≡ false → follows s t ≡ true
follows_complete unlock f g = refl
follows_complete request f g = refl
follows_complete provision f g = refl
follows_complete finish_provisioning f g = refl
follows_complete open_terminal f g = refl
follows_complete start f g = refl
follows_complete submit f g = refl
follows_complete expire f g = refl
follows_complete expire_running f g = cc
follows_complete grade_submitted f g = refl
follows_complete grade_expired f g = refl
follows_complete grade_expired_running f g = cc
follows_complete score f g = refl
follows_complete clean_scored f g = refl
follows_complete clean_failed f g = cc
follows_complete clean_expired f g = cc
follows_complete clean_again f g = cc
follows_complete destroy f g = refl
follows_complete fail_cleanup f g = cc
follows_complete fail_requested f g = cc
follows_complete fail_provisioning f g = cc
follows_complete retry f g = cc
follows_complete lapse_purchased f g = cc
follows_complete lapse_available f g = cc
follows_complete lapse_ready f g = cc

-- The state is entered from the lifecycle, and left to it.
abbrev pub IsJoined : AttemptStatus → Type 0
IsJoined f =
    (s : AttemptStatus) × (t : AttemptStatus) × (is_failure s ≡ false)
    × (is_failure t ≡ false)
    × (valid_transition s f ≡ true)
    × (valid_transition f t ≡ true)

failure-IsJoined : (f : AttemptStatus) → is_failure f ≡ true → IsJoined f
unfolding valid_transition
failure-IsJoined provision_failed h = (attempt_requested, cleanup_pending, refl, refl, refl, refl)
failure-IsJoined expired_before_start h = (available, cleanup_pending, refl, refl, refl, refl)
failure-IsJoined expired_running h = (running, grading, refl, refl, refl, refl)
failure-IsJoined cleanup_failed h = (cleanup_pending, cleanup_pending, refl, refl, refl, refl)
failure-IsJoined _ h = cc

both_true : (a b : Bool) → (a ≡ true → b ≡ true) → (b ≡ true → a ≡ true) → a ≡ b
both_true true b h k = let yes = h refl in ground arith
both_true false true h k = k refl
both_true false false h k = refl

-- From a status of the documentation's lifecycle, a transition to another one is valid exactly when
-- that stands next in the lifecycle; and each failure state that the documentation names can be
-- entered from the lifecycle and left to it.
pub valid_transition_lifecycle :
    (from to : AttemptStatus)
    → is_failure from ≡ false
    → ((is_failure to ≡ false) × (valid_transition from to ≡ follows from to))
      ⊎ ((is_failure to ≡ true) × IsJoined to)
valid_transition_lifecycle from to plain = elim (Bool-cases (is_failure to)) [
  | inl failure ↦ inr (failure, failure-IsJoined to failure)
  | inr other ↦ inl (
    other,
    both_true (valid_transition from to) (follows from to)
        (λ valid. follows_complete ((valid_transition_iff from to).0 valid) plain other)
        (λ next. (valid_transition_iff from to).1 (follows_sound from to next)),
  )
]
