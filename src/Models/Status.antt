-- ===== src/Models/Status.antt =====
-- internal/models/status.go: the string constants as enumerations.
use painkiller.Prelude.{ℕ, ◌≡◌, refl, Bool, true, arith, ◌==◌, ap, false, ==_iff, ◌∙◌, sym}
use Prim.Native.Nat.{zero, suc}

pub data AttemptStatus : Type 0 where
  purchased available attempt_requested environment_provisioning environment_ready : AttemptStatus
  terminal_opened running submitted expired grading scored cleanup_pending : AttemptStatus
  destroyed provision_failed expired_before_start expired_running cleanup_failed : AttemptStatus

-- The place of a constant in the source's list.
abbrev index : AttemptStatus → ℕ
index purchased = 0
index available = 1
index attempt_requested = 2
index environment_provisioning = 3
index environment_ready = 4
index terminal_opened = 5
index running = 6
index submitted = 7
index expired = 8
index grading = 9
index scored = 10
index cleanup_pending = 11
index destroyed = 12
index provision_failed = 13
index expired_before_start = 14
index expired_running = 15
index cleanup_failed = 16

-- `a == b` on statuses.
unfoldable pub status_eq : AttemptStatus → AttemptStatus → Bool
status_eq a b = index a == index b

pub status_eq_refl : (a : AttemptStatus) → status_eq a a ≡ true
unfolding status_eq
status_eq_refl a = ground arith

-- The constant at a place; the last one stands for every later place.
at_index : ℕ → AttemptStatus
at_index zero = purchased
at_index (suc zero) = available
at_index (suc (suc zero)) = attempt_requested
at_index (suc (suc (suc zero))) = environment_provisioning
at_index (suc (suc (suc (suc zero)))) = environment_ready
at_index (suc (suc (suc (suc (suc zero))))) = terminal_opened
at_index (suc (suc (suc (suc (suc (suc zero)))))) = running
at_index (suc (suc (suc (suc (suc (suc (suc zero))))))) = submitted
at_index (suc (suc (suc (suc (suc (suc (suc (suc zero)))))))) = expired
at_index (suc (suc (suc (suc (suc (suc (suc (suc (suc zero))))))))) = grading
at_index (suc (suc (suc (suc (suc (suc (suc (suc (suc (suc zero)))))))))) = scored
at_index (suc (suc (suc (suc (suc (suc (suc (suc (suc (suc (suc zero))))))))))) = cleanup_pending
at_index (suc (suc (suc (suc (suc (suc (suc (suc (suc (suc (suc (suc zero)))))))))))) = destroyed
at_index (suc (suc (suc (suc (suc (suc (suc (suc (suc (suc (suc (suc (suc zero))))))))))))) =
    provision_failed
at_index (suc (suc (suc (suc (suc (suc (suc (suc (suc (suc (suc (suc (suc (suc zero)))))))))))))) =
    expired_before_start
at_index
      (suc
        (suc (suc (suc (suc (suc (suc (suc (suc (suc (suc (suc (suc (suc (suc zero))))))))))))))) =
    expired_running
at_index _ = cleanup_failed

at_index-index : (a : AttemptStatus) → at_index (index a) ≡ a
unfolding at_index
at_index-index purchased = refl
at_index-index available = refl
at_index-index attempt_requested = refl
at_index-index environment_provisioning = refl
at_index-index environment_ready = refl
at_index-index terminal_opened = refl
at_index-index running = refl
at_index-index submitted = refl
at_index-index expired = refl
at_index-index grading = refl
at_index-index scored = refl
at_index-index cleanup_pending = refl
at_index-index destroyed = refl
at_index-index provision_failed = refl
at_index-index expired_before_start = refl
at_index-index expired_running = refl
at_index-index cleanup_failed = refl

pub status_eq_sound : (a b : AttemptStatus) → status_eq a b ≡ true → a ≡ b
unfolding status_eq
status_eq_sound a b h =
    sym (at_index-index a) ∙ ap at_index ((==_iff (index a) (index b)).0 h) ∙ at_index-index b

pub data EnvironmentStatus : Type 0 where
  provisioning ready active destroying destroyed failed : EnvironmentStatus

-- `a == destroyed`
abbrev pub is_destroyed : EnvironmentStatus → Bool
is_destroyed EnvironmentStatus.destroyed = true
is_destroyed _ = false

pub data JobKind : Type 0 where
  provision_environment grade_attempt cleanup_environment expire_attempt : JobKind
