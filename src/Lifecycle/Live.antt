-- ===== src/Lifecycle/Live.antt =====
-- What no event of the program can do to an attempt.
use painkiller.Prelude.{
  ℤ, ◌≡◌, refl, sym, Bool, true, false, arith, All, List, [], ◌∷◌, ◌++◌, Option, some, Text, inl,
  inr, ◌==◌, if◌then◌else◌, Bool-cases,
}
use mathlib.Core.Path.{subst}
use painkiller.Models.{
  Uuid, Attempt, AttemptStatus, attempt_requested, environment_provisioning, environment_ready,
  terminal_opened, running, submitted, expired, grading, scored, provision_failed,
}
use painkiller.Store.{World}
use painkiller.Store.Attempts
use painkiller.Store.Table.{lookup, modify}
use painkiller.Attempts.StateMachine.{valid_transition}
use painkiller.Attempts.Service.{new_attempt}
use painkiller.Lifecycle.Writes.{
  Asked, ◌↝*◌, none_yet, more, ask_requested, ask_provisioning, ask_ready, ask_opened, ask_running,
  ask_submitted, ask_expired, ask_grading, ask_scored, ask_failed, ask_destroyed,
}
use painkiller.Lifecycle.Changes.{Change, unchanged, moved, requested, write-Change}
use painkiller.Lifecycle.Server.{Runs}
use painkiller.Lifecycle.Steps.{Runs-writes}

-- The statuses on the way from the request to the score.
abbrev pub is_live : AttemptStatus → Bool
is_live attempt_requested = true
is_live environment_provisioning = true
is_live environment_ready = true
is_live terminal_opened = true
is_live running = true
is_live submitted = true
is_live expired = true
is_live grading = true
is_live scored = true
is_live provision_failed = true
is_live _ = false

abbrev pub AllLive : List Attempt → Type 0
AllLive = All (λ a. is_live a.status ≡ true)

-- No transition leads from a live status to `destroyed`.
live_move :
    (from to : AttemptStatus)
    → Asked to
    → is_live from ≡ true
    → valid_transition from to ≡ true
    → is_live to ≡ true
unfolding valid_transition
live_move from _ ask_requested h v = refl
live_move from _ ask_provisioning h v = refl
live_move from _ ask_ready h v = refl
live_move from _ ask_opened h v = refl
live_move from _ ask_running h v = refl
live_move from _ ask_submitted h v = refl
live_move from _ ask_expired h v = refl
live_move from _ ask_grading h v = refl
live_move from _ ask_scored h v = refl
live_move from _ ask_failed h v = refl
live_move from _ ask_destroyed h v = ground arith

found-live :
    (id : Uuid) (a : Attempt) (t : List Attempt)
    → lookup Attempts.key id t ≡ some a
    → AllLive t
    → is_live a.status ≡ true
unfolding lookup
found-live id a [] found h = cc
found-live id a (b ∷ t) found h = elim (Bool-cases (Attempts.key b == id)) [
  | inl here ↦ let same : b ≡ a = ground arith in subst (λ c. is_live c.status ≡ true) same h.0
  | inr there ↦ found-live id a t (ground arith) h.1
]

either_live :
    (b : Bool) (x y : Attempt)
    → is_live x.status ≡ true
    → is_live y.status ≡ true
    → is_live (if b then x else y).status ≡ true
either_live true x y hx hy = hx
either_live false x y hx hy = hy

modify-AllLive :
    (id : Uuid) (to : AttemptStatus) (t : List Attempt)
    → is_live to ≡ true
    → AllLive t
    → AllLive (modify Attempts.key id (Attempts.set_status to) t)
unfolding modify
modify-AllLive id to [] live h = tt
modify-AllLive id to (a ∷ t) live h = (
  either_live (Attempts.key a == id) (Attempts.set_status to a) a live h.0,
  modify-AllLive id to t live h.1,
)

score-AllLive :
    (id : Uuid) (n m : ℤ) (t : List Attempt)
    → AllLive t
    → AllLive (modify Attempts.key id (Attempts.set_score n m) t)
unfolding modify
score-AllLive id n m [] h = tt
score-AllLive id n m (a ∷ t) h = (
  either_live (Attempts.key a == id) (Attempts.set_score n m a) a h.0 h.0,
  score-AllLive id n m t h.1,
)

append-AllLive :
    (a : Attempt) (t : List Attempt) → is_live a.status ≡ true → AllLive t → AllLive (t ++ a ∷ [])
append-AllLive a [] live h = (live, tt)
append-AllLive a (b ∷ t) live h = (h.0, append-AllLive a t live h.1)

change_live : (s t : List Attempt) → Change s t → AllLive s → AllLive t
change_live s t (unchanged e) h = subst AllLive (sym e) h
change_live s t (moved id a to asked found valid e) h =
    let live = live_move a.status to asked (found-live id a s found h) valid in
    subst AllLive (sym e) (modify-AllLive id to s live h)
change_live s t (Change.scored id n m e) h = subst AllLive (sym e) (score-AllLive id n m s h)
change_live s t (requested id purchase created fresh e) h =
    subst AllLive (sym e) (append-AllLive (new_attempt id purchase created) s refl h)

writes_live : (v w : World) → v ↝* w → AllLive v.attempts → AllLive w.attempts
writes_live v _ none_yet h = h
writes_live v _ (more {u} {w} steps step) h =
    change_live u.attempts w.attempts (write-Change u w step) (writes_live v u steps h)

-- Whatever events run, one after the other in any order and with any failures: if the status of
-- every attempt is one of those from the request to the score, or `provision_failed`, it stays so.
-- No run takes an attempt to `cleanup_pending` or to `destroyed`.
pub Runs-AllLive :
    (proxy : Option Text) (v w : World) → Runs proxy v w → AllLive v.attempts → AllLive w.attempts
Runs-AllLive proxy v w run = writes_live v w (Runs-writes proxy v w run)
