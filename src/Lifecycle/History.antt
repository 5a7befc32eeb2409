-- ===== src/Lifecycle/History.antt =====
-- How the attempts of one state go on in every later one.
use painkiller.Prelude.{
  ℤ, ◌≡◌, refl, sym, true, arith, List, [], ◌∷◌, ◌++◌, Option, some, Text, inl, inr, ◌==◌,
  if◌then◌else◌, Bool-cases,
}
use mathlib.Core.Path.{subst}
use painkiller.Models.{Uuid, Attempt, AttemptStatus}
use painkiller.Store.{World}
use painkiller.Store.Attempts
use painkiller.Store.Table.{lookup, modify, lookup-modify, lookup-append, has_of_lookup}
use painkiller.Attempts.StateMachine.{valid_transition}
use painkiller.Attempts.Graph.{◌⟶*◌, here, next, valid_transition_iff}
use painkiller.Attempts.Service.{new_attempt}
use painkiller.Lifecycle.Writes.{◌↝*◌, none_yet, more}
use painkiller.Lifecycle.Changes.{Change, unchanged, moved, scored, requested, write-Change}
use painkiller.Lifecycle.Server.{Runs}
use painkiller.Lifecycle.Steps.{Runs-writes}

-- `b` is what became of `a`: the same purchase and the same instant of creation, and a status that
-- valid transitions lead to.
abbrev pub Becomes : Attempt → Attempt → Type 0
Becomes a b =
    (b.purchased_test_id ≡ a.purchased_test_id)
    × (b.created_at ≡ a.created_at)
    × (a.status ⟶* b.status)

-- Every attempt of the first table has become one of the second, under its own identifier.
abbrev pub Continues : List Attempt → List Attempt → Type 0
Continues s t =
    (id : Uuid) (a : Attempt)
    → lookup Attempts.key id s ≡ some a
    → (b : Attempt) × (lookup Attempts.key id t ≡ some b) × Becomes a b

-- One more transition of the attempt that a write finds.
become_status :
    (a b c : Attempt) (to : AttemptStatus)
    → b ≡ c
    → valid_transition c.status to ≡ true
    → Becomes a b
    → Becomes a (Attempts.set_status to b)
become_status a b c to same valid (p, t, path) = (
  p,
  t,
  next path (
      (valid_transition_iff b.status to).0
        (subst (λ d. valid_transition d.status to ≡ true) (sym same) valid)),
)

modify_found :
    (f : Attempt → Attempt) (j k : Uuid) (b : Attempt) (t : List Attempt)
    → ((a : Attempt) → Attempts.key (f a) ≡ Attempts.key a)
    → lookup Attempts.key j t ≡ some b
    → lookup Attempts.key j (modify Attempts.key k f t) ≡ some (if j == k then f b else b)
modify_found f j k b t keeps found = ground (arith, lookup-modify Attempts.key j k f t keeps)

module _ (s : List Attempt) where
  move-Continues :
      (id : Uuid) (c : Attempt) (to : AttemptStatus) (t : List Attempt)
      → lookup Attempts.key id t ≡ some c
      → valid_transition c.status to ≡ true
      → Continues s t
      → Continues s (modify Attempts.key id (Attempts.set_status to) t)
  move-Continues id c to t found valid h j a from =
      let (b, there, becomes) = h j a from in
      let written = modify_found (Attempts.set_status to) j id b t (λ d. refl) there in
      elim (Bool-cases (j == id)) [
        | inl same ↦
            let equal : b ≡ c = ground arith in
            (Attempts.set_status to b, ground arith, become_status a b c to equal valid becomes)
        | inr other ↦ (b, ground arith, becomes)
      ]

  score-Continues :
      (id : Uuid) (n m : ℤ) (t : List Attempt)
      → Continues s t
      → Continues s (modify Attempts.key id (Attempts.set_score n m) t)
  score-Continues id n m t h j a from =
      let (b, there, becomes) = h j a from in
      let written = modify_found (Attempts.set_score n m) j id b t (λ d. refl) there in
      elim (Bool-cases (j == id)) [
        | inl same ↦ (Attempts.set_score n m b, ground arith, becomes)
        | inr other ↦ (b, ground arith, becomes)
      ]

  append-Continues : (r : Attempt) (t : List Attempt) → Continues s t → Continues s (t ++ r ∷ [])
  append-Continues r t h j a from =
      let (b, there, becomes) = h j a from in
      (
        b,
        ground (arith, lookup-append Attempts.key j t r, has_of_lookup Attempts.key j b t there),
        becomes,
      )

  change-Continues : (t u : List Attempt) → Change t u → Continues s t → Continues s u
  change-Continues t u (unchanged e) h = subst (Continues s) (sym e) h
  change-Continues t u (moved id a to asked found valid e) h =
      subst (Continues s) (sym e) (move-Continues id a to t found valid h)
  change-Continues t u (scored id n m e) h =
      subst (Continues s) (sym e) (score-Continues id n m t h)
  change-Continues t u (requested id purchase created fresh e) h =
      subst (Continues s) (sym e) (append-Continues (new_attempt id purchase created) t h)

  writes_continue : (v w : World) → v ↝* w → Continues s v.attempts → Continues s w.attempts
  writes_continue v _ none_yet h = h
  writes_continue v _ (more {u} {w} steps step) h =
      change-Continues u.attempts w.attempts (write-Change u w step) (writes_continue v u steps h)

-- Whatever events run, one after the other in any order and with any failures, no attempt is lost or
-- given to another purchase, and its status changes along valid transitions alone.
pub Runs-Continues :
    (proxy : Option Text) (v w : World) → Runs proxy v w → Continues v.attempts w.attempts
Runs-Continues proxy v w run =
    writes_continue v.attempts v w (Runs-writes proxy v w run)
      (λ id a found. (a, found, (refl, refl, here)))
