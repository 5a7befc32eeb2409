-- ===== src/Store/Removal.antt =====
-- What `DELETE … WHERE key = k` keeps of a table, and what a row in a table says of the tests that
-- it passes.
use painkiller.Prelude.{
  ℕ, ◌≡◌, refl, Bool, true, false, not, List, [], ◌∷◌, arith, All, any, select, ◌==◌, inl, inr,
  Bool-cases,
}
use mathlib.Core.Path.{subst}
use painkiller.Store.Table.{has}
use painkiller.Store.Constraints.{Unique, IsTable}

module _ {R : Type 0} where
  selected_kept :
      (p : R → Bool) (r : R) (t : List R) → p r ≡ true → r ∷ select p t ≡ select p (r ∷ t)
  selected_kept p r t h = ground (arith, h)

  selected_gone : (p : R → Bool) (r : R) (t : List R) → p r ≡ false → select p t ≡ select p (r ∷ t)
  selected_gone p r t h = ground (arith, h)

  select-All : (Good : R → Type 0) (p : R → Bool) (t : List R) → All Good t → All Good (select p t)
  select-All Good p [] h = tt
  select-All Good p (r ∷ t) (h, hs) = elim (Bool-cases (p r)) [
    | inl kept ↦ subst (All Good) (selected_kept p r t kept) (h, select-All Good p t hs)
    | inr gone ↦ subst (All Good) (selected_gone p r t gone) (select-All Good p t hs)
  ]

  -- Some row passes the test, and it is good.
  pub good_row :
      (Good : R → Type 0) (C : Type 0) (p : R → Bool) (t : List R)
      → ((r : R) → p r ≡ true → Good r → C)
      → any p t ≡ true
      → All Good t
      → C
  good_row Good C p [] k h all = let wrong : false ≡ true = h in cc
  good_row Good C p (r ∷ t) k h (good, all) = elim (Bool-cases (p r)) [
    | inl here ↦ k r here good
    | inr there ↦ good_row Good C p t k (ground arith) all
  ]

  -- No row passes the test.
  pub other_rows :
      (Good Better : R → Type 0) (p : R → Bool) (t : List R)
      → ((r : R) → p r ≡ false → Good r → Better r)
      → any p t ≡ false
      → All Good t
      → All Better t
  other_rows Good Better p [] k h all = tt
  other_rows Good Better p (r ∷ t) k h (good, all) =
      (k r (ground arith) good, other_rows Good Better p t k (ground arith) all)

module _ {R : Type 0} (key : R → ℕ) where
  -- Another key is taken as before.
  pub has-removed :
      (j k : ℕ) (t : List R)
      → (j == k) ≡ false
      → has key j (select (λ r. not (key r == k)) t) ≡ has key j t
  unfolding has
  has-removed j k [] other = refl
  has-removed j k (r ∷ t) other = ground (arith, has-removed j k t other)

  has-select-false :
      (j : ℕ) (p : R → Bool) (t : List R) → has key j t ≡ false → has key j (select p t) ≡ false
  unfolding has
  has-select-false j p [] h = refl
  has-select-false j p (r ∷ t) h = ground (arith, has-select-false j p t)

  select-Unique : (p : R → Bool) (t : List R) → Unique key t → Unique key (select p t)
  unfolding Unique
  select-Unique p [] u = tt
  select-Unique p (r ∷ t) (fresh, u) = elim (Bool-cases (p r)) [
    | inl kept ↦
        subst (Unique key) (selected_kept p r t kept)
          (has-select-false (key r) p t fresh, select-Unique p t u)
    | inr gone ↦ subst (Unique key) (selected_gone p r t gone) (select-Unique p t u)
  ]

  -- A table without some of its rows is a table.
  pub select-IsTable :
      (Good : R → Type 0) (p : R → Bool) (t : List R)
      → IsTable key Good t
      → IsTable key Good (select p t)
  select-IsTable Good p t (u, h) = (select-Unique p t u, select-All Good p t h)
