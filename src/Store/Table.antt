-- ===== src/Store/Table.antt =====
-- Tables keyed by a number: lookup by the key, update by the key, and what one does to the other.
use painkiller.Prelude.{
  ℕ, ◌≡◌, refl, Bool, true, false, ◌||◌, Option, none, some, List, [], ◌∷◌, ◌++◌, arith, ◌==◌,
  if◌then◌else◌,
}
use mathlib.Core.Option

module _ {R : Type 0} (key : R → ℕ) where
  -- `SELECT … WHERE key = k`: the first row
  unfoldable pub lookup : ℕ → List R → Option R
  lookup k [] = none
  lookup k (r ∷ t) = if key r == k then some r else lookup k t

  -- `UPDATE … WHERE key = k`
  unfoldable pub modify : ℕ → (R → R) → List R → List R
  modify k f [] = []
  modify k f (r ∷ t) = (if key r == k then f r else r) ∷ modify k f t

  -- Is the key taken?
  unfoldable pub has : ℕ → List R → Bool
  has k [] = false
  has k (r ∷ t) = key r == k || has k t

  pub lookup-modify :
      (j k : ℕ) (f : R → R) (t : List R)
      → ((r : R) → key (f r) ≡ key r)
      → lookup j (modify k f t) ≡ (if j == k then Option.map f (lookup j t) else lookup j t)
  unfolding lookup modify
  lookup-modify j k f [] h = ground arith
  lookup-modify j k f (r ∷ t) h = ground (arith, h r, lookup-modify j k f t h)

  pub has-modify :
      (j k : ℕ) (f : R → R) (t : List R)
      → ((r : R) → key (f r) ≡ key r)
      → has j (modify k f t) ≡ has j t
  unfolding has modify
  has-modify j k f [] h = refl
  has-modify j k f (r ∷ t) h = ground (arith, h r, has-modify j k f t h)

  pub lookup-append :
      (k : ℕ) (t : List R) (r : R)
      → lookup k (t ++ r ∷ [])
        ≡ (if has k t then lookup k t else if key r == k then some r else none)
  unfolding lookup has
  lookup-append k [] r = refl
  lookup-append k (s ∷ t) r = ground (arith, lookup-append k t r)

  pub has_of_lookup : (k : ℕ) (r : R) (t : List R) → lookup k t ≡ some r → has k t ≡ true
  unfolding lookup has
  has_of_lookup k r [] h = cc
  has_of_lookup k r (s ∷ t) h = ground (arith, has_of_lookup k r t)

  pub key-lookup : (k : ℕ) (r : R) (t : List R) → lookup k t ≡ some r → key r ≡ k
  unfolding lookup
  key-lookup k r [] h = cc
  key-lookup k r (s ∷ t) h = ground (arith, key-lookup k r t)
