-- ===== src/Store/Constraints.antt =====
-- The constraints of the schema on a table of rows: a primary key, and a property that every row has.
use painkiller.Prelude.{
  ℕ, ◌≡◌, refl, Bool, true, false, ◌||◌, List, [], ◌∷◌, ◌++◌, arith, All, ◌==◌, if◌then◌else◌, some,
  inl, inr, Bool-cases,
}
use mathlib.Core.Path.{subst}
use painkiller.Store.Table.{lookup, has, modify, has-modify}

-- One of two rows, where both have the property.
either_Good :
    {R : Type 0} (Good : R → Type 0) (b : Bool) (x y : R)
    → Good x
    → Good y
    → Good (if b then x else y)
either_Good Good true x y hx hy = hx
either_Good Good false x y hx hy = hy

module _ {R : Type 0} (key : R → ℕ) where
  -- No two rows have the same key.
  unfoldable pub Unique : List R → Type 0
  Unique [] = Unit
  Unique (r ∷ t) = (has key (key r) t ≡ false) × Unique t

  -- A table with a primary key, every row of which is good.
  abbrev pub IsTable : (R → Type 0) → List R → Type 0
  IsTable Good t = Unique t × All Good t

  pub has-append :
      (k : ℕ) (t : List R) (r : R) → has key k (t ++ r ∷ []) ≡ has key k t || key r == k
  unfolding has
  has-append k [] r = ground arith
  has-append k (s ∷ t) r = ground (arith, has-append k t r)

  -- A key once taken stays taken.
  pub has_still : (k : ℕ) (t : List R) (r : R) → has key k t ≡ true → has key k (t ++ r ∷ []) ≡ true
  has_still k t r h = ground (arith, has-append k t r)

  modify-Unique :
      (k : ℕ) (f : R → R) (t : List R)
      → ((r : R) → key (f r) ≡ key r)
      → Unique t
      → Unique (modify key k f t)
  unfolding Unique modify
  modify-Unique k f [] keeps u = tt
  modify-Unique k f (r ∷ t) keeps (fresh, u) = (
    ground (arith, keeps r, has-modify key (key r) k f t keeps, fresh),
    modify-Unique k f t keeps u,
  )

  append-Unique : (r : R) (t : List R) → has key (key r) t ≡ false → Unique t → Unique (t ++ r ∷ [])
  unfolding Unique has
  append-Unique r [] fresh u = (refl, tt)
  append-Unique r (s ∷ t) fresh (new, u) =
      (ground (arith, has-append (key s) t r), append-Unique r t (ground arith) u)

  modify-All :
      (Good : R → Type 0) (k : ℕ) (f : R → R) (t : List R)
      → ((r : R) → Good r → Good (f r))
      → All Good t
      → All Good (modify key k f t)
  unfolding modify
  modify-All Good k f [] keeps h = tt
  modify-All Good k f (r ∷ t) keeps (h, hs) =
      (either_Good Good (key r == k) (f r) r (keeps r h) h, modify-All Good k f t keeps hs)

  append-All :
      (Good : R → Type 0) (r : R) (t : List R) → Good r → All Good t → All Good (t ++ r ∷ [])
  append-All Good r [] good h = (good, tt)
  append-All Good r (s ∷ t) good (h, hs) = (h, append-All Good r t good hs)

  weaken_All :
      (Good Better : R → Type 0) (t : List R)
      → ((r : R) → Better r → Good r)
      → All Better t
      → All Good t
  weaken_All Good Better [] keeps h = tt
  weaken_All Good Better (r ∷ t) keeps (h, hs) = (keeps r h, weaken_All Good Better t keeps hs)

  pub found_Good :
      (Good : R → Type 0) (k : ℕ) (r : R) (t : List R)
      → lookup key k t ≡ some r
      → All Good t
      → Good r
  unfolding lookup
  found_Good Good k r [] found h = cc
  found_Good Good k r (s ∷ t) found (h, hs) = elim (Bool-cases (key s == k)) [
    | inl here ↦ let equal : s ≡ r = ground arith in subst Good equal h
    | inr there ↦ found_Good Good k r t (ground arith) hs
  ]

  module _ (Good : R → Type 0) where
    -- `UPDATE … WHERE key = k`, which leaves the key alone
    pub update-IsTable :
        (k : ℕ) (f : R → R) (t : List R)
        → ((r : R) → key (f r) ≡ key r)
        → ((r : R) → Good r → Good (f r))
        → IsTable Good t
        → IsTable Good (modify key k f t)
    update-IsTable k f t same_key keeps (u, h) =
        (modify-Unique k f t same_key u, modify-All Good k f t keeps h)

    -- `INSERT` of a row whose key is new
    pub insert_row :
        (r : R) (t : List R)
        → has key (key r) t ≡ false
        → Good r
        → IsTable Good t
        → IsTable Good (t ++ r ∷ [])
    insert_row r t fresh good (u, h) = (append-Unique r t fresh u, append-All Good r t good h)

    -- A table to which the rows refer grew, or was changed under the same keys.
    pub weaken_rows :
        (Better : R → Type 0) (t : List R)
        → ((r : R) → Better r → Good r)
        → IsTable Better t
        → IsTable Good t
    weaken_rows Better t keeps (u, h) = (u, weaken_All Good Better t keeps h)
