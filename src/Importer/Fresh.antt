-- ===== src/Importer/Fresh.antt =====
-- Identifiers that no row has yet: what package uuid is relied on for.
use painkiller.Prelude.{
  ℕ, ◌+◌, ◌≤◌, ◌<◌, ◌≡◌, false, ◌==◌, List, [], ◌∷◌, ◌++◌, arith, inl, inr, Bool-cases,
}
use painkiller.Outside.{Outside}
use painkiller.Store.Table.{has}
use painkiller.Store.Constraints.{has-append}

module _ (o : Outside) where
  -- `uuid.New()` draws no identifier twice.
  abbrev pub NewEachTime : Type 0
  NewEachTime = (m n : ℕ) → o.new_uuid m ≡ o.new_uuid n → m ≡ n

  -- No row has an identifier that is drawn at a call from `start` on.
  abbrev pub FreshFrom : {R : Type 0} → (R → ℕ) → List R → ℕ → Type 0
  FreshFrom key t start = (n : ℕ) → start ≤ n → has key (o.new_uuid n) t ≡ false

  pub later :
      {R : Type 0} (key : R → ℕ) (t : List R) (a b : ℕ)
      → a ≤ b
      → FreshFrom key t a
      → FreshFrom key t b
  later key t a b h fresh n k = fresh n (omega (arith, h, k))

  differs : (m n : ℕ) → NewEachTime → m < n → (o.new_uuid m == o.new_uuid n) ≡ false
  differs m n new h = elim (Bool-cases (o.new_uuid m == o.new_uuid n)) [
    | inl same ↦ let equal : m ≡ n = new m n (ground arith) in ground (arith, equal, h)
    | inr other ↦ other
  ]

  -- A row under the identifier of a call leaves those of later calls fresh.
  pub grown :
      {R : Type 0} (key : R → ℕ) (t : List R) (r : R) (a : ℕ)
      → NewEachTime
      → key r ≡ o.new_uuid a
      → FreshFrom key t a
      → FreshFrom key (t ++ r ∷ []) (a + 1)
  grown key t r a new own fresh n k =
      let other = differs a n new (omega (arith, k)) in
      let old = fresh n (omega (arith, k)) in
      ground (arith, has-append key (o.new_uuid n) t r, own, other, old)
