-- ===== src/Store/Rows.antt =====
-- Queries that fit several rows: ORDER BY a column, and the row that comes first without one.
use painkiller.Prelude.{
  ℕ, zero, suc, ◌%◌, ◌≡◌, refl, ◌||◌, ◌==◌, arith, Bool, true, ◌&&◌, ℤ, ltb_ℤ, Option, none, some,
  List, [], ◌∷◌, if◌then◌else◌, length, get_elem?, select, any,
}

module _ {R : Type 0} (column : R → ℤ) where
  -- Equal rows keep the order of their insertion.
  pub insert_ordered : R → List R → List R
  insert_ordered r [] = r ∷ []
  insert_ordered r (s ∷ t) =
      if ltb_ℤ (column r) (column s) then r ∷ s ∷ t else s ∷ insert_ordered r t

  -- `ORDER BY column`, over the rows read from the last one back.
  order_from : List R → List R → List R
  order_from done [] = done
  order_from done (r ∷ t) = order_from (insert_ordered r done) t

  unfoldable pub order_by : List R → List R
  unfolding insert_ordered order_from
  order_by = order_from []

  pub insert_ordered_desc : R → List R → List R
  insert_ordered_desc r [] = r ∷ []
  insert_ordered_desc r (s ∷ t) =
      if ltb_ℤ (column s) (column r) then r ∷ s ∷ t else s ∷ insert_ordered_desc r t

  order_desc_from : List R → List R → List R
  order_desc_from done [] = done
  order_desc_from done (r ∷ t) = order_desc_from (insert_ordered_desc r done) t

  -- `ORDER BY column DESC`
  unfoldable pub order_by_desc : List R → List R
  unfolding insert_ordered_desc order_desc_from
  order_by_desc = order_desc_from []

-- Ordering a table loses no row and makes none.
module _ {R : Type 0} (column : R → ℤ) (p : R → Bool) where
  any-insert_ordered_desc :
      (r : R) (t : List R) → any p (insert_ordered_desc column r t) ≡ p r || any p t
  unfolding insert_ordered_desc
  any-insert_ordered_desc r [] = refl
  any-insert_ordered_desc r (s ∷ t) = ground (arith, any-insert_ordered_desc r t)

  any-order_desc_from :
      (done t : List R) → any p (order_desc_from column done t) ≡ any p done || any p t
  unfolding order_desc_from
  any-order_desc_from done [] = ground arith
  any-order_desc_from done (r ∷ t) = ground (
    arith,
    any-order_desc_from (insert_ordered_desc column r done) t,
    any-insert_ordered_desc r done,
  )

  pub any-order_by_desc : (t : List R) → any p (order_by_desc column t) ≡ any p t
  unfolding order_by_desc
  any-order_by_desc t = any-order_desc_from [] t

-- One row of several, at the database's choice.
unfoldable pub choose : {R : Type 0} → ℕ → List R → Option R
choose n [] = none
choose n (r ∷ t) = get_elem? (r ∷ t) (n % length (r ∷ t))

-- The row that is chosen is one that passes the test, under its own key.
elem-select :
    {R : Type 0} (key : R → ℕ) (p : R → Bool) (t : List R) (i : ℕ) (r : R)
    → get_elem? (select p t) i ≡ some r
    → any (λ s. p s && key s == key r) t ≡ true
elem-select key p [] i r h = cc
elem-select key p (s ∷ t) zero r h = ground (arith, elem-select key p t zero r)
elem-select key p (s ∷ t) (suc i) r h =
    ground (arith, elem-select key p t i r, elem-select key p t (suc i) r)

chosen :
    {R : Type 0} (n : ℕ) (t : List R) (r : R)
    → choose n t ≡ some r
    → get_elem? t (n % length t) ≡ some r
unfolding choose
chosen n [] r h = cc
chosen n (s ∷ t) r h = h

pub choose-select :
    {R : Type 0} (key : R → ℕ) (p : R → Bool) (t : List R) (n : ℕ) (r : R)
    → choose n (select p t) ≡ some r
    → any (λ s. p s && key s == key r) t ≡ true
choose-select key p t n r h =
    elem-select key p t (n % length (select p t)) r (chosen n (select p t) r h)
