-- ===== src/Lifecycle/Editing.antt =====
-- The writes of an administrator who changes or removes a test.
use painkiller.Prelude.{
  ◌≡◌, refl, ◌∙◌, ap, ◌⊎◌, inl, inr, true, false, not, ◌&&◌, ◌||◌, Option, none, some, List, [],
  ◌∷◌, arith, any, pos, ◌≤ℤ◌, leb_ℤ, ◌==◌, ⊤, Bool-cases, Option-cases,
}
use painkiller.Outside.{Outside}
use painkiller.Models.{Uuid, Product, Test}
use painkiller.Store.{World, count_call}
use painkiller.Store.Products
use painkiller.Store.Tests
use painkiller.Store.Tests.{TestWithProduct, join}
use painkiller.Store.Table.{lookup}
use painkiller.Http.{Reply, Handler, or_refuse}
use painkiller.Admin.{delete_test}
use painkiller.Admin.Catalog.{
  UpdateTestRequest, changed_product, no_price, changed_test, is_bad, write_changes, update_test,
}
use painkiller.Lifecycle.Writes.{
  allows_as, change_product, change_test, remove_test, remove_product,
}
use painkiller.Lifecycle.Frame.{list-Ends, exec-Ends, change-Ends}
use painkiller.Lifecycle.Rules.{Ends, ◌↝*◌, more, counted, get_test-Ends}
use painkiller.Lifecycle.Answers.{
  Answers, or_refuse-Answers, refuse_if-Answers, plain-Answers, or_roll_back-Answers, joined-Ends,
  begin_or_commit-Ends,
}

-- A row of the join is a row of the tests.
joined_there :
    (id : Uuid) (ps : List Product) (ts : List Test) (r : TestWithProduct)
    → lookup (λ r. r.test.id) id (join ps ts) ≡ some r
    → any (allows_as r.test) ts ≡ true
unfolding join lookup
joined_there id ps [] r h = cc
joined_there id ps (t ∷ ts) r h = elim (Option-cases (lookup (λ p. p.id) t.product_id ps)) [
  | inl missing ↦ ground (arith, missing, joined_there id ps ts r)
  | inr (p, found) ↦ elim (Bool-cases (t.id == id)) [
    | inl here ↦ let same : t ≡ r.test = ground (arith, found) in ground (arith, same)
    | inr there ↦ ground (arith, found, joined_there id ps ts r)
  ]
]

-- What the changed test allows is what it allowed, or a positive number.
allowed_or_old :
    (req : UpdateTestRequest) (t : Test) (ts : List Test)
    → (is_bad req.duration_minutes || is_bad req.access_window_hours || is_bad req.attempts_allowed)
      ≡ false
    → any (allows_as t) ts ≡ true
    → (pos 1 ≤ℤ (changed_test req t).attempts_allowed)
      ⊎ (any (allows_as (changed_test req t)) ts ≡ true)
allowed_or_old req t ts good there = elim (Option-cases req.attempts_allowed) [
  | inl old ↦
      let same : (changed_test req t).attempts_allowed ≡ t.attempts_allowed = ground arith in
      inr (
        ap (λ n. any (λ u. leb_ℤ n u.attempts_allowed && leb_ℤ u.attempts_allowed n) ts) same
        ∙ there)
  | inr (n, new) ↦ inl (ground arith)
]

ruleset editing = (
  or_refuse-Answers, refuse_if-Answers, plain-Answers, or_roll_back-Answers, begin_or_commit-Ends,
  joined-Ends, get_test-Ends,
)

module _ (start : World) (o : Outside) where
  -- What follows the three calls knows which tables they leave alone.
  with_joined-Answers :
      {B : Type 0} (refusal : Reply B) (id : Uuid) (f : TestWithProduct → Handler B) (w : World)
      → start ↝* w
      → ((r : TestWithProduct)
          → any (allows_as r.test) w.tests ≡ true
          → Answers start (f r (count_call w)))
      → Answers start (or_refuse refusal (Tests.get_with_product o id w) f)
  unfolding Tests.get_with_product
  with_joined-Answers refusal id f w h k = elim (Bool-cases (o.fails w.calls)) [
    | inl down ↦ rw down (record { holds = counted h })
    | inr up ↦ elim (Option-cases (lookup (λ r. r.test.id) id (join w.products w.tests))) [
      | inl missing ↦ rw (up, missing) (record { holds = counted h })
      | inr (r, found) ↦ rw (up, found) (k r (joined_there id w.products w.tests r found))
    ]
  ]

  with_row-Answers :
      {B : Type 0} (refusal : Reply B) (id : Uuid) (f : Product → Handler B) (w : World)
      → start ↝* w
      → ((p : Product) → Answers start (f p (count_call w)))
      → Answers start (or_refuse refusal (Products.get_by_id o id w) f)
  unfolding Products.get_by_id
  with_row-Answers refusal id f w h k = elim (Bool-cases (o.fails w.calls)) [
    | inl down ↦ rw down (record { holds = counted h })
    | inr up ↦ elim (Option-cases (lookup Products.key id w.products)) [
      | inl missing ↦ rw (up, missing) (record { holds = counted h })
      | inr (p, found) ↦ rw (up, found) (k p)
    ]
  ]

  with_change-Answers :
      {B : Type 0} (refusal : Reply B) (p : Product) (f : ⊤ → Handler B) (w : World)
      → start ↝* w
      → ((u : World) → u.tests ≡ w.tests → start ↝* u → Answers start (f tt u))
      → Answers start (or_refuse refusal (Products.update o p w) f)
  unfolding Products.update
  with_change-Answers refusal p f w h k = elim (Bool-cases (o.fails w.calls)) [
    | inl down ↦ rw down (record { holds = counted h })
    | inr up ↦ elim (Option-cases (Products.change p w)) [
      | inl refused ↦ rw (up, refused) (record { holds = counted h })
      | inr (u, changed) ↦
          let same : (count_call u).tests ≡ w.tests = ground arith in
          rw (up, changed) (k (count_call u) same (counted (more h (change_product p changed))))
    ]
  ]

  update_test-Ends :
      (t : Test) (w : World)
      → (pos 1 ≤ℤ t.attempts_allowed) ⊎ (any (allows_as t) w.tests ≡ true)
      → start ↝* w
      → Ends start (Tests.update o t w)
  unfolding Tests.update
  update_test-Ends t w allowed h = change-Ends start o w _ h (change_test t allowed refl)

  delete_test-Ends : (id : Uuid) (w : World) → start ↝* w → Ends start (Tests.delete o id w)
  unfolding Tests.delete
  delete_test-Ends id w h = exec-Ends start o _ w h (λ w' e. remove_test id e)

  delete_product-Ends : (id : Uuid) (w : World) → start ↝* w → Ends start (Products.delete o id w)
  unfolding Products.delete
  delete_product-Ends id w h = exec-Ends start o _ w h (λ w' e. remove_product id e)

  has_purchases-Ends :
      (id : Uuid) (w : World) → start ↝* w → Ends start (Tests.has_purchases o id w)
  unfolding Tests.has_purchases
  has_purchases-Ends id w h = list-Ends start o _ w h

  write_changes_keeps :
      (id : Uuid) (req : UpdateTestRequest) (r : TestWithProduct) (p : Product) (w : World)
      → any (allows_as r.test) w.tests ≡ true
      → start ↝* w
      → Answers start (write_changes o id req r p w)
  write_changes_keeps id req r p w there h = with_change-Answers _ p _ w h λ u same h₁.
      let there' = ap (any (allows_as r.test)) same ∙ there in
      let updated =
        λ (good : (is_bad req.duration_minutes
              || is_bad req.access_window_hours
              || is_bad req.attempts_allowed)
            ≡ false).
          update_test-Ends (changed_test req r.test) u
            (allowed_or_old req r.test u.tests good there') h₁ in
      search (editing, updated) depth 12 fits 20000

  pub update_keeps :
      (param : Option Uuid) (body : Option UpdateTestRequest) (w : World)
      → start ↝* w
      → Answers start (update_test o param body w)
  unfolding update_test
  update_keeps none body w h = plain-Answers start _ w h
  update_keeps (some id) none w h = plain-Answers start _ w h
  update_keeps (some id) (some req) w h = with_joined-Answers _ id _ w h λ r there.
      with_row-Answers _ r.test.product_id _ (count_call w) (counted h) λ p.
        let q = changed_product req p in
        refuse_if-Answers start (not q.is_free && no_price q.stripe_price_id) _
          (write_changes o id req r q) (count_call (count_call w)) (counted (counted h))
          λ priced. write_changes_keeps id req r q _ there (counted (counted h))

  pub delete_keeps :
      (param : Option Uuid) (w : World) → start ↝* w → Answers start (delete_test o param w)
  unfolding delete_test
  delete_keeps none w h = plain-Answers start _ w h
  delete_keeps (some id) w h =
      search (editing, delete_test-Ends, delete_product-Ends, has_purchases-Ends) depth 20 fits
        20000
