-- ===== src/Store/Tests.antt =====
-- internal/store/test_store.go over the table `tests`, joined with `products` where asked.
use painkiller.Prelude.{
  ℕ, ltb, Bool, ◌||◌, not, Option, none, some, List, [], ◌∷◌, ◌++◌, ⊤, if◌then◌else◌, ◌==◌, any,
  select, length, Text,
}
use painkiller.Outside.{Outside}
use painkiller.Models.{Uuid, Product, Test}
use painkiller.Store.State.{World, Action, query, exec}
use painkiller.Store.Table.{lookup, modify, has}
use painkiller.Store.Rows.{order_by}

pub record TestWithProduct : Type 0 where
  pub test : Test
  pub product_title : Text
  pub product_description : Text
  pub product_stripe_price_id : Option Text
  pub product_is_free : Bool

abbrev pub key : Test → ℕ
key t = t.id

-- `id` is unique; `product_id` and `scenario_version_id` refer to rows. `uuid.Nil` is no NULL: it
-- must refer to a row too.
abbrev pub insert : Test → World → Option World
insert t w =
    if has key t.id w.tests
      || not (has (λ p. p.id) t.product_id w.products)
      || not (has (λ v. v.id) t.scenario_version_id w.scenario_versions)
    then none
    else some (record w { tests = w.tests ++ t ∷ [] })

abbrev with_product : Test → Product → TestWithProduct
with_product t p = record {
  test = t;
  product_title = p.title;
  product_description = p.description;
  product_stripe_price_id = p.stripe_price_id;
  product_is_free = p.is_free;
}

-- `tests t JOIN products p ON t.product_id = p.id`
unfoldable pub join : List Product → List Test → List TestWithProduct
join ps [] = []
join ps (t ∷ ts) = elim (lookup (λ p. p.id) t.product_id ps) [
  | none ↦ join ps ts
  | some p ↦ with_product t p ∷ join ps ts
]

-- The columns that `Update` sets.
abbrev pub set_columns : Test → Test → Test
set_columns t u = record u {
  duration_minutes = t.duration_minutes;
  access_window_hours = t.access_window_hours;
  attempts_allowed = t.attempts_allowed;
}

-- Refused while a purchase refers to the test.
abbrev pub remove : Uuid → World → Option World
remove id w =
    if any (λ p. p.test_id == id) w.purchased_tests
    then none
    else some (record w { tests = select (λ t. not (t.id == id)) w.tests })

module _ (o : Outside) where
  unfoldable pub create : Test → Action ⊤
  create t = exec o (insert t)

  unfoldable pub get_by_id : Uuid → Action Test
  get_by_id id = query o (λ _ w. lookup key id w.tests)

  unfoldable pub get_with_product : Uuid → Action TestWithProduct
  unfolding join
  get_with_product id = query o (λ _ w. lookup (λ r. r.test.id) id (join w.products w.tests))

  unfoldable pub list : Action (List Test)
  list = query o (λ _ w. some (order_by (λ t. t.created_at) w.tests))

  unfoldable pub list_with_product : Action (List TestWithProduct)
  unfolding join
  list_with_product =
      query o (λ _ w. some (order_by (λ r. r.test.created_at) (join w.products w.tests)))

  unfoldable pub update : Test → Action ⊤
  update t = exec o (λ w. some (record w { tests = modify key t.id (set_columns t) w.tests }))

  unfoldable pub delete : Uuid → Action ⊤
  delete id = exec o (remove id)

  unfoldable pub has_purchases : Uuid → Action Bool
  has_purchases id =
      query o (λ _ w. some (ltb 0 (length (select (λ p. p.test_id == id) w.purchased_tests))))
