-- ===== src/Store/Products.antt =====
-- internal/store/product_store.go over the table `products`.
use painkiller.Prelude.{
  ℕ, Bool, ◌||◌, ◌&&◌, not, Option, none, some, List, [], ◌∷◌, ◌++◌, ⊤, if◌then◌else◌, ◌==◌, any,
  find, select, Text, text_eq,
}
use painkiller.Outside.{Outside}
use painkiller.Models.{Uuid, Product}
use painkiller.Store.State.{World, Action, query, exec}
use painkiller.Store.Table.{lookup, modify, has}
use painkiller.Store.Rows.{order_by, choose}
use painkiller.Store.Purchases.{same_text}

abbrev pub key : Product → ℕ
key p = p.id

-- `id` and `stripe_price_id` are unique.
abbrev pub insert : Product → World → Option World
insert p w =
    if has key p.id w.products
      || any (λ q. same_text p.stripe_price_id q.stripe_price_id) w.products
    then none
    else some (record w { products = w.products ++ p ∷ [] })

-- The columns that `Update` sets.
abbrev pub set_columns : Product → Product → Product
set_columns p q = record q {
  stripe_price_id = p.stripe_price_id;
  title = p.title;
  description = p.description;
  is_free = p.is_free;
}

-- Another row has the price already.
abbrev pub price_taken : Product → World → Bool
price_taken p w =
    any (λ q. not (q.id == p.id) && same_text p.stripe_price_id q.stripe_price_id) w.products

abbrev pub change : Product → World → Option World
change p w =
    if has key p.id w.products && price_taken p w
    then none
    else some (record w { products = modify key p.id (set_columns p) w.products })

-- Refused while a test refers to the product.
abbrev pub remove : Uuid → World → Option World
remove id w =
    if any (λ t. t.product_id == id) w.tests
    then none
    else some (record w { products = select (λ p. not (p.id == id)) w.products })

module _ (o : Outside) where
  unfoldable pub create : Product → Action ⊤
  create p = exec o (insert p)

  unfoldable pub get_by_id : Uuid → Action Product
  get_by_id id = query o (λ _ w. lookup key id w.products)

  unfoldable pub get_by_stripe_price_id : Text → Action Product
  get_by_stripe_price_id price =
      query o (λ _ w. find (λ p. same_text p.stripe_price_id (some price)) w.products)

  -- `LIMIT 1` with no order: several products may share a title.
  unfoldable pub get_by_title : Text → Action Product
  get_by_title title = query o (λ n w. choose n (select (λ p. text_eq p.title title) w.products))

  unfoldable pub list : Action (List Product)
  list = query o (λ _ w. some (order_by (λ p. p.created_at) w.products))

  unfoldable pub update : Product → Action ⊤
  update p = exec o (change p)

  unfoldable pub delete : Uuid → Action ⊤
  delete id = exec o (remove id)
