-- ===== src/Billing/Examples.antt =====
-- The theorems on internal/billing at work on the example shop.
use painkiller.Prelude.{◌≡◌, refl, true, some}
use painkiller.Models.{Test, Product}
use painkiller.Store.Purchases
use painkiller.Store.Products
use painkiller.Store.Tests
use painkiller.Store.Table.{lookup, has}
use painkiller.Example.{shop, calm}
use painkiller.Billing.{create_free_purchase, handle_checkout_completed, id_text}
use painkiller.Billing.Purchase.{
  bought, purchase_row, create_free_purchase_ok, handle_checkout_completed_ok,
}

create_free_purchase_ok_example :
    (t : Test) × (p : Product) × (lookup Tests.key 4 shop.tests ≡ some t)
    × (lookup Products.key t.product_id shop.products ≡ some p)
    × (p.is_free ≡ true)
    × ((create_free_purchase calm 1 4 shop).1
        ≡ bought
            (purchase_row 103 1 4 t (calm.clock 2) (calm.clock 4))
            shop
            (create_free_purchase calm 1 4 shop).1)
unfolding create_free_purchase Tests.get_by_id Products.get_by_id Purchases.create lookup has
create_free_purchase_ok_example = create_free_purchase_ok calm 1 4 103 shop refl

handle_checkout_completed_ok_example :
    let w' = (handle_checkout_completed calm (id_text 1) (id_text 4) shop).1 in
    (t : Test) × (lookup Tests.key 4 shop.tests ≡ some t)
    × (w' ≡ bought (purchase_row (calm.new_uuid 2) 1 4 t (calm.clock 1) (calm.clock 3)) shop w')
unfolding handle_checkout_completed Tests.get_by_id Purchases.create lookup has
handle_checkout_completed_ok_example = handle_checkout_completed_ok calm 1 4 shop refl
