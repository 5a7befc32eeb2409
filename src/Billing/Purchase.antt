-- ===== src/Billing/Purchase.antt =====
-- What a purchase of internal/billing/service.go leaves in the store.
use painkiller.Prelude.{
  ◌+◌, pos, ◌+ℤ◌, ◌*ℤ◌, to_int64, none, ◌≡◌, inl, inr, true, some, [], ◌∷◌, ◌++◌, arith,
  Option-cases,
}
use painkiller.Outside.{Outside}
use painkiller.Models.{Uuid, Instant, Product, Test, PurchasedTest}
use painkiller.Store.{World, ok}
use painkiller.Store.Purchases
use painkiller.Store.Products
use painkiller.Store.Tests
use painkiller.Store.Table.{lookup}
use painkiller.Billing.{create_free_purchase, handle_checkout_completed, access_window, id_text}

-- One more purchase.
abbrev pub bought : PurchasedTest → World → World → World
bought p w w' = record w { purchased_tests = w.purchased_tests ++ p ∷ []; calls = w'.calls }

-- The row of a purchase: what the test allows, until the test's window after the first instant, an
-- int64 of nanoseconds, and no Stripe session.
abbrev pub purchase_row : Uuid → Uuid → Uuid → Test → Instant → Instant → PurchasedTest
purchase_row id user test_id t bought created = record {
  id = id;
  user_id = user;
  test_id = test_id;
  stripe_session_id = none;
  expires_at = bought +ℤ to_int64 (t.access_window_hours *ℤ pos 3600000000000);
  attempts_remaining = t.attempts_allowed;
  created_at = created;
}

-- A free purchase that succeeds is of a test whose product is free; it adds one row that grants the
-- attempts that the test allows until the test's window after now, and changes nothing else.
pub create_free_purchase_ok :
    (o : Outside) (user test_id id : Uuid) (w : World)
    → (create_free_purchase o user test_id w).0 ≡ ok id
    → let n = w.calls + 1 + 1 in
      (t : Test) × (p : Product) × (lookup Tests.key test_id w.tests ≡ some t)
      × (lookup Products.key t.product_id w.products ≡ some p)
      × (p.is_free ≡ true)
      × ((create_free_purchase o user test_id w).1
          ≡ bought
              (purchase_row id user test_id t (o.clock n) (o.clock (n + 1 + 1)))
              w
              (create_free_purchase o user test_id w).1)
unfolding access_window create_free_purchase Tests.get_by_id Products.get_by_id Purchases.create
create_free_purchase_ok o user test_id id w h =
    elim (Option-cases (lookup Tests.key test_id w.tests)) [
      | inl missing ↦ ground arith
      | inr (t, found) ↦ elim (Option-cases (lookup Products.key t.product_id w.products)) [
        | inl missing ↦ ground arith
        | inr (p, there) ↦ (t, p, found, there, ground arith, ground arith)
      ]
    ]

-- A completed checkout that is recorded adds one purchase of the test for the user, with the attempts
-- that the test allows, the test's window from now, a drawn identifier and no Stripe session, and
-- changes nothing else.
pub handle_checkout_completed_ok :
    (o : Outside) (user test_id : Uuid) (w : World)
    → (handle_checkout_completed o (id_text user) (id_text test_id) w).0 ≡ ok tt
    → let n = w.calls + 1 in
      let w' = (handle_checkout_completed o (id_text user) (id_text test_id) w).1 in
      (t : Test) × (lookup Tests.key test_id w.tests ≡ some t)
      × (w'
          ≡ bought
              (purchase_row (o.new_uuid (n + 1)) user test_id t (o.clock n) (o.clock (n + 1 + 1)))
              w
              w')
unfolding access_window handle_checkout_completed Tests.get_by_id Purchases.create
handle_checkout_completed_ok o user test_id w h =
    elim (Option-cases (lookup Tests.key test_id w.tests)) [
      | inl missing ↦ ground arith
      | inr (t, found) ↦ (t, found, ground arith)
    ]
