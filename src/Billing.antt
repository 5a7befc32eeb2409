-- ===== src/Billing.antt =====
-- internal/billing/service.go and the dispatch of webhook.go. Stripe is called through its package:
-- the session's URL and the verified event are arguments.
pub mod Routes
mod Purchase
mod Examples
use painkiller.Prelude.{
  ℕ, ℤ, pos, ◌+ℤ◌, ◌*ℤ◌, to_int64, Bool, true, false, not, Option, none, some, Text, ⊤, is_empty,
  if◌then◌else◌,
}
use painkiller.Outside.{Outside}
use painkiller.Models.{Uuid, Instant, Test, Product, PurchasedTest}
use painkiller.Store.{
  World, Result, Action, pure, raise, raise_if, or_wrap, ok, err, ◌>>=◌, ◌>>◌, now, new_uuid,
  count_call, wrap, test_not_found, product_not_found, invalid_user_id, invalid_test_id,
  failed_to_create_purchase, failed_to_create_session, no_price, missing_user_id, missing_test_id,
  not_free, stripe_error, uuid_error,
}
use painkiller.Store.Purchases
use painkiller.Store.Tests
use painkiller.Store.Products
use painkiller.Http.{
  Reply, Handler, success, bad_request, internal_error, bad_signature, processing_failed,
  invalid_body,
}

-- `time.Duration(hours) * time.Hour`: nanoseconds in an int64, which wraps.
unfoldable pub access_window : ℤ → ℤ
access_window hours = to_int64 (hours *ℤ pos 3600000000000)

-- `product.StripePriceID == nil || *product.StripePriceID == ""`
abbrev pub price_or_error : Option Text → Action Text
price_or_error none = raise no_price
price_or_error (some price) = if is_empty price then raise no_price else pure price

-- `sess.Metadata["…"]`: the key may be missing, and its text may be no UUID.
pub data Metadata : Type 0 where
  missing : Metadata
  malformed : Metadata
  id_text : Uuid → Metadata

abbrev pub new_purchase : Uuid → Uuid → Test → Instant → Uuid → Instant → PurchasedTest
new_purchase user_id test_id test bought id created = record {
  id = id;
  user_id = user_id;
  test_id = test_id;
  stripe_session_id = none;
  expires_at = bought +ℤ access_window test.access_window_hours;
  attempts_remaining = test.attempts_allowed;
  created_at = created;
}

abbrev url_or_error : Option Text → Result Text
url_or_error none = err (wrap failed_to_create_session stripe_error)
url_or_error (some url) = ok url

-- What `webhook.ConstructEvent` and `json.Unmarshal` make of the request. A body that cannot be read
-- is answered with 400 as well, here as `unverified`.
pub data Event : Type 0 where
  unverified : Event
  unparsed : Event
  completed : Metadata → Metadata → Event
  other : Event

abbrev pub check_present : Metadata → Metadata → Action ⊤
check_present missing t = raise missing_user_id
check_present u missing = raise missing_test_id
check_present u t = pure tt

abbrev pub parse_id : Metadata → Action Uuid → Action Uuid
parse_id (id_text id) bad = pure id
parse_id _ bad = bad

abbrev pub webhook_reply : Result ⊤ × World → Reply ⊤ × World
webhook_reply (ok a, w) = (success tt, w)
webhook_reply (err e, w) = (internal_error processing_failed, w)

module _ (o : Outside) where
  -- `new_session` is `session.New`, on the price and the two identifiers of the metadata.
  unfoldable pub create_checkout_session :
      (ℕ → Text → Uuid → Uuid → Option Text) → Uuid → Uuid → Action Text
  create_checkout_session new_session user_id test_id = do
    test ← or_wrap (Tests.get_by_id o test_id) test_not_found
    product ← or_wrap (Products.get_by_id o test.product_id) product_not_found
    price ← price_or_error product.stripe_price_id
    λ w. (url_or_error (new_session w.calls price user_id test_id), count_call w)

  -- From `time.Now()` to `Purchases().Create`, which the two ways to buy share word for word.
  abbrev pub record_purchase : Uuid → Uuid → Test → Action Uuid
  record_purchase user_id test_id test = do
    bought ← now o
    id ← new_uuid o
    created ← now o
    or_wrap (Purchases.create o (new_purchase user_id test_id test bought id created))
        failed_to_create_purchase
    pure id

  unfoldable pub handle_checkout_completed : Metadata → Metadata → Action ⊤
  unfolding access_window
  handle_checkout_completed user test_text = do
    check_present user test_text
    user_id ← parse_id user (raise (wrap invalid_user_id uuid_error))
    test_id ← parse_id test_text (raise (wrap invalid_test_id uuid_error))
    test ← or_wrap (Tests.get_by_id o test_id) test_not_found
    record_purchase user_id test_id test
    pure tt

  unfoldable pub create_free_purchase : Uuid → Uuid → Action Uuid
  unfolding access_window
  create_free_purchase user_id test_id = do
    test ← or_wrap (Tests.get_by_id o test_id) test_not_found
    product ← or_wrap (Products.get_by_id o test.product_id) product_not_found
    raise_if (not product.is_free) not_free
    record_purchase user_id test_id test

  unfoldable pub handle : Event → Handler ⊤
  handle unverified w = (bad_request bad_signature, w)
  handle unparsed w = (bad_request invalid_body, w)
  handle (completed user test) w = webhook_reply (handle_checkout_completed user test w)
  handle other w = (success tt, w)
