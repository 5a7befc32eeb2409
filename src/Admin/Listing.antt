-- ===== src/Admin/Listing.antt =====
-- What internal/admin/handler.go shows of the tests and the environments.
use painkiller.Prelude.{ℤ, Bool, Option, List, [], map, Text}
use painkiller.Outside.{Outside}
use painkiller.Models.{Uuid, Environment}
use painkiller.Store.Tests
use painkiller.Store.Tests.{TestWithProduct}
use painkiller.Http.{
  Handler, success, bad_request, not_found, internal_error, given, or_refuse, invalid_id,
  row_not_found, could_not_write,
}

-- `adminTestResponse`
pub record AdminTestResponse : Type 0 where
  pub id : Uuid
  pub product_id : Uuid
  pub title : Text
  pub description : Text
  pub stripe_price_id : Option Text
  pub is_free : Bool
  pub duration_minutes : ℤ
  pub access_window_hours : ℤ
  pub attempts_allowed : ℤ

abbrev pub test_with_product_to_response : TestWithProduct → AdminTestResponse
test_with_product_to_response t = record {
  id = t.test.id;
  product_id = t.test.product_id;
  title = t.product_title;
  description = t.product_description;
  stripe_price_id = t.product_stripe_price_id;
  is_free = t.product_is_free;
  duration_minutes = t.test.duration_minutes;
  access_window_hours = t.test.access_window_hours;
  attempts_allowed = t.test.attempts_allowed;
}

module _ (o : Outside) where
  -- `listTests`
  unfoldable pub list_all_tests : Handler (List AdminTestResponse)
  list_all_tests w =
      or_refuse (internal_error could_not_write) (Tests.list_with_product o w)
        λ tests w. (success (map test_with_product_to_response tests), w)

  unfoldable pub get_test : Option Uuid → Handler AdminTestResponse
  get_test param = given param (bad_request invalid_id) λ test_id w.
      or_refuse (not_found row_not_found) (Tests.get_with_product o test_id w)
        λ test w. (success (test_with_product_to_response test), w)

-- The list is always empty.
unfoldable pub list_environments : Handler (List Environment)
list_environments w = (success [], w)
