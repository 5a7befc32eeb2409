-- ===== src/Catalog.antt =====
-- internal/catalog/handler.go: the tests on offer, for everyone.
use painkiller.Prelude.{ℤ, Bool, List, map, Text}
use painkiller.Outside.{Outside}
use painkiller.Models.{Uuid}
use painkiller.Store.Tests
use painkiller.Store.Tests.{TestWithProduct}
use painkiller.Http.{Handler, success, internal_error, or_refuse, could_not_write}

-- `testResponse`: neither the price nor the product's identifier is shown.
pub record TestResponse : Type 0 where
  pub id : Uuid
  pub title : Text
  pub description : Text
  pub duration_minutes : ℤ
  pub access_window_hours : ℤ
  pub attempts_allowed : ℤ
  pub is_free : Bool

abbrev pub to_response : TestWithProduct → TestResponse
to_response t = record {
  id = t.test.id;
  title = t.product_title;
  description = t.product_description;
  duration_minutes = t.test.duration_minutes;
  access_window_hours = t.test.access_window_hours;
  attempts_allowed = t.test.attempts_allowed;
  is_free = t.product_is_free;
}

unfoldable pub list_tests : Outside → Handler (List TestResponse)
list_tests o w =
    or_refuse (internal_error could_not_write) (Tests.list_with_product o w)
      λ tests w. (success (map to_response tests), w)
