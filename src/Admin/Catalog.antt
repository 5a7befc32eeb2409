-- ===== src/Admin/Catalog.antt =====
-- createTest and updateTest of internal/admin/handler.go.
use painkiller.Prelude.{
  ◌+◌, ℤ, pos, leb_ℤ, Bool, true, false, not, ◌&&◌, ◌||◌, Option, none, some, Text, is_empty,
  if◌then◌else◌,
}
use painkiller.Outside.{Outside}
use painkiller.Models.{Uuid, Instant, Product, Test}
use painkiller.Store.Products
use painkiller.Store.Tests
use painkiller.Store.Tests.{TestWithProduct}
use painkiller.Http.{
  Handler, success, created, bad_request, not_found, internal_error, given, or_refuse, refuse_if,
  invalid_id, row_not_found, could_not_write, title_required, price_required, must_be_positive,
  invalid_body,
}
use painkiller.Admin.Transaction.{begin_or_commit, or_roll_back}

pub record CreateTestRequest : Type 0 where
  pub title : Text
  pub description : Text
  pub stripe_price_id : Option Text
  pub is_free : Bool
  pub duration_minutes : ℤ
  pub access_window_hours : ℤ
  pub attempts_allowed : ℤ

pub record UpdateTestRequest : Type 0 where
  pub title : Option Text
  pub description : Option Text
  pub stripe_price_id : Option Text
  pub is_free : Option Bool
  pub duration_minutes : Option ℤ
  pub access_window_hours : Option ℤ
  pub attempts_allowed : Option ℤ

-- `StripePriceID == nil || *StripePriceID == ""`
abbrev pub no_price : Option Text → Bool
no_price none = true
no_price (some price) = is_empty price

abbrev pub not_positive : ℤ → Bool
not_positive n = leb_ℤ n (pos 0)

abbrev pub new_product : CreateTestRequest → Uuid → Instant → Product
new_product req id now = record {
  id = id;
  stripe_price_id = req.stripe_price_id;
  title = req.title;
  description = req.description;
  is_free = req.is_free;
  created_at = now;
}

-- `ScenarioVersionID` is left at `uuid.Nil`.
abbrev pub new_test : CreateTestRequest → Uuid → Uuid → Instant → Test
new_test req id product_id now = record {
  id = id;
  product_id = product_id;
  scenario_version_id = 0;
  duration_minutes = req.duration_minutes;
  access_window_hours = req.access_window_hours;
  attempts_allowed = req.attempts_allowed;
  created_at = now;
}

-- A field of the request, where it is there.
abbrev or_old : {A : Type 0} → Option A → A → A
or_old none old = old
or_old (some a) old = a

-- An empty price removes the price.
abbrev new_price : Option Text → Option Text → Option Text
new_price none old = old
new_price (some price) old = if is_empty price then none else some price

abbrev pub changed_product : UpdateTestRequest → Product → Product
changed_product req p = record p {
  title = or_old req.title p.title;
  description = or_old req.description p.description;
  stripe_price_id = new_price req.stripe_price_id p.stripe_price_id;
  is_free = or_old req.is_free p.is_free;
}

abbrev pub changed_test : UpdateTestRequest → Test → Test
changed_test req t = record t {
  duration_minutes = or_old req.duration_minutes t.duration_minutes;
  access_window_hours = or_old req.access_window_hours t.access_window_hours;
  attempts_allowed = or_old req.attempts_allowed t.attempts_allowed;
}

abbrev pub is_bad : Option ℤ → Bool
is_bad none = false
is_bad (some n) = not_positive n

module _ (o : Outside) where
  -- The two inserts in one transaction, and the row that is read back.
  abbrev insert_both : Product → Test → Handler TestWithProduct
  insert_both product test w =
      or_refuse (internal_error could_not_write) (begin_or_commit o w) λ _ before.
        or_roll_back before (Products.create o product before) λ _ w.
          or_roll_back before (Tests.create o test w) λ _ w.
            or_roll_back before (begin_or_commit o w) λ _ w.
              or_refuse (internal_error could_not_write) (Tests.get_with_product o test.id w)
                λ result w. (created result, w)

  -- With the instant and the two identifiers at hand.
  abbrev insert_new : CreateTestRequest → Handler TestWithProduct
  insert_new req w =
      let n = w.calls in
      let product = new_product req (o.new_uuid (n + 1)) (o.clock n) in
      let test = new_test req (o.new_uuid (n + 1 + 1)) product.id (o.clock n) in
      insert_both product test (record w { calls = n + 1 + 1 + 1 })

  -- `none` is a body that cannot be read.
  unfoldable pub create_test : Option CreateTestRequest → Handler TestWithProduct
  create_test body = given body (bad_request invalid_body) λ req.
      refuse_if (is_empty req.title) (bad_request title_required) (
        refuse_if
          (not_positive req.duration_minutes
            || not_positive req.access_window_hours
            || not_positive req.attempts_allowed)
          (bad_request must_be_positive)
          (refuse_if (not req.is_free && no_price req.stripe_price_id) (bad_request price_required)
            (insert_new req)))

  -- From the write to the product on: the tests of the numbers come after it.
  abbrev pub write_changes :
      Uuid → UpdateTestRequest → TestWithProduct → Product → Handler TestWithProduct
  write_changes test_id req existing product w =
      or_refuse (internal_error could_not_write) (Products.update o product w) λ _.
        refuse_if
          (is_bad req.duration_minutes
            || is_bad req.access_window_hours
            || is_bad req.attempts_allowed)
          (bad_request must_be_positive)
          λ w.
            or_refuse (internal_error could_not_write)
              (Tests.update o (changed_test req existing.test) w)
              λ _ w.
                or_refuse (internal_error could_not_write) (Tests.get_with_product o test_id w)
                  λ result w. (success result, w)

  unfoldable pub update_test : Option Uuid → Option UpdateTestRequest → Handler TestWithProduct
  update_test param body = given param (bad_request invalid_id) λ test_id.
      given body (bad_request invalid_body) λ req w.
        or_refuse (not_found row_not_found) (Tests.get_with_product o test_id w) λ existing w.
          or_refuse (internal_error could_not_write)
            (Products.get_by_id o existing.test.product_id w)
            λ product.
              let product' = changed_product req product in
              refuse_if (not product'.is_free && no_price product'.stripe_price_id)
                (bad_request price_required) (write_changes test_id req existing product')
