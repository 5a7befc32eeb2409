-- ===== src/Admin/Examples.antt =====
-- The theorems on internal/admin at work on the example shop.
use painkiller.Prelude.{◌≡◌, refl, pos, false, true, some, none, codes, [], ◌∷◌}
use painkiller.Store.Table.{has}
use painkiller.Example.{shop, calm, free_test}
use painkiller.Admin.Catalog.{CreateTestRequest, create_test}
use painkiller.Store.{World}
use painkiller.Store.Table.{lookup}
use painkiller.Admin.{delete_test}
use painkiller.Admin.Siblings.{is_success, delete_test-sibling}
use painkiller.Admin.Rejected.{is_created, create_test_rejected}

-- A request that passes every test of the handler.
abbrev good_request : CreateTestRequest
good_request = record {
  title = codes "Kubernetes";
  description = codes "";
  stripe_price_id = none;
  is_free = true;
  duration_minutes = pos 60;
  access_window_hours = pos 24;
  attempts_allowed = pos 2;
}

create_test_rejected_example :
    let (reply, w') = create_test calm (some good_request) shop in
    (is_created reply ≡ false) × (w' ≡ record shop { calls = w'.calls })
unfolding has
create_test_rejected_example = create_test_rejected calm (some good_request) shop refl

-- A second test of the product, and no purchase.
abbrev twins : World
twins = record shop { tests = free_test ∷ record free_test { id = 20 } ∷ []; purchased_tests = [] }

delete_test-sibling_example :
    (is_success (delete_test calm (some 4) twins).0 ≡ false)
    × ((delete_test calm (some 4) twins).1
        ≡ record twins { calls = (delete_test calm (some 4) twins).1.calls })
unfolding lookup
delete_test-sibling_example = delete_test-sibling calm 4 free_test twins refl refl
