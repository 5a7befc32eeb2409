-- ===== src/Admin/Rejected.antt =====
-- What createTest of internal/admin/handler.go leaves behind.
use painkiller.Prelude.{◌≡◌, refl, Bool, true, false, Option, none, some, arith}
use painkiller.Outside.{Outside}
use painkiller.Store.{World}
use painkiller.Store.Products
use painkiller.Store.Tests
use painkiller.Store.Table.{has}
use painkiller.Http.{Reply, created}
use painkiller.Admin.Catalog.{CreateTestRequest, create_test}

abbrev pub is_created : {A : Type 0} → Reply A → Bool
is_created (created a) = true
is_created _ = false

-- No request creates a test: the row refers to the scenario version `uuid.Nil`, so as long as no
-- version has this id, the insert is refused, the product is rolled back, and nothing is written.
pub create_test_rejected :
    (o : Outside) (body : Option CreateTestRequest) (w : World)
    → has (λ v. v.id) 0 w.scenario_versions ≡ false
    → let (reply, w') = create_test o body w in
      (is_created reply ≡ false) × (w' ≡ record w { calls = w'.calls })
unfolding create_test Products.create Tests.create Tests.get_with_product
create_test_rejected o none w h = (refl, refl)
create_test_rejected o (some req) w h = (ground arith, ground arith)
