-- ===== src/Admin/Siblings.antt =====
-- Deleting one of several tests of a product, in internal/admin/handler.go.
use painkiller.Prelude.{
  ◌≡◌, Bool, true, false, not, ◌&&◌, ◌==◌, List, [], ◌∷◌, some, arith, any, select,
}
use painkiller.Outside.{Outside}
use painkiller.Models.{Uuid, Test}
use painkiller.Store.{World}
use painkiller.Store.Products
use painkiller.Store.Tests
use painkiller.Store.Table.{lookup}
use painkiller.Http.{Reply, success}
use painkiller.Admin.{delete_test}

-- Another test than this one offers the product.
abbrev pub has_sibling : Uuid → Uuid → List Test → Bool
has_sibling id product ts = any (λ t. t.product_id == product && not (t.id == id)) ts

sibling_stays :
    (id product : Uuid) (ts : List Test)
    → has_sibling id product ts ≡ true
    → any (λ t. t.product_id == product) (select (λ t. not (t.id == id)) ts) ≡ true
sibling_stays id product [] h = h
sibling_stays id product (t ∷ ts) h = ground (arith, sibling_stays id product ts)

abbrev pub is_success : {A : Type 0} → Reply A → Bool
is_success (success a) = true
is_success _ = false

-- A test whose product another test offers too is never deleted: the answer is no success, and
-- nothing is written.
pub delete_test-sibling :
    (o : Outside) (id : Uuid) (t : Test) (w : World)
    → lookup Tests.key id w.tests ≡ some t
    → has_sibling id t.product_id w.tests ≡ true
    → (is_success (delete_test o (some id) w).0 ≡ false)
      × ((delete_test o (some id) w).1 ≡ record w { calls = (delete_test o (some id) w).1.calls })
unfolding delete_test Tests.get_by_id Tests.has_purchases Tests.delete Products.delete
delete_test-sibling o id t w found sibling =
    let stays = sibling_stays id t.product_id w.tests sibling in
    (ground (arith, found, stays), ground (arith, found, stays))
