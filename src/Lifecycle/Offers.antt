-- ===== src/Lifecycle/Offers.antt =====
-- The constraints of migrations/ where tests and products are changed or removed.
use painkiller.Prelude.{
  pos, ◌≤ℤ◌, ◌≡◌, ◌∙◌, refl, true, false, not, ◌==◌, ◌++◌, [], ◌∷◌, some, arith, any, select, ◌⊎◌,
  inl, inr,
}
use mathlib.Core.Path.{subst}
use painkiller.Models.{Uuid, Test, Product, User, ScenarioVersion, Task, Check}
use painkiller.Store.{World}
use painkiller.Store.Purchases
use painkiller.Store.Products
use painkiller.Store.Tests
use painkiller.Store.Users
use painkiller.Store.Scenarios
use painkiller.Store.Table.{modify, has-modify}
use painkiller.Store.Constraints.{has_still, update-IsTable, weaken_rows}
use painkiller.Store.Removal.{select-IsTable, good_row, other_rows, has-removed}
use painkiller.Lifecycle.Writes.{allows_as}
use painkiller.Lifecycle.Consistent.{IsSold, GoodTest, GoodPurchase}

pub product_changed-IsSold :
    (v w : World) (p : Product) → Products.change p v ≡ some w → IsSold v → IsSold w
product_changed-IsSold v w p changed (products, tests, b, rows, e, s) =
    let equal : record v { products = modify Products.key p.id (Products.set_columns p) v.products }
        ≡ w =
      ground arith in
    subst IsSold equal (
      update-IsTable Products.key (λ _. Unit) p.id (Products.set_columns p) v.products (λ q. refl)
          (λ q h. h) products,
      weaken_rows Tests.key _ (GoodTest v.products v.scenario_versions) v.tests
          (λ t (h, k, l). (
            has-modify Products.key t.product_id p.id (Products.set_columns p) v.products
                  (λ q. refl)
                ∙ h,
            k,
            l,
          ))
          tests,
      b,
      rows,
      e,
      s,
    )

allowed_test :
    (v : World) (t : Test)
    → (pos 1 ≤ℤ t.attempts_allowed) ⊎ (any (allows_as t) v.tests ≡ true)
    → IsSold v
    → pos 1 ≤ℤ t.attempts_allowed
allowed_test v t (inl allowed) h = allowed
allowed_test v t (inr same) h =
    good_row (GoodTest v.products v.scenario_versions) (pos 1 ≤ℤ t.attempts_allowed) (allows_as t)
      v.tests (λ u equal (_, _, good). ground (arith, equal, good)) same h.1.1

pub test_changed-IsSold :
    (v : World) (t : Test)
    → (pos 1 ≤ℤ t.attempts_allowed) ⊎ (any (allows_as t) v.tests ≡ true)
    → IsSold v
    → IsSold (record v { tests = modify Tests.key t.id (Tests.set_columns t) v.tests })
test_changed-IsSold v t same h =
    let allowed = allowed_test v t same h in
    let (p, tests, b, rows, e, s) = h in
    (
      p,
      update-IsTable Tests.key (GoodTest v.products v.scenario_versions) t.id (Tests.set_columns t)
          v.tests (λ u. refl) (λ u (k, l, _). (k, l, allowed)) tests,
      weaken_rows Purchases.key _ (GoodPurchase v.users v.tests) v.purchased_tests
          (λ q (k, l, m). (
            k,
            has-modify Tests.key q.test_id t.id (Tests.set_columns t) v.tests (λ u. refl) ∙ l,
            m,
          ))
          b,
      rows,
      e,
      s,
    )

pub test_removed-IsSold :
    (v w : World) (id : Uuid) → Tests.remove id v ≡ some w → IsSold v → IsSold w
test_removed-IsSold v w id removed (p, t, (u, b), rows, e, s) =
    let none_refers : any (λ q. q.test_id == id) v.purchased_tests ≡ false = ground arith in
    let equal : record v { tests = select (λ t. not (t.id == id)) v.tests } ≡ w = ground arith in
    subst IsSold equal (
      p,
      select-IsTable Tests.key (GoodTest v.products v.scenario_versions) (λ t. not (t.id == id))
          v.tests t,
      (
        u,
        other_rows (GoodPurchase v.users v.tests) _ (λ q. q.test_id == id) v.purchased_tests
            (λ q other (k, l, m). (k, has-removed Tests.key q.test_id id v.tests other ∙ l, m))
            none_refers b,
      ),
      rows,
      e,
      s,
    )

pub product_removed-IsSold :
    (v w : World) (id : Uuid) → Products.remove id v ≡ some w → IsSold v → IsSold w
product_removed-IsSold v w id removed (p, (u, t), b, rows, e, s) =
    let none_refers : any (λ t. t.product_id == id) v.tests ≡ false = ground arith in
    let equal : record v { products = select (λ q. not (q.id == id)) v.products } ≡ w =
      ground arith in
    subst IsSold equal (
      select-IsTable Products.key (λ _. Unit) (λ q. not (q.id == id)) v.products p,
      (
        u,
        other_rows (GoodTest v.products v.scenario_versions) _ (λ t. t.product_id == id) v.tests
            (λ t other (k, l, m).
              (has-removed Products.key t.product_id id v.products other ∙ k, l, m))
            none_refers t,
      ),
      b,
      rows,
      e,
      s,
    )

pub user_inserted-IsSold :
    (v w : World) (x : User) → Users.insert x v ≡ some w → IsSold v → IsSold w
user_inserted-IsSold v w x inserted (p, t, b, rows, e, s) =
    let equal : record v { users = v.users ++ x ∷ [] } ≡ w = ground arith in
    subst IsSold equal (
      p,
      t,
      weaken_rows Purchases.key _ (GoodPurchase v.users v.tests) v.purchased_tests
          (λ q (k, l, m). (has_still (λ u. u.id) q.user_id v.users x k, l, m)) b,
      rows,
      e,
      s,
    )

pub version_inserted-IsSold :
    (v w : World) (x : ScenarioVersion)
    → Scenarios.insert_version x v ≡ some w
    → IsSold v
    → IsSold w
version_inserted-IsSold v w x inserted (p, t, b, rows, e, s) =
    let equal : record v { scenario_versions = v.scenario_versions ++ x ∷ [] } ≡ w = ground arith in
    subst IsSold equal (
      p,
      weaken_rows Tests.key _ (GoodTest v.products v.scenario_versions) v.tests
          (λ t (k, l, m).
            (k, has_still (λ v. v.id) t.scenario_version_id v.scenario_versions x l, m))
          t,
      b,
      rows,
      e,
      s,
    )

pub task_inserted-IsSold :
    (v w : World) (x : Task) → Scenarios.insert_task x v ≡ some w → IsSold v → IsSold w
task_inserted-IsSold v w x inserted h =
    let equal : record v { tasks = v.tasks ++ x ∷ [] } ≡ w = ground arith in subst IsSold equal h

pub check_inserted-IsSold :
    (v w : World) (x : Check) → Scenarios.insert_check x v ≡ some w → IsSold v → IsSold w
check_inserted-IsSold v w x inserted h =
    let equal : record v { checks = v.checks ++ x ∷ [] } ≡ w = ground arith in subst IsSold equal h
