-- ===== src/Lifecycle/Constraints.antt =====
-- Every write of the program respects the constraints of migrations/, and so does every run.
use painkiller.Prelude.{
  pos, ◌≤ℤ◌, ◌≡◌, ◌∙◌, refl, sym, true, false, [], ◌∷◌, ◌++◌, some, arith, Option, Text,
}
use mathlib.Core.Path.{subst}
use painkiller.Models.{Uuid, Test, Product, Environment, Session}
use painkiller.Store.{World}
use painkiller.Store.Attempts
use painkiller.Store.Purchases
use painkiller.Store.Products
use painkiller.Store.Tests
use painkiller.Store.Environments
use painkiller.Store.Sessions
use painkiller.Store.Table.{has, modify, has-modify}
use painkiller.Store.Constraints.{has_still, update-IsTable, insert_row, weaken_rows, found_Good}
use painkiller.Attempts.Service.{new_attempt}
use painkiller.Billing.{new_purchase}
use painkiller.Lifecycle.Writes.{
  ◌↝◌, ◌↝*◌, none_yet, more, call, move, request, score, queue, take, give, buy, build,
  set_environment, admit, enter, add_product, add_test, change_product, change_test, remove_test,
  remove_product, add_user, add_version, add_task, add_check,
}
use painkiller.Lifecycle.Consistent.{
  IsConsistent, IsSold, GoodTest, GoodPurchase, GoodEnvironment, GoodSession, attempt_written,
  attempt_inserted-IsSold, purchase_written, purchase_inserted-IsSold, take_good, give_good,
}
use painkiller.Lifecycle.Offers.{
  product_changed-IsSold, test_changed-IsSold, test_removed-IsSold, product_removed-IsSold,
  user_inserted-IsSold, version_inserted-IsSold, task_inserted-IsSold, check_inserted-IsSold,
}
use painkiller.Lifecycle.Stocked.{writes-IsStocked}
use painkiller.Lifecycle.Server.{Runs}
use painkiller.Lifecycle.Steps.{Runs-writes}

environment_inserted-IsSold :
    (v w : World) (x : Environment) → Environments.insert x v ≡ some w → IsSold v → IsSold w
environment_inserted-IsSold v w x inserted (p, t, b, rows, e, s) =
    let fresh : has Environments.key x.id v.environments ≡ false = ground arith in
    let good : has Attempts.key x.attempt_id v.attempts ≡ true = ground arith in
    let equal : record v { environments = v.environments ++ x ∷ [] } ≡ w = ground arith in
    subst IsSold equal (
      p,
      t,
      b,
      rows,
      insert_row Environments.key (GoodEnvironment v.attempts) x v.environments fresh good e,
      weaken_rows Sessions.key _ (GoodSession v.attempts v.environments) v.sessions
          (λ s (h, k). (h, has_still Environments.key s.environment_id v.environments x k)) s,
    )

environment_written :
    (v : World) (id : Uuid) (f : Environment → Environment)
    → ((e : Environment) → Environments.key (f e) ≡ Environments.key e)
    → ((e : Environment) → (f e).attempt_id ≡ e.attempt_id)
    → IsSold v
    → IsSold (record v { environments = modify Environments.key id f v.environments })
environment_written v id f same_key same_attempt (p, t, b, rows, e, s) = (
  p,
  t,
  b,
  rows,
  update-IsTable Environments.key (GoodEnvironment v.attempts) id f v.environments same_key
      (λ e h. ground (arith, same_attempt e, h)) e,
  weaken_rows Sessions.key _ (GoodSession v.attempts v.environments) v.sessions
      (λ s (h, k).
        (h, has-modify Environments.key s.environment_id id f v.environments same_key ∙ k))
      s,
)

session_inserted-IsSold :
    (v w : World) (x : Session) → Sessions.insert x v ≡ some w → IsSold v → IsSold w
session_inserted-IsSold v w x inserted (p, t, b, rows, e, s) =
    let fresh : has Sessions.key x.id v.sessions ≡ false = ground arith in
    let attempt : has Attempts.key x.attempt_id v.attempts ≡ true = ground arith in
    let place : has Environments.key x.environment_id v.environments ≡ true = ground arith in
    let equal : record v { sessions = v.sessions ++ x ∷ [] } ≡ w = ground arith in
    subst IsSold equal (
      p,
      t,
      b,
      rows,
      e,
      insert_row Sessions.key (GoodSession v.attempts v.environments) x v.sessions fresh
          (attempt, place) s,
    )

product_inserted-IsSold :
    (v w : World) (x : Product) → Products.insert x v ≡ some w → IsSold v → IsSold w
product_inserted-IsSold v w x inserted (p, t, b, rows, e, s) =
    let fresh : has Products.key x.id v.products ≡ false = ground arith in
    let equal : record v { products = v.products ++ x ∷ [] } ≡ w = ground arith in
    subst IsSold equal (
      insert_row Products.key (λ _. Unit) x v.products fresh tt p,
      weaken_rows Tests.key _ (GoodTest v.products v.scenario_versions) v.tests
          (λ t (h, k, l). (has_still Products.key t.product_id v.products x h, k, l)) t,
      b,
      rows,
      e,
      s,
    )

test_inserted-IsSold :
    (v w : World) (x : Test)
    → Tests.insert x v ≡ some w
    → pos 1 ≤ℤ x.attempts_allowed
    → IsSold v
    → IsSold w
test_inserted-IsSold v w x inserted allowed (p, t, b, rows, e, s) =
    let fresh : has Tests.key x.id v.tests ≡ false = ground arith in
    let product : has Products.key x.product_id v.products ≡ true = ground arith in
    let version : has (λ v. v.id) x.scenario_version_id v.scenario_versions ≡ true = ground arith in
    let equal : record v { tests = v.tests ++ x ∷ [] } ≡ w = ground arith in
    subst IsSold equal (
      p,
      insert_row Tests.key (GoodTest v.products v.scenario_versions) x v.tests fresh
          (product, version, allowed) t,
      weaken_rows Purchases.key _ (GoodPurchase v.users v.tests) v.purchased_tests
          (λ q (h, k, l). (h, has_still Tests.key q.test_id v.tests x k, l)) b,
      rows,
      e,
      s,
    )

write-IsSold : (v w : World) → v ↝ w → IsSold v → IsSold w
write-IsSold v w (call n e) h = subst IsSold (sym e) h
write-IsSold v w (move id a to asked found valid e) h =
    subst IsSold (sym e) (attempt_written v id (Attempts.set_status to) (λ a. refl) (λ a. refl) h)
write-IsSold v w (request id purchase created e) h =
    attempt_inserted-IsSold v w (new_attempt id purchase created) e h
write-IsSold v w (score id n m e) h =
    subst IsSold (sym e) (attempt_written v id (Attempts.set_score n m) (λ a. refl) (λ a. refl) h)
write-IsSold v w (queue j e) h = subst IsSold (sym e) h
write-IsSold v w (take id e) h =
    subst IsSold (sym e)
      (purchase_written v id Purchases.take_one (λ p. ground arith) (take_good v.users v.tests) h)
write-IsSold v w (give id e) h =
    subst IsSold (sym e)
      (purchase_written v id Purchases.give_one (λ p. refl) (give_good v.users v.tests) h)
write-IsSold v w (buy user test_id id t bought created found e) h =
    let good =
      found_Good Tests.key (GoodTest v.products v.scenario_versions) test_id t v.tests found
        h.1.1 in
    let allowed : pos 0 ≤ℤ t.attempts_allowed = ground (arith, good.2) in
    purchase_inserted-IsSold v w (new_purchase user test_id t bought id created) e allowed h
write-IsSold v w (build x e) h = environment_inserted-IsSold v w x e h
write-IsSold v w (set_environment id s e) h =
    subst IsSold (sym e)
      (environment_written v id (Environments.set_status s) (λ e. refl) (λ e. refl) h)
write-IsSold v w (admit s e) h = session_inserted-IsSold v w s e h
write-IsSold v w (enter id t e) (p, t', b, rows, es, s) = subst IsSold (sym e) (
  p,
  t',
  b,
  rows,
  es,
  update-IsTable Sessions.key (GoodSession v.attempts v.environments) id
      (Sessions.set_first_opened_at t) v.sessions (λ s. refl) (λ s h. h) s,
)
write-IsSold v w (add_product p e) h = product_inserted-IsSold v w p e h
write-IsSold v w (add_test t allowed e) h = test_inserted-IsSold v w t e allowed h
write-IsSold v w (change_product p e) h = product_changed-IsSold v w p e h
write-IsSold v w (change_test t allowed e) h =
    subst IsSold (sym e) (test_changed-IsSold v t allowed h)
write-IsSold v w (remove_test id e) h = test_removed-IsSold v w id e h
write-IsSold v w (remove_product id e) h = product_removed-IsSold v w id e h
write-IsSold v w (add_user u plain e) h = user_inserted-IsSold v w u e h
write-IsSold v w (add_version x e) h = version_inserted-IsSold v w x e h
write-IsSold v w (add_task t e) h = task_inserted-IsSold v w t e h
write-IsSold v w (add_check c e) h = check_inserted-IsSold v w c e h

writes-IsSold : (v w : World) → v ↝* w → IsSold v → IsSold w
writes-IsSold v _ none_yet h = h
writes-IsSold v _ (more {u} {w} steps step) h = write-IsSold u w step (writes-IsSold v u steps h)

-- Whatever events run, one after the other in any order and with any failures: if in each of the ten
-- tables the primary keys are unique and every reference leads to a row, every test allows an attempt
-- and no purchase has a negative number of attempts left, then all of this still holds.
pub Runs-IsConsistent :
    (proxy : Option Text) (v w : World) → Runs proxy v w → IsConsistent v → IsConsistent w
Runs-IsConsistent proxy v w run (stocked, sold) =
    let steps = Runs-writes proxy v w run in
    (writes-IsStocked v w steps stocked, writes-IsSold v w steps sold)
