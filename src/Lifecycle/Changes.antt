-- ===== src/Lifecycle/Changes.antt =====
-- What a write does to the table `attempts`.
use painkiller.Prelude.{ℤ, ◌≡◌, ap, false, List, [], ◌∷◌, ◌++◌, some, true, arith}
use painkiller.Models.{
  Uuid, Instant, Attempt, AttemptStatus, Product, Test, PurchasedTest, User, ScenarioVersion, Task,
  Check, Environment, Session,
}
use painkiller.Store.{World}
use painkiller.Store.Attempts
use painkiller.Store.Purchases
use painkiller.Store.Products
use painkiller.Store.Tests
use painkiller.Store.Environments
use painkiller.Store.Sessions
use painkiller.Store.Users
use painkiller.Store.Scenarios
use painkiller.Store.Table.{lookup, modify, has}
use painkiller.Attempts.StateMachine.{valid_transition}
use painkiller.Attempts.Service.{new_attempt}
use painkiller.Billing.{new_purchase}
use painkiller.Lifecycle.Writes.{
  Asked, ◌↝◌, call, move, request, score, queue, take, give, buy, build, set_environment, admit,
  enter, add_product, add_test, change_product, change_test, remove_test, remove_product, add_user,
  add_version, add_task, add_check,
}

-- One table after another.
pub data Change (s t : List Attempt) : Type 0 where
  unchanged : t ≡ s → Change s t
  moved :
      (id : Uuid) (a : Attempt) (to : AttemptStatus)
      → Asked to
      → lookup Attempts.key id s ≡ some a
      → valid_transition a.status to ≡ true
      → t ≡ modify Attempts.key id (Attempts.set_status to) s
      → Change s t
  scored :
      (id : Uuid) (n m : ℤ) → t ≡ modify Attempts.key id (Attempts.set_score n m) s → Change s t
  requested :
      (id purchase : Uuid) (created : Instant)
      → has Attempts.key id s ≡ false
      → t ≡ s ++ new_attempt id purchase created ∷ []
      → Change s t

attempt_inserted :
    (a : Attempt) (v w : World)
    → Attempts.insert a v ≡ some w
    → (has Attempts.key a.id v.attempts ≡ false) × (w.attempts ≡ v.attempts ++ a ∷ [])
attempt_inserted a v w e = (ground arith, ground arith)

purchase_inserted :
    (p : PurchasedTest) (v w : World) → Purchases.insert p v ≡ some w → w.attempts ≡ v.attempts
purchase_inserted p v w e = ground arith

environment_inserted :
    (x : Environment) (v w : World) → Environments.insert x v ≡ some w → w.attempts ≡ v.attempts
environment_inserted x v w e = ground arith

session_inserted :
    (x : Session) (v w : World) → Sessions.insert x v ≡ some w → w.attempts ≡ v.attempts
session_inserted x v w e = ground arith

product_inserted :
    (x : Product) (v w : World) → Products.insert x v ≡ some w → w.attempts ≡ v.attempts
product_inserted x v w e = ground arith

test_inserted : (x : Test) (v w : World) → Tests.insert x v ≡ some w → w.attempts ≡ v.attempts
test_inserted x v w e = ground arith

product_changed :
    (p : Product) (v w : World) → Products.change p v ≡ some w → w.attempts ≡ v.attempts
product_changed p v w e = ground arith

test_removed : (id : Uuid) (v w : World) → Tests.remove id v ≡ some w → w.attempts ≡ v.attempts
test_removed id v w e = ground arith

product_removed :
    (id : Uuid) (v w : World) → Products.remove id v ≡ some w → w.attempts ≡ v.attempts
product_removed id v w e = ground arith

user_inserted : (u : User) (v w : World) → Users.insert u v ≡ some w → w.attempts ≡ v.attempts
user_inserted u v w e = ground arith

version_inserted :
    (x : ScenarioVersion) (v w : World)
    → Scenarios.insert_version x v ≡ some w
    → w.attempts ≡ v.attempts
version_inserted x v w e = ground arith

task_inserted :
    (t : Task) (v w : World) → Scenarios.insert_task t v ≡ some w → w.attempts ≡ v.attempts
task_inserted t v w e = ground arith

check_inserted :
    (c : Check) (v w : World) → Scenarios.insert_check c v ≡ some w → w.attempts ≡ v.attempts
check_inserted c v w e = ground arith

pub write-Change : (v w : World) → v ↝ w → Change v.attempts w.attempts
write-Change v w (call n e) = unchanged (ap (λ u. u.attempts) e)
write-Change v w (move id a to asked found valid e) =
    moved id a to asked found valid (ap (λ u. u.attempts) e)
write-Change v w (request id purchase created e) =
    let (fresh, after) = attempt_inserted (new_attempt id purchase created) v w e in
    requested id purchase created fresh after
write-Change v w (score id n m e) = scored id n m (ap (λ u. u.attempts) e)
write-Change v w (queue j e) = unchanged (ap (λ u. u.attempts) e)
write-Change v w (take id e) = unchanged (ap (λ u. u.attempts) e)
write-Change v w (give id e) = unchanged (ap (λ u. u.attempts) e)
write-Change v w (buy user test_id id t bought created found e) =
    unchanged (purchase_inserted (new_purchase user test_id t bought id created) v w e)
write-Change v w (build x e) = unchanged (environment_inserted x v w e)
write-Change v w (set_environment id s e) = unchanged (ap (λ u. u.attempts) e)
write-Change v w (admit s e) = unchanged (session_inserted s v w e)
write-Change v w (enter id t e) = unchanged (ap (λ u. u.attempts) e)
write-Change v w (add_product p e) = unchanged (product_inserted p v w e)
write-Change v w (add_test t pos e) = unchanged (test_inserted t v w e)
write-Change v w (change_product p e) = unchanged (product_changed p v w e)
write-Change v w (change_test t allowed e) = unchanged (ap (λ u. u.attempts) e)
write-Change v w (remove_test id e) = unchanged (test_removed id v w e)
write-Change v w (remove_product id e) = unchanged (product_removed id v w e)
write-Change v w (add_user u plain e) = unchanged (user_inserted u v w e)
write-Change v w (add_version x e) = unchanged (version_inserted x v w e)
write-Change v w (add_task t e) = unchanged (task_inserted t v w e)
write-Change v w (add_check c e) = unchanged (check_inserted c v w e)
