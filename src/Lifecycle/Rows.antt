-- ===== src/Lifecycle/Rows.antt =====
-- What an `INSERT`, `UPDATE` or `DELETE` that no constraint refuses leaves of the store.
use painkiller.Prelude.{◌≡◌, not, ◌==◌, select, [], ◌∷◌, ◌++◌, some, arith}
use painkiller.Models.{
  Uuid, User, Product, Test, PurchasedTest, Attempt, Environment, Session, ScenarioVersion, Task,
  Check,
}
use painkiller.Store.{World}
use painkiller.Store.Attempts
use painkiller.Store.Purchases
use painkiller.Store.Products
use painkiller.Store.Tests
use painkiller.Store.Environments
use painkiller.Store.Sessions
use painkiller.Store.Users
use painkiller.Store.Scenarios
use painkiller.Store.Table.{modify}

pub attempt_row :
    (a : Attempt) (v w : World)
    → Attempts.insert a v ≡ some w
    → w ≡ record v { attempts = v.attempts ++ a ∷ [] }
attempt_row a v w e = ground arith

pub purchase_row :
    (p : PurchasedTest) (v w : World)
    → Purchases.insert p v ≡ some w
    → w ≡ record v { purchased_tests = v.purchased_tests ++ p ∷ [] }
purchase_row p v w e = ground arith

pub environment_row :
    (x : Environment) (v w : World)
    → Environments.insert x v ≡ some w
    → w ≡ record v { environments = v.environments ++ x ∷ [] }
environment_row x v w e = ground arith

pub session_row :
    (s : Session) (v w : World)
    → Sessions.insert s v ≡ some w
    → w ≡ record v { sessions = v.sessions ++ s ∷ [] }
session_row s v w e = ground arith

pub product_row :
    (p : Product) (v w : World)
    → Products.insert p v ≡ some w
    → w ≡ record v { products = v.products ++ p ∷ [] }
product_row p v w e = ground arith

pub product_set :
    (p : Product) (v w : World)
    → Products.change p v ≡ some w
    → w ≡ record v { products = modify Products.key p.id (Products.set_columns p) v.products }
product_set p v w e = ground arith

pub product_gone :
    (id : Uuid) (v w : World)
    → Products.remove id v ≡ some w
    → w ≡ record v { products = select (λ p. not (p.id == id)) v.products }
product_gone id v w e = ground arith

pub test_row :
    (t : Test) (v w : World)
    → Tests.insert t v ≡ some w
    → w ≡ record v { tests = v.tests ++ t ∷ [] }
test_row t v w e = ground arith

pub test_gone :
    (id : Uuid) (v w : World)
    → Tests.remove id v ≡ some w
    → w ≡ record v { tests = select (λ t. not (t.id == id)) v.tests }
test_gone id v w e = ground arith

pub user_row :
    (u : User) (v w : World)
    → Users.insert u v ≡ some w
    → w ≡ record v { users = v.users ++ u ∷ [] }
user_row u v w e = ground arith

pub version_row :
    (x : ScenarioVersion) (v w : World)
    → Scenarios.insert_version x v ≡ some w
    → w ≡ record v { scenario_versions = v.scenario_versions ++ x ∷ [] }
version_row x v w e = ground arith

pub task_row :
    (t : Task) (v w : World)
    → Scenarios.insert_task t v ≡ some w
    → w ≡ record v { tasks = v.tasks ++ t ∷ [] }
task_row t v w e = ground arith

pub check_row :
    (c : Check) (v w : World)
    → Scenarios.insert_check c v ≡ some w
    → w ≡ record v { checks = v.checks ++ c ∷ [] }
check_row c v w e = ground arith
