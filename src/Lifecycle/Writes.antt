-- ===== src/Lifecycle/Writes.antt =====
-- What the program writes, abstractly: each statement that changes the store, and sequences of them.
use painkiller.Prelude.{
  ◌⊎◌, any, Bool, false, ◌&&◌, leb_ℤ, ℕ, ◌+◌, ℤ, pos, ◌≤ℤ◌, ◌≡◌, refl, true, [], ◌∷◌, ◌++◌, some,
}
use painkiller.Models.{
  Uuid, Instant, Attempt, AttemptStatus, Product, Test, User, ScenarioVersion, Task, Check,
  Environment, EnvironmentStatus, Session, attempt_requested, environment_provisioning,
  environment_ready, terminal_opened, running, submitted, expired, grading, scored, destroyed,
  provision_failed,
}
use painkiller.Store.{World, Job, count_call}
use painkiller.Store.Attempts
use painkiller.Store.Purchases
use painkiller.Store.Products
use painkiller.Store.Tests
use painkiller.Store.Environments
use painkiller.Store.Sessions
use painkiller.Store.Users
use painkiller.Store.Scenarios
use painkiller.Store.Table.{lookup, modify}
use painkiller.Attempts.StateMachine.{valid_transition}
use painkiller.Attempts.Service.{new_attempt}
use painkiller.Billing.{new_purchase}

-- The statuses that the program's calls of `TransitionAttempt` ask for.
pub data Asked : AttemptStatus → Type 0 where
  ask_requested : Asked attempt_requested
  ask_provisioning : Asked environment_provisioning
  ask_ready : Asked environment_ready
  ask_opened : Asked terminal_opened
  ask_running : Asked running
  ask_submitted : Asked submitted
  ask_expired : Asked expired
  ask_grading : Asked grading
  ask_scored : Asked scored
  ask_failed : Asked provision_failed
  ask_destroyed : Asked destroyed

-- The two tests allow as many attempts.
abbrev pub allows_as : Test → Test → Bool
allows_as t u =
    leb_ℤ t.attempts_allowed u.attempts_allowed && leb_ℤ u.attempts_allowed t.attempts_allowed

-- The state `w` is `v` after one statement; a call that writes nothing counts as one.
infix 40 ◌↝◌ ◌↝*◌
pub data ◌↝◌ (v w : World) : Type 0 where
  call : (n : ℕ) → w ≡ record v { calls = n } → v ↝ w
  move :
      (id : Uuid) (a : Attempt) (to : AttemptStatus)
      → Asked to
      → lookup Attempts.key id v.attempts ≡ some a
      → valid_transition a.status to ≡ true
      → w ≡ record v { attempts = modify Attempts.key id (Attempts.set_status to) v.attempts }
      → v ↝ w
  request :
      (id purchase : Uuid) (created : Instant)
      → Attempts.insert (new_attempt id purchase created) v ≡ some w
      → v ↝ w
  score :
      (id : Uuid) (n m : ℤ)
      → w ≡ record v { attempts = modify Attempts.key id (Attempts.set_score n m) v.attempts }
      → v ↝ w
  queue : (j : Job) → w ≡ record v { jobs = v.jobs ++ j ∷ [] } → v ↝ w
  take :
      (id : Uuid)
      → w ≡ record v {
        purchased_tests = modify Purchases.key id Purchases.take_one v.purchased_tests;
      }
      → v ↝ w
  give :
      (id : Uuid)
      → w ≡ record v {
        purchased_tests = modify Purchases.key id Purchases.give_one v.purchased_tests;
      }
      → v ↝ w
  buy :
      (user test_id id : Uuid) (t : Test) (bought created : Instant)
      → lookup Tests.key test_id v.tests ≡ some t
      → Purchases.insert (new_purchase user test_id t bought id created) v ≡ some w
      → v ↝ w
  build : (e : Environment) → Environments.insert e v ≡ some w → v ↝ w
  set_environment :
      (id : Uuid) (s : EnvironmentStatus)
      → w ≡ record v {
        environments = modify Environments.key id (Environments.set_status s) v.environments;
      }
      → v ↝ w
  admit : (s : Session) → Sessions.insert s v ≡ some w → v ↝ w
  enter :
      (id : Uuid) (t : Instant)
      → w
        ≡ record v { sessions = modify Sessions.key id (Sessions.set_first_opened_at t) v.sessions }
      → v ↝ w
  add_product : (p : Product) → Products.insert p v ≡ some w → v ↝ w
  add_test : (t : Test) → pos 1 ≤ℤ t.attempts_allowed → Tests.insert t v ≡ some w → v ↝ w
  change_product : (p : Product) → Products.change p v ≡ some w → v ↝ w
  change_test :
      (t : Test)
      → (pos 1 ≤ℤ t.attempts_allowed) ⊎ (any (allows_as t) v.tests ≡ true)
      → w ≡ record v { tests = modify Tests.key t.id (Tests.set_columns t) v.tests }
      → v ↝ w
  remove_test : (id : Uuid) → Tests.remove id v ≡ some w → v ↝ w
  remove_product : (id : Uuid) → Products.remove id v ≡ some w → v ↝ w
  add_user : (u : User) → u.is_admin ≡ false → Users.insert u v ≡ some w → v ↝ w
  add_version : (x : ScenarioVersion) → Scenarios.insert_version x v ≡ some w → v ↝ w
  add_task : (t : Task) → Scenarios.insert_task t v ≡ some w → v ↝ w
  add_check : (c : Check) → Scenarios.insert_check c v ≡ some w → v ↝ w

-- Any number of statements.
pub data ◌↝*◌ (v : World) : World → Type 0 where
  none_yet : v ↝* v
  more : {u w : World} → v ↝* u → u ↝ w → v ↝* w

-- A call that is only counted.
pub counted : {v w : World} → v ↝* w → v ↝* count_call w
counted {w} h = more h (call (w.calls + 1) refl)
