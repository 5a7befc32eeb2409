-- ===== src/Lifecycle/Consistent.antt =====
-- The constraints of migrations/ on the whole store, and the counts that must not go below zero.
use painkiller.Prelude.{
  ℕ, pos, ◌≤ℤ◌, ◌≡◌, ◌∙◌, true, false, List, [], ◌∷◌, ◌++◌, some, arith, +ℤ_parts, -ℤ_parts,
}
use mathlib.Core.Path.{subst}
use painkiller.Models.{
  Uuid, User, Attempt, Product, Test, PurchasedTest, ScenarioVersion, Task, Check, Environment,
  Session,
}
use painkiller.Store.{World}
use painkiller.Store.Attempts
use painkiller.Store.Purchases
use painkiller.Store.Products
use painkiller.Store.Tests
use painkiller.Store.Environments
use painkiller.Store.Sessions
use painkiller.Store.Users
use painkiller.Store.Scenarios
use painkiller.Store.Table.{has, modify, has-modify}
use painkiller.Store.Constraints.{IsTable, has_still, update-IsTable, insert_row, weaken_rows}

-- A test: its product and its scenario version exist, and it allows an attempt at least.
abbrev pub GoodTest : List Product → List ScenarioVersion → Test → Type 0
GoodTest ps vs t =
    (has Products.key t.product_id ps ≡ true)
    × (has (λ v. v.id) t.scenario_version_id vs ≡ true)
    × (pos 1 ≤ℤ t.attempts_allowed)

-- A purchase: its user and its test exist, and the attempts left are no negative number.
abbrev pub GoodPurchase : List User → List Test → PurchasedTest → Type 0
GoodPurchase us ts p =
    (has (λ u. u.id) p.user_id us ≡ true)
    × (has Tests.key p.test_id ts ≡ true)
    × (pos 0 ≤ℤ p.attempts_remaining)

-- An attempt: its purchase exists.
abbrev pub GoodAttempt : List PurchasedTest → Attempt → Type 0
GoodAttempt ps a = has Purchases.key a.purchased_test_id ps ≡ true

-- An environment: its attempt exists.
abbrev pub GoodEnvironment : List Attempt → Environment → Type 0
GoodEnvironment rows e = has Attempts.key e.attempt_id rows ≡ true

-- A session: its attempt and its environment exist.
abbrev pub GoodSession : List Attempt → List Environment → Session → Type 0
GoodSession rows es s =
    (has Attempts.key s.attempt_id rows ≡ true) × (has Environments.key s.environment_id es ≡ true)

-- A task: its scenario version exists.
abbrev pub GoodTask : List ScenarioVersion → Task → Type 0
GoodTask vs t = has Scenarios.key t.scenario_version_id vs ≡ true

-- A check: its task exists.
abbrev pub GoodCheck : List Task → Check → Type 0
GoodCheck ts c = has (λ t. t.id) c.task_id ts ≡ true

-- The users and what the importer makes of scenario files: unique keys and good rows.
abbrev pub IsStocked : World → Type 0
IsStocked w =
    IsTable Users.key (λ _. Unit) w.users
    × IsTable Scenarios.key (λ _. Unit) w.scenario_versions
    × IsTable (λ t. t.id) (GoodTask w.scenario_versions) w.tasks
    × IsTable (λ c. c.id) (GoodCheck w.tasks) w.checks

-- What is offered, sold and run: unique keys and good rows.
abbrev pub IsSold : World → Type 0
IsSold w =
    IsTable Products.key (λ _. Unit) w.products
    × IsTable Tests.key (GoodTest w.products w.scenario_versions) w.tests
    × IsTable Purchases.key (GoodPurchase w.users w.tests) w.purchased_tests
    × IsTable Attempts.key (GoodAttempt w.purchased_tests) w.attempts
    × IsTable Environments.key (GoodEnvironment w.attempts) w.environments
    × IsTable Sessions.key (GoodSession w.attempts w.environments) w.sessions

-- All ten tables.
abbrev pub IsConsistent : World → Type 0
IsConsistent w = IsStocked w × IsSold w

pub attempt_written :
    (v : World) (id : Uuid) (f : Attempt → Attempt)
    → ((a : Attempt) → Attempts.key (f a) ≡ Attempts.key a)
    → ((a : Attempt) → (f a).purchased_test_id ≡ a.purchased_test_id)
    → IsSold v
    → IsSold (record v { attempts = modify Attempts.key id f v.attempts })
attempt_written v id f same_key same_purchase (p, t, b, a, e, s) =
    let still : (k : ℕ)
        → has Attempts.key k (modify Attempts.key id f v.attempts) ≡ has Attempts.key k v.attempts =
      λ k. has-modify Attempts.key k id f v.attempts same_key in
    (
      p,
      t,
      b,
      update-IsTable Attempts.key (GoodAttempt v.purchased_tests) id f v.attempts same_key
          (λ a h. ground (arith, same_purchase a, h)) a,
      weaken_rows Environments.key _ (GoodEnvironment v.attempts) v.environments
          (λ e h. still e.attempt_id ∙ h) e,
      weaken_rows Sessions.key _ (GoodSession v.attempts v.environments) v.sessions
          (λ s (h, k). (still s.attempt_id ∙ h, k)) s,
    )

pub attempt_inserted-IsSold :
    (v w : World) (a : Attempt) → Attempts.insert a v ≡ some w → IsSold v → IsSold w
attempt_inserted-IsSold v w a inserted (p, t, b, as_, e, s) =
    let fresh : has Attempts.key a.id v.attempts ≡ false = ground arith in
    let good : has Purchases.key a.purchased_test_id v.purchased_tests ≡ true = ground arith in
    let equal : record v { attempts = v.attempts ++ a ∷ [] } ≡ w = ground arith in
    subst IsSold equal (
      p,
      t,
      b,
      insert_row Attempts.key (GoodAttempt v.purchased_tests) a v.attempts fresh good as_,
      weaken_rows Environments.key _ (GoodEnvironment v.attempts) v.environments
          (λ e h. has_still Attempts.key e.attempt_id v.attempts a h) e,
      weaken_rows Sessions.key _ (GoodSession v.attempts v.environments) v.sessions
          (λ s (h, k). (has_still Attempts.key s.attempt_id v.attempts a h, k)) s,
    )

pub purchase_written :
    (v : World) (id : Uuid) (f : PurchasedTest → PurchasedTest)
    → ((p : PurchasedTest) → Purchases.key (f p) ≡ Purchases.key p)
    → ((p : PurchasedTest) → GoodPurchase v.users v.tests p → GoodPurchase v.users v.tests (f p))
    → IsSold v
    → IsSold (record v { purchased_tests = modify Purchases.key id f v.purchased_tests })
purchase_written v id f same_key keeps (p, t, b, rows, e, s) = (
  p,
  t,
  update-IsTable Purchases.key (GoodPurchase v.users v.tests) id f v.purchased_tests same_key keeps
      b,
  weaken_rows Attempts.key _ (GoodAttempt v.purchased_tests) v.attempts
      (λ a h. has-modify Purchases.key a.purchased_test_id id f v.purchased_tests same_key ∙ h)
      rows,
  e,
  s,
)

pub take_good :
    (us : List User) (ts : List Test) (p : PurchasedTest)
    → GoodPurchase us ts p
    → GoodPurchase us ts (Purchases.take_one p)
take_good us ts p (u, t, left) =
    (ground arith, ground arith, ground (arith, -ℤ_parts p.attempts_remaining (pos 1)))

pub give_good :
    (us : List User) (ts : List Test) (p : PurchasedTest)
    → GoodPurchase us ts p
    → GoodPurchase us ts (Purchases.give_one p)
give_good us ts p (u, t, left) = (u, t, ground (arith, +ℤ_parts p.attempts_remaining (pos 1)))

pub purchase_inserted-IsSold :
    (v w : World) (p : PurchasedTest)
    → Purchases.insert p v ≡ some w
    → pos 0 ≤ℤ p.attempts_remaining
    → IsSold v
    → IsSold w
purchase_inserted-IsSold v w p inserted left (ps, t, b, rows, e, s) =
    let fresh : has Purchases.key p.id v.purchased_tests ≡ false = ground arith in
    let user : has (λ u. u.id) p.user_id v.users ≡ true = ground arith in
    let test : has Tests.key p.test_id v.tests ≡ true = ground arith in
    let equal : record v { purchased_tests = v.purchased_tests ++ p ∷ [] } ≡ w = ground arith in
    subst IsSold equal (
      ps,
      t,
      insert_row Purchases.key (GoodPurchase v.users v.tests) p v.purchased_tests fresh
          (user, test, left) b,
      weaken_rows Attempts.key _ (GoodAttempt v.purchased_tests) v.attempts
          (λ a h. has_still Purchases.key a.purchased_test_id v.purchased_tests p h) rows,
      e,
      s,
    )
