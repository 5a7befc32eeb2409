-- ===== src/Attempts/Request.antt =====
-- What `RequestAttempt` of internal/attempts/service.go does to the purchases, attempts and jobs.
use painkiller.Prelude.{
  ℕ, ◌+◌, pos, ◌≤ℤ◌, ◌≡◌, sym, ◌∙◌, inl, inr, true, false, none, some, [], ◌∷◌, ◌++◌, arith, any,
  Option-cases,
}
use painkiller.Outside.{Outside}
use painkiller.Models.{Uuid, Attempt, PurchasedTest, attempt_requested, provision_environment}
use painkiller.Store.{World, is_ok, ok, attempt_payload}
use painkiller.Store.Attempts
use painkiller.Store.Purchases
use painkiller.Store.Table.{lookup, modify, has, key-lookup, has_of_lookup}
use mathlib.Core.Path.{subst}
use painkiller.Store.Counts.{any-has_left, has-take}
use painkiller.Jobs.{enqueue}
use painkiller.Attempts.Service.{request_attempt, start_attempt, new_attempt}

-- One attempt less on the purchase, a row in `attempt_requested` and a job to provision it.
abbrev pub started : PurchasedTest → Attempt → World → World
started p a w = record w {
  purchased_tests = modify Purchases.key p.id Purchases.take_one w.purchased_tests;
  attempts = w.attempts ++ a ∷ [];
  jobs =
      w.jobs
      ++ record {
        kind = provision_environment;
        payload = attempt_payload a.id;
        scheduled_at = none;
      }
        ∷ [];
  calls = w.calls + 1 + 1 + 1 + 1 + 1;
}

start_attempt_ok :
    (o : Outside) (p : PurchasedTest) (a : Attempt) (w : World)
    → (start_attempt o p w).0 ≡ ok a
    → ((start_attempt o p w).1 ≡ started p a w)
      × (a ≡ new_attempt (o.new_uuid (w.calls + 1)) p.id (o.clock (w.calls + 1 + 1)))
unfolding start_attempt Purchases.decrement_attempts_remaining Attempts.create enqueue
start_attempt_ok o p a w h = ground arith

-- A request that succeeds was made by the buyer, before the purchase expired, with an attempt left;
-- it takes one attempt off the purchase, adds one row in `attempt_requested` and one job for it, and
-- changes nothing else.
pub request_attempt_ok :
    (o : Outside) (user id : Uuid) (a : Attempt) (w : World)
    → (request_attempt o user id w).0 ≡ ok a
    → (p : PurchasedTest) × (lookup Purchases.key id w.purchased_tests ≡ some p)
      × (p.user_id ≡ user)
      × (o.clock (w.calls + 1) ≤ℤ p.expires_at)
      × (pos 1 ≤ℤ p.attempts_remaining)
      × (a.status ≡ attempt_requested)
      × (a.purchased_test_id ≡ p.id)
      × ((request_attempt o user id w).1 ≡ started p a (record w { calls = w.calls + 1 + 1 }))
unfolding request_attempt Purchases.get_by_id
request_attempt_ok o user id a w h =
    elim (Option-cases (lookup Purchases.key id w.purchased_tests)) [
      | inl missing ↦ ground arith
      | inr (p, found) ↦
          let tail = start_attempt_ok o p a (record w { calls = w.calls + 1 + 1 }) in
          (
            p,
            found,
            ground arith,
            ground arith,
            ground arith,
            ground (arith, tail),
            ground (arith, tail),
            ground (arith, tail),
          )
    ]

start_attempt_total :
    (o : Outside) (p : PurchasedTest) (w : World)
    → o.fails w.calls ≡ false
    → o.fails (w.calls + 1 + 1 + 1) ≡ false
    → o.fails (w.calls + 1 + 1 + 1 + 1) ≡ false
    → any (Purchases.has_left p.id) w.purchased_tests ≡ true
    → has Purchases.key p.id (modify Purchases.key p.id Purchases.take_one w.purchased_tests) ≡ true
    → has Attempts.key (o.new_uuid (w.calls + 1)) w.attempts ≡ false
    → is_ok (start_attempt o p w).0 ≡ true
unfolding start_attempt Purchases.decrement_attempts_remaining Attempts.create enqueue
start_attempt_total o p w up₀ up₃ up₄ left there fresh = ground arith

-- With an attempt left, before the expiry, and with no call failing and a fresh UUID, the buyer's
-- request succeeds.
pub request_attempt_total :
    (o : Outside) (id : Uuid) (p : PurchasedTest) (w : World)
    → ((n : ℕ) → o.fails n ≡ false)
    → lookup Purchases.key id w.purchased_tests ≡ some p
    → o.clock (w.calls + 1) ≤ℤ p.expires_at
    → pos 1 ≤ℤ p.attempts_remaining
    → has Attempts.key (o.new_uuid (w.calls + 1 + 1 + 1)) w.attempts ≡ false
    → is_ok (request_attempt o p.user_id id w).0 ≡ true
unfolding request_attempt Purchases.get_by_id
request_attempt_total o id p w up found time left fresh =
    let n = w.calls + 1 + 1 in
    let own = key-lookup Purchases.key id p w.purchased_tests found in
    let kept = has-take p.id p.id w.purchased_tests in
    let there =
      has_of_lookup Purchases.key p.id p w.purchased_tests
        (subst (λ k. lookup Purchases.key k w.purchased_tests ≡ some p) (sym own) found) in
    let done =
      start_attempt_total o p (record w { calls = n }) (up n) (up (n + 1 + 1 + 1))
        (up (n + 1 + 1 + 1 + 1)) (any-has_left id p w.purchased_tests found left) (kept ∙ there)
        fresh in
    ground (arith, up w.calls, done)
