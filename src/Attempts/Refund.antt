-- ===== src/Attempts/Refund.antt =====
-- What a request of internal/attempts/service.go that fails leaves behind.
use painkiller.Prelude.{
  ℕ, ◌+◌, ◌<◌, pos, ◌≤ℤ◌, ◌≡◌, refl, sym, ap, ◌↔◌, ◌∙◌, ◌⊎◌, inl, inr, true, false, some, [], ◌∷◌,
  ◌++◌, arith, any, Option-cases,
}
use painkiller.Outside.{Outside}
use painkiller.Models.{Uuid, PurchasedTest}
use painkiller.Store.{World, is_ok}
use painkiller.Store.Attempts
use painkiller.Store.Purchases
use painkiller.Store.Table.{lookup, modify, has, key-lookup, has_of_lookup}
use mathlib.Core.Path.{subst}
use painkiller.Store.Counts.{any-has_left, has-take, lookup-give_take}
use painkiller.Jobs.{enqueue}
use painkiller.Attempts.Service.{request_attempt, start_attempt, new_attempt}

-- At most one of the calls fails.
abbrev pub OneFailure : Outside → Type 0
OneFailure o = (m n : ℕ) → o.fails m ≡ true → o.fails n ≡ true → m ≡ n

start_attempt_refund :
    (o : Outside) (p : PurchasedTest) (w : World)
    → OneFailure o
    → any (Purchases.has_left p.id) w.purchased_tests ≡ true
    → has Purchases.key p.id (modify Purchases.key p.id Purchases.take_one w.purchased_tests) ≡ true
    → has Attempts.key (o.new_uuid (w.calls + 1)) w.attempts ≡ false
    → is_ok (start_attempt o p w).0 ≡ false
    → ((start_attempt o p w).1.jobs ≡ w.jobs)
      × (((start_attempt o p w).1.purchased_tests ≡ w.purchased_tests)
          ⊎ ((start_attempt o p w).1.purchased_tests
              ≡ modify Purchases.key p.id Purchases.give_one
                  (modify Purchases.key p.id Purchases.take_one w.purchased_tests)))
unfolding start_attempt Purchases.decrement_attempts_remaining
    Purchases.increment_attempts_remaining Attempts.create enqueue
start_attempt_refund o p w once left there fresh failed = ground (
  arith,
  once (w.calls + 1 + 1 + 1) (w.calls + 1 + 1 + 1 + 1),
  once (w.calls + 1 + 1 + 1 + 1) (w.calls + 1 + 1 + 1 + 1 + 1),
)

start_attempt_unchanged :
    (o : Outside) (id : Uuid) (p : PurchasedTest) (w : World)
    → OneFailure o
    → lookup Purchases.key id w.purchased_tests ≡ some p
    → pos 1 ≤ℤ p.attempts_remaining
    → has Attempts.key (o.new_uuid (w.calls + 1)) w.attempts ≡ false
    → is_ok (start_attempt o p w).0 ≡ false
    → (j : Uuid)
    → (lookup Purchases.key j (start_attempt o p w).1.purchased_tests
        ≡ lookup Purchases.key j w.purchased_tests)
      × ((start_attempt o p w).1.jobs ≡ w.jobs)
start_attempt_unchanged o id p w once found left fresh failed j =
    let own = key-lookup Purchases.key id p w.purchased_tests found in
    let kept = has-take p.id p.id w.purchased_tests in
    let there =
      has_of_lookup Purchases.key p.id p w.purchased_tests
        (subst (λ k. lookup Purchases.key k w.purchased_tests ≡ some p) (sym own) found) in
    let (queued, counts) =
      start_attempt_refund o p w once (any-has_left id p w.purchased_tests found left)
        (kept ∙ there) fresh failed in
    elim counts [
      | inl same ↦ (ap (lookup Purchases.key j) same, queued)
      | inr back ↦ (
        ap (lookup Purchases.key j) back ∙ lookup-give_take j id p w.purchased_tests found left,
        queued,
      )
    ]

-- A request that fails costs nothing: if at most one call fails and the UUID is fresh, every
-- purchase has the attempts that it had, and no job is queued.
pub request_attempt_refund :
    (o : Outside) (user id : Uuid) (w : World)
    → OneFailure o
    → has Attempts.key (o.new_uuid (w.calls + 1 + 1 + 1)) w.attempts ≡ false
    → is_ok (request_attempt o user id w).0 ≡ false
    → (j : Uuid)
    → (lookup Purchases.key j (request_attempt o user id w).1.purchased_tests
        ≡ lookup Purchases.key j w.purchased_tests)
      × ((request_attempt o user id w).1.jobs ≡ w.jobs)
unfolding request_attempt Purchases.get_by_id
request_attempt_refund o user id w once fresh failed j =
    elim (Option-cases (lookup Purchases.key id w.purchased_tests)) [
      | inl missing ↦ ground arith
      | inr (p, found) ↦
          let w' = record w { calls = w.calls + 1 + 1 } in
          ground (
            arith,
            λ (left : pos 1 ≤ℤ p.attempts_remaining) (f : is_ok (start_attempt o p w').0 ≡ false).
                start_attempt_unchanged o id p w' once found left fresh f j,
          )
    ]

start_attempt_orphan :
    (o : Outside) (p : PurchasedTest) (w : World)
    → o.fails w.calls ≡ false
    → o.fails (w.calls + 1 + 1 + 1) ≡ false
    → o.fails (w.calls + 1 + 1 + 1 + 1) ≡ true
    → any (Purchases.has_left p.id) w.purchased_tests ≡ true
    → has Purchases.key p.id (modify Purchases.key p.id Purchases.take_one w.purchased_tests) ≡ true
    → has Attempts.key (o.new_uuid (w.calls + 1)) w.attempts ≡ false
    → let (r, w') = start_attempt o p w in
      (is_ok r ≡ false)
      × (w'.jobs ≡ w.jobs)
      × (w'.attempts
          ≡ w.attempts
            ++ new_attempt (o.new_uuid (w.calls + 1)) p.id (o.clock (w.calls + 1 + 1)) ∷ [])
unfolding start_attempt Purchases.decrement_attempts_remaining
    Purchases.increment_attempts_remaining Attempts.create enqueue
start_attempt_orphan o p w up₀ up₃ down₄ left there fresh =
    (ground arith, ground arith, ground arith)

-- Where the insertion of the job is the one call that fails, on a request that is otherwise good, the
-- request fails and no job is queued, but the row of the attempt stays behind, in
-- `attempt_requested`.
pub request_attempt_orphan :
    (o : Outside) (p : PurchasedTest) (w : World)
    → ((n : ℕ) → (o.fails n ≡ true) ↔ (n ≡ w.calls + 1 + 1 + 1 + 1 + 1 + 1))
    → lookup Purchases.key p.id w.purchased_tests ≡ some p
    → o.clock (w.calls + 1) ≤ℤ p.expires_at
    → pos 1 ≤ℤ p.attempts_remaining
    → has Attempts.key (o.new_uuid (w.calls + 1 + 1 + 1)) w.attempts ≡ false
    → let (r, w') = request_attempt o p.user_id p.id w in
      (is_ok r ≡ false)
      × (w'.jobs ≡ w.jobs)
      × (w'.attempts
          ≡ w.attempts
            ++ new_attempt
                (o.new_uuid (w.calls + 1 + 1 + 1))
                p.id
                (o.clock (w.calls + 1 + 1 + 1 + 1))
              ∷ [])
unfolding request_attempt Purchases.get_by_id
request_attempt_orphan o p w only found time left fresh =
    let n = w.calls + 1 + 1 in
    let up : (k : ℕ) → k < n + 1 + 1 + 1 + 1 → o.fails k ≡ false =
      λ k h. ground (arith, (only k).0) in
    let there =
      has-take p.id p.id w.purchased_tests
      ∙ has_of_lookup Purchases.key p.id p w.purchased_tests found in
    let done =
      start_attempt_orphan o p (record w { calls = n }) (up n (omega arith))
        (up (n + 1 + 1 + 1) (omega arith)) ((only (n + 1 + 1 + 1 + 1)).1 refl)
        (any-has_left p.id p w.purchased_tests found left) there fresh in
    let first = up w.calls (omega arith) in
    (ground (arith, first, done.0), ground (arith, first, done.1), ground (arith, first, done.2))
