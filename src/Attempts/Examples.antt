-- ===== src/Attempts/Examples.antt =====
-- The theorems on internal/attempts at work on the example shop.
use painkiller.Prelude.{
  ℕ, ◌≡◌, refl, pos, true, false, some, [], ◌∷◌, arith, ◌⊎◌, ◌+◌, ◌++◌, ◌≤ℤ◌, ◌==◌, ==_iff,
}
use painkiller.Outside.{Outside}
use painkiller.Models.{
  expired_running, Attempt, PurchasedTest, attempt_requested, running, expired, submitted,
  status_eq,
}
use painkiller.Store.{is_ok, ok, attempt_payload}
use painkiller.Store.Attempts
use painkiller.Store.Purchases
use painkiller.Store.Table.{lookup, modify, has}
use painkiller.Jobs.{enqueue}
use painkiller.Example.{shop, calm, history, purchase, attempt_at}
use painkiller.Attempts.StateMachine.{valid_transition}
use painkiller.Attempts.Documented.{is_failure, follows, IsJoined, valid_transition_lifecycle}
use painkiller.Attempts.Service.{
  request_attempt, transition_attempt, submit_attempt, handle_expire_attempt, new_attempt,
  start_attempt,
}
use painkiller.Attempts.Transition.{transition_attempt_lem}
use painkiller.Attempts.Submit.{submit_attempt_ok, expire_running, sent_to_grading}
use painkiller.Attempts.Refund.{request_attempt_refund, request_attempt_orphan, OneFailure}
use painkiller.Attempts.Request.{started, request_attempt_ok, request_attempt_total}

-- The learner's purchase as the request finds it, and the shop after two calls.
abbrev requested : Attempt
requested = new_attempt 103 5 (pos 4)

transition_attempt_lem_example :
    let (r, w') = transition_attempt calm 7 submitted shop in
    ((is_ok r ≡ false) × (w' ≡ record shop { calls = w'.calls }))
    ⊎ ((a : Attempt) × (r ≡ ok tt)
        × (lookup Attempts.key 7 shop.attempts ≡ some a)
        × (valid_transition a.status submitted ≡ true)
        × (w' ≡ record shop {
          attempts = modify Attempts.key 7 (Attempts.set_status submitted) shop.attempts;
          calls = shop.calls + 1 + 1;
        }))
transition_attempt_lem_example = transition_attempt_lem calm 7 submitted shop

valid_transition_lifecycle_example :
    ((is_failure expired_running ≡ false)
      × (valid_transition running expired_running ≡ follows running expired_running))
    ⊎ ((is_failure expired_running ≡ true) × IsJoined expired_running)
valid_transition_lifecycle_example = valid_transition_lifecycle running expired_running refl

request_attempt_ok_example :
    (p : PurchasedTest) × (lookup Purchases.key 5 shop.purchased_tests ≡ some p)
    × (p.user_id ≡ 1)
    × (calm.clock (shop.calls + 1) ≤ℤ p.expires_at)
    × (pos 1 ≤ℤ p.attempts_remaining)
    × (requested.status ≡ attempt_requested)
    × (requested.purchased_test_id ≡ p.id)
    × ((request_attempt calm 1 5 shop).1
        ≡ started p requested (record shop { calls = shop.calls + 1 + 1 }))
unfolding request_attempt start_attempt Purchases.get_by_id Purchases.decrement_attempts_remaining
    Attempts.create enqueue lookup modify has
request_attempt_ok_example = request_attempt_ok calm 1 5 requested shop refl

request_attempt_total_example : is_ok (request_attempt calm 1 5 shop).0 ≡ true
unfolding lookup has
request_attempt_total_example =
    request_attempt_total calm 5 purchase shop (λ n. refl) refl (omega arith) (omega arith) refl

-- A history in which one call fails.
abbrev failing_at : ℕ → Outside
failing_at k = history (λ n. n == k)

failing-OneFailure : (k : ℕ) → OneFailure (failing_at k)
failing-OneFailure k m n hm hn = ground arith

request_attempt_refund_example :
    (lookup Purchases.key 5 (request_attempt (failing_at 6) 1 5 shop).1.purchased_tests
      ≡ lookup Purchases.key 5 shop.purchased_tests)
    × ((request_attempt (failing_at 6) 1 5 shop).1.jobs ≡ shop.jobs)
unfolding request_attempt start_attempt Purchases.get_by_id Purchases.decrement_attempts_remaining
    Attempts.create enqueue lookup modify has
request_attempt_refund_example =
    request_attempt_refund (failing_at 6) 1 5 shop (failing-OneFailure 6) refl refl 5

request_attempt_orphan_example :
    let (r, w') = request_attempt (failing_at 6) 1 5 shop in
    (is_ok r ≡ false)
    × (w'.jobs ≡ shop.jobs)
    × (w'.attempts ≡ shop.attempts ++ new_attempt 103 5 (pos 4) ∷ [])
unfolding lookup has
request_attempt_orphan_example =
    request_attempt_orphan (failing_at 6) purchase shop (λ n. ==_iff n 6) refl (omega arith)
      (omega arith) refl

submit_attempt_ok_example :
    (a : Attempt) × (p : PurchasedTest) × (lookup Attempts.key 7 shop.attempts ≡ some a)
    × (lookup Purchases.key a.purchased_test_id shop.purchased_tests ≡ some p)
    × (p.user_id ≡ 1)
    × (status_eq a.status running ≡ true)
    × ((submit_attempt calm 1 7 shop).1
        ≡ sent_to_grading 7 submitted shop (submit_attempt calm 1 7 shop).1)
unfolding submit_attempt transition_attempt valid_transition Attempts.get_by_id
    Attempts.update_status Purchases.get_by_id enqueue lookup modify status_eq
submit_attempt_ok_example = submit_attempt_ok calm 1 7 shop refl

expire_running_example :
    let (r, w') = handle_expire_attempt calm (attempt_payload 7) shop in
    (r ≡ ok tt) × (w' ≡ sent_to_grading 7 expired shop w')
unfolding lookup
expire_running_example = expire_running calm 7 (attempt_at 7 running) shop (λ n. refl) refl refl
