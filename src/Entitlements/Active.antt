-- ===== src/Entitlements/Active.antt =====
-- What the dashboard calls active can be used.
use painkiller.Prelude.{
  ℕ, ◌+◌, pos, ◌≤ℤ◌, ◌≡◌, refl, sym, ap, ◌∙◌, inl, inr, Bool, true, false, ◌&&◌, some, List, [],
  ◌∷◌, map, any, select, arith, ◌==◌, Bool-cases,
}
use mathlib.Core.Path.{subst}
use painkiller.Outside.{Outside}
use painkiller.Models.{Uuid, Instant, PurchasedTest}
use painkiller.Store.{World, is_ok}
use painkiller.Store.Attempts
use painkiller.Store.Purchases
use painkiller.Store.Table.{lookup, has}
use painkiller.Store.Rows.{order_by_desc, any-order_by_desc}
use painkiller.Store.Constraints.{Unique}
use painkiller.Http.{success}
use painkiller.Attempts.Service.{request_attempt}
use painkiller.Attempts.Request.{request_attempt_total}
use painkiller.Entitlements.{PurchaseResponse, is_active_at, to_response, dashboard}

-- The list has an active entry for the purchase.
abbrev pub shows_active : Uuid → List PurchaseResponse → Bool
shows_active id l = any (λ e. e.id == id && e.is_active) l

any-map :
    (time : Instant) (id : Uuid) (l : List PurchasedTest)
    → shows_active id (map (to_response time) l) ≡ any (λ p. p.id == id && is_active_at time p) l
any-map time id [] = refl
any-map time id (p ∷ l) = ground (arith, any-map time id l)

any-select :
    {A : Type 0} (q p : A → Bool) (l : List A) → any q (select p l) ≡ any (λ x. p x && q x) l
any-select q p [] = refl
any-select q p (x ∷ l) = ground (arith, any-select q p l)

has_of_any :
    (user id : Uuid) (time : Instant) (t : List PurchasedTest)
    → any (λ p. p.user_id == user && (p.id == id && is_active_at time p)) t ≡ true
    → has Purchases.key id t ≡ true
unfolding has
has_of_any user id time [] h = h
has_of_any user id time (p ∷ t) h = ground (arith, has_of_any user id time t)

-- The row that is found is the one that is shown.
found_active :
    (user id : Uuid) (time : Instant) (t : List PurchasedTest) (p : PurchasedTest)
    → any (λ p. p.user_id == user && (p.id == id && is_active_at time p)) t ≡ true
    → Unique Purchases.key t
    → lookup Purchases.key id t ≡ some p
    → (p.user_id ≡ user) × (is_active_at time p ≡ true)
unfolding lookup Unique
found_active user id time [] p h u found = cc
found_active user id time (q ∷ t) p h (fresh, u) found = elim (Bool-cases (q.id == id)) [
  | inl here ↦
      let same : q ≡ p = ground arith in
      let key_same : q.id ≡ id = ground arith in
      let absent : has Purchases.key id t ≡ false =
        subst (λ k. has Purchases.key k t ≡ false) key_same fresh in
      let own : (q.user_id == user && is_active_at time q) ≡ true =
        ground (arith, has_of_any user id time t) in
      (ground arith, ground arith)
  | inr there ↦ found_active user id time t p (ground arith) u (ground arith)
]

shown :
    (o : Outside) (user : Uuid) (entries : List PurchaseResponse) (v w : World)
    → dashboard o (some user) v ≡ (success entries, w)
    → (entries
        ≡ map
            (to_response (o.clock (v.calls + 1)))
            (order_by_desc (λ p. p.created_at) (select (λ p. p.user_id == user) v.purchased_tests)))
      × (w ≡ record v { calls = v.calls + 1 + 1 })
unfolding dashboard Purchases.list_by_user_id
shown o user entries v w h = (ground arith, ground arith)

-- If the dashboard shows a purchase as active, then the purchase is the user's own, and their next
-- request of an attempt succeeds, where it is made before the purchase expires, no call fails and
-- the identifier of the attempt is new.
pub dashboard_usable :
    (o next : Outside) (user id : Uuid) (p : PurchasedTest) (entries : List PurchaseResponse)
    (v w : World)
    → dashboard o (some user) v ≡ (success entries, w)
    → shows_active id entries ≡ true
    → Unique Purchases.key v.purchased_tests
    → lookup Purchases.key id v.purchased_tests ≡ some p
    → ((n : ℕ) → next.fails n ≡ false)
    → next.clock (w.calls + 1) ≤ℤ p.expires_at
    → has Attempts.key (next.new_uuid (w.calls + 1 + 1 + 1)) w.attempts ≡ false
    → (p.user_id ≡ user) × (is_ok (request_attempt next user id w).0 ≡ true)
dashboard_usable o next user id p entries v w h active u found up time fresh =
    let t = o.clock (v.calls + 1) in
    let own_rows = select (λ p. p.user_id == user) v.purchased_tests in
    let (listed, after) = shown o user entries v w h in
    let shows : any (λ p. p.user_id == user && (p.id == id && is_active_at t p)) v.purchased_tests
        ≡ true =
      sym (
        any-select (λ p. p.id == id && is_active_at t p) (λ p. p.user_id == user) v.purchased_tests)
      ∙ sym (any-order_by_desc (λ p. p.created_at) (λ p. p.id == id && is_active_at t p) own_rows)
      ∙ sym (any-map t id (order_by_desc (λ p. p.created_at) own_rows))
      ∙ ap (shows_active id) (sym listed)
      ∙ active in
    let (own, usable) = found_active user id t v.purchased_tests p shows u found in
    let left : pos 1 ≤ℤ p.attempts_remaining = ground (arith, usable) in
    let found' : lookup Purchases.key id w.purchased_tests ≡ some p =
      ap (λ x. lookup Purchases.key id x.purchased_tests) after ∙ found in
    (
      own,
      subst (λ k. is_ok (request_attempt next k id w).0 ≡ true) own
          (request_attempt_total next id p w up found' time left fresh),
    )
