-- ===== src/Lifecycle/Answers.antt =====
-- The rules for handlers, which answer rather than return.
use painkiller.Prelude.{
  ◌≡◌, refl, sym, Bool, true, false, ◌||◌, arith, List, [], ◌∷◌, ⊤, Option, none, some, Text, inl,
  inr, Bool-cases, Option-cases, if◌then◌else◌,
}
use mathlib.Core.Path.{subst}
use painkiller.Outside.{Outside}
use painkiller.Models.{Uuid, Instant, Attempt, Environment, Session, Product, Test, AttemptStatus}
use painkiller.Store.{
  World, Result, Action, Context, ok, err, wrapped, and_then, count_call, Error, raise_if,
}
use painkiller.Store.Products
use painkiller.Store.Purchases
use painkiller.Store.Tests
use painkiller.Store.Table.{lookup}
use painkiller.Http.{Reply, Handler, or_refuse, refuse_if}
use painkiller.Attempts.Handler.{create_reply, submit_reply, with_token}
use painkiller.Billing.{new_purchase, record_purchase, webhook_reply}
use painkiller.Billing.Routes.{checkout_reply, acquire_reply}
use painkiller.Admin.{collect, append_found}
use painkiller.Admin.Catalog.{CreateTestRequest, new_test, not_positive}
use painkiller.Admin.Transaction.{or_roll_back, begin_or_commit}
use painkiller.Terminal.{connect}
use painkiller.Lifecycle.Writes.{call, buy, add_product, add_test}
use painkiller.Lifecycle.Frame.{read-Ends, list-Ends, exec-Ends}
use painkiller.Lifecycle.Rules.{
  Ends, ◌↝*◌, more, counted, plain-Ends, list_attempts-Ends, and_then-Ends, wrapped-Ends,
}

module _ (start : World) where
  -- The answer is sent in a state that some writes lead to.
  pub record Answers {A : Type 0} (r : Reply A × World) : Type 0 where
    pub holds : start ↝* r.1

  pub or_refuse-Answers :
      {A B : Type 0} (refusal : Reply B) (r : Result A × World) (rest : A → Handler B)
      → Ends start r
      → ((a : A) (w : World) → start ↝* w → Answers (rest a w))
      → Answers (or_refuse refusal r rest)
  or_refuse-Answers refusal (ok a, w) rest h k = k a w h.holds
  or_refuse-Answers refusal (err e, w) rest h k = record { holds = h.holds }

  -- What follows a test knows that it failed.
  pub refuse_if-Answers :
      {B : Type 0} (c : Bool) (refusal : Reply B) (rest : Handler B) (w : World)
      → start ↝* w
      → (c ≡ false → Answers (rest w))
      → Answers (refuse_if c refusal rest w)
  refuse_if-Answers true refusal rest w h k = record { holds = h }
  refuse_if-Answers false refusal rest w h k = k refl

  pub plain-Answers : {B : Type 0} (b : Reply B) (w : World) → start ↝* w → Answers (b, w)
  plain-Answers b w h = record { holds = h }

  pub if-Answers :
      {B : Type 0} (b : Bool) (r s : Reply B × World)
      → Answers r
      → Answers s
      → Answers (if b then r else s)
  if-Answers true r s hr hs = hr
  if-Answers false r s hr hs = hs

  -- A transaction that is rolled back leaves the state before it, but for the count.
  pub or_roll_back-Answers :
      {A : Type 0} (before : World) (r : Result ⊤ × World) (rest : ⊤ → Handler A)
      → start ↝* before
      → Ends start r
      → ((a : ⊤) (w : World) → start ↝* w → Answers (rest a w))
      → Answers (or_roll_back before r rest)
  or_roll_back-Answers before (ok a, w) rest b h k = k a w h.holds
  or_roll_back-Answers before (err e, w) rest b h k = record { holds = more b (call _ refl) }

  -- An answer that is made from a result, in the state that the result leaves.
  pub same-Answers :
      {A B : Type 0} (f : Result A × World → Reply B × World) (r : Result A × World)
      → (f r).1 ≡ r.1
      → Ends start r
      → Answers (f r)
  same-Answers f r e h = record { holds = subst (λ w. start ↝* w) (sym e) h.holds }

  pub create_reply-Answers : (r : Result Attempt × World) → Ends start r → Answers (create_reply r)
  create_reply-Answers r h = same-Answers create_reply r (ground arith) h

  pub submit_reply-Answers : (r : Result ⊤ × World) → Ends start r → Answers (submit_reply r)
  submit_reply-Answers r h = same-Answers submit_reply r (ground arith) h

  pub with_token-Answers :
      (a : Attempt) (r : Result Session × World) → Ends start r → Answers (with_token a r)
  with_token-Answers a r h = same-Answers (with_token a) r (ground arith) h

  pub webhook_reply-Answers : (r : Result ⊤ × World) → Ends start r → Answers (webhook_reply r)
  webhook_reply-Answers r h = same-Answers webhook_reply r (ground arith) h

  pub checkout_reply-Answers : (r : Result Text × World) → Ends start r → Answers (checkout_reply r)
  checkout_reply-Answers r h = same-Answers checkout_reply r (ground arith) h

  pub acquire_reply-Answers : (r : Result Uuid × World) → Ends start r → Answers (acquire_reply r)
  acquire_reply-Answers r h = same-Answers acquire_reply r (ground arith) h

  pub connect-Answers :
      (env : Environment) (ip : Option Text) (r : Result ⊤ × World)
      → Ends start r
      → Answers (connect env ip r)
  connect-Answers env none r h = record { holds = h.holds }
  connect-Answers env (some ip) r h = record { holds = h.holds }

  -- A guard changes nothing.
  pub guarded-Ends :
      {B : Type 0} (b : Bool) (e : Error) (f : ⊤ → Action B) (w : World)
      → start ↝* w
      → Ends start (f tt w)
      → Ends start (and_then (raise_if b e w) f)
  guarded-Ends true e f w h k = record { holds = h }
  guarded-Ends false e f w h k = k

  module _ (o : Outside) where
    pub begin_or_commit-Ends : (w : World) → start ↝* w → Ends start (begin_or_commit o w)
    begin_or_commit-Ends w h = list-Ends start o tt w h

    pub create_product-Ends :
        (p : Product) (w : World) → start ↝* w → Ends start (Products.create o p w)
    unfolding Products.create
    create_product-Ends p w h = exec-Ends start o _ w h (λ w' e. add_product p e)

    pub create_test-Ends :
        (req : CreateTestRequest) (id product_id : Uuid) (t : Instant) (w : World)
        → (not_positive req.duration_minutes
            || not_positive req.access_window_hours
            || not_positive req.attempts_allowed)
          ≡ false
        → start ↝* w
        → Ends start (Tests.create o (new_test req id product_id t) w)
    unfolding Tests.create
    create_test-Ends req id product_id t w good h =
        exec-Ends start o _ w h (λ w' e. add_test (new_test req id product_id t) (ground arith) e)

    pub product_row-Ends :
        (id : Uuid) (w : World) → start ↝* w → Ends start (Products.get_by_id o id w)
    unfolding Products.get_by_id
    product_row-Ends id w h = read-Ends start o _ w h

    pub joined-Ends :
        (id : Uuid) (w : World) → start ↝* w → Ends start (Tests.get_with_product o id w)
    unfolding Tests.get_with_product
    joined-Ends id w h = read-Ends start o _ w h

    create_purchase-Ends :
        (user test_id id : Uuid) (t : Test) (bought created : Instant) (w : World)
        → lookup Tests.key test_id w.tests ≡ some t
        → start ↝* w
        → Ends start (Purchases.create o (new_purchase user test_id t bought id created) w)
    unfolding Purchases.create
    create_purchase-Ends user test_id id t bought created w found h =
        exec-Ends start o _ w h (λ w' e. buy user test_id id t bought created found e)

    pub record_purchase-Ends :
        (user test_id : Uuid) (t : Test) (w : World)
        → lookup Tests.key test_id w.tests ≡ some t
        → start ↝* w
        → Ends start (record_purchase o user test_id t w)
    record_purchase-Ends user test_id t w found h =
        and_then-Ends start _ _
          (wrapped-Ends start _ _
            (create_purchase-Ends user test_id _ t _ _ _ found (counted (counted (counted h)))))
          (λ a w h. plain-Ends start _ w h)

    -- A test that was found is in the table when the next call begins.
    pub with_test-Ends :
        {B : Type 0} (c : Context) (id : Uuid) (f : Test → Action B) (w : World)
        → start ↝* w
        → ((t : Test) → lookup Tests.key id w.tests ≡ some t → Ends start (f t (count_call w)))
        → Ends start (and_then (wrapped c (Tests.get_by_id o id w)) f)
    unfolding Tests.get_by_id
    with_test-Ends c id f w h k = elim (Bool-cases (o.fails w.calls)) [
      | inl down ↦ rw down (record { holds = counted h })
      | inr up ↦ elim (Option-cases (lookup Tests.key id w.tests)) [
        | inl missing ↦ rw (up, missing) (record { holds = counted h })
        | inr (t, found) ↦ rw (up, found) (k t found)
      ]
    ]

    -- The product's query leaves the state, but for the count.
    pub with_product-Ends :
        {B : Type 0} (c : Context) (id : Uuid) (f : Product → Action B) (w : World)
        → start ↝* w
        → ((p : Product) → Ends start (f p (count_call w)))
        → Ends start (and_then (wrapped c (Products.get_by_id o id w)) f)
    unfolding Products.get_by_id
    with_product-Ends c id f w h k = elim (Bool-cases (o.fails w.calls)) [
      | inl down ↦ rw down (record { holds = counted h })
      | inr up ↦ elim (Option-cases (lookup Products.key id w.products)) [
        | inl missing ↦ rw (up, missing) (record { holds = counted h })
        | inr (p, found) ↦ rw (up, found) (k p)
      ]
    ]

    append_found_keeps :
        (r : Result (List Attempt) × World) (all : List Attempt)
        → Ends start r
        → start ↝* (append_found r all).1
    append_found_keeps (ok found, w) all h = h.holds
    append_found_keeps (err e, w) all h = h.holds

    pub collect_keeps :
        (ss : List AttemptStatus) (all : List Attempt) (w : World)
        → start ↝* w
        → start ↝* (collect o ss all w).1
    unfolding collect
    collect_keeps [] all w h = h
    collect_keeps (s ∷ ss) all w h =
        collect_keeps ss _ _ (append_found_keeps _ all (list_attempts-Ends start o s w h))
