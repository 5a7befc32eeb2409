-- ===== src/Lifecycle/Frame.antt =====
-- A rule for each way in which the program puts calls together, and for each call: a call that
-- starts some writes after a state ends some writes after it.
use painkiller.Prelude.{
  ℤ, ◌≡◌, refl, Bool, true, false, Option, none, some, ⊤, if◌then◌else◌, inl, inr, any, Text,
}
use painkiller.Outside.{Outside}
use painkiller.Models.{
  Uuid, Instant, Environment, Session, JobKind, EnvironmentStatus, AttemptStatus,
}
use painkiller.Store.{
  World, Result, Action, Context, Payload, ok, err, and_then, wrapped, dropped, db_failed, answer,
  written, count_call,
}
use painkiller.Store.Attempts
use painkiller.Store.Purchases
use painkiller.Store.Tests
use painkiller.Store.Scenarios
use painkiller.Store.Environments
use painkiller.Store.Sessions
use painkiller.Jobs.{enqueue}
use painkiller.Attempts.Service.{new_attempt, transition_attempt}
use painkiller.Attempts.Transition.{transition_attempt_lem}
use painkiller.Lifecycle.Writes.{
  Asked, ◌↝◌, ◌↝*◌, more, counted, call, move, request, score, queue, take, give, build,
  set_environment, admit, enter,
}

module _ (start : World) where
  -- The call has ended in a state that some writes lead to.
  pub record Ends {A : Type 0} (r : Result A × World) : Type 0 where
    pub holds : start ↝* r.1

  pub and_then-Ends :
      {A B : Type 0} (r : Result A × World) (f : A → Action B)
      → Ends r
      → ((a : A) (w : World) → start ↝* w → Ends (f a w))
      → Ends (and_then r f)
  and_then-Ends (ok a, w) f h k = k a w h.holds
  and_then-Ends (err e, w) f h k = record { holds = h.holds }

  pub wrapped-Ends : {A : Type 0} (c : Context) (r : Result A × World) → Ends r → Ends (wrapped c r)
  wrapped-Ends c (ok a, w) h = h
  wrapped-Ends c (err e, w) h = record { holds = h.holds }

  -- A call whose error is dropped.
  pub dropped-Ends : {A : Type 0} (r : Result A × World) → Ends r → Ends {A = ⊤} (dropped r)
  dropped-Ends (ok a, w) h = record { holds = h.holds }
  dropped-Ends (err e, w) h = record { holds = h.holds }

  -- A result that is at hand.
  pub plain-Ends : {A : Type 0} (r : Result A) (w : World) → start ↝* w → Ends (r, w)
  plain-Ends r w h = record { holds = h }

  pub if-Ends :
      {A : Type 0} (b : Bool) (m k : Action A) (w : World)
      → Ends (m w)
      → Ends (k w)
      → Ends ((if b then m else k) w)
  if-Ends true m k w hm hk = hm
  if-Ends false m k w hm hk = hk

  -- One of two pairs.
  pub either-Ends :
      {A : Type 0} (b : Bool) (r s : Result A × World) → Ends r → Ends s → Ends (if b then r else s)
  either-Ends true r s hr hs = hr
  either-Ends false r s hr hs = hs

  answer-Ends : {A : Type 0} (m : Option A) (w : World) → start ↝* w → Ends (answer m w)
  answer-Ends none w h = record { holds = counted h }
  answer-Ends (some a) w h = record { holds = counted h }

  written-Ends :
      (m : Option World) (w : World)
      → start ↝* w
      → ((w' : World) → m ≡ some w' → w ↝ w')
      → Ends (written m w)
  written-Ends none w h k = record { holds = counted h }
  written-Ends (some w') w h k = record { holds = counted (more h (k w' refl)) }

  module _ (o : Outside) where
    pub read-Ends :
        {A : Type 0} (m : Option A) (w : World)
        → start ↝* w
        → Ends (if o.fails w.calls then (err db_failed, count_call w) else answer m w)
    read-Ends m w h =
        either-Ends (o.fails w.calls) _ _ (record { holds = counted h }) (answer-Ends m w h)

    -- A statement that, where it does not fail, is one of the writes.
    pub exec-Ends :
        (m : Option World) (w : World)
        → start ↝* w
        → ((w' : World) → m ≡ some w' → w ↝ w')
        → Ends (if o.fails w.calls then (err db_failed, count_call w) else written m w)
    exec-Ends m w h k =
        either-Ends (o.fails w.calls) _ _ (record { holds = counted h }) (written-Ends m w h k)

    -- A query for a list, which always answers, and a write that no constraint refuses.
    pub list-Ends :
        {A : Type 0} (a : A) (w : World)
        → start ↝* w
        → Ends (if o.fails w.calls then (err db_failed, count_call w) else (ok a, count_call w))
    list-Ends a w h =
        either-Ends (o.fails w.calls) _ _ (record { holds = counted h })
          (record { holds = counted h })

    pub change-Ends :
        (w w' : World)
        → start ↝* w
        → w ↝ w'
        → Ends (if o.fails w.calls then (err db_failed, count_call w) else (ok tt, count_call w'))
    change-Ends w w' h step =
        either-Ends (o.fails w.calls) _ _ (record { holds = counted h })
          (record { holds = counted (more h step) })

    pub get_attempt-Ends : (id : Uuid) (w : World) → start ↝* w → Ends (Attempts.get_by_id o id w)
    unfolding Attempts.get_by_id
    get_attempt-Ends id w h = read-Ends _ w h

    pub get_purchase-Ends : (id : Uuid) (w : World) → start ↝* w → Ends (Purchases.get_by_id o id w)
    unfolding Purchases.get_by_id
    get_purchase-Ends id w h = read-Ends _ w h

    pub get_test-Ends : (id : Uuid) (w : World) → start ↝* w → Ends (Tests.get_by_id o id w)
    unfolding Tests.get_by_id
    get_test-Ends id w h = read-Ends _ w h

    pub get_version-Ends :
        (id : Uuid) (w : World) → start ↝* w → Ends (Scenarios.get_version o id w)
    unfolding Scenarios.get_version
    get_version-Ends id w h = read-Ends _ w h

    pub list_checks-Ends :
        (id : Uuid) (w : World)
        → start ↝* w
        → Ends (Scenarios.list_checks_by_scenario_version o id w)
    unfolding Scenarios.list_checks_by_scenario_version
    list_checks-Ends id w h = list-Ends _ w h

    pub get_environment-Ends :
        (id : Uuid) (w : World) → start ↝* w → Ends (Environments.get_by_attempt_id o id w)
    unfolding Environments.get_by_attempt_id
    get_environment-Ends id w h = read-Ends _ w h

    pub environment-Ends :
        (id : Uuid) (w : World) → start ↝* w → Ends (Environments.get_by_id o id w)
    unfolding Environments.get_by_id
    environment-Ends id w h = read-Ends _ w h

    pub token-Ends :
        (token : Text) (w : World) → start ↝* w → Ends (Sessions.get_by_terminal_token o token w)
    unfolding Sessions.get_by_terminal_token
    token-Ends token w h = read-Ends _ w h

    pub get_session-Ends :
        (id : Uuid) (w : World) → start ↝* w → Ends (Sessions.get_by_attempt_id o id w)
    unfolding Sessions.get_by_attempt_id
    get_session-Ends id w h = read-Ends _ w h

    pub list_attempts-Ends :
        (s : AttemptStatus) (w : World) → start ↝* w → Ends (Attempts.list_by_status o s w)
    unfolding Attempts.list_by_status
    list_attempts-Ends s w h = list-Ends _ w h

    pub enqueue-Ends :
        (kind : JobKind) (payload : Payload) (at : Option Instant) (w : World)
        → start ↝* w
        → Ends (enqueue o kind payload at w)
    unfolding enqueue
    enqueue-Ends kind payload at w h = change-Ends w _ h (queue _ refl)

    pub increment-Ends :
        (id : Uuid) (w : World) → start ↝* w → Ends (Purchases.increment_attempts_remaining o id w)
    unfolding Purchases.increment_attempts_remaining
    increment-Ends id w h = change-Ends w _ h (give id refl)

    pub decrement-Ends :
        (id : Uuid) (w : World) → start ↝* w → Ends (Purchases.decrement_attempts_remaining o id w)
    unfolding Purchases.decrement_attempts_remaining
    decrement-Ends id w h =
        either-Ends (o.fails w.calls) _ _ (record { holds = counted h })
          (either-Ends (any (Purchases.has_left id) w.purchased_tests) _ _
            (record { holds = counted (more h (take id refl)) }) (record { holds = counted h }))

    pub create_attempt-Ends :
        (id purchase : Uuid) (created : Instant) (w : World)
        → start ↝* w
        → Ends (Attempts.create o (new_attempt id purchase created) w)
    unfolding Attempts.create
    create_attempt-Ends id purchase created w h =
        exec-Ends _ w h (λ w' e. request id purchase created e)

    pub update_score-Ends :
        (id : Uuid) (n m : ℤ) (w : World) → start ↝* w → Ends (Attempts.update_score o id n m w)
    unfolding Attempts.update_score
    update_score-Ends id n m w h = change-Ends w _ h (score id n m refl)

    pub create_environment-Ends :
        (e : Environment) (w : World) → start ↝* w → Ends (Environments.create o e w)
    unfolding Environments.create
    create_environment-Ends env w h = exec-Ends _ w h (λ w' e. build env e)

    pub set_environment-Ends :
        (id : Uuid) (s : EnvironmentStatus) (w : World)
        → start ↝* w
        → Ends (Environments.update_status o id s w)
    unfolding Environments.update_status
    set_environment-Ends id s w h = change-Ends w _ h (set_environment id s refl)

    pub create_session-Ends : (s : Session) (w : World) → start ↝* w → Ends (Sessions.create o s w)
    unfolding Sessions.create
    create_session-Ends s w h = exec-Ends _ w h (λ w' e. admit s e)

    pub opened-Ends :
        (id : Uuid) (t : Instant) (w : World)
        → start ↝* w
        → Ends (Sessions.update_first_opened_at o id t w)
    unfolding Sessions.update_first_opened_at
    opened-Ends id t w h = change-Ends w _ h (enter id t refl)

    pub transition-Ends :
        (id : Uuid) (to : AttemptStatus) (w : World)
        → Asked to
        → start ↝* w
        → Ends (transition_attempt o id to w)
    transition-Ends id to w asked h = elim (transition_attempt_lem o id to w) [
      | inl (_, unchanged) ↦ record { holds = more h (call _ unchanged) }
      | inr (a, _, found, valid, changed) ↦ record {
        holds = more (more h (move id a to asked found valid refl)) (call _ changed);
      }
    ]
