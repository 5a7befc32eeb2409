-- ===== src/Lifecycle/Registering.antt =====
-- The writes of a registration, and the handlers that only read: those of auth, catalog,
-- entitlements and the listings of admin.
use painkiller.Prelude.{refl, Option, none, some, Text, arith}
use painkiller.Outside.{Outside}
use painkiller.Models.{Uuid, Instant, User}
use painkiller.Store.{World, Result, Action, Error, ok, err}
use painkiller.Store.Users
use painkiller.Store.Purchases
use painkiller.Store.Tests
use painkiller.Http.{Handler}
use painkiller.Auth.{
  Vault, new_user, or_error, unless_found, replaced, create_user, register, generate_token, login,
  register_reply, login_reply, handle_register, handle_login, handle_me,
}
use painkiller.Catalog
use painkiller.Entitlements
use painkiller.Admin.Guard.{admin_only}
use painkiller.Admin.Listing.{list_all_tests, get_test}
use painkiller.Lifecycle.Writes.{add_user}
use painkiller.Lifecycle.Frame.{read-Ends, list-Ends, exec-Ends}
use painkiller.Lifecycle.Rules.{
  Ends, ◌↝*◌, counted, plain-Ends, and_then-Ends, wrapped-Ends, if-Ends, either-Ends,
}
use painkiller.Lifecycle.Answers.{
  Answers, same-Answers, or_refuse-Answers, refuse_if-Answers, plain-Answers, guarded-Ends,
  joined-Ends,
}

module _ (start : World) where
  or_error-Ends :
      {A : Type 0} (m : Option A) (e : Error) (w : World) → start ↝* w → Ends start (or_error m e w)
  or_error-Ends none e w h = record { holds = h }
  or_error-Ends (some a) e w h = record { holds = h }

  unless_found-Ends :
      (r : Result User × World) (rest : Action User)
      → Ends start r
      → ((w : World) → start ↝* w → Ends start (rest w))
      → Ends start (unless_found r rest)
  unless_found-Ends (ok u, w) rest h k = record { holds = h.holds }
  unless_found-Ends (err e, w) rest h k = k w h.holds

  replaced-Ends :
      {A : Type 0} (e : Error) (r : Result A × World) → Ends start r → Ends start (replaced e r)
  replaced-Ends e (ok a, w) h = h
  replaced-Ends e (err f, w) h = record { holds = h.holds }

  register_reply-Answers :
      (v : Vault) (o : Outside) (r : Result User × World)
      → Ends start r
      → Answers start (register_reply v o r)
  register_reply-Answers v o r h = same-Answers start (register_reply v o) r (ground arith) h

  login_reply-Answers :
      (v : Vault) (o : Outside) (r : Result Text × World)
      → Ends start r
      → Answers start (login_reply v o r)
  login_reply-Answers v o r h = same-Answers start (login_reply v o) r (ground arith) h

  module _ (o : Outside) where
    create_user-Ends :
        (id : Uuid) (email hash : Text) (time : Instant) (w : World)
        → start ↝* w
        → Ends start (Users.create o (new_user id email hash time) w)
    unfolding Users.create
    create_user-Ends id email hash time w h =
        exec-Ends start o _ w h (λ w' e. add_user (new_user id email hash time) refl e)

    user_row-Ends : (id : Uuid) (w : World) → start ↝* w → Ends start (Users.get_by_id o id w)
    unfolding Users.get_by_id
    user_row-Ends id w h = read-Ends start o _ w h

    by_email-Ends :
        (email : Text) (w : World) → start ↝* w → Ends start (Users.get_by_email o email w)
    unfolding Users.get_by_email
    by_email-Ends email w h = read-Ends start o _ w h

    list_tests-Ends : (w : World) → start ↝* w → Ends start (Tests.list_with_product o w)
    unfolding Tests.list_with_product
    list_tests-Ends w h = list-Ends start o _ w h

    list_purchases-Ends :
        (id : Uuid) (w : World) → start ↝* w → Ends start (Purchases.list_by_user_id o id w)
    unfolding Purchases.list_by_user_id
    list_purchases-Ends id w h = list-Ends start o _ w h

  ruleset reading = (
    or_error-Ends, unless_found-Ends, replaced-Ends, register_reply-Answers, login_reply-Answers,
    create_user-Ends, user_row-Ends, by_email-Ends, list_tests-Ends, list_purchases-Ends,
    joined-Ends, counted, plain-Ends, and_then-Ends, wrapped-Ends, if-Ends, either-Ends,
    or_refuse-Answers, refuse_if-Answers, plain-Answers, guarded-Ends,
  )

  module _ (o : Outside) where
    -- What an administrator alone may do.
    pub admin_keeps :
        {A : Type 0} (user : Option Uuid) (next : Handler A) (w : World)
        → start ↝* w
        → ((u : World) → start ↝* u → Answers start (next u))
        → Answers start (admin_only o user next w)
    unfolding admin_only
    admin_keeps none next w h k = plain-Answers start _ w h
    admin_keeps (some id) next w h k = search (reading, k) depth 12 fits 20000

    pub register_keeps :
        (v : Vault) (body : Option (Text × Text)) (w : World)
        → start ↝* w
        → Answers start (handle_register v o body w)
    unfolding handle_register register create_user
    register_keeps v none w h = plain-Answers start _ w h
    register_keeps v (some (email, password)) w h = search reading depth 20 fits 20000

    pub login_keeps :
        (v : Vault) (body : Option (Text × Text)) (w : World)
        → start ↝* w
        → Answers start (handle_login v o body w)
    unfolding handle_login login generate_token
    login_keeps v none w h = plain-Answers start _ w h
    login_keeps v (some (email, password)) w h = search reading depth 20 fits 20000

    pub me_keeps :
        (user : Option Uuid) (w : World) → start ↝* w → Answers start (handle_me o user w)
    unfolding handle_me
    me_keeps none w h = plain-Answers start _ w h
    me_keeps (some id) w h = search reading depth 12 fits 20000

    pub catalog_keeps : (w : World) → start ↝* w → Answers start (Catalog.list_tests o w)
    unfolding Catalog.list_tests
    catalog_keeps w h = search reading depth 12 fits 20000

    pub dashboard_keeps :
        (user : Option Uuid) (w : World)
        → start ↝* w
        → Answers start (Entitlements.dashboard o user w)
    unfolding Entitlements.dashboard
    dashboard_keeps none w h = plain-Answers start _ w h
    dashboard_keeps (some id) w h = search reading depth 12 fits 20000

    pub all_tests_keeps : (w : World) → start ↝* w → Answers start (list_all_tests o w)
    unfolding list_all_tests
    all_tests_keeps w h = search reading depth 12 fits 20000

    pub one_test_keeps :
        (param : Option Uuid) (w : World) → start ↝* w → Answers start (get_test o param w)
    unfolding get_test
    one_test_keeps none w h = plain-Answers start _ w h
    one_test_keeps (some id) w h = search reading depth 12 fits 20000
