-- ===== src/Billing/Routes.antt =====
-- internal/billing/handler.go.
use painkiller.Prelude.{ℕ, Option, Text}
use painkiller.Outside.{Outside}
use painkiller.Models.{Uuid}
use painkiller.Store.{World, Result, ok, err, not_free}
use painkiller.Http.{
  Reply, Handler, success, bad_request, internal_error, given, not_signed_in, invalid_body,
  invalid_id, checkout_failed, not_a_free_test, could_not_create,
}
use painkiller.Billing.{create_checkout_session, create_free_purchase}

abbrev pub checkout_reply : Result Text × World → Reply Text × World
checkout_reply (ok url, w) = (success url, w)
checkout_reply (err e, w) = (internal_error checkout_failed, w)

-- `acquireFree` compares the text of the error.
abbrev pub acquire_reply : Result Uuid × World → Reply Uuid × World
acquire_reply (ok id, w) = (success id, w)
acquire_reply (err not_free, w) = (bad_request not_a_free_test, w)
acquire_reply (err e, w) = (internal_error could_not_create, w)

module _ (o : Outside) where
  unfoldable pub checkout :
      (ℕ → Text → Uuid → Uuid → Option Text) → Option Uuid → Option (Option Uuid) → Handler Text
  checkout new_session user body = given user (Reply.unauthorized not_signed_in) λ user_id.
      given body (bad_request invalid_body) λ field.
        given field (bad_request invalid_id)
          λ test_id w. checkout_reply (create_checkout_session o new_session user_id test_id w)

  unfoldable pub acquire_free : Option Uuid → Option (Option Uuid) → Handler Uuid
  acquire_free user body = given user (Reply.unauthorized not_signed_in) λ user_id.
      given body (bad_request invalid_body) λ field.
        given field (bad_request invalid_id)
          λ test_id w. acquire_reply (create_free_purchase o user_id test_id w)
