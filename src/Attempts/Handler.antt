-- ===== src/Attempts/Handler.antt =====
-- internal/attempts/handler.go.
use painkiller.Prelude.{ℤ, Bool, true, false, not, Option, none, some, Text, ⊤, if◌then◌else◌, ◌==◌}
use painkiller.Outside.{Outside}
use painkiller.Models.{
  Uuid, Attempt, AttemptStatus, Session, environment_ready, terminal_opened, running,
}
use painkiller.Store.{
  World, Result, ok, err, purchase_expired, no_attempts_remaining, not_running, unauthorized,
}
use painkiller.Store.Purchases
use painkiller.Store.Sessions
use painkiller.Http.{
  Reply, Handler, success, created, bad_request, forbidden, not_found, internal_error, given,
  or_refuse, refuse_if, not_signed_in, invalid_id, row_not_found, is_forbidden, has_expired,
  none_left, could_not_create, could_not_submit, is_not_running, invalid_body,
}
use painkiller.Attempts.Service

pub record CreateAttemptResponse : Type 0 where
  pub id : Uuid
  pub status : AttemptStatus

pub record GetAttemptResponse : Type 0 where
  pub id : Uuid
  pub status : AttemptStatus
  pub score : Option ℤ
  pub max_score : Option ℤ
  pub terminal_token : Option Text

-- The errors that `createAttempt` tells apart; it compares them unwrapped.
abbrev pub create_reply : Result Attempt × World → Reply CreateAttemptResponse × World
create_reply (ok a, w) = (created (record { id = a.id; status = a.status }), w)
create_reply (err purchase_expired, w) = (bad_request has_expired, w)
create_reply (err no_attempts_remaining, w) = (bad_request none_left, w)
create_reply (err e, w) = (internal_error could_not_create, w)

-- `submitAttempt` compares the texts of the errors.
abbrev pub submit_reply : Result ⊤ × World → Reply ⊤ × World
submit_reply (ok a, w) = (success tt, w)
submit_reply (err not_running, w) = (bad_request is_not_running, w)
submit_reply (err unauthorized, w) = (forbidden is_forbidden, w)
submit_reply (err e, w) = (internal_error could_not_submit, w)

-- `activeStatuses`
abbrev pub is_active : AttemptStatus → Bool
is_active environment_ready = true
is_active terminal_opened = true
is_active running = true
is_active _ = false

abbrev get_response : Attempt → Option Text → GetAttemptResponse
get_response a token = record {
  id = a.id;
  status = a.status;
  score = a.score;
  max_score = a.max_score;
  terminal_token = token;
}

abbrev pub with_token : Attempt → Result Session × World → Reply GetAttemptResponse × World
with_token a (ok s, w) = (success (get_response a (some s.terminal_token)), w)
with_token a (err e, w) = (success (get_response a none), w)

module _ (o : Outside) where
  -- A body that is no JSON and one without a UUID are both answered with 400.
  unfoldable pub create_attempt : Option Uuid → Option (Option Uuid) → Handler CreateAttemptResponse
  create_attempt user body = given user (Reply.unauthorized not_signed_in) λ user_id.
      given body (bad_request invalid_body) λ field.
        given field (bad_request invalid_id) λ purchased_test_id w.
          create_reply (Service.request_attempt o user_id purchased_test_id w)

  -- The answer for an attempt of the user.
  abbrev attempt_reply : Attempt → Handler GetAttemptResponse
  attempt_reply a w =
      if is_active a.status
      then with_token a (Sessions.get_by_attempt_id o a.id w)
      else (success (get_response a none), w)

  unfoldable pub get_attempt : Option Uuid → Option Uuid → Handler GetAttemptResponse
  get_attempt user param = given user (Reply.unauthorized not_signed_in) λ user_id.
      given param (bad_request invalid_id) λ attempt_id w.
        or_refuse (not_found row_not_found) (Service.get_attempt o attempt_id w) λ a w.
          or_refuse (forbidden is_forbidden) (Purchases.get_by_id o a.purchased_test_id w)
            λ p. refuse_if (not (p.user_id == user_id)) (forbidden is_forbidden) (attempt_reply a)

  unfoldable pub submit_attempt : Option Uuid → Option Uuid → Handler ⊤
  submit_attempt user param = given user (Reply.unauthorized not_signed_in) λ user_id.
      given param (bad_request invalid_id)
        λ attempt_id w. submit_reply (Service.submit_attempt o user_id attempt_id w)
