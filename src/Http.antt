-- ===== src/Http.antt =====
-- internal/httpx as the handlers use it: what a request carries and what it is answered. A path
-- parameter or a body field that holds no UUID is `none`, and so is a user who is not signed in.
use painkiller.Prelude.{Option, none, some, Bool, if◌then◌else◌}
use painkiller.Store.{World, Result, ok, err}

-- The messages that the handlers send.
pub data Message : Type 0 where
  not_signed_in invalid_body invalid_id row_not_found is_forbidden : Message
  has_expired none_left could_not_create could_not_submit is_not_running : Message
  no_score token_invalid is_not_active upgrade_failed ssh_failed : Message
  not_provision_failed could_not_reset could_not_enqueue : Message
  bad_signature processing_failed checkout_failed not_a_free_test : Message
  credentials_required email_taken registration_failed wrong_credentials login_failed : Message
  could_not_fetch_user : Message
  title_required price_required must_be_positive has_purchases could_not_write : Message

-- `httpx.WriteJSON` with 200 or 201, and the functions for the other status codes.
pub data Reply (A : Type 0) : Type 0 where
  success : A → Reply A
  created : A → Reply A
  bad_request : Message → Reply A
  unauthorized : Message → Reply A
  forbidden : Message → Reply A
  not_found : Message → Reply A
  internal_error : Message → Reply A
  -- The handler panics, and the server drops the connection.
  crashed : Reply A

abbrev pub Handler : Type 0 → Type 0
Handler A = World → Reply A × World

-- `if err != nil { answer; return }` after a call.
abbrev pub or_refuse :
    {A B : Type 0} → Reply B → Result A × World → (A → Handler B) → Reply B × World
or_refuse refusal (ok a, w) rest = rest a w
or_refuse refusal (err e, w) rest = (refusal, w)

-- A value that the request may lack.
abbrev pub given : {A B : Type 0} → Option A → Reply B → (A → Handler B) → Handler B
given none refusal rest w = (refusal, w)
given (some a) refusal rest w = rest a w

-- `if c { answer; return }`
abbrev pub refuse_if : {B : Type 0} → Bool → Reply B → Handler B → Handler B
refuse_if c refusal rest w = if c then (refusal, w) else rest w
