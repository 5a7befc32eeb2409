-- ===== src/Auth.antt =====
-- internal/auth: registration, login, tokens, and the middleware that reads them.
use painkiller.Prelude.{
  ℕ, ℤ, pos, negsuc, ◌+◌, ◌*◌, ◌/◌, ◌+ℤ◌, ◌-ℤ◌, Bool, true, false, ◌||◌, not, Option, none, some,
  List, [], ◌∷◌, ◌++◌, ⊤, if◌then◌else◌, ◌==◌, Text, codes, is_empty,
}
use painkiller.Outside.{Outside}
use painkiller.Models.{Uuid, Instant, User}
use painkiller.Store.{
  World, Result, Action, ok, err, pure, raise, raise_if, wrapped, or_wrap, ◌>>=◌, ◌>>◌, now,
  new_uuid, count_call, Error, wrap, email_exists, invalid_credentials, hash_error, token_error,
  failed_to_hash, failed_to_create_user, failed_to_generate, no_rows,
}
use painkiller.Store.Users
use painkiller.Http.{
  Reply, Handler, success, created, bad_request, internal_error, given, refuse_if, or_refuse,
  invalid_body, not_signed_in, credentials_required, email_taken, registration_failed,
  wrong_credentials, login_failed, could_not_fetch_user,
}
pub mod Login
mod Examples

-- The claims that the program sets and reads; the issuer and the subject are constants of the user.
pub record Claims : Type 0 where
  pub user_id : Uuid
  pub issued_at : Instant
  pub not_before : Instant
  pub expires_at : Instant

-- bcrypt and jwt, with the manager's secret and expiry.
pub record Vault : Type 0 where
  -- `bcrypt.GenerateFromPassword` at a call: the salt is drawn anew.
  pub hash_password : ℕ → Text → Option Text
  -- `bcrypt.CompareHashAndPassword` (true: no error)
  pub compare : Text → Text → Bool
  -- `token.SignedString`
  pub sign : Claims → Option Text
  -- `jwt.ParseWithClaims` at an instant
  pub parse : Instant → Text → Option Claims
  pub expiry : ℤ

abbrev second : ℕ
second = 1000000000

-- `jwt.NewNumericDate`: down to the second.
unfoldable pub truncate : Instant → Instant
truncate (pos n) = pos (n / second * second)
truncate (negsuc n) = pos 0 -ℤ pos ((n + second) / second * second)

abbrev pub or_error : {A : Type 0} → Option A → Error → Action A
or_error none e = raise e
or_error (some a) e = pure a

-- `if err == nil { return ErrEmailExists }`: any error of the query lets the registration go on.
abbrev pub unless_found : Result User × World → Action User → Result User × World
unless_found (ok _, w) rest = (err email_exists, w)
unless_found (err _, w) rest = rest w

-- A call whose error is answered with another.
abbrev pub replaced : {A : Type 0} → Error → Result A × World → Result A × World
replaced e (ok a, w) = (ok a, w)
replaced e (err _, w) = (err e, w)

abbrev pub new_user : Uuid → Text → Text → Instant → User
new_user id email hash time = record {
  id = id;
  email = email;
  password_hash = hash;
  is_admin = false;
  created_at = time;
}

module _ (v : Vault) (o : Outside) where
  -- The hash of a password, at the next call.
  abbrev pub hashed : Text → Action Text
  hashed password w =
      or_error (v.hash_password w.calls password) (wrap failed_to_hash hash_error) (count_call w)

  -- `Register` after its query.
  unfoldable pub create_user : Text → Text → Action User
  create_user email password = do
    hash ← hashed password
    id ← new_uuid o
    time ← now o
    or_wrap (Users.create o (new_user id email hash time)) failed_to_create_user
    pure (new_user id email hash time)

  unfoldable pub register : Text → Text → Action User
  register email password w =
      unless_found (Users.get_by_email o email w) (create_user email password)

  abbrev pub claims_at : Uuid → Instant → Claims
  claims_at id time = record {
    user_id = id;
    issued_at = truncate time;
    not_before = truncate time;
    expires_at = truncate (time +ℤ v.expiry);
  }

  unfoldable pub generate_token : Uuid → Action Text
  generate_token id = do time ← now o; or_error (v.sign (claims_at id time)) token_error

  unfoldable pub login : Text → Text → Action Text
  login email password = do
    user ← λ w. replaced invalid_credentials (Users.get_by_email o email w)
    raise_if (not (v.compare user.password_hash password)) invalid_credentials
    or_wrap (generate_token user.id) failed_to_generate

  unfoldable pub validate_token : Text → Action Uuid
  validate_token token = do
    time ← now o
    claims ← or_error (v.parse time token) token_error
    pure claims.user_id

  abbrev pub register_reply : Result User × World → Reply (Uuid × Text) × World
  register_reply (ok user, w) = (created (user.id, user.email), w)
  register_reply (err email_exists, w) = (bad_request email_taken, w)
  register_reply (err e, w) = (internal_error registration_failed, w)

  unfoldable pub handle_register : Option (Text × Text) → Handler (Uuid × Text)
  handle_register body = given body (bad_request invalid_body) λ (email, password).
      refuse_if (is_empty email || is_empty password) (bad_request credentials_required)
        λ w. register_reply (register email password w)

  abbrev pub login_reply : Result Text × World → Reply Text × World
  login_reply (ok token, w) = (success token, w)
  login_reply (err invalid_credentials, w) = (Reply.unauthorized wrong_credentials, w)
  login_reply (err e, w) = (internal_error login_failed, w)

  unfoldable pub handle_login : Option (Text × Text) → Handler Text
  handle_login body = given body (bad_request invalid_body) λ (email, password).
      refuse_if (is_empty email || is_empty password) (bad_request credentials_required)
        λ w. login_reply (login email password w)

-- `HandleMe`
unfoldable pub handle_me : Outside → Option Uuid → Handler (Uuid × Text × Bool)
handle_me o user = given user (Reply.unauthorized not_signed_in) λ id w.
    or_refuse (internal_error could_not_fetch_user) (Users.get_by_id o id w)
      λ found w'. (success (found.id, found.email, found.is_admin), w')

-- `strings.TrimPrefix` where the prefix is there.
unfoldable pub after_prefix : Text → Text → Option Text
after_prefix [] s = some s
after_prefix (c ∷ p) [] = none
after_prefix (c ∷ p) (d ∷ s) = let rest = after_prefix p s in if c == d then rest else none

abbrev or_cookie : Option Text → Option Text → Text
or_cookie (some token) cookie = token
or_cookie none (some value) = value
or_cookie none none = []

-- The header and the cookie `auth_token`.
unfoldable pub extract_token : Text → Option Text → Text
extract_token header cookie = or_cookie (after_prefix (codes "Bearer ") header) cookie

-- The user that the middleware puts into the context, where it lets the request pass.
abbrev pub signed_in : Result Uuid × World → Option Uuid × World
signed_in (ok id, w) = (some id, w)
signed_in (err _, w) = (none, w)

unfoldable pub middleware : Vault → Outside → Text → Option Text → World → Option Uuid × World
middleware v o header cookie w =
    let token = extract_token header cookie in
    if is_empty token then (none, w) else signed_in (validate_token v o token w)
