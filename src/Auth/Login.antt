-- ===== src/Auth/Login.antt =====
-- What a registration makes possible.
use painkiller.Prelude.{
  ℕ, ◌+◌, pos, ◌∙◌, ◌≤ℤ◌, ◌+ℤ◌, ◌≡◌, ap, true, false, some, List, [], ◌∷◌, ◌++◌, arith, any, find,
  text_eq, text_eq_refl, Text, inl, inr, Option-cases,
}
use painkiller.Outside.{Outside}
use painkiller.Models.{Instant, User}
use painkiller.Store.{World, ok, is_ok}
use painkiller.Store.Users
use painkiller.Auth.{
  Claims, Vault, truncate, create_user, register, claims_at, generate_token, login, validate_token,
}

-- A new row with a new address is found by it.
find-new :
    (email : Text) (us : List User) (u : User)
    → u.email ≡ email
    → any (λ v. text_eq v.email u.email) us ≡ false
    → find (λ v. text_eq v.email email) (us ++ u ∷ []) ≡ some u
find-new email [] u e h = ground (arith, text_eq_refl email)
find-new email (v ∷ us) u e h = ground (arith, find-new email us u)

module _ (v : Vault) (o : Outside) where
  -- A registration that succeeds adds one user under an address that no other has, without the
  -- administrator's rights and with a hash of the password, and nothing else is written.
  pub register_ok :
      (email password : Text) (w w' : World) (u : User)
      → register v o email password w ≡ (ok u, w')
      → (v.hash_password (w.calls + 1) password ≡ some u.password_hash)
        × (u.email ≡ email)
        × (u.is_admin ≡ false)
        × (any (λ x. text_eq x.email u.email) w.users ≡ false)
        × (w' ≡ record w { users = w.users ++ u ∷ []; calls = w'.calls })
  unfolding register create_user Users.create Users.get_by_email
  register_ok email password w w' u e =
      elim (Option-cases (v.hash_password (w.calls + 1) password)) [
        | inl none_made ↦ (ground arith, ground arith, ground arith, ground arith, ground arith)
        | inr (hash, made) ↦ (ground arith, ground arith, ground arith, ground arith, ground arith)
      ]

  -- A login whose password the hash accepts, where no call fails, gives the signed claims.
  login_found :
      (email password token : Text) (w : World) (u : User)
      → ((n : ℕ) → o.fails n ≡ false)
      → find (λ x. text_eq x.email email) w.users ≡ some u
      → v.compare u.password_hash password ≡ true
      → v.sign (claims_at v o u.id (o.clock (w.calls + 1))) ≡ some token
      → (login v o email password w).0 ≡ ok token
  unfolding login generate_token Users.get_by_email
  login_found email password token w u up found same signed =
      ground (arith, up w.calls, up (w.calls + 1))

  validate_valid :
      (token : Text) (w : World) (c : Claims)
      → v.parse (o.clock w.calls) token ≡ some c
      → (validate_token v o token w).0 ≡ ok c.user_id
  unfolding validate_token
  validate_valid token w c parsed = ground arith

  -- A login that succeeds is by the password of the user with that address, as bcrypt compares it;
  -- its token is the signature of claims on that user, issued and valid from the instant of the login
  -- and until the manager's expiry after it, each down to the second, and nothing is written.
  pub login_ok :
      (email password token : Text) (w w' : World)
      → login v o email password w ≡ (ok token, w')
      → (u : User) × (find (λ x. text_eq x.email email) w.users ≡ some u)
        × (v.compare u.password_hash password ≡ true)
        × (v.sign (record {
          user_id = u.id;
          issued_at = truncate (o.clock (w.calls + 1));
          not_before = truncate (o.clock (w.calls + 1));
          expires_at = truncate (o.clock (w.calls + 1) +ℤ v.expiry);
        })
            ≡ some token)
        × (w' ≡ record w { calls = w.calls + 2 })
  unfolding login generate_token Users.get_by_email
  login_ok email password token w w' e =
      elim (Option-cases (find (λ x. text_eq x.email email) w.users)) [
        | inl nobody ↦
            let wrong : is_ok (login v o email password w).0 ≡ false = ground arith in
            let right : is_ok (login v o email password w).0 ≡ true = ap (λ r. is_ok r.0) e in cc
        | inr (u, found) ↦ (u, found, ground arith, ground arith, ground arith)
      ]

  -- If bcrypt accepts a password against its own hash, and jwt reads what it signed between the
  -- start and the expiry of the claims, then a user who has registered can log in, where no call
  -- fails: the login with the same address and password gives a token that is read as the user's in
  -- every state whose clock lies between the claims' start and expiry.
  pub login-register :
      (email password : Text) (w w' x : World) (u : User)
      → register v o email password w ≡ (ok u, w')
      → ((n : ℕ) → o.fails n ≡ false)
      → ((n : ℕ) (p h : Text) → v.hash_password n p ≡ some h → v.compare h p ≡ true)
      → ((c : Claims)
          → (t : Text) × (v.sign c ≡ some t)
            × ((time : Instant)
                → c.not_before ≤ℤ time
                → time +ℤ pos 1 ≤ℤ c.expires_at
                → v.parse time t ≡ some c))
      → (claims_at v o u.id (o.clock (w'.calls + 1))).not_before ≤ℤ o.clock x.calls
      → o.clock x.calls +ℤ pos 1 ≤ℤ (claims_at v o u.id (o.clock (w'.calls + 1))).expires_at
      → (token : Text) × ((login v o email password w').0 ≡ ok token)
        × ((validate_token v o token x).0 ≡ ok u.id)
  login-register email password w w' x u e up compared signs started running =
      let (hash, address, _, new, after) = register_ok email password w w' u e in
      let c = claims_at v o u.id (o.clock (w'.calls + 1)) in
      let (token, signed, parsed) = signs c in
      let found : find (λ y. text_eq y.email email) w'.users ≡ some u =
        ap (λ y. find (λ z. text_eq z.email email) y.users) after
        ∙ find-new email w.users u address new in
      (
        token,
        login_found email password token w' u up found (compared _ password _ hash) signed,
        validate_valid token x c (parsed (o.clock x.calls) started running),
      )
