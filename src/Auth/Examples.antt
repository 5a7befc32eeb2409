-- ===== src/Auth/Examples.antt =====
-- The theorems on logins at work: a learner registers and logs in.
use painkiller.Prelude.{
  ℕ, zero, suc, ◌+◌, ℤ, pos, negsuc, Option, ◌+ℤ◌, ◌≡◌, refl, true, false, none, some, [], ◌∷◌,
  ◌++◌, Text, codes, text_eq, text_eq_refl, arith, find,
}
use mathlib.Core.Path.{subst}
use painkiller.Example.{shop, calm}
use painkiller.Models.{User}
use painkiller.Store.{World, ok}
use painkiller.Store.Users
use painkiller.Store.Table.{has}
use painkiller.Auth.{
  Vault, Claims, truncate, claims_at, create_user, register, generate_token, login, validate_token,
}
use painkiller.Auth.Login.{login_ok, login-register}

-- A token that lists its claims, and hashes that are the passwords.
abbrev tag : ℤ → ℕ
tag (pos _) = 0
tag (negsuc _) = 1

abbrev size : ℤ → ℕ
size (pos n) = n
size (negsuc n) = n

abbrev integer : ℕ → ℕ → ℤ
integer zero n = pos n
integer (suc _) n = negsuc n

integer-tag : (z : ℤ) → integer (tag z) (size z) ≡ z
integer-tag (pos n) = refl
integer-tag (negsuc n) = refl

abbrev listed : Claims → Text
listed c =
    c.user_id
    ∷ tag c.issued_at
    ∷ size c.issued_at
    ∷ tag c.not_before
    ∷ size c.not_before
    ∷ tag c.expires_at
    ∷ size c.expires_at
    ∷ []

abbrev read_claims : Text → Option Claims
read_claims (u ∷ a ∷ b ∷ c ∷ d ∷ e ∷ f ∷ []) = some (record {
  user_id = u;
  issued_at = integer a b;
  not_before = integer c d;
  expires_at = integer e f;
})
read_claims _ = none

abbrev plain_vault : Vault
plain_vault = record {
  hash_password = λ _ p. some p;
  compare = text_eq;
  sign = λ c. some (listed c);
  parse = λ _ t. read_claims t;
  expiry = pos 86400000000000;
}

read-listed : (c : Claims) → read_claims (listed c) ≡ some c
read-listed c =
    ground (arith, integer-tag c.issued_at, integer-tag c.not_before, integer-tag c.expires_at)

abbrev ann : User
ann = record {
  id = 102;
  email = codes "ann";
  password_hash = codes "word";
  is_admin = false;
  created_at = pos 3;
}

abbrev with_ann : World
with_ann = record shop { users = shop.users ++ ann ∷ []; calls = 5 }

ann_registers : register plain_vault calm (codes "ann") (codes "word") shop ≡ (ok ann, with_ann)
unfolding register create_user Users.create Users.get_by_email text_eq has
ann_registers = refl

compared : (n : ℕ) (p h : Text) → some p ≡ some h → text_eq h p ≡ true
compared n p h e = let same : p ≡ h = cc in subst (λ t. text_eq t p ≡ true) same (text_eq_refl p)

login-register_example :
    (token : Text) × ((login plain_vault calm (codes "ann") (codes "word") with_ann).0 ≡ ok token)
    × ((validate_token plain_vault calm token with_ann).0 ≡ ok ann.id)
unfolding truncate ◌+ℤ◌
login-register_example =
    login-register plain_vault calm (codes "ann") (codes "word") shop with_ann with_ann ann
      ann_registers (λ n. refl) compared (λ c. (listed c, refl, λ t a b. read-listed c))
      (omega arith) (omega arith)

login_ok_example :
    (u : User) × (find (λ x. text_eq x.email (codes "ann")) with_ann.users ≡ some u)
    × (plain_vault.compare u.password_hash (codes "word") ≡ true)
    × (plain_vault.sign (claims_at plain_vault calm u.id (calm.clock (with_ann.calls + 1)))
        ≡ some (listed (claims_at plain_vault calm 102 (pos 6))))
    × (record with_ann { calls = 7 } ≡ record with_ann { calls = with_ann.calls + 2 })
unfolding login generate_token Users.get_by_email text_eq
login_ok_example =
    login_ok plain_vault calm (codes "ann") (codes "word")
      (listed (claims_at plain_vault calm 102 (pos 6))) with_ann (record with_ann { calls = 7 })
      refl
