-- ===== src/Entitlements.antt =====
-- internal/entitlements/handler.go: what a user has bought.
mod Active
mod Examples
use painkiller.Prelude.{ℤ, pos, ltb_ℤ, Bool, ◌&&◌, Option, List, map}
use painkiller.Outside.{Outside}
use painkiller.Models.{Uuid, Instant, PurchasedTest}
use painkiller.Store.{now}
use painkiller.Store.Purchases
use painkiller.Http.{
  Reply, Handler, success, internal_error, given, or_refuse, not_signed_in, could_not_write,
}

pub record PurchaseResponse : Type 0 where
  pub id : Uuid
  pub test_id : Uuid
  pub expires_at : Instant
  pub attempts_remaining : ℤ
  pub is_active : Bool

-- `p.ExpiresAt.After(now) && p.AttemptsRemaining > 0`
abbrev pub is_active_at : Instant → PurchasedTest → Bool
is_active_at time p = ltb_ℤ time p.expires_at && ltb_ℤ (pos 0) p.attempts_remaining

abbrev pub to_response : Instant → PurchasedTest → PurchaseResponse
to_response time p = record {
  id = p.id;
  test_id = p.test_id;
  expires_at = p.expires_at;
  attempts_remaining = p.attempts_remaining;
  is_active = is_active_at time p;
}

unfoldable pub dashboard : Outside → Option Uuid → Handler (List PurchaseResponse)
dashboard o user = given user (Reply.unauthorized not_signed_in) λ id w.
    or_refuse (internal_error could_not_write) (Purchases.list_by_user_id o id w) λ purchases w.
      or_refuse (internal_error could_not_write) (now o w)
        λ time w. (success (map (to_response time) purchases), w)
