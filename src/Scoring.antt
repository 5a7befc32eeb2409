-- ===== src/Scoring.antt =====
-- internal/scoring/handler.go.
use painkiller.Prelude.{
  ℕ, ℤ, pos, negsuc, ◌*ℤ◌, quot, ltb_ℤ, Bool, not, Option, none, some, if◌then◌else◌, ◌==◌,
}
use painkiller.Outside.{Outside}
use painkiller.Models.{Uuid, Attempt, AttemptStatus, scored, status_eq}
use painkiller.Store.{World}
use painkiller.Store.Attempts
use painkiller.Store.Purchases
use painkiller.Http.{
  Reply, Handler, success, bad_request, unauthorized, forbidden, not_found, given, or_refuse,
  refuse_if, not_signed_in, invalid_id, row_not_found, is_forbidden, no_score,
}
mod Percentage
mod Access
mod Examples

pub record ScoreResponse : Type 0 where
  pub total_score : ℤ
  pub max_score : ℤ
  pub percentage : ℤ
  pub status : AttemptStatus

-- `if p != nil { v = *p }`, from 0.
abbrev pub or_zero : Option ℤ → ℤ
or_zero none = pos 0
or_zero (some n) = n

-- `(totalScore * 100) / maxScore` where the maximum is above 0; Go's division truncates.
unfoldable pub percentage : ℤ → ℤ → ℤ
percentage total (pos m) = if ltb_ℤ (pos 0) (pos m) then quot (total *ℤ pos 100) m else pos 0
percentage total (negsuc m) = pos 0

abbrev pub score_response : Attempt → ScoreResponse
score_response a = record {
  total_score = or_zero a.score;
  max_score = or_zero a.max_score;
  percentage = percentage (or_zero a.score) (or_zero a.max_score);
  status = a.status;
}

-- `user` is the one of the context, `param` the UUID of the path.
unfoldable pub get_score : Outside → Option Uuid → Option Uuid → Handler ScoreResponse
unfolding percentage
get_score o user param = given user (unauthorized not_signed_in) λ user_id.
    given param (bad_request invalid_id) λ attempt_id w.
      or_refuse (not_found row_not_found) (Attempts.get_by_id o attempt_id w) λ a w.
        or_refuse (not_found row_not_found) (Purchases.get_by_id o a.purchased_test_id w) λ p.
          refuse_if (not (p.user_id == user_id)) (forbidden is_forbidden) (
            refuse_if (not (status_eq a.status scored)) (not_found no_score)
              λ w. (success (score_response a), w))
