-- ===== src/Scoring/Access.antt =====
-- Who is told a score by internal/scoring/handler.go.
use painkiller.Prelude.{
  ℕ, zero, suc, ℤ, pos, negsuc, ◌*ℤ◌, ◌≤ℤ◌, quot, ◌⊎◌, ◌≡◌, refl, inl, inr, true, Option, none,
  some, arith, Option-cases,
}
use mathlib.Core.Path.{subst}
use painkiller.Outside.{Outside}
use painkiller.Models.{Uuid, Attempt, PurchasedTest, scored, status_eq, status_eq_sound}
use painkiller.Store.{World}
use painkiller.Store.Attempts
use painkiller.Store.Purchases
use painkiller.Store.Table.{lookup}
use painkiller.Http.{success}
use painkiller.Scoring.{ScoreResponse, percentage, or_zero, score_response, get_score}

-- What is told is the attempt's own: its two counts, 0 for one that is missing, and their percentage
-- rounded towards 0, which is 0 unless the maximum is above 0.
abbrev pub IsScoreOf : Attempt → ScoreResponse → Type 0
IsScoreOf a r =
    (((a.score ≡ none) × (r.total_score ≡ pos 0)) ⊎ (a.score ≡ some r.total_score))
    × (((a.max_score ≡ none) × (r.max_score ≡ pos 0)) ⊎ (a.max_score ≡ some r.max_score))
    × (((r.max_score ≤ℤ pos 0) × (r.percentage ≡ pos 0))
        ⊎ ((m : ℕ) × (r.max_score ≡ pos (suc m))
            × (r.percentage ≡ quot (r.total_score *ℤ pos 100) (suc m))))
    × (r.status ≡ scored)

count_told : (n : Option ℤ) → ((n ≡ none) × (or_zero n ≡ pos 0)) ⊎ (n ≡ some (or_zero n))
count_told none = inl (refl, refl)
count_told (some n) = inr refl

percentage_told :
    (t m : ℤ)
    → ((m ≤ℤ pos 0) × (percentage t m ≡ pos 0))
      ⊎ ((k : ℕ) × (m ≡ pos (suc k)) × (percentage t m ≡ quot (t *ℤ pos 100) (suc k)))
unfolding percentage
percentage_told t (negsuc k) = inl (omega arith, refl)
percentage_told t (pos zero) = inl (omega arith, refl)
percentage_told t (pos (suc k)) = inr (k, refl, ground arith)

told_of_row :
    (a : Attempt) (r : ScoreResponse)
    → score_response a ≡ r
    → status_eq a.status scored ≡ true
    → IsScoreOf a r
told_of_row a r same here = subst (IsScoreOf a) same (
  count_told a.score,
  count_told a.max_score,
  percentage_told (or_zero a.score) (or_zero a.max_score),
  status_eq_sound a.status scored here,
)

-- If a score is told, then the user who asks for it is the buyer of the attempt, the attempt is
-- scored, the answer has the attempt's own counts with their percentage, and nothing is written.
pub get_score_access :
    (o : Outside) (user param : Option Uuid) (w : World) (response : ScoreResponse)
    → (get_score o user param w).0 ≡ success response
    → (u : Uuid) × (id : Uuid) × (a : Attempt) × (p : PurchasedTest) × (user ≡ some u)
      × (param ≡ some id)
      × (lookup Attempts.key id w.attempts ≡ some a)
      × (lookup Purchases.key a.purchased_test_id w.purchased_tests ≡ some p)
      × (p.user_id ≡ u)
      × (status_eq a.status scored ≡ true)
      × IsScoreOf a response
      × ((get_score o user param w).1 ≡ record w { calls = (get_score o user param w).1.calls })
unfolding get_score Attempts.get_by_id Purchases.get_by_id
get_score_access o none param w response h = cc
get_score_access o (some u) none w response h = cc
get_score_access o (some u) (some id) w response h =
    elim (Option-cases (lookup Attempts.key id w.attempts)) [
      | inl missing ↦ ground arith
      | inr (a, found) ↦
          elim (Option-cases (lookup Purchases.key a.purchased_test_id w.purchased_tests)) [
            | inl missing ↦ ground arith
            | inr (p, bought) ↦ (
              u,
              id,
              a,
              p,
              refl,
              refl,
              found,
              bought,
              ground arith,
              ground arith,
              told_of_row a response (ground arith) (ground arith),
              ground arith,
            )
          ]
    ]
