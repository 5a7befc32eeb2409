-- ===== src/Scoring/Examples.antt =====
-- The theorems on internal/scoring at work.
use painkiller.Prelude.{◌≡◌, refl, pos, some, true, ◌*ℤ◌, quot}
use painkiller.Models.{Uuid, Attempt, PurchasedTest, scored, status_eq}
use painkiller.Store.Attempts
use painkiller.Store.Purchases
use painkiller.Store.Table.{lookup}
use painkiller.Example.{shop, calm}
use painkiller.Scoring.{percentage, ScoreResponse, get_score}
use painkiller.Scoring.Access.{IsScoreOf, get_score_access}

abbrev told : ScoreResponse
told = record { total_score = pos 3; max_score = pos 4; percentage = pos 75; status = scored }

get_score_access_example :
    (u : Uuid) × (id : Uuid) × (a : Attempt) × (p : PurchasedTest) × (some 1 ≡ some u)
    × (some 9 ≡ some id)
    × (lookup Attempts.key id shop.attempts ≡ some a)
    × (lookup Purchases.key a.purchased_test_id shop.purchased_tests ≡ some p)
    × (p.user_id ≡ u)
    × (status_eq a.status scored ≡ true)
    × IsScoreOf a told
    × ((get_score calm (some 1) (some 9) shop).1
        ≡ record shop { calls = (get_score calm (some 1) (some 9) shop).1.calls })
unfolding get_score percentage quot ◌*ℤ◌ Attempts.get_by_id Purchases.get_by_id lookup status_eq
get_score_access_example = get_score_access calm (some 1) (some 9) shop told refl
