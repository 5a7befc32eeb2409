-- ===== src/Grading/Examples.antt =====
-- The theorems on internal/grading at work on the example shop.
use painkiller.Prelude.{◌≡◌, refl, pos, ◌+ℤ◌, ◌≤ℤ◌, false, List, [], ◌∷◌, arith}
use painkiller.Models.{Check, grading}
use painkiller.Store.{is_ok, attempt_payload}
use painkiller.Store.Table.{lookup}
use painkiller.Example.{shop, calm, check, attempt_at}
use painkiller.Grading.Runner.{run_check}
use painkiller.Grading.Engine.{Totals, grade_checks, grade_attempt}
use painkiller.Grading.Score.{points_sum, grade_checks_range}
use painkiller.Grading.Retry.{grade_attempt_stuck}

-- Two checks of four points, both passed.
abbrev full : Totals
full = record { total_score = pos 8; max_score = pos 8 }

abbrev two_checks : List Check
two_checks = check ∷ check ∷ []

grade_checks_range_example :
    (full.max_score ≡ points_sum two_checks)
    × (pos 0 ≤ℤ full.total_score)
    × (full.total_score ≤ℤ full.max_score)
unfolding grade_checks run_check ◌+ℤ◌
grade_checks_range_example =
    grade_checks_range calm two_checks [] [] shop full (omega arith, (omega arith, tt)) refl

grade_attempt_stuck_example :
    let (r, w') = grade_attempt calm (attempt_payload 8) shop in
    (is_ok r ≡ false) × (w' ≡ record shop { calls = w'.calls })
unfolding lookup
grade_attempt_stuck_example = grade_attempt_stuck calm 8 (attempt_at 8 grading) shop refl refl
