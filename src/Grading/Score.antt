-- ===== src/Grading/Score.antt =====
-- What the checks of internal/grading add up to.
use painkiller.Prelude.{
  ℤ, pos, ◌+ℤ◌, ◌≤ℤ◌, int_laws, ◌≡◌, refl, ◌⊎◌, inl, inr, true, false, some, List, [], ◌∷◌, arith,
  Text, All,
}
use painkiller.Outside.{Outside}
use painkiller.Models.{Check}
use painkiller.Store.{World, Result, ok, err, is_ok}
use painkiller.Grading.Runner.{CheckResult, run_check}
use painkiller.Grading.Engine.{Totals, add_possible, add_awarded, grade_checks, no_points}

-- A check that runs awards all of its points if it passes, and none if not; it passes exactly when
-- the exit code is 0.
run_check_points :
    (o : Outside) (check : Check) (ip key : Text) (w : World) (r : CheckResult)
    → (run_check o check ip key w).0 ≡ ok r
    → ((r.passed ≡ true) × (r.exit_code ≡ pos 0) × (r.points_awarded ≡ check.points))
      ⊎ ((r.passed ≡ false) × (r.points_awarded ≡ pos 0))
unfolding run_check
run_check_points o check ip key w r h = ground arith

pub points_sum : List Check → ℤ
points_sum [] = pos 0
points_sum (c ∷ cs) = c.points +ℤ points_sum cs

-- One round of the loop adds the check's points to the maximum, and between nothing and its points
-- to the total.
award_bounds :
    (o : Outside) (check : Check) (ip key : Text) (w : World) (t : Totals)
    → pos 0 ≤ℤ check.points
    → let t' = add_awarded (run_check o check ip key w).0 (add_possible check t) in
      (t'.max_score ≡ t.max_score +ℤ check.points)
      × (t.total_score ≤ℤ t'.total_score)
      × (t'.total_score ≤ℤ t.total_score +ℤ check.points)
award_bounds o check ip key w t nonneg = go (run_check o check ip key w).0 refl
  where
    go :
        (r : Result CheckResult)
        → (run_check o check ip key w).0 ≡ r
        → let t' = add_awarded r (add_possible check t) in
          (t'.max_score ≡ t.max_score +ℤ check.points)
          × (t.total_score ≤ℤ t'.total_score)
          × (t'.total_score ≤ℤ t.total_score +ℤ check.points)
    go (ok r) e = elim (run_check_points o check ip key w r e) [
      | inl (_, _, full) ↦ rw full (refl, omega int_laws, omega int_laws)
      | inr (_, nothing) ↦ rw nothing (refl, omega int_laws, omega int_laws)
    ]
    go (err x) e = (refl, omega int_laws, omega int_laws)

-- The bounds over the whole loop, from the totals that it starts with.
grade_checks_bounds :
    (o : Outside) (cs : List Check) (ip key : Text) (t : Totals) (w : World) (t' : Totals)
    → (grade_checks o cs (some ip) key t w).0 ≡ ok t'
    → All (λ c. pos 0 ≤ℤ c.points) cs
    → (t'.max_score ≡ t.max_score +ℤ points_sum cs)
      × (t.total_score ≤ℤ t'.total_score)
      × (t'.total_score ≤ℤ t.total_score +ℤ points_sum cs)
unfolding grade_checks points_sum
grade_checks_bounds o [] ip key t w t' h nonneg =
    let same : t ≡ t' = cc in rw (← same) (omega int_laws, omega int_laws, omega int_laws)
grade_checks_bounds o (c ∷ cs) ip key t w t' h (nonneg, rest) =
    let (r, w') = run_check o c ip key w in
    let one = award_bounds o c ip key w t nonneg in
    let more = grade_checks_bounds o cs ip key (add_awarded r (add_possible c t)) w' t' h rest in
    (rw (more.0, one.0) (omega int_laws), omega int_laws, omega int_laws)

-- Where no check has negative points, a grading that ends has the sum of all points for its maximum
-- and a total between nothing and that maximum, whatever the checks answer.
pub grade_checks_range :
    (o : Outside) (cs : List Check) (ip key : Text) (w : World) (t : Totals)
    → All (λ c. pos 0 ≤ℤ c.points) cs
    → (grade_checks o cs (some ip) key no_points w).0 ≡ ok t
    → (t.max_score ≡ points_sum cs) × (pos 0 ≤ℤ t.total_score) × (t.total_score ≤ℤ t.max_score)
grade_checks_range o cs ip key w t nonneg h =
    let (most, low, high) = grade_checks_bounds o cs ip key no_points w t h nonneg in
    (rw most (omega int_laws), low, rw most high)

-- With an address to reach, the loop never fails: a check that cannot run costs its points and
-- nothing else.
pub grade_checks_total :
    (o : Outside) (cs : List Check) (ip key : Text) (t : Totals) (w : World)
    → is_ok (grade_checks o cs (some ip) key t w).0 ≡ true
unfolding grade_checks
grade_checks_total o [] ip key t w = refl
grade_checks_total o (c ∷ cs) ip key t w =
    let (r, w') = run_check o c ip key w in
    grade_checks_total o cs ip key (add_awarded r (add_possible c t)) w'
