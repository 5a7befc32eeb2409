-- ===== src/Grading/Engine.antt =====
-- internal/grading/engine.go.
use painkiller.Prelude.{ℤ, pos, ◌+ℤ◌, Option, none, some, List, [], ◌∷◌, Text, ⊤}
use painkiller.Outside.{Outside}
use painkiller.Models.{Check, grading, scored, cleanup_environment}
use painkiller.Store.{
  World, Result, Action, Payload, pure, or_wrap, ignore, ok, err, ◌>>=◌, ◌>>◌, panic,
  attempt_payload, attempt_not_found, purchase_not_found, test_not_found, environment_not_found,
  failed_to_grade, failed_to_list_checks, failed_to_update_score, failed_to_score,
}
use painkiller.Store.Attempts
use painkiller.Store.Purchases
use painkiller.Store.Tests
use painkiller.Store.Scenarios
use painkiller.Store.Environments
use painkiller.Jobs.{enqueue}
use painkiller.Attempts.Service.{transition_attempt, parse_payload}
use painkiller.Grading.Runner.{CheckResult, run_check}

-- `totalScore` and `maxScore`
pub record Totals : Type 0 where
  pub total_score : ℤ
  pub max_score : ℤ

abbrev pub no_points : Totals
no_points = record { total_score = pos 0; max_score = pos 0 }

abbrev pub add_possible : Check → Totals → Totals
add_possible check t = record t { max_score = t.max_score +ℤ check.points }

-- A check that fails to run is logged and counts for nothing.
abbrev pub add_awarded : Result CheckResult → Totals → Totals
add_awarded (ok result) t = record t { total_score = t.total_score +ℤ result.points_awarded }
add_awarded (err _) t = t

-- The error of a call as a value.
abbrev pub caught : {A : Type 0} → Result A × World → Result (Result A) × World
caught (r, w) = (ok r, w)

module _ (o : Outside) where
  -- `*env.WorkstationIP` panics on a nil pointer.
  abbrev pub run_on : Check → Option Text → Text → Action (Result CheckResult)
  run_on check none ssh_key w = (err panic, w)
  run_on check (some ip) ssh_key w = caught (run_check o check ip ssh_key w)

  -- The loop over the checks.
  unfoldable pub grade_checks : List Check → Option Text → Text → Totals → Action Totals
  grade_checks [] ip ssh_key t = pure t
  grade_checks (check ∷ checks) ip ssh_key t = do
    result ← run_on check ip ssh_key
    grade_checks checks ip ssh_key (add_awarded result (add_possible check t))

  unfoldable pub grade_attempt : Payload → Action ⊤
  grade_attempt payload = do
    attempt_id ← parse_payload payload
    attempt ← or_wrap (Attempts.get_by_id o attempt_id) attempt_not_found
    or_wrap (transition_attempt o attempt_id grading) failed_to_grade
    purchase ← or_wrap (Purchases.get_by_id o attempt.purchased_test_id) purchase_not_found
    test ← or_wrap (Tests.get_by_id o purchase.test_id) test_not_found
    checks ←
        or_wrap (Scenarios.list_checks_by_scenario_version o test.scenario_version_id)
          failed_to_list_checks
    env ← or_wrap (Environments.get_by_attempt_id o attempt_id) environment_not_found
    totals ← grade_checks checks env.workstation_ip env.ssh_private_key no_points
    or_wrap (Attempts.update_score o attempt_id totals.total_score totals.max_score)
        failed_to_update_score
    or_wrap (transition_attempt o attempt_id scored) failed_to_score
    ignore (enqueue o cleanup_environment (attempt_payload attempt_id) none)
