-- ===== src/Grading/Runner.antt =====
-- internal/grading/runner.go and checks.go.
use painkiller.Prelude.{ℤ, pos, leb_ℤ, ◌&&◌, Bool, not, Text, ⊤, if◌then◌else◌}
use painkiller.Outside.{Outside, RunOutcome, clean, exit_error, broken}
use painkiller.Models.{Instant, Check}
use painkiller.Store.{
  Action, pure, raise, raise_if, ok, err, ◌>>=◌, ◌>>◌, count_call, now, key_error, ssh_error,
}

pub record CheckResult : Type 0 where
  pub check_id : Text
  pub passed : Bool
  pub stdout : Text
  pub stderr : Text
  pub exit_code : ℤ
  pub points_awarded : ℤ
  pub points_possible : ℤ
  pub ran_at : Instant

-- A call of package ssh that succeeds or fails.
abbrev attempt_call : Bool → Action ⊤
attempt_call good w = (if good then ok tt else err ssh_error, count_call w)

-- The exit code, or the error that is no `*ssh.ExitError`.
abbrev exit_code_of : RunOutcome → Action ℤ
exit_code_of clean = pure (pos 0)
exit_code_of (exit_error n) = pure n
exit_code_of broken = raise ssh_error

-- `exitCode == 0`
abbrev is_zero : ℤ → Bool
is_zero n = leb_ℤ n (pos 0) && leb_ℤ (pos 0) n

abbrev result_of : Text → Check → ℤ → Text × Text → Instant → CheckResult
result_of id check exit_code output time = record {
  check_id = id;
  passed = is_zero exit_code;
  stdout = output.0;
  stderr = output.1;
  exit_code = exit_code;
  points_awarded = if is_zero exit_code then check.points else pos 0;
  points_possible = check.points;
  ran_at = time;
}

module _ (o : Outside) where
  unfoldable pub run_check : Check → Text → Text → Action CheckResult
  run_check check workstation_ip ssh_key = do
    raise_if (not (o.ssh_parse ssh_key)) key_error
    λ w. attempt_call (o.ssh_dial w.calls workstation_ip) w
    λ w. attempt_call (o.ssh_session w.calls) w
    output ← λ w. (ok (o.ssh_output w.calls), w)
    exit_code ← λ w. exit_code_of (o.ssh_run w.calls check.command) (count_call w)
    time ← now o
    pure (result_of (o.uuid_string check.id) check exit_code output time)
