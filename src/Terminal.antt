-- ===== src/Terminal.antt =====
-- internal/terminal/gateway.go up to the SSH connection: what opening a terminal does to the
-- session and the attempt. The copying between the two connections is not modelled.
mod Opening
use painkiller.Prelude.{ℕ, Bool, true, false, not, Option, none, some, Text, ⊤, if◌then◌else◌}
use painkiller.Outside.{Outside}
use painkiller.Models.{
  Uuid, Instant, Environment, Session, AttemptStatus, environment_ready, running, terminal_opened,
  status_eq,
}
use painkiller.Store.{World, Result, Action, ok, err, pure, ignore, now, count_call, ◌>>=◌, ◌>>◌}
use painkiller.Store.Attempts
use painkiller.Store.Environments
use painkiller.Store.Sessions
use painkiller.Attempts.Service.{transition_attempt}
use painkiller.Http.{
  Reply, Handler, success, unauthorized, forbidden, not_found, crashed, bad_request, upgrade_failed,
  or_refuse, refuse_if, token_invalid, row_not_found, is_not_active,
}

-- `attempt.Status != environment_ready && attempt.Status != running && …`
abbrev is_closed : AttemptStatus → Bool
is_closed environment_ready = false
is_closed running = false
is_closed terminal_opened = false
is_closed _ = true

-- The address and the key that the SSH connection uses, after the first opening is noted. A nil
-- address panics.
abbrev pub connect : Environment → Option Text → Result ⊤ × World → Reply (Text × Text) × World
connect env (some ip) (r, w) = (success (ip, env.ssh_private_key), w)
connect env none (r, w) = (crashed, w)

module _ (o : Outside) where
  -- What the first opening writes; each call's error is dropped.
  unfoldable pub note_opening : Session → Action ⊤
  note_opening session = do
    time ← now o
    ignore (Sessions.update_first_opened_at o session.id time)
    ignore (transition_attempt o session.attempt_id terminal_opened)
    ignore (transition_attempt o session.attempt_id running)

  -- `if session.FirstOpenedAt == nil { … }`
  abbrev pub note_first : Option Instant → Session → Action ⊤
  note_first none session = note_opening session
  note_first (some _) session = pure tt

  -- `upgrades` is whether `upgrader.Upgrade` succeeds; where it does not, the
  -- upgrader has answered with an error of its own.
  unfoldable pub handle_web_socket : Bool → Text → Handler (Text × Text)
  unfolding note_opening
  handle_web_socket upgrades token w =
      or_refuse (unauthorized token_invalid) (Sessions.get_by_terminal_token o token w)
        (λ session w.
          or_refuse (not_found row_not_found) (Attempts.get_by_id o session.attempt_id w) λ attempt.
            refuse_if (is_closed attempt.status) (forbidden is_not_active) λ w.
              or_refuse (not_found row_not_found)
                (Environments.get_by_id o session.environment_id w)
                λ env. refuse_if (not upgrades) (bad_request upgrade_failed) λ w.
                  connect env env.workstation_ip (note_first session.first_opened_at session w))
