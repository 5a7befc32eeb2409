-- ===== src/Terminal/Opening.antt =====
-- What opening a terminal does to the attempt, in internal/terminal/gateway.go.
use painkiller.Prelude.{ℕ, ◌+◌, ◌≡◌, refl, false, some, arith}
use painkiller.Outside.{Outside}
use painkiller.Models.{Attempt, Session, environment_ready, running, terminal_opened}
use painkiller.Store.{World}
use painkiller.Store.Attempts
use painkiller.Store.Sessions
use painkiller.Store.Table.{lookup, modify, lookup-modify}
use painkiller.Attempts.StateMachine.{valid_transition}
use painkiller.Attempts.Service.{transition_attempt}
use painkiller.Terminal.{note_opening}

-- Where no call fails, noting the first opening takes an attempt from `environment_ready` through
-- `terminal_opened` to `running`, and sets the instant of the opening in the session.
pub note_opening_runs :
    (o : Outside) (s : Session) (a : Attempt) (w : World)
    → ((n : ℕ) → o.fails n ≡ false)
    → lookup Attempts.key s.attempt_id w.attempts ≡ some a
    → a.status ≡ environment_ready
    → let w' = (note_opening o s w).1 in
      (lookup Attempts.key s.attempt_id w'.attempts ≡ some (Attempts.set_status running a))
      × (w'.sessions
          ≡ modify Sessions.key s.id (Sessions.set_first_opened_at (o.clock w.calls)) w.sessions)
unfolding note_opening transition_attempt valid_transition Attempts.get_by_id Attempts.update_status
    Sessions.update_first_opened_at
note_opening_runs o s a w up found ready =
    let id = s.attempt_id in
    let opened = modify Attempts.key id (Attempts.set_status terminal_opened) w.attempts in
    let first =
      lookup-modify Attempts.key id id (Attempts.set_status terminal_opened) w.attempts
        (λ r. refl) in
    let second =
      lookup-modify Attempts.key id id (Attempts.set_status running) opened (λ r. refl) in
    let n = w.calls + 1 in
    (
      ground (
        arith,
        first,
        second,
        up n,
        up (n + 1),
        up (n + 1 + 1),
        up (n + 1 + 1 + 1),
        up (n + 1 + 1 + 1 + 1),
      ),
      ground (
        arith,
        first,
        second,
        up n,
        up (n + 1),
        up (n + 1 + 1),
        up (n + 1 + 1 + 1),
        up (n + 1 + 1 + 1 + 1),
      ),
    )
