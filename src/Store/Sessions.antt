-- ===== src/Store/Sessions.antt =====
-- internal/store/session_store.go over the table `sessions`.
use painkiller.Prelude.{
  ℕ, ◌||◌, not, Option, none, some, [], ◌∷◌, ◌++◌, ⊤, if◌then◌else◌, ◌==◌, any, find, select, Text,
  text_eq,
}
use painkiller.Outside.{Outside}
use painkiller.Models.{Uuid, Instant, Session}
use painkiller.Store.State.{World, Action, query, exec}
use painkiller.Store.Table.{modify, has}
use painkiller.Store.Rows.{choose}

abbrev pub key : Session → ℕ
key s = s.id

-- `id` and `terminal_token` are unique; `attempt_id` and `environment_id` refer to rows.
abbrev pub insert : Session → World → Option World
insert s w =
    if has key s.id w.sessions
      || any (λ r. text_eq r.terminal_token s.terminal_token) w.sessions
      || not (has (λ a. a.id) s.attempt_id w.attempts)
      || not (has (λ e. e.id) s.environment_id w.environments)
    then none
    else some (record w { sessions = w.sessions ++ s ∷ [] })

abbrev pub set_first_opened_at : Instant → Session → Session
set_first_opened_at t s = record s { first_opened_at = some t }

module _ (o : Outside) where
  unfoldable pub create : Session → Action ⊤
  create s = exec o (insert s)

  unfoldable pub get_by_attempt_id : Uuid → Action Session
  get_by_attempt_id id = query o (λ n w. choose n (select (λ s. s.attempt_id == id) w.sessions))

  unfoldable pub get_by_terminal_token : Text → Action Session
  get_by_terminal_token token =
      query o (λ _ w. find (λ s. text_eq s.terminal_token token) w.sessions)

  unfoldable pub update_first_opened_at : Uuid → Instant → Action ⊤
  update_first_opened_at id t =
      exec o (λ w. some (record w { sessions = modify key id (set_first_opened_at t) w.sessions }))
