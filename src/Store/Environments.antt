-- ===== src/Store/Environments.antt =====
-- internal/store/environment_store.go over the table `environments`.
use painkiller.Prelude.{
  ℕ, ◌||◌, not, Option, none, some, [], ◌∷◌, ◌++◌, ⊤, if◌then◌else◌, ◌==◌, select,
}
use painkiller.Json.{Json}
use painkiller.Outside.{Outside}
use painkiller.Models.{Uuid, Environment, EnvironmentStatus}
use painkiller.Store.State.{World, Action, query, exec}
use painkiller.Store.Table.{lookup, modify, has}
use painkiller.Store.Rows.{choose}

abbrev pub key : Environment → ℕ
key e = e.id

abbrev pub insert : Environment → World → Option World
insert e w =
    if has key e.id w.environments || not (has (λ a. a.id) e.attempt_id w.attempts)
    then none
    else some (record w { environments = w.environments ++ e ∷ [] })

abbrev pub set_status : EnvironmentStatus → Environment → Environment
set_status s e = record e { status = s }

abbrev pub set_metadata : Json → Environment → Environment
set_metadata m e = record e { provider_metadata = m }

module _ (o : Outside) where
  unfoldable pub create : Environment → Action ⊤
  create e = exec o (insert e)

  unfoldable pub get_by_id : Uuid → Action Environment
  get_by_id id = query o (λ _ w. lookup key id w.environments)

  -- An attempt that is provisioned again has several environments, and the query no order.
  unfoldable pub get_by_attempt_id : Uuid → Action Environment
  get_by_attempt_id id = query o (λ n w. choose n (select (λ e. e.attempt_id == id) w.environments))

  unfoldable pub update_status : Uuid → EnvironmentStatus → Action ⊤
  update_status id s =
      exec o (λ w. some (record w { environments = modify key id (set_status s) w.environments }))

  unfoldable pub update_provider_metadata : Uuid → Json → Action ⊤
  update_provider_metadata id m =
      exec o (λ w. some (record w { environments = modify key id (set_metadata m) w.environments }))
