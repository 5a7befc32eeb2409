-- ===== src/Migrate.antt =====
-- cmd/migrate/main.go: the application's migrations and the job queue's, in one direction. The two
-- migrators are one value, `Tools`; what is asked of them is kept as a list of calls.
mod Plan
mod Examples
use painkiller.Prelude.{
  ℕ, ℤ, pos, ltb_ℤ, ◌-ℤ◌, Bool, true, false, Option, none, some, List, [], ◌∷◌, ◌++◌, Text, codes,
  text_eq, is_empty, if◌then◌else◌,
}

-- `m.Steps(n)`, `m.Up()` and `m.Down()` of golang-migrate.
pub data AppCall : Type 0 where
  steps_by : ℤ → AppCall
  all_up all_down : AppCall

-- `migrator.Migrate(ctx, direction, opts)` of River: whether it goes down, and the two options.
pub record RiverCall : Type 0 where
  pub down : Bool
  pub max_steps : ℤ
  pub target_version : ℤ

pub data Call : Type 0 where
  app_call : AppCall → Call
  river_call : RiverCall → Call

pub data AppOutcome : Type 0 where
  migrated no_change app_failed : AppOutcome

pub record Tools : Type 0 where
  -- sql.Open, postgres.WithInstance, filepath.Abs, iofs.New and migrate.NewWithInstance
  -- (true: no error)
  pub sql_open : Text → Bool
  pub with_instance : Bool
  pub absolute : Text → Option Text
  pub iofs_new : Text → Bool
  pub new_with_instance : Bool
  -- pgxpool.New and rivermigrate.New
  pub pool_new : Text → Bool
  pub migrator_new : Bool
  -- The migrations; `none` is an error, and else the number of versions.
  pub migrate_app : AppCall → AppOutcome
  pub migrate_river : RiverCall → Option ℕ

pub data Exit : Type 0 where
  success : Exit
  connect_failed driver_failed path_failed source_failed instance_failed : Exit
  pool_failed migrator_failed migration_failed invalid_direction : Exit

-- How it ends, and the calls so far.
abbrev pub Run : Type 0
Run = Exit × List Call

-- `if err != nil { return … }`
abbrev pub unless_ok : Bool → Exit → Run → Run
unless_ok true e rest = rest
unless_ok false e rest = (e, [])

abbrev pub is_up : Text → Bool
is_up direction = text_eq direction (codes "up")

abbrev pub is_down : Text → Bool
is_down direction = text_eq direction (codes "down")

abbrev pub database_url : Text → Text
database_url v =
    if is_empty v then codes "postgres://localhost:5432/painkiller?sslmode=disable" else v

abbrev pub app_request : Text → ℤ → AppCall
app_request direction steps =
    if is_up direction
    then (if ltb_ℤ (pos 0) steps then steps_by steps else all_up)
    else if ltb_ℤ (pos 0) steps
    then steps_by (pos 0 -ℤ steps)
    else all_down

abbrev pub river_request : Text → ℤ → RiverCall
river_request direction steps =
    if is_down direction
    then record {
      down = true;
      max_steps = if ltb_ℤ (pos 0) steps then steps else pos 0;
      target_version = if ltb_ℤ (pos 0) steps then pos 0 else pos 0 -ℤ pos 1;
    }
    else record {
      down = false;
      max_steps = if ltb_ℤ (pos 0) steps then steps else pos 0;
      target_version = pos 0;
    }

-- `if err := …; err != nil { log.Fatalf(…) }`, then the rest.
abbrev pub and_go_on : Run → Run → Run
and_go_on (success, calls) (e, later) = (e, calls ++ later)
and_go_on (e, calls) rest = (e, calls)

module _ (tools : Tools) where
  -- `migrate.ErrNoChange` is no failure.
  abbrev pub app_exit : AppOutcome → Exit
  app_exit migrated = success
  app_exit no_change = success
  app_exit app_failed = migration_failed

  abbrev pub app_switch : Text → ℤ → Run
  app_switch direction steps =
      let call = app_request direction steps in
      if is_up direction
      then (app_exit (tools.migrate_app call), app_call call ∷ [])
      else if is_down direction
      then (app_exit (tools.migrate_app call), app_call call ∷ [])
      else (invalid_direction, [])

  abbrev pub with_path : Option Text → Text → ℤ → Run
  with_path none direction steps = (path_failed, [])
  with_path (some dir) direction steps =
      unless_ok (tools.iofs_new dir) source_failed
        (unless_ok tools.new_with_instance instance_failed (app_switch direction steps))

  unfoldable pub run_app_migrations : Text → Text → Text → ℤ → Run
  run_app_migrations url dir direction steps =
      unless_ok (tools.sql_open url) connect_failed (
        unless_ok tools.with_instance driver_failed
          (with_path (tools.absolute dir) direction steps))

  abbrev pub river_exit : Option ℕ → Exit
  river_exit none = migration_failed
  river_exit (some versions) = success

  abbrev pub river_switch : Text → ℤ → Run
  river_switch direction steps =
      let call = river_request direction steps in
      if is_down direction
      then (river_exit (tools.migrate_river call), river_call call ∷ [])
      else if is_up direction
      then (river_exit (tools.migrate_river call), river_call call ∷ [])
      else (invalid_direction, [])

  unfoldable pub run_river_migrations : Text → Text → ℤ → Run
  run_river_migrations url direction steps =
      unless_ok (tools.pool_new url) pool_failed
        (unless_ok tools.migrator_new migrator_failed (river_switch direction steps))

  -- `main` with its three flags and the variable `DATABASE_URL`.
  unfoldable pub migrate : Text → Text → Text → ℤ → Run
  migrate env dir direction steps =
      let url = database_url env in
      let app = run_app_migrations url dir direction steps in
      let river = run_river_migrations url direction steps in
      if is_up direction
      then and_go_on app river
      else if is_down direction
      then and_go_on river app
      else (invalid_direction, [])
