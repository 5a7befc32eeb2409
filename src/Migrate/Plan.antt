-- ===== src/Migrate/Plan.antt =====
-- The order in which cmd/migrate/main.go goes through the two sets of migrations.
use painkiller.Prelude.{
  ℤ, ◌≡◌, refl, sym, ◌⊎◌, ◌||◌, ℕ, inl, inr, Bool, true, false, Option, none, some, List, [], ◌∷◌,
  ◌++◌, arith, Text, Bool-cases, if◌then◌else◌,
}
use mathlib.Core.Path.{subst}
use painkiller.Migrate.{
  Tools, Run, Exit, Call, AppOutcome, success, migration_failed, connect_failed, app_call,
  river_call, app_request, river_request, is_up, is_down, unless_ok, app_exit, river_exit,
  app_switch, with_path, river_switch, driver_failed, path_failed, source_failed, instance_failed,
  pool_failed, migrator_failed, invalid_direction, migrated, no_change, app_failed,
  run_app_migrations, run_river_migrations, and_go_on, migrate, database_url,
}

-- The whole of what a direction asks for, in its order.
abbrev pub plan : Text → ℤ → List Call
plan direction steps =
    if is_up direction
    then app_call (app_request direction steps) ∷ river_call (river_request direction steps) ∷ []
    else if is_down direction
    then river_call (river_request direction steps) ∷ app_call (app_request direction steps) ∷ []
    else []

abbrev pub is_success : Exit → Bool
is_success success = true
is_success _ = false

-- A run of one call: it is made or not, and the run succeeds only where it is made.
abbrev pub OneCall : Call → Run → Type 0
OneCall c r =
    ((is_success r.0 ≡ true) × (r.1 ≡ c ∷ []))
    ⊎ ((is_success r.0 ≡ false) × ((r.1 ≡ []) ⊎ (r.1 ≡ c ∷ [])))

-- A test before a run that makes the call, or the run itself.
tested :
    (c : Call) (b : Bool) (e : Exit) (r : Run)
    → is_success e ≡ false
    → OneCall c r
    → OneCall c (unless_ok b e r)
tested c true e r wrong h = h
tested c false e r wrong h = inr (wrong, inl refl)

go_on : (r s : Run) → is_success r.0 ≡ true → and_go_on r s ≡ (s.0, r.1 ++ s.1)
go_on (success, calls) (e, later) h = refl
go_on (connect_failed, calls) s h = cc
go_on (driver_failed, calls) s h = cc
go_on (path_failed, calls) s h = cc
go_on (source_failed, calls) s h = cc
go_on (instance_failed, calls) s h = cc
go_on (pool_failed, calls) s h = cc
go_on (migrator_failed, calls) s h = cc
go_on (migration_failed, calls) s h = cc
go_on (invalid_direction, calls) s h = cc

stop : (r s : Run) → is_success r.0 ≡ false → and_go_on r s ≡ r
stop r s h = ground arith

-- The calls are all of the plan, or, where the program fails, some of it from the start.
abbrev pub Ordered : List Call → Run → Type 0
Ordered all r =
    ((is_success r.0 ≡ true) × (r.1 ≡ all))
    ⊎ ((is_success r.0 ≡ false) × ((rest : List Call) × (r.1 ++ rest ≡ all)))

carried_over : (l l' : List Call) (r r' : Run) → l ≡ l' → r ≡ r' → Ordered l r → Ordered l' r'
carried_over l l' r r' same run h = subst (λ m. Ordered m r') same (subst (Ordered l) run h)

both : (c d : Call) (r s : Run) → OneCall c r → OneCall d s → Ordered (c ∷ d ∷ []) (and_go_on r s)
both c d r s (inl (fine, made)) (inl (fine', made')) =
    subst (Ordered (c ∷ d ∷ [])) (sym (go_on r s fine)) (inl (fine', ground (arith, made, made')))
both c d r s (inl (fine, made)) (inr (wrong, inl none_made)) =
    subst (Ordered (c ∷ d ∷ [])) (sym (go_on r s fine))
      (inr (wrong, (d ∷ [], ground (arith, made, none_made))))
both c d r s (inl (fine, made)) (inr (wrong, inr one)) =
    subst (Ordered (c ∷ d ∷ [])) (sym (go_on r s fine))
      (inr (wrong, ([], ground (arith, made, one))))
both c d r s (inr (wrong, inl none_made)) k =
    subst (Ordered (c ∷ d ∷ [])) (sym (stop r s wrong))
      (inr (wrong, (c ∷ d ∷ [], ground (arith, none_made))))
both c d r s (inr (wrong, inr one)) k =
    subst (Ordered (c ∷ d ∷ [])) (sym (stop r s wrong)) (inr (wrong, (d ∷ [], ground (arith, one))))

module _ (tools : Tools) (steps : ℤ) where
  app_done : (m : AppOutcome) (c : Call) → OneCall c (app_exit tools m, c ∷ [])
  app_done migrated c = inl (refl, refl)
  app_done no_change c = inl (refl, refl)
  app_done app_failed c = inr (refl, inr refl)

  river_done : (m : Option ℕ) (c : Call) → OneCall c (river_exit tools m, c ∷ [])
  river_done none c = inr (refl, inr refl)
  river_done (some n) c = inl (refl, refl)

  app_switched :
      (direction : Text)
      → is_up direction || is_down direction ≡ true
      → OneCall (app_call (app_request direction steps)) (app_switch tools direction steps)
  app_switched direction known =
      let call = app_request direction steps in
      let same : (app_exit tools (tools.migrate_app call), app_call call ∷ [])
          ≡ app_switch tools direction steps =
        ground arith in
      subst (OneCall (app_call call)) same (app_done (tools.migrate_app call) (app_call call))

  with_path_once :
      (dir : Option Text) (direction : Text)
      → is_up direction || is_down direction ≡ true
      → OneCall (app_call (app_request direction steps)) (with_path tools dir direction steps)
  with_path_once none direction known = inr (refl, inl refl)
  with_path_once (some dir) direction known =
      let c = app_call (app_request direction steps) in
      tested c (tools.iofs_new dir) source_failed _ refl
        (tested c tools.new_with_instance instance_failed _ refl (app_switched direction known))

  app_once :
      (url dir direction : Text)
      → is_up direction || is_down direction ≡ true
      → OneCall
          (app_call (app_request direction steps))
          (run_app_migrations tools url dir direction steps)
  unfolding run_app_migrations
  app_once url dir direction known =
      let c = app_call (app_request direction steps) in
      tested c (tools.sql_open url) connect_failed _ refl (
        tested c tools.with_instance driver_failed _ refl
          (with_path_once (tools.absolute dir) direction known))

  river_once :
      (url direction : Text)
      → is_up direction || is_down direction ≡ true
      → OneCall
          (river_call (river_request direction steps))
          (run_river_migrations tools url direction steps)
  unfolding run_river_migrations
  river_once url direction known =
      let call = river_request direction steps in
      let same : (river_exit tools (tools.migrate_river call), river_call call ∷ [])
          ≡ river_switch tools direction steps =
        ground arith in
      tested (river_call call) (tools.pool_new url) pool_failed _ refl (
        tested (river_call call) tools.migrator_new migrator_failed _ refl (
          subst (OneCall (river_call call)) same
            (river_done (tools.migrate_river call) (river_call call))))

  -- If the command succeeds, then it has asked for both sets of migrations, the application's first
  -- on the way up and last on the way down. If it fails, then what it has asked for is some of that,
  -- from the start; in a direction that is neither, nothing.
  pub migrate-Ordered :
      (env dir direction : Text)
      → Ordered (plan direction steps) (migrate tools env dir direction steps)
  unfolding migrate
  migrate-Ordered env dir direction =
      let url = database_url env in
      let app = run_app_migrations tools url dir direction steps in
      let river = run_river_migrations tools url direction steps in
      elim (Bool-cases (is_up direction)) [
        | inl up ↦
            let c = app_call (app_request direction steps) in
            let d = river_call (river_request direction steps) in
            let same : c ∷ d ∷ [] ≡ plan direction steps = ground arith in
            let run : and_go_on app river ≡ migrate tools env dir direction steps = ground arith in
            let known : is_up direction || is_down direction ≡ true = ground arith in
            carried_over _ _ _ _ same run (
              both c d app river (app_once url dir direction known)
                (river_once url direction known))
        | inr other ↦ elim (Bool-cases (is_down direction)) [
          | inl down ↦
              let c = river_call (river_request direction steps) in
              let d = app_call (app_request direction steps) in
              let same : c ∷ d ∷ [] ≡ plan direction steps = ground arith in
              let run : and_go_on river app ≡ migrate tools env dir direction steps =
                ground arith in
              let known : is_up direction || is_down direction ≡ true = ground arith in
              carried_over _ _ _ _ same run (
                both c d river app (river_once url direction known)
                  (app_once url dir direction known))
          | inr neither ↦ inr (ground arith, ([], ground arith))
        ]
      ]
