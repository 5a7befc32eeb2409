-- ===== src/Importer/Complete.antt =====
-- When an import succeeds.
use painkiller.Prelude.{
  ℕ, ◌+◌, ◌≡◌, refl, sym, ap, ◌∙◌, Bool, true, false, List, [], ◌∷◌, ◌++◌, none, arith, any, map,
  find, Text,
}
use mathlib.Core.Path.{subst}
use painkiller.Outside.{Outside}
use painkiller.Models.{Uuid, Instant, Task, Check}
use painkiller.Store.{World, ok, count_call, and_then, ◌>>=◌, ◌>>◌}
use painkiller.Store.Scenarios
use painkiller.Store.Scenarios.{is_version}
use painkiller.Store.Products
use painkiller.Store.Tests
use painkiller.Store.Table.{has}
use painkiller.Store.Constraints.{has-append}
use painkiller.Importer.Files.{Repository, parsed, ParsedScenario, get, parse_scenario}
use painkiller.Importer.Read.{parse_scenario_ok}
use painkiller.Importer.Rows.{
  version_row, create_tasks, create_checks, create_offer, create_all, import_parsed_scenario,
}
use painkiller.Scenarios.Validate.{valid, validate_checks}
use painkiller.Importer.Tasks.{create_tasks_ok}
use painkiller.Importer.Checks.{create_checks_ok}
use painkiller.Importer.Imported.{only_new}
use painkiller.Importer.Known.{get-create_tasks, validate_checks-known, has_of_is_task, known_rows}
use painkiller.Importer.Loops.{create_tasks_total, create_checks_total, offer_after}
use painkiller.Importer.Fresh.{NewEachTime, FreshFrom, later}

absent_find : {A : Type 0} (p : A → Bool) (l : List A) → any p l ≡ false → find p l ≡ none
absent_find p [] h = refl
absent_find p (a ∷ l) h = ground (arith, absent_find p l)

last_there : {R : Type 0} (key : R → ℕ) (t : List R) (r : R) → has key (key r) (t ++ r ∷ []) ≡ true
last_there key t r = ground (arith, has-append key (key r) t r)

module _ (o : Outside) where
  -- No row has an identifier that is drawn from now on.
  abbrev pub AllFresh : World → Type 0
  AllFresh w =
      FreshFrom o Scenarios.key w.scenario_versions w.calls
      × FreshFrom o (λ (t : Task). t.id) w.tasks w.calls
      × FreshFrom o (λ (c : Check). c.id) w.checks w.calls
      × FreshFrom o Products.key w.products w.calls
      × FreshFrom o Tests.key w.tests w.calls

  -- From the tasks on.
  rows_total :
      (ps : ParsedScenario) (version : Uuid) (time : Instant) (w : World)
      → ((n : ℕ) → o.fails n ≡ false)
      → NewEachTime o
      → FreshFrom o (λ (t : Task). t.id) w.tasks w.calls
      → FreshFrom o (λ (c : Check). c.id) w.checks w.calls
      → FreshFrom o Products.key w.products w.calls
      → FreshFrom o Tests.key w.tests w.calls
      → has Scenarios.key version w.scenario_versions ≡ true
      → validate_checks ps.checks ps.scenario ≡ valid
      → (w' : World) × ((create_tasks o ps.prompts version time ps.scenario.tasks [] >>= λ ids.
              create_checks o time ids ps.checks.checks >> create_offer o ps.scenario version time)
            w
          ≡ (ok tt, w'))
  unfolding get
  rows_total ps version time w up new fresh_task fresh_check fresh_product fresh_test there fine =
      let ts = ps.scenario.tasks in
      let (ids, u, made, more) =
        create_tasks_total o ps.prompts version time ts [] w up new fresh_task there in
      let (rows, _, grew, known) = create_tasks_ok o ps.prompts version time ts [] ids w u made in
      let named =
        known_rows (map (λ t. t.id) ts) ids u.tasks ps.checks.checks
          (λ key there. get-create_tasks o ps.prompts version time ts [] ids w u key made ∙ there)
          (λ key id found.
            subst (λ l. has (λ (t : Task). t.id) id l ≡ true) (sym (ap (λ v. v.tasks) grew))
              (has_of_is_task key id rows w.tasks (only_new ids rows known key id found)))
          (validate_checks-known ps.checks ps.scenario fine) in
      let (v, checked, more') =
        create_checks_total o time ids ps.checks.checks u up new
          (subst (λ l. FreshFrom o (λ (c : Check). c.id) l u.calls) (sym (ap (λ v. v.checks) grew))
            (later o (λ c. c.id) w.checks w.calls u.calls more fresh_check))
          named in
      let (_, _, grew') = create_checks_ok o time ids ps.checks.checks tt u v checked in
      let (w', offered) =
        offer_after o ps.scenario version time w v up new fresh_product fresh_test there
          (ap (λ x. x.products) grew' ∙ ap (λ x. x.products) grew)
          (ap (λ x. x.tests) grew' ∙ ap (λ x. x.tests) grew)
          (ap (λ x. x.scenario_versions) grew' ∙ ap (λ x. x.scenario_versions) grew)
          (omega (arith, more, more')) in
      (
        w',
        ap
              (λ r. and_then r λ ids.
                create_checks o time ids ps.checks.checks
                >> create_offer o ps.scenario version time)
              made
            ∙ ap (λ r. and_then r λ _. create_offer o ps.scenario version time) checked
            ∙ offered,
      )

  -- With the version.
  create_all_total :
      (ps : ParsedScenario) (commit : Text) (w : World)
      → ((n : ℕ) → o.fails n ≡ false)
      → NewEachTime o
      → AllFresh w
      → any (is_version ps.scenario.id commit) w.scenario_versions ≡ false
      → validate_checks ps.checks ps.scenario ≡ valid
      → (w' : World) × (create_all o ps commit w ≡ (ok tt, w'))
  unfolding create_all Scenarios.create_version
  create_all_total ps commit w up new (version, task, check, product, test) absent fine =
      let n = w.calls in
      let time = o.clock n in
      let id = o.new_uuid (n + 1) in
      let row = version_row ps.scenario commit id time in
      let u = record w {
        scenario_versions = w.scenario_versions ++ row ∷ [];
        calls = n + 1 + 1 + 1;
      } in
      let there = last_there Scenarios.key w.scenario_versions row in
      let (w', rest) =
        rows_total ps id time u up new (later o (λ t. t.id) w.tasks n u.calls (omega arith) task)
          (later o (λ c. c.id) w.checks n u.calls (omega arith) check)
          (later o Products.key w.products n u.calls (omega arith) product)
          (later o Tests.key w.tests n u.calls (omega arith) test) there fine in
      (w', ground (arith, up (n + 1 + 1), version (n + 1) (omega arith), absent, rest))

-- If a scenario file is parsed and its version is not in the database, then with no call failing and
-- with identifiers that no row has and that are not drawn twice, its import succeeds.
pub import_parsed_scenario_total :
    (o : Outside) (repo : Repository) (file : Text) (ps : ParsedScenario) (commit : Text)
    (w : World)
    → ((n : ℕ) → o.fails n ≡ false)
    → NewEachTime o
    → AllFresh o (count_call w)
    → any (is_version ps.scenario.id commit) w.scenario_versions ≡ false
    → parse_scenario repo file ≡ parsed ps
    → (import_parsed_scenario o ps commit w).0 ≡ ok tt
unfolding import_parsed_scenario Scenarios.get_version_by_external_id
import_parsed_scenario_total o repo file ps commit w up new fresh absent read =
    let fine = (parse_scenario_ok repo file ps read).1 in
    let (w', done) = create_all_total o ps commit (count_call w) up new fresh absent fine in
    ground (
      arith,
      up w.calls,
      absent_find (is_version ps.scenario.id commit) w.scenario_versions absent,
      done,
    )
