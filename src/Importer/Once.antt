-- ===== src/Importer/Once.antt =====
-- What an import that ends early leaves for the next one.
use painkiller.Prelude.{
  ◌+◌, ◌≡◌, refl, ap, ◌∙◌, ◌⊎◌, inl, inr, Bool, true, false, List, [], ◌∷◌, ◌++◌, Option, none,
  some, arith, Text, any, find, text_eq_refl, Option-cases, Bool-cases,
}
use mathlib.Core.Path.{subst}
use painkiller.Outside.{Outside}
use painkiller.Models.{Uuid, Instant, ScenarioVersion, Task, Check, Product, Test}
use painkiller.Store.{
  World, Result, Action, Context, ok, err, is_ok, and_then, wrapped, count_call,
  failed_to_create_version,
}
use painkiller.Store.Scenarios
use painkiller.Store.Scenarios.{is_version}
use painkiller.Store.Products
use painkiller.Store.Tests
use painkiller.Scenarios.Schema
use painkiller.Scenarios.Schema.{Scenario}
use painkiller.Importer.Files.{ParsedScenario}
use painkiller.Importer.Rows.{
  known_task, or_create, version_row, create_tasks, create_checks, create_product, product_for,
  create_offer, create_all, import_parsed_scenario,
}
use painkiller.Importer.Offer.{title_reads}

module _ (vs : List ScenarioVersion) where
  -- The call leaves these versions.
  record Settled {A : Type 0} (r : Result A × World) : Type 0 where
    holds : r.1.scenario_versions ≡ vs

  and_then-Settled :
      {A B : Type 0} (r : Result A × World) (f : A → Action B)
      → Settled r
      → ((a : A) (w : World) → w.scenario_versions ≡ vs → Settled (f a w))
      → Settled (and_then r f)
  and_then-Settled (ok a, w) f h k = k a w h.holds
  and_then-Settled (err e, w) f h k = record { holds = h.holds }

  wrapped-Settled :
      {A : Type 0} (c : Context) (r : Result A × World) → Settled r → Settled (wrapped c r)
  wrapped-Settled c (ok a, w) h = h
  wrapped-Settled c (err e, w) h = record { holds = h.holds }

  plain-Settled :
      {A : Type 0} (r : Result A) (w : World) → w.scenario_versions ≡ vs → Settled (r, w)
  plain-Settled r w h = record { holds = h }

  known-Settled :
      (t : Option Uuid) (w : World) → w.scenario_versions ≡ vs → Settled (known_task t w)
  known-Settled none w h = record { holds = h }
  known-Settled (some t) w h = record { holds = h }

  module _ (o : Outside) where
    task-Settled :
        (t : Task) (w : World) → w.scenario_versions ≡ vs → Settled (Scenarios.create_task o t w)
    unfolding Scenarios.create_task
    task-Settled t w h = record { holds = ground (arith, h) }

    check-Settled :
        (c : Check) (w : World) → w.scenario_versions ≡ vs → Settled (Scenarios.create_check o c w)
    unfolding Scenarios.create_check
    check-Settled c w h = record { holds = ground (arith, h) }

    product-Settled :
        (p : Product) (w : World) → w.scenario_versions ≡ vs → Settled (Products.create o p w)
    unfolding Products.create
    product-Settled p w h = record { holds = ground (arith, h) }

    test-Settled : (t : Test) (w : World) → w.scenario_versions ≡ vs → Settled (Tests.create o t w)
    unfolding Tests.create
    test-Settled t w h = record { holds = ground (arith, h) }

    or_create-Settled :
        (r : Result Product × World) (rest : Action Uuid)
        → Settled r
        → ((w : World) → w.scenario_versions ≡ vs → Settled (rest w))
        → Settled (or_create o r rest)
    or_create-Settled (ok p, w) rest h k = record { holds = h.holds }
    or_create-Settled (err e, w) rest h k = k w h.holds

    title-Settled :
        (t : Text) (w : World) → w.scenario_versions ≡ vs → Settled (Products.get_by_title o t w)
    title-Settled t w h = record { holds = ap (λ u. u.scenario_versions) (title_reads o t w) ∙ h }

  ruleset settle = (
    and_then-Settled, wrapped-Settled, plain-Settled, known-Settled, task-Settled, check-Settled,
    product-Settled, test-Settled, or_create-Settled, title-Settled,
  )

  module _ (o : Outside) where
    tasks-Settled :
        (prompts : List (Text × Text)) (version : Uuid) (time : Instant) (ts : List Schema.Task)
        (ids : List (Text × Uuid)) (w : World)
        → w.scenario_versions ≡ vs
        → Settled (create_tasks o prompts version time ts ids w)
    unfolding create_tasks
    tasks-Settled prompts version time [] ids w h = plain-Settled _ w h
    tasks-Settled prompts version time (t ∷ ts) ids w h =
        let rest = tasks-Settled prompts version time ts in
        search (settle, rest) depth 12 fits 20000

    checks-Settled :
        (time : Instant) (ids : List (Text × Uuid)) (cs : List Schema.Check) (w : World)
        → w.scenario_versions ≡ vs
        → Settled (create_checks o time ids cs w)
    unfolding create_checks
    checks-Settled time ids [] w h = plain-Settled _ w h
    checks-Settled time ids (c ∷ cs) w h =
        let rest = checks-Settled time ids cs in search (settle, rest) depth 12 fits 20000

    offer-Settled :
        (s : Scenario) (version : Uuid) (time : Instant) (w : World)
        → w.scenario_versions ≡ vs
        → Settled (create_offer o s version time w)
    unfolding create_offer product_for create_product
    offer-Settled s version time w h = search settle depth 14 fits 20000

any-append :
    (p : ScenarioVersion → Bool) (l : List ScenarioVersion) (v : ScenarioVersion)
    → p v ≡ true
    → any p (l ++ v ∷ []) ≡ true
any-append p [] v h = ground (arith, h)
any-append p (x ∷ l) v h = ground (arith, any-append p l v h)

-- What a call that ends in an error leaves is what the whole leaves.
failed_first :
    {A B : Type 0} (r : Result A × World) (f : A → Action B)
    → is_ok r.0 ≡ false
    → (and_then r f).1 ≡ r.1
failed_first {A = A} (ok a, w) f h = let wrong : is_ok {A = A} (ok a) ≡ false = h in cc
failed_first (err e, w) f h = refl

module _ (o : Outside) (ps : ParsedScenario) (commit : Text) where
  -- The first write of `create_all`.
  abbrev first_write : World → Result Unit × World
  first_write w = wrapped failed_to_create_version (
      Scenarios.create_version o
        (version_row ps.scenario commit (o.new_uuid (w.calls + 1)) (o.clock w.calls))
        (record w { calls = w.calls + 1 + 1 }))

  first_write_cases :
      (w : World)
      → ((is_ok (first_write w).0 ≡ false)
          × ((first_write w).1 ≡ record w { calls = w.calls + 1 + 1 + 1 }))
        ⊎ (any (is_version ps.scenario.id commit) (first_write w).1.scenario_versions ≡ true)
  unfolding Scenarios.create_version
  first_write_cases w =
      let row = version_row ps.scenario commit (o.new_uuid (w.calls + 1)) (o.clock w.calls) in
      let own =
        any-append (is_version ps.scenario.id commit) w.scenario_versions row
          (ground (arith, text_eq_refl ps.scenario.id, text_eq_refl commit)) in
      elim (Bool-cases (is_ok (first_write w).0)) [
        | inl done ↦ inr (ground (arith, own))
        | inr wrong ↦ inl (wrong, ground arith)
      ]

  after_first : (w : World) → Settled (first_write w).1.scenario_versions (create_all o ps commit w)
  unfolding create_all
  after_first w =
      let vs = (first_write w).1.scenario_versions in
      and_then-Settled vs (first_write w) _ (record { holds = refl })
        (λ a u h. search (settle, tasks-Settled, checks-Settled, offer-Settled) depth 12 fits 20000)

  -- Nothing was written, or the version is there.
  create_all_cases :
      (w : World)
      → ((create_all o ps commit w).1 ≡ record w { calls = (create_all o ps commit w).1.calls })
        ⊎ (any (is_version ps.scenario.id commit) (create_all o ps commit w).1.scenario_versions
            ≡ true)
  unfolding create_all
  create_all_cases w = elim (first_write_cases w) [
    | inl (wrong, unchanged) ↦ inl (ground (arith, failed_first (first_write w) _ wrong, unchanged))
    | inr there ↦ inr (ap (any (is_version ps.scenario.id commit)) (after_first w).holds ∙ there)
  ]

  import_cases :
      (w : World)
      → ((import_parsed_scenario o ps commit w).1
          ≡ record w { calls = (import_parsed_scenario o ps commit w).1.calls })
        ⊎ (any
              (is_version ps.scenario.id commit)
              (import_parsed_scenario o ps commit w).1.scenario_versions
            ≡ true)
  unfolding import_parsed_scenario Scenarios.get_version_by_external_id
  import_cases w =
      elim (Option-cases (find (is_version ps.scenario.id commit) w.scenario_versions)) [
        | inl nothing ↦ elim (Bool-cases (o.fails w.calls)) [
          | inl down ↦ inl (ground arith)
          | inr up ↦
              let same : create_all o ps commit (count_call w)
                  ≡ import_parsed_scenario o ps commit w =
                ground arith in
              subst
                (λ (r : Result Unit × World).
                  (r.1 ≡ record w { calls = r.1.calls })
                  ⊎ (any (is_version ps.scenario.id commit) r.1.scenario_versions ≡ true))
                same (create_all_cases (count_call w))
        ]
        | inr (a, found) ↦ inl (ground arith)
      ]

there_found :
    {A : Type 0} (p : A → Bool) (l : List A) → any p l ≡ true → (a : A) × (find p l ≡ some a)
there_found p [] h = let wrong : false ≡ true = h in cc
there_found p (b ∷ l) h = elim (Bool-cases (p b)) [
  | inl here ↦ (b, ground arith)
  | inr later ↦ let (a, e) = there_found p l (ground arith) in (a, ground arith)
]

-- A version that is there is not imported again.
pub import_there :
    (o : Outside) (ps : ParsedScenario) (commit : Text) (w : World)
    → o.fails w.calls ≡ false
    → any (is_version ps.scenario.id commit) w.scenario_versions ≡ true
    → import_parsed_scenario o ps commit w ≡ (ok tt, count_call w)
unfolding import_parsed_scenario Scenarios.get_version_by_external_id
import_there o ps commit w up there =
    let (a, found) = there_found (is_version ps.scenario.id commit) w.scenario_versions there in
    ground (arith, found, up)

-- Whether it succeeds or fails, an import either writes nothing or is the last one: the next import
-- of the same scenario at the same commit, where its query does not fail, reports success and writes
-- nothing.
pub import_parsed_scenario_once :
    (o next : Outside) (ps : ParsedScenario) (commit : Text) (w : World)
    → next.fails (import_parsed_scenario o ps commit w).1.calls ≡ false
    → ((import_parsed_scenario o ps commit w).1
        ≡ record w { calls = (import_parsed_scenario o ps commit w).1.calls })
      ⊎ (import_parsed_scenario next ps commit (import_parsed_scenario o ps commit w).1
          ≡ (ok tt, count_call (import_parsed_scenario o ps commit w).1))
import_parsed_scenario_once o next ps commit w up = elim (import_cases o ps commit w) [
  | inl nothing ↦ inl nothing
  | inr there ↦ inr (import_there next ps commit (import_parsed_scenario o ps commit w).1 up there)
]
