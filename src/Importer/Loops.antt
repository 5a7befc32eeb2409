-- ===== src/Importer/Loops.antt =====
-- Each loop and the end of an import succeed, with fresh identifiers and no call failing.
use painkiller.Prelude.{
  ℕ, ◌+◌, ◌≤◌, ◌≡◌, refl, sym, inl, inr, true, false, ◌&&◌, ◌==◌, List, [], ◌∷◌, ◌++◌, none, some,
  arith, All, any, select, Text, text_eq, Option-cases,
}
use mathlib.Core.Path.{subst}
use painkiller.Outside.{Outside}
use painkiller.Models.{Uuid, Instant, Product, ScenarioVersion, Task, Check}
use painkiller.Store.{World, ok}
use painkiller.Store.Scenarios
use painkiller.Store.Scenarios.{is_version}
use painkiller.Store.Products
use painkiller.Store.Tests
use painkiller.Store.Table.{has}
use painkiller.Store.Constraints.{has-append}
use painkiller.Store.Rows.{choose, choose-select}
use painkiller.Store.Purchases.{same_text}
use painkiller.Scenarios.Schema
use painkiller.Scenarios.Schema.{Scenario}
use painkiller.Importer.Files.{get}
use painkiller.Importer.Rows.{
  or_blank, task_row, check_row, product_row, test_row, create_tasks, create_checks, create_product,
  product_for, create_offer,
}
use painkiller.Importer.Fresh.{NewEachTime, FreshFrom, later, grown}

-- Facts on tables that the statements test.
free_price : (ps : List Product) → any (λ p. same_text none p.stripe_price_id) ps ≡ false
free_price [] = refl
free_price (p ∷ ps) = ground (arith, free_price ps)

chosen_there :
    (s : Scenario) (p : Product) (ps : List Product)
    → any (λ q. text_eq q.title s.title && q.id == p.id) ps ≡ true
    → has Products.key p.id ps ≡ true
unfolding has
chosen_there s p [] h = h
chosen_there s p (q ∷ ps) h = ground (arith, chosen_there s p ps)

module _ (o : Outside) where
  pub create_tasks_total :
      (prompts : List (Text × Text)) (version : Uuid) (time : Instant) (ts : List Schema.Task)
      (ids : List (Text × Uuid)) (w : World)
      → ((n : ℕ) → o.fails n ≡ false)
      → NewEachTime o
      → FreshFrom o (λ (t : Task). t.id) w.tasks w.calls
      → has Scenarios.key version w.scenario_versions ≡ true
      → (ids' : List (Text × Uuid)) × (w' : World) × (create_tasks o prompts version time ts ids w
          ≡ (ok ids', w'))
        × (w.calls ≤ w'.calls)
  unfolding create_tasks Scenarios.create_task
  create_tasks_total prompts version time [] ids w up new fresh there = (ids, w, refl, omega arith)
  create_tasks_total prompts version time (t ∷ ts) ids w up new fresh there =
      let n = w.calls in
      let id = o.new_uuid n in
      let row = task_row t (or_blank (get t.id prompts)) version id time in
      let u = record w { tasks = w.tasks ++ row ∷ []; calls = n + 1 + 1 } in
      let fresh' =
        later o (λ t. t.id) u.tasks (n + 1) (n + 1 + 1) (omega arith)
          (grown o (λ t. t.id) w.tasks row n new refl fresh) in
      let (ids', w', done, more) =
        create_tasks_total prompts version time ts ((t.id, id) ∷ ids) u up new fresh' there in
      (
        ids',
        w',
        ground (arith, up (n + 1), fresh n (omega arith), there, done),
        omega (arith, more),
      )

  pub create_checks_total :
      (time : Instant) (ids : List (Text × Uuid)) (cs : List Schema.Check) (w : World)
      → ((n : ℕ) → o.fails n ≡ false)
      → NewEachTime o
      → FreshFrom o (λ (c : Check). c.id) w.checks w.calls
      → All
          (λ c.
            (id : Uuid) × (get c.task_id ids ≡ some id)
            × (has (λ (t : Task). t.id) id w.tasks ≡ true))
          cs
      → (w' : World) × (create_checks o time ids cs w ≡ (ok tt, w')) × (w.calls ≤ w'.calls)
  unfolding create_checks Scenarios.create_check
  create_checks_total time ids [] w up new fresh known = (w, refl, omega arith)
  create_checks_total time ids (c ∷ cs) w up new fresh ((task, found, there), known) =
      let n = w.calls in
      let row = check_row c task (o.new_uuid n) time in
      let u = record w { checks = w.checks ++ row ∷ []; calls = n + 1 + 1 } in
      let fresh' =
        later o (λ c. c.id) u.checks (n + 1) (n + 1 + 1) (omega arith)
          (grown o (λ c. c.id) w.checks row n new refl fresh) in
      let (w', done, more) = create_checks_total time ids cs u up new fresh' known in
      (
        w',
        ground (arith, up (n + 1), fresh n (omega arith), there, found, done),
        omega (arith, more),
      )

  create_offer_total :
      (s : Scenario) (version : Uuid) (time : Instant) (w : World)
      → ((n : ℕ) → o.fails n ≡ false)
      → NewEachTime o
      → FreshFrom o Products.key w.products w.calls
      → FreshFrom o Tests.key w.tests w.calls
      → has (λ (v : ScenarioVersion). v.id) version w.scenario_versions ≡ true
      → (w' : World) × (create_offer o s version time w ≡ (ok tt, w'))
  unfolding create_offer product_for create_product Products.get_by_title Products.create
      Tests.create
  create_offer_total s version time w up new fresh_product fresh_test there =
      let n = w.calls in
      elim (Option-cases (choose (o.pick n) (select (λ q. text_eq q.title s.title) w.products))) [
        | inl nothing ↦
            let p = product_row s (o.new_uuid (n + 1)) time in
            let t = test_row s p.id version (o.new_uuid (n + 1 + 1 + 1)) time in
            (
              record w {
                products = w.products ++ p ∷ [];
                tests = w.tests ++ t ∷ [];
                calls = n + 1 + 1 + 1 + 1 + 1;
              },
              ground (
                arith,
                nothing,
                up n,
                up (n + 1 + 1),
                up (n + 1 + 1 + 1 + 1),
                fresh_product (n + 1) (omega arith),
                fresh_test (n + 1 + 1 + 1) (omega arith),
                there,
                free_price w.products,
                has-append Products.key p.id w.products p,
              ),
            )
        | inr (p, found) ↦
            let t = test_row s p.id version (o.new_uuid (n + 1)) time in
            let has_product = chosen_there s p w.products (
              choose-select Products.key (λ q. text_eq q.title s.title) w.products (o.pick n) p
                found) in
            (
              record w { tests = w.tests ++ t ∷ []; calls = n + 1 + 1 + 1 },
              ground (
                arith,
                found,
                up n,
                up (n + 1 + 1),
                fresh_test (n + 1) (omega arith),
                there,
                has_product,
              ),
            )
      ]

  -- The same after calls that leave the tables of the offer alone.
  pub offer_after :
      (s : Scenario) (version : Uuid) (time : Instant) (w v : World)
      → ((n : ℕ) → o.fails n ≡ false)
      → NewEachTime o
      → FreshFrom o Products.key w.products w.calls
      → FreshFrom o Tests.key w.tests w.calls
      → has Scenarios.key version w.scenario_versions ≡ true
      → v.products ≡ w.products
      → v.tests ≡ w.tests
      → v.scenario_versions ≡ w.scenario_versions
      → w.calls ≤ v.calls
      → (w' : World) × (create_offer o s version time v ≡ (ok tt, w'))
  offer_after s version time w v up new fresh_product fresh_test there products tests versions
        more =
      create_offer_total s version time v up new
        (subst (λ l. FreshFrom o Products.key l v.calls) (sym products)
          (later o Products.key w.products w.calls v.calls more fresh_product))
        (subst (λ l. FreshFrom o Tests.key l v.calls) (sym tests)
          (later o Tests.key w.tests w.calls v.calls more fresh_test))
        (subst (λ l. has Scenarios.key version l ≡ true) (sym versions) there)
