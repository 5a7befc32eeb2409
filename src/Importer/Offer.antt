-- ===== src/Importer/Offer.antt =====
-- The end of an import: the product under the scenario's title, and the test.
use painkiller.Prelude.{
  ◌+◌, ◌≡◌, refl, sym, ap, ◌∙◌, ◌⊎◌, inl, inr, true, false, ◌&&◌, ◌==◌, List, [], ◌∷◌, ◌++◌, none,
  some, arith, any, select, Text, text_eq, Option-cases,
}
use mathlib.Core.Path.{subst}
use painkiller.Outside.{Outside}
use painkiller.Models.{Uuid, Instant, Product, Test}
use painkiller.Store.{World, Result, Action, ok, err, and_then_ok, wrapped, failed_to_create_test}
use painkiller.Store.Products
use painkiller.Store.Tests
use painkiller.Store.Rows.{choose, choose-select}
use painkiller.Scenarios.Schema.{Scenario}
use painkiller.Importer.Rows.{
  product_row, test_row, create_product, or_create, product_for, create_offer,
}

-- The product of a scenario, in the tables before and after: one that was there under its title, or
-- a new one that is not free and has no price.
abbrev pub ProductFor : Scenario → Uuid → List Product → List Product → Type 0
ProductFor s id ps qs =
    ((any (λ p. text_eq p.title s.title && p.id == id) ps ≡ true) × (qs ≡ ps))
    ⊎ ((p : Product) × (p.id ≡ id)
        × (p.title ≡ s.title)
        × (p.is_free ≡ false)
        × (p.stripe_price_id ≡ none)
        × (qs ≡ ps ++ p ∷ []))

module _ (o : Outside) where
  product_made :
      (s : Scenario) (time : Instant) (id : Uuid) (w w' : World)
      → create_product o s time w ≡ (ok id, w')
      → (id ≡ o.new_uuid w.calls)
        × (w' ≡ record w {
          products = w.products ++ product_row s (o.new_uuid w.calls) time ∷ [];
          calls = w'.calls;
        })
  unfolding create_product Products.create
  product_made s time id w w' h = (ground arith, ground arith)

  found_title :
      (title : Text) (p : Product) (w v : World)
      → Products.get_by_title o title w ≡ (ok p, v)
      → choose (o.pick w.calls) (select (λ q. text_eq q.title title) w.products) ≡ some p
  unfolding Products.get_by_title
  found_title title p w v h =
      elim (Option-cases
        (choose (o.pick w.calls) (select (λ q. text_eq q.title title) w.products))) [
          | inl nothing ↦ ground arith
          | inr (q, found) ↦ ground arith
        ]

  pub title_reads :
      (title : Text) (w : World)
      → (Products.get_by_title o title w).1 ≡ record w { calls = w.calls + 1 }
  unfolding Products.get_by_title
  title_reads title w =
      elim (Option-cases
        (choose (o.pick w.calls) (select (λ q. text_eq q.title title) w.products))) [
          | inl nothing ↦ ground arith
          | inr (q, found) ↦ ground arith
        ]

  either_product :
      (r : Result Product × World) (rest : Action Uuid) (id : Uuid) (w : World)
      → or_create o r rest ≡ (ok id, w)
      → ((p : Product) × (v : World) × (r ≡ (ok p, v)) × (p.id ≡ id) × (w ≡ v))
        ⊎ (rest r.1 ≡ (ok id, w))
  either_product (ok p, v) rest id w h = inl (p, v, refl, ground arith, ground arith)
  either_product (err e, v) rest id w h = inr h

  pub product_for_ok :
      (s : Scenario) (time : Instant) (id : Uuid) (w w' : World)
      → product_for o s time w ≡ (ok id, w')
      → ProductFor s id w.products w'.products
        × (w' ≡ record w { products = w'.products; calls = w'.calls })
  unfolding product_for
  product_for_ok s time id w w' h =
      let reads = title_reads s.title w in
      elim (either_product (Products.get_by_title o s.title w) (create_product o s time) id w' h) [
        | inl (p, v, found, same_id, same_world) ↦
            let chosen = found_title s.title p w v found in
            let there =
              choose-select (λ q. q.id) (λ q. text_eq q.title s.title) w.products (o.pick w.calls) p
                chosen in
            let after = same_world ∙ sym (ap (λ r. r.1) found) ∙ reads in
            (
              inl (
                subst (λ k. any (λ q. text_eq q.title s.title && q.id == k) w.products ≡ true)
                    same_id there,
                ap (λ u. u.products) after,
              ),
              ground (arith, after),
            )
        | inr made ↦
            let (new, wrote) =
              product_made s time id (record w { calls = w.calls + 1 }) w'
                (subst (λ u. create_product o s time u ≡ (ok id, w')) reads made) in
            (
              inr (
                product_row s (o.new_uuid (w.calls + 1)) time,
                sym new,
                refl,
                refl,
                refl,
                ap (λ u. u.products) wrote,
              ),
              ground (arith, wrote),
            )
      ]

  created_test :
      (t : Test) (w v : World) (x : Unit)
      → wrapped failed_to_create_test (Tests.create o t w) ≡ (ok x, v)
      → v ≡ record w { tests = w.tests ++ t ∷ []; calls = w.calls + 1 }
  unfolding Tests.create
  created_test t w v x h = ground arith

  pub create_offer_ok :
      (s : Scenario) (version : Uuid) (time : Instant) (x : Unit) (w w' : World)
      → create_offer o s version time w ≡ (ok x, w')
      → (t : Test) × (ps : List Product) × (t.scenario_version_id ≡ version)
        × (t.duration_minutes ≡ s.duration_minutes)
        × (t.access_window_hours ≡ s.access_window_hours)
        × (t.attempts_allowed ≡ s.attempts_allowed)
        × ProductFor s t.product_id w.products ps
        × (w' ≡ record w { products = ps; tests = w.tests ++ t ∷ []; calls = w'.calls })
  unfolding create_offer
  create_offer_ok s version time x w w' h =
      let (id, v, got, rest) = and_then_ok _ _ x w' h in
      let (found, same_world) = product_for_ok s time id w v got in
      let t = test_row s id version (o.new_uuid v.calls) time in
      let wrote = created_test t (record v { calls = v.calls + 1 }) w' x rest in
      (t, v.products, refl, refl, refl, refl, found, ground arith)
