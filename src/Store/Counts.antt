-- ===== src/Store/Counts.antt =====
-- The two counter updates of internal/store/purchase_store.go, as a lookup sees them.
use painkiller.Prelude.{
  pos, ◌≤ℤ◌, ◌+ℤ◌, ◌-ℤ◌, ◌≡◌, refl, true, some, List, [], ◌∷◌, arith, any, ◌==◌, if◌then◌else◌, pos,
}
use mathlib.Core.Option
use painkiller.Models.{Uuid, PurchasedTest}
use painkiller.Store.Table.{lookup, modify, has, lookup-modify, has-modify, key-lookup}
use painkiller.Store.Purchases.{key, take_one, give_one, has_left}

-- A purchase with an attempt left is found by the WHERE clause of the decrement.
pub any-has_left :
    (id : Uuid) (p : PurchasedTest) (t : List PurchasedTest)
    → lookup key id t ≡ some p
    → pos 1 ≤ℤ p.attempts_remaining
    → any (has_left p.id) t ≡ true
unfolding lookup
any-has_left id p [] found left = cc
any-has_left id p (q ∷ t) found left = ground (arith, any-has_left id p t, key-lookup key id p t)

take_one-key : (p : PurchasedTest) → key (take_one p) ≡ key p
take_one-key p = ground arith

pub lookup-take :
    (j id : Uuid) (t : List PurchasedTest)
    → lookup key j (modify key id take_one t)
      ≡ (if j == id then Option.map take_one (lookup key j t) else lookup key j t)
lookup-take j id t = lookup-modify key j id take_one t take_one-key

pub has-take :
    (j id : Uuid) (t : List PurchasedTest) → has key j (modify key id take_one t) ≡ has key j t
has-take j id t = has-modify key j id take_one t take_one-key

pub lookup-give :
    (j id : Uuid) (t : List PurchasedTest)
    → lookup key j (modify key id give_one t)
      ≡ (if j == id then Option.map give_one (lookup key j t) else lookup key j t)
lookup-give j id t = lookup-modify key j id give_one t (λ p. refl)

give_take : (p : PurchasedTest) → pos 1 ≤ℤ p.attempts_remaining → give_one (take_one p) ≡ p
unfolding ◌+ℤ◌ ◌-ℤ◌
give_take p left = ground arith

-- An attempt that is taken and given back leaves every purchase as it was.
pub lookup-give_take :
    (j id : Uuid) (p : PurchasedTest) (t : List PurchasedTest)
    → lookup key id t ≡ some p
    → pos 1 ≤ℤ p.attempts_remaining
    → lookup key j (modify key p.id give_one (modify key p.id take_one t)) ≡ lookup key j t
lookup-give_take j id p t found left = ground (
  arith,
  lookup-give j p.id (modify key p.id take_one t),
  lookup-take j p.id t,
  key-lookup key id p t,
  give_take p left,
)
