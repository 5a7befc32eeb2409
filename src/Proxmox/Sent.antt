-- ===== src/Proxmox/Sent.antt =====
-- Which requests the calls of the client send, of the kinds that a theorem asks for.
use painkiller.Prelude.{
  ℕ, ℤ, ◌≡◌, ◌∙◌, Bool, true, false, Option, none, some, List, [], ◌∷◌, ◌++◌, Text, if◌then◌else◌,
  arith,
}
use painkiller.Proxmox.Wire.{
  Request, Remote, Wire, Fault, Outcome, done, failed, Call, or_raise, wrapped, and_then,
  do_request, wait,
}

-- The machines that the requests name, where `pick` says which requests count.
unfoldable pub picked : (Request → Option ℤ) → List Request → List ℤ
picked pick [] = []
picked pick (q ∷ qs) = elim (pick q) [ none ↦ picked pick qs | some v ↦ v ∷ picked pick qs ]

module _ (pick : Request → Option ℤ) where
  pub picked-none :
      (qs : List Request) (q : Request)
      → pick q ≡ none
      → picked pick (qs ++ q ∷ []) ≡ picked pick qs
  unfolding picked
  picked-none [] q h = ground arith
  picked-none (p ∷ qs) q h = ground (arith, picked-none qs q h)

  pub picked-some :
      (qs : List Request) (q : Request) (v : ℤ)
      → pick q ≡ some v
      → picked pick (qs ++ q ∷ []) ≡ picked pick qs ++ v ∷ []
  unfolding picked
  picked-some [] q v h = ground arith
  picked-some (p ∷ qs) q v h = ground (arith, picked-some qs q v h)

  -- The requests that count are these, after the call.
  pub record Leaves (before : List ℤ) {A : Type 0} (o : Outcome A × Wire) : Type 0 where
    pub holds : picked pick o.1.sent ≡ before

  module _ (before : List ℤ) where
    pub and_then-Leaves :
        {A B : Type 0} (o : Outcome A × Wire) (f : A → Call B)
        → Leaves before o
        → ((a : A) (s : Wire) → picked pick s.sent ≡ before → Leaves before (f a s))
        → Leaves before (and_then o f)
    and_then-Leaves (done a, s) f h k = k a s h.holds
    and_then-Leaves (failed e, s) f h k = record { holds = h.holds }

    pub wrapped-Leaves :
        {A : Type 0} (c : Text) (o : Outcome A × Wire)
        → Leaves before o
        → Leaves before (wrapped c o)
    wrapped-Leaves c (done a, s) h = h
    wrapped-Leaves c (failed e, s) h = record { holds = h.holds }

    pub plain-Leaves :
        {A : Type 0} (o : Outcome A) (s : Wire) → picked pick s.sent ≡ before → Leaves before (o, s)
    plain-Leaves o s h = record { holds = h }

    pub if-Leaves :
        {A : Type 0} (b : Bool) (m k : Call A) (s : Wire)
        → Leaves before (m s)
        → Leaves before (k s)
        → Leaves before ((if b then m else k) s)
    if-Leaves true m k s hm hk = hm
    if-Leaves false m k s hm hk = hk

    pub either-Leaves :
        {A : Type 0} (b : Bool) (o p : Outcome A × Wire)
        → Leaves before o
        → Leaves before p
        → Leaves before (if b then o else p)
    either-Leaves true o p ho hp = ho
    either-Leaves false o p ho hp = hp

    pub or_raise-Leaves :
        {A : Type 0} (a : Option A) (e : Fault) (s : Wire)
        → picked pick s.sent ≡ before
        → Leaves before (or_raise a e s)
    or_raise-Leaves none e s h = record { holds = h }
    or_raise-Leaves (some a) e s h = record { holds = h }

    module _ (r : Remote) where
      pub wait-Leaves :
          (d : ℕ) (s : Wire) → picked pick s.sent ≡ before → Leaves before (wait r d s)
      unfolding wait
      wait-Leaves d s h = record { holds = h }

      -- A request that does not count.
      pub request-Leaves :
          (q : Request) (s : Wire)
          → pick q ≡ none
          → picked pick s.sent ≡ before
          → Leaves before (do_request r q s)
      unfolding do_request
      request-Leaves q s e h = record { holds = picked-none s.sent q e ∙ h }

pub ruleset sending = (
  and_then-Leaves, wrapped-Leaves, plain-Leaves, if-Leaves, either-Leaves, or_raise-Leaves,
  wait-Leaves, request-Leaves,
)
