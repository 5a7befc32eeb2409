-- ===== src/Proxmox/Cut.antt =====
-- What the slices around the first `{{` or `}}` of a text are.
use painkiller.Prelude.{
  ℕ, ◌+◌, ◌≤◌, ◌≡◌, refl, ap, false, none, some, [], ◌∷◌, ◌++◌, length, length-append, Text,
  has_prefix, contains, arith,
}
use painkiller.Proxmox.Placeholders.{cut_pair}

-- A pair of the character stands nowhere in the text.
abbrev pub NoPair : ℕ → Text → Type 0
NoPair c s = contains (c ∷ c ∷ []) s ≡ false

pub cut-found :
    (c : ℕ) (s a b : Text)
    → cut_pair c s ≡ some (a, b)
    → (s ≡ a ++ c ∷ c ∷ b) × NoPair c (a ++ c ∷ [])
unfolding cut_pair contains has_prefix
cut-found c [] a b h = cc
cut-found c (x ∷ []) a b h = cc
cut-found c (x ∷ y ∷ s) [] b h = ground arith
cut-found c (x ∷ y ∷ s) (z ∷ []) b h = ground (arith, cut-found c (y ∷ s) [] b)
cut-found c (x ∷ y ∷ s) (z ∷ u ∷ a) b h = ground (arith, cut-found c (y ∷ s) (u ∷ a) b)

pub cut-none : (c : ℕ) (s : Text) → cut_pair c s ≡ none → NoPair c s
unfolding cut_pair contains has_prefix
cut-none c [] h = refl
cut-none c (x ∷ []) h = ground arith
cut-none c (x ∷ y ∷ s) h = ground (arith, cut-none c (y ∷ s))

pub none-cut : (c : ℕ) (s : Text) → NoPair c s → cut_pair c s ≡ none
unfolding cut_pair contains has_prefix
none-cut c [] h = refl
none-cut c (x ∷ []) h = refl
none-cut c (x ∷ y ∷ s) h = ground (arith, none-cut c (y ∷ s))

pub found-cut :
    (c : ℕ) (a b : Text) → NoPair c (a ++ c ∷ []) → cut_pair c (a ++ c ∷ c ∷ b) ≡ some (a, b)
unfolding cut_pair contains has_prefix
found-cut c [] b h = ground arith
found-cut c (x ∷ []) b h = ground arith
found-cut c (x ∷ y ∷ a) b h = ground (arith, found-cut c (y ∷ a) b)

pub cut_shorter : (c : ℕ) (s a b : Text) → cut_pair c s ≡ some (a, b) → length b + 2 ≤ length s
cut_shorter c s a b h =
    ground
      (arith, cut-found c s a b h, ap length (cut-found c s a b h).0, length-append a (c ∷ c ∷ b))
