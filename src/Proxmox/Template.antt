-- ===== src/Proxmox/Template.antt =====
-- Which values of a clone profile are templates, and what a template means.
use painkiller.Prelude.{
  ℕ, zero, suc, ◌+◌, ◌≤◌, ◌<◌, ◌≡◌, sym, ap, true, false, ◌&&◌, not, some, List, [], ◌∷◌, ◌++◌,
  length, length-append, append-nil, if◌then◌else◌, Text, codes, text_eq, text_eq_sound, trim_space,
  arith, Bool-cases, Option-cases, inl, inr, ◌↔◌,
}
use mathlib.Core.Path.{subst, ◌∙◌}
use painkiller.Proxmox.Cut.{NoPair, cut-found, cut-none, none-cut, found-cut, cut_shorter}
use painkiller.Proxmox.Placeholders.{
  cut_pair, open_brace, close_brace, Checked, accepted, unterminated, unsupported,
  is_ssh_public_key, is_hostname, validate_remaining, validate_placeholders, substitute,
  render_remaining, render_profile_value,
}

-- What a template is made of.
pub data Part : Type 0 where
  literal : Text → Part
  key_slot name_slot : Part

-- The text between the braces names a slot.
pub data Names : Text → Part → Type 0 where
  names_key : {inside : Text} → trim_space inside ≡ codes "ssh_public_key" → Names inside key_slot
  names_host : {inside : Text} → trim_space inside ≡ codes "hostname" → Names inside name_slot

-- The text reads as these parts: up to the first `{{`, then up to the first `}}` after it a slot's
-- name, and so on; a text without `{{` is one literal.
pub data Spells : Text → List Part → Type 0 where
  plain : (s : Text) → NoPair open_brace s → Spells s (literal s ∷ [])
  slot :
      (before inside rest : Text) (p : Part) (ps : List Part)
      → NoPair open_brace (before ++ open_brace ∷ [])
      → NoPair close_brace (inside ++ close_brace ∷ [])
      → Names inside p
      → Spells rest ps
      → Spells
          (before ++ open_brace ∷ open_brace ∷ (inside ++ close_brace ∷ close_brace ∷ rest))
          (literal before ∷ p ∷ ps)

module _ (ssh_public_key hostname : Text) where
  abbrev pub fill : Part → Text
  fill (literal t) = t
  fill key_slot = trim_space ssh_public_key
  fill name_slot = hostname

  abbrev pub meaning : List Part → Text
  meaning [] = []
  meaning (p ∷ ps) = fill p ++ meaning ps

is_key :
    (inside : Text) → trim_space inside ≡ codes "ssh_public_key" → is_ssh_public_key inside ≡ true
unfolding text_eq
is_key inside e = ap (λ t. text_eq t (codes "ssh_public_key")) e

is_host :
    (inside : Text)
    → trim_space inside ≡ codes "hostname"
    → (is_ssh_public_key inside ≡ false) × (is_hostname inside ≡ true)
unfolding text_eq
is_host inside e =
    (ap (λ t. text_eq t (codes "ssh_public_key")) e, ap (λ t. text_eq t (codes "hostname")) e)

Names-tests :
    (inside : Text) (p : Part)
    → Names inside p
    → (not (is_ssh_public_key inside) && not (is_hostname inside)) ≡ false
Names-tests inside _ (names_key e) = ground (arith, is_key inside e)
Names-tests inside _ (names_host e) = ground (arith, is_host inside e)

Names-fill :
    (key host inside : Text) (p : Part)
    → Names inside p
    → substitute key host inside ≡ fill key host p
Names-fill key host inside _ (names_key e) = ground (arith, is_key inside e)
Names-fill key host inside _ (names_host e) = ground (arith, is_host inside e)

tests-Names :
    (inside : Text)
    → (not (is_ssh_public_key inside) && not (is_hostname inside)) ≡ false
    → (p : Part) × Names inside p
tests-Names inside h = elim (Bool-cases (is_ssh_public_key inside)) [
  | inl here ↦ (key_slot, names_key (text_eq_sound _ _ here))
  | inr there ↦ (name_slot, names_host (text_eq_sound _ _ (ground arith)))
]

-- A rest is shorter than what it is the rest of.
rest_shorter :
    (before inside rest : Text) (c d : ℕ)
    → length rest + 4 ≤ length (before ++ c ∷ c ∷ (inside ++ d ∷ d ∷ rest))
rest_shorter before inside rest c d = ground (
  arith,
  length-append before (c ∷ c ∷ (inside ++ d ∷ d ∷ rest)),
  length-append inside (d ∷ d ∷ rest),
)

validate-Spells :
    (fuel : ℕ) (s : Text) (ps : List Part)
    → Spells s ps
    → length s < fuel
    → validate_remaining fuel s ≡ some accepted
unfolding validate_remaining
validate-Spells zero s ps spells h = ground arith
validate-Spells (suc fuel) _ _ (plain s none_there) h =
    ground (arith, none-cut open_brace s none_there)
validate-Spells (suc fuel) _ _ (slot before inside rest p ps opens closes names spells) h = ground (
  arith,
  found-cut open_brace before (inside ++ close_brace ∷ close_brace ∷ rest) opens,
  found-cut close_brace inside rest closes,
  Names-tests inside p names,
  validate-Spells fuel rest ps spells
      (ground (arith, rest_shorter before inside rest open_brace close_brace)),
)

render-Spells :
    (key host : Text) (fuel : ℕ) (s : Text) (ps : List Part)
    → Spells s ps
    → length s < fuel
    → render_remaining key host fuel s ≡ some (meaning key host ps)
unfolding render_remaining
render-Spells key host zero s ps spells h = ground arith
render-Spells key host (suc fuel) _ _ (plain s none_there) h =
    ground (arith, none-cut open_brace s none_there, append-nil s)
render-Spells key host (suc fuel) _ _ (slot before inside rest p ps opens closes names spells) h =
    ground (
      arith,
      found-cut open_brace before (inside ++ close_brace ∷ close_brace ∷ rest) opens,
      found-cut close_brace inside rest closes,
      Names-fill key host inside p names,
      render-Spells key host fuel rest ps spells
          (ground (arith, rest_shorter before inside rest open_brace close_brace)),
    )

validated-Spells :
    (fuel : ℕ) (s : Text)
    → validate_remaining fuel s ≡ some accepted
    → (ps : List Part) × Spells s ps
unfolding validate_remaining
validated-Spells zero s h = cc
validated-Spells (suc fuel) s h = elim (Option-cases (cut_pair open_brace s)) [
  | inl nowhere ↦ (literal s ∷ [], plain s (cut-none open_brace s nowhere))
  | inr ((before, after), opened) ↦ elim (Option-cases (cut_pair close_brace after)) [
    | inl nowhere ↦ let wrong : some unterminated ≡ some accepted = ground arith in cc
    | inr ((inside, rest), closed) ↦
        let (p, names) = tests-Names inside (ground arith) in
        let (ps, spells) = validated-Spells fuel rest (ground arith) in
        let (whole, opens) = cut-found open_brace s before after opened in
        let (part, closes) = cut-found close_brace after inside rest closed in
        (
          literal before ∷ p ∷ ps,
          subst (λ t. Spells t (literal before ∷ p ∷ ps))
              (sym (whole ∙ ap (λ t. before ++ open_brace ∷ open_brace ∷ t) part))
              (slot before inside rest p ps opens closes names spells),
        )
  ]
]

validate_enough :
    (fuel : ℕ) (s : Text) → length s < fuel → (v : Checked) × (validate_remaining fuel s ≡ some v)
unfolding validate_remaining
validate_enough zero s h = ground arith
validate_enough (suc fuel) s h = elim (Option-cases (cut_pair open_brace s)) [
  | inl nowhere ↦ (accepted, ground arith)
  | inr ((before, after), opened) ↦ elim (Option-cases (cut_pair close_brace after)) [
    | inl nowhere ↦ (unterminated, ground arith)
    | inr ((inside, rest), closed) ↦
        let shorter = cut_shorter open_brace s before after opened in
        let shortest = cut_shorter close_brace after inside rest closed in
        let (v, e) = validate_enough fuel rest (ground arith) in
        (
          if not (is_ssh_public_key inside) && not (is_hostname inside)
              then unsupported (trim_space inside)
              else v,
          ground arith,
        )
  ]
]

render_enough :
    (key host : Text) (fuel : ℕ) (s : Text)
    → length s < fuel
    → (t : Text) × (render_remaining key host fuel s ≡ some t)
unfolding render_remaining
render_enough key host zero s h = ground arith
render_enough key host (suc fuel) s h = elim (Option-cases (cut_pair open_brace s)) [
  | inl nowhere ↦ (s, ground arith)
  | inr ((before, after), opened) ↦ elim (Option-cases (cut_pair close_brace after)) [
    | inl nowhere ↦ (before ++ open_brace ∷ open_brace ∷ after, ground arith)
    | inr ((inside, rest), closed) ↦
        let shorter = cut_shorter open_brace s before after opened in
        let shortest = cut_shorter close_brace after inside rest closed in
        let (t, e) = render_enough key host fuel rest (ground arith) in
        (before ++ (substitute key host inside ++ t), ground arith)
  ]
]

-- The check of a profile's value and the filling in both come to an end on every text.
pub placeholders_total :
    (key host value : Text)
    → ((v : Checked) × (validate_placeholders value ≡ some v))
      × ((t : Text) × (render_profile_value key host value ≡ some t))
unfolding validate_placeholders render_profile_value
placeholders_total key host value = (
  validate_enough (suc (length value)) value (ground arith),
  render_enough key host (suc (length value)) value (ground arith),
)

-- The check accepts a value exactly if it is a template: every `{{` has its `}}`, with
-- `ssh_public_key` or `hostname` between them, up to white space.
pub accepted_iff :
    (value : Text)
    → (validate_placeholders value ≡ some accepted) ↔ ((ps : List Part) × Spells value ps)
unfolding validate_placeholders
accepted_iff value = (
  validated-Spells (suc (length value)) value,
  λ (ps, spells). validate-Spells (suc (length value)) value ps spells (ground arith),
)

-- An accepted value is filled in as the template that it is: the literal parts are kept, and the
-- trimmed key and the host name stand for the slots, whatever braces they contain.
pub render-accepted :
    (key host value : Text)
    → validate_placeholders value ≡ some accepted
    → (ps : List Part) × Spells value ps
      × (render_profile_value key host value ≡ some (meaning key host ps))
unfolding render_profile_value
render-accepted key host value h =
    let (ps, spells) = (accepted_iff value).0 h in
    (ps, spells, render-Spells key host (suc (length value)) value ps spells (ground arith))
