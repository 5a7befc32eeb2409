-- ===== src/Proxmox/Placeholders.antt =====
-- internal/provider/proxmox: the placeholders in the values of a clone profile, as config.go checks
-- them and provider.go fills them in.
use painkiller.Prelude.{
  ℕ, zero, suc, Bool, ◌&&◌, not, Option, none, some, [], ◌∷◌, ◌++◌, length, ◌==◌, if◌then◌else◌,
  Text, codes, text_eq, trim_space,
}
use mathlib.Core.Option

-- `strings.Index(s, cc)` for a separator of two equal characters: the slices before and after it.
unfoldable pub cut_pair : ℕ → Text → Option (Text × Text)
cut_pair c [] = none
cut_pair c (x ∷ []) = none
cut_pair c (x ∷ y ∷ s) =
    let rest = cut_pair c (y ∷ s) in
    if x == c && y == c then some ([], s) else Option.map (λ p. (x ∷ p.0, p.1)) rest

abbrev pub open_brace : ℕ
open_brace = 123

abbrev pub close_brace : ℕ
close_brace = 125

-- The results of `validatePlaceholders`.
pub data Checked : Type 0 where
  accepted unterminated : Checked
  unsupported : Text → Checked

abbrev pub is_ssh_public_key : Text → Bool
is_ssh_public_key inside = text_eq (trim_space inside) (codes "ssh_public_key")

abbrev pub is_hostname : Text → Bool
is_hostname inside = text_eq (trim_space inside) (codes "hostname")

-- The loop of `validatePlaceholders` on what remains; `none` where the fuel is out.
unfoldable pub validate_remaining : ℕ → Text → Option Checked
validate_remaining zero remaining = none
validate_remaining (suc fuel) remaining = elim (cut_pair open_brace remaining) [
  | none ↦ some accepted
  | some (before, after) ↦ elim (cut_pair close_brace after) [
    | none ↦ some unterminated
    | some (inside, rest) ↦
        let checked = validate_remaining fuel rest in
        if not (is_ssh_public_key inside) && not (is_hostname inside)
        then some (unsupported (trim_space inside))
        else checked
  ]
]

-- Every turn takes four characters at least, so there are fewer turns than characters, and one more.
unfoldable pub validate_placeholders : Text → Option Checked
validate_placeholders value = validate_remaining (suc (length value)) value

module _ (ssh_public_key hostname : Text) where
  -- What the `switch` writes for the text between the braces.
  abbrev pub substitute : Text → Text
  substitute inside =
      if is_ssh_public_key inside
      then trim_space ssh_public_key
      else if is_hostname inside
      then hostname
      else open_brace ∷ open_brace ∷ (inside ++ close_brace ∷ close_brace ∷ [])

  -- The loop of `renderProfileValue` on what remains.
  unfoldable pub render_remaining : ℕ → Text → Option Text
  render_remaining zero remaining = none
  render_remaining (suc fuel) remaining = elim (cut_pair open_brace remaining) [
    | none ↦ some remaining
    | some (before, after) ↦ elim (cut_pair close_brace after) [
      | none ↦ some (before ++ open_brace ∷ open_brace ∷ after)
      | some (inside, rest) ↦
          Option.map (λ t. before ++ (substitute inside ++ t)) (render_remaining fuel rest)
    ]
  ]

  unfoldable pub render_profile_value : Text → Option Text
  render_profile_value value = render_remaining (suc (length value)) value
