-- ===== src/Proxmox/Loaded.antt =====
-- What the check of the clone profiles lets through.
use painkiller.Prelude.{
  pos, ◌≤ℤ◌, leb_ℤ, ◌≡◌, refl, Bool, true, false, not, Option, none, some, List, [], ◌∷◌, Text,
  is_empty, trim_space, All, arith,
}
use mathlib.Core.Path.{subst}
use painkiller.Proxmox.Placeholders.{
  Checked, accepted, unterminated, unsupported, validate_placeholders,
}
use painkiller.Proxmox.Template.{Part, Spells, accepted_iff, placeholders_total}
use painkiller.Proxmox.Machines.{CloneProfile, Profiles}
use painkiller.Proxmox.Profiles.{
  ProfileError, first_error, error_if, placeholder_error, entry_error, validate_profile_config,
  mode_or_default, with_mode, is_mode, profile_error, Loaded, loaded_or, refused, profiles,
  load_profiles, load_clone_profiles,
}

abbrev pub is_empty_list : Profiles → Bool
is_empty_list [] = true
is_empty_list (_ ∷ _) = false

first_none : (a b : Option ProfileError) → first_error a b ≡ none → (a ≡ none) × (b ≡ none)
unfolding first_error
first_none none b h = (refl, h)
first_none (some e) b h = cc

fourth_none :
    (a b c d : Option ProfileError)
    → first_error a (first_error b (first_error c d)) ≡ none
    → d ≡ none
fourth_none a b c d h = (first_none c d (first_none b _ (first_none a _ h).1).1).1

if_none : (b : Bool) (e : ProfileError) → error_if b e ≡ none → b ≡ false
if_none true e h = cc
if_none false e h = refl

value_accepted :
    (name key : Text) (c : Option Checked) (v : Checked)
    → c ≡ some v
    → placeholder_error name key c ≡ none
    → c ≡ some accepted
value_accepted name key none v e h = cc
value_accepted name key (some accepted) v e h = refl
value_accepted name key (some unterminated) v e h = cc
value_accepted name key (some (unsupported t)) v e h = cc

-- A value that the checks let through is a template.
abbrev pub IsTemplate : Text × Text → Type 0
IsTemplate e = (ps : List Part) × Spells e.1 ps

config-IsTemplate :
    (name : Text) (cfg : List (Text × Text))
    → validate_profile_config name cfg ≡ none
    → All IsTemplate cfg
unfolding validate_profile_config
config-IsTemplate name [] h = tt
config-IsTemplate name ((key, value) ∷ cfg) h =
    let (here, there) = first_none (entry_error name key value) _ h in
    let ok = fourth_none _ _ _ (placeholder_error name key (validate_placeholders value)) here in
    let (v, e) = (placeholders_total [] [] value).0 in
    (
      (accepted_iff value).0 (value_accepted name key (validate_placeholders value) v e ok),
      config-IsTemplate name cfg there,
    )

-- A profile with a name, a template's number above zero, one of the two modes, and templates only.
abbrev pub GoodProfile : Text × CloneProfile → Type 0
GoodProfile e =
    (is_empty (trim_space e.0) ≡ false)
    × (pos 1 ≤ℤ e.1.template_vmid)
    × (is_mode e.1.clone_mode ≡ true)
    × All IsTemplate e.1.config

profile-Good :
    (name : Text) (p : CloneProfile) → profile_error name p ≡ none → GoodProfile (name, with_mode p)
profile-Good name p h =
    let (no_name, h1) = first_none _ _ h in
    let (no_id, h2) = first_none _ _ h1 in
    let (no_mode, h3) = first_none _ _ h2 in
    let above = if_none (leb_ℤ p.template_vmid (pos 0)) _ no_id in
    let mode = if_none (not (is_mode (mode_or_default p.clone_mode))) _ no_mode in
    (if_none _ _ no_name, ground arith, ground arith, config-IsTemplate name p.config h3)

loaded_cases :
    (e : Option ProfileError) (p : Text × CloneProfile) (rest : Loaded) (qs : Profiles)
    → loaded_or e p rest ≡ profiles qs
    → (e ≡ none) × ((rs : Profiles) × (rest ≡ profiles rs) × (p ∷ rs ≡ qs))
loaded_cases (some e) p rest qs h = cc
loaded_cases none p (refused e) qs h = cc
loaded_cases none p (profiles rs) qs h = (refl, (rs, refl, cc))

load_profiles-Good : (ps qs : Profiles) → load_profiles ps ≡ profiles qs → All GoodProfile qs
unfolding load_profiles
load_profiles-Good [] qs h = let same : [] ≡ qs = cc in subst (All GoodProfile) same tt
load_profiles-Good ((name, p) ∷ ps) qs h =
    let (fine, (rs, rest, e)) = loaded_cases _ _ (load_profiles ps) qs h in
    subst (All GoodProfile) e (profile-Good name p fine, load_profiles-Good ps rs rest)

-- If the file of clone profiles is accepted, then every profile has a name that is not blank, a
-- template number above zero, the clone mode `full` or `linked`, and values that are templates; and
-- there is a profile.
pub load-Good :
    (ps qs : Profiles)
    → load_clone_profiles ps ≡ profiles qs
    → (is_empty_list qs ≡ false) × All GoodProfile qs
unfolding load_clone_profiles load_profiles
load-Good [] qs h = cc
load-Good ((name, p) ∷ ps) qs h =
    let (fine, (rs, rest, e)) = loaded_cases _ _ (load_profiles ps) qs h in
    (subst (λ x. is_empty_list x ≡ false) e refl, load_profiles-Good ((name, p) ∷ ps) qs h)
