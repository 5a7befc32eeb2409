-- ===== src/Proxmox/Profiles.antt =====
-- internal/provider/proxmox/config.go: the checks on the file of clone profiles.
use painkiller.Prelude.{
  pos, leb_ℤ, Bool, ◌&&◌, ◌||◌, not, Option, none, some, List, [], ◌∷◌, if◌then◌else◌, Text, codes,
  text_eq, is_empty, trim_space, has_prefix, contains,
}
use painkiller.Proxmox.Placeholders.{Checked, accepted, validate_placeholders}
use painkiller.Proxmox.Machines.{CloneProfile, Profiles}

-- The errors of `LoadCloneProfiles` on the parsed file, and its result. A map is ranged over in the
-- order of its list.
pub data ProfileError : Type 0 where
  no_profiles : ProfileError
  empty_name : ProfileError
  no_template : Text → ProfileError
  bad_clone_mode : Text → Text → ProfileError
  unsupported_key : Text → Text → ProfileError
  bridge_in_ipconfig : Text → Text → Text → ProfileError
  bad_placeholder : Text → Text → Checked → ProfileError

-- `if err := …; err != nil { return err }`: the first error, or none.
unfoldable pub first_error : Option ProfileError → Option ProfileError → Option ProfileError
first_error (some e) rest = some e
first_error none rest = rest

abbrev pub error_if : Bool → ProfileError → Option ProfileError
error_if b e = if b then some e else none

-- `none`, out of fuel, counts as no error.
abbrev pub placeholder_error : Text → Text → Option Checked → Option ProfileError
placeholder_error name key (some accepted) = none
placeholder_error name key (some c) = some (bad_placeholder name key c)
placeholder_error name key none = none

abbrev pub entry_error : Text → Text → Text → Option ProfileError
entry_error name key value =
    first_error (error_if (text_eq key (codes "cipublickey")) (unsupported_key name key)) (
      first_error (error_if (text_eq key (codes "ciname")) (unsupported_key name key)) (
        first_error
          (error_if (has_prefix (codes "ipconfig") key && contains (codes "bridge=") value)
            (bridge_in_ipconfig name key value))
          (placeholder_error name key (validate_placeholders value))))

unfoldable pub validate_profile_config : Text → List (Text × Text) → Option ProfileError
validate_profile_config name [] = none
validate_profile_config name ((key, value) ∷ cfg) =
    first_error (entry_error name key value) (validate_profile_config name cfg)

-- `CloneMode` with its default.
abbrev pub mode_or_default : Text → Text
mode_or_default mode = if is_empty mode then codes "linked" else mode

abbrev pub with_mode : CloneProfile → CloneProfile
with_mode p = record p { clone_mode = mode_or_default p.clone_mode }

abbrev pub is_mode : Text → Bool
is_mode m = text_eq m (codes "full") || text_eq m (codes "linked")

abbrev pub profile_error : Text → CloneProfile → Option ProfileError
profile_error name p = first_error (error_if (is_empty (trim_space name)) empty_name) (
    first_error (error_if (leb_ℤ p.template_vmid (pos 0)) (no_template name)) (
      first_error
        (error_if (not (is_mode (mode_or_default p.clone_mode)))
          (bad_clone_mode name (mode_or_default p.clone_mode)))
        (validate_profile_config name p.config)))

pub data Loaded : Type 0 where
  refused : ProfileError → Loaded
  profiles : Profiles → Loaded

abbrev pub loaded_or : Option ProfileError → Text × CloneProfile → Loaded → Loaded
loaded_or (some e) p rest = refused e
loaded_or none p (refused e) = refused e
loaded_or none p (profiles ps) = profiles (p ∷ ps)

unfoldable pub load_profiles : Profiles → Loaded
load_profiles [] = profiles []
load_profiles ((name, p) ∷ ps) =
    loaded_or (profile_error name p) (name, with_mode p) (load_profiles ps)

-- `LoadCloneProfiles` after the parsing.
unfoldable pub load_clone_profiles : Profiles → Loaded
load_clone_profiles [] = refused no_profiles
load_clone_profiles (p ∷ ps) = load_profiles (p ∷ ps)
