-- ===== src/Config.antt =====
-- internal/config/config.go: the settings that the environment's variables give. A variable that is
-- not set reads as the empty text, which the program treats alike.
use painkiller.Prelude.{
  ℕ, ℤ, pos, ◌*ℤ◌, to_int64, Bool, true, false, not, ◌&&◌, ◌||◌, Option, none, some, List, [], ◌∷◌,
  any, Text, codes, text_eq, is_empty, atoi, if◌then◌else◌,
}
use painkiller.Proxmox.Machines.{Profiles}
use painkiller.Proxmox.Profiles.{ProfileError, Loaded, refused, profiles, load_clone_profiles}
pub mod Checked
mod Expiry
mod Examples

pub record Config : Type 0 where
  pub database_url : Text
  pub http_addr : Text
  pub jwt_secret : Text
  pub stripe_secret_key : Text
  pub stripe_webhook_secret : Text
  pub stripe_success_url : Text
  pub stripe_cancel_url : Text
  pub provider : Text
  pub proxmox_url : Text
  pub proxmox_token_id : Text
  pub proxmox_token_secret : Text
  pub proxmox_node : Text
  pub proxmox_storage_pool : Text
  pub proxmox_network_bridge : Text
  pub proxmox_vlan_id : ℤ
  pub proxmox_profiles_file : Text
  pub proxmox_profiles : Profiles
  pub proxmox_skip_tls_verify : Bool
  pub provisioner_mode : Text
  pub proxy_addr : Text
  pub scenario_repo_path : Text
  pub log_level : Text
  pub jwt_expiry : ℤ

-- The environment of the process, and the files that it can read: the operating system's, and
-- package yaml's `yaml.Unmarshal` into the file of profiles.
pub record System : Type 0 where
  pub getenv : Text → Text
  pub read_file : Text → Option Text
  pub decode_profiles : Text → Option Profiles

pub data ConfigError : Type 0 where
  secret_required : ConfigError
  bad_provider : Text → ConfigError
  proxmox_incomplete : ConfigError
  reading_profiles parsing_profiles : ConfigError
  profile_refused : ProfileError → ConfigError

pub data Settings : Type 0 where
  settings : Config → Settings
  fatal : ConfigError → Settings

abbrev pub or_default : {A : Type 0} → Option A → A → A
or_default none fallback = fallback
or_default (some a) fallback = a

-- `strconv.ParseBool`
abbrev pub parse_bool : Text → Option Bool
parse_bool s =
    if any (text_eq s)
      (codes "1" ∷ codes "t" ∷ codes "T" ∷ codes "TRUE" ∷ codes "true" ∷ codes "True" ∷ [])
    then some true
    else if any (text_eq s)
        (codes "0" ∷ codes "f" ∷ codes "F" ∷ codes "FALSE" ∷ codes "false" ∷ codes "False" ∷ [])
    then some false
    else none

-- A number of nanoseconds.
abbrev pub second : ℕ
second = 1000000000

module _ (sys : System) where
  unfoldable pub get_env : Text → Text → Text
  get_env key fallback = let v = sys.getenv key in if is_empty v then fallback else v

  -- `time.Duration(seconds) * time.Second` keeps 64 bits.
  unfoldable pub get_duration_env : Text → ℤ → ℤ
  get_duration_env key fallback =
      let v = sys.getenv key in
      if is_empty v
      then fallback
      else elim (atoi v) [ none ↦ fallback | some seconds ↦ to_int64 (seconds *ℤ pos second) ]

  unfoldable pub get_bool_env : Text → Bool → Bool
  get_bool_env key fallback =
      let v = sys.getenv key in if is_empty v then fallback else or_default (parse_bool v) fallback

  unfoldable pub get_int_env : Text → ℤ → ℤ
  get_int_env key fallback =
      let v = sys.getenv key in if is_empty v then fallback else or_default (atoi v) fallback

  -- The settings before they are tested.
  unfoldable pub read_settings : Config
  read_settings = record {
    database_url =
        get_env (codes "DATABASE_URL")
          (codes "postgres://localhost:5432/painkiller?sslmode=disable");
    http_addr = get_env (codes "HTTP_ADDR") (codes ":8080");
    jwt_secret = get_env (codes "JWT_SECRET") [];
    stripe_secret_key = get_env (codes "STRIPE_SECRET_KEY") [];
    stripe_webhook_secret = get_env (codes "STRIPE_WEBHOOK_SECRET") [];
    stripe_success_url =
        get_env (codes "STRIPE_SUCCESS_URL") (codes "http://localhost:3000/success");
    stripe_cancel_url = get_env (codes "STRIPE_CANCEL_URL") (codes "http://localhost:3000/cancel");
    provider = get_env (codes "PROVIDER") (codes "mock");
    proxmox_url = get_env (codes "PROXMOX_URL") [];
    proxmox_token_id = get_env (codes "PROXMOX_TOKEN_ID") [];
    proxmox_token_secret = get_env (codes "PROXMOX_TOKEN_SECRET") [];
    proxmox_node = get_env (codes "PROXMOX_NODE") [];
    proxmox_storage_pool = get_env (codes "PROXMOX_STORAGE_POOL") (codes "local-lvm");
    proxmox_network_bridge = get_env (codes "PROXMOX_NETWORK_BRIDGE") (codes "vmbr0");
    proxmox_vlan_id = get_int_env (codes "PROXMOX_VLAN_ID") (pos 0);
    proxmox_profiles_file = get_env (codes "PROXMOX_PROFILES_FILE") [];
    proxmox_profiles = [];
    proxmox_skip_tls_verify = get_bool_env (codes "PROXMOX_SKIP_TLS_VERIFY") false;
    provisioner_mode = get_env (codes "PROVISIONER_MODE") (codes "ansible");
    proxy_addr = get_env (codes "PROXY_ADDR") [];
    scenario_repo_path = get_env (codes "SCENARIO_REPO_PATH") [];
    log_level = get_env (codes "LOG_LEVEL") (codes "info");
    jwt_expiry = get_duration_env (codes "JWT_EXPIRY") (pos 86400000000000);
  }

  abbrev with_profiles : Config → Loaded → Settings
  with_profiles cfg (refused e) = fatal (profile_refused e)
  with_profiles cfg (profiles ps) = settings (record cfg { proxmox_profiles = ps })

  abbrev parsed_profiles : Config → Option Profiles → Settings
  parsed_profiles cfg none = fatal parsing_profiles
  parsed_profiles cfg (some ps) = with_profiles cfg (load_clone_profiles ps)

  -- `proxmox.LoadCloneProfiles` on the file that the settings name.
  abbrev load_profiles_file : Config → Option Text → Settings
  load_profiles_file cfg none = fatal reading_profiles
  load_profiles_file cfg (some content) = parsed_profiles cfg (sys.decode_profiles content)

  abbrev is_incomplete : Config → Bool
  is_incomplete cfg =
      is_empty cfg.proxmox_url
      || is_empty cfg.proxmox_token_id
      || is_empty cfg.proxmox_token_secret
      || is_empty cfg.proxmox_node
      || is_empty cfg.proxmox_profiles_file

  -- `Load` from its third and from its second test on.
  abbrev pub check_complete : Config → Settings
  check_complete cfg =
      if is_incomplete cfg
      then fatal proxmox_incomplete
      else load_profiles_file cfg (sys.read_file cfg.proxmox_profiles_file)

  abbrev pub check_provider : Config → Settings
  check_provider cfg =
      if not (text_eq cfg.provider (codes "mock")) && not (text_eq cfg.provider (codes "proxmox"))
      then fatal (bad_provider cfg.provider)
      else if text_eq cfg.provider (codes "proxmox")
      then check_complete cfg
      else settings cfg

  unfoldable pub check_settings : Config → Settings
  check_settings cfg = if is_empty cfg.jwt_secret then fatal secret_required else check_provider cfg

  unfoldable pub load : Settings
  load = check_settings read_settings
