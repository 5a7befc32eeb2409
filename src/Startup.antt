-- ===== src/Startup.antt =====
-- cmd/server/main.go up to the start of the server, and cmd/import-scenarios/main.go: what the
-- settings decide. The connections to the database are opened in between; a failure of theirs ends
-- the program like one of the settings. The job queue and the files of the web pages, which are made
-- after the import, are taken to be made.
use painkiller.Prelude.{
  ℤ, Bool, true, false, Option, none, some, Text, codes, text_eq, is_empty, if◌then◌else◌,
}
use painkiller.Outside.{Outside}
use painkiller.Store.{World}
use painkiller.Proxmox.Machines.{Profiles}
use painkiller.Config.{Config, ConfigError, System, Settings, settings, fatal, load}
use painkiller.Importer.Files.{Repository, ImportError}
use painkiller.Importer.Rows.{import_all}
mod Started
mod Examples

-- `proxmox.Config`
pub record ProxmoxConfig : Type 0 where
  pub api_url : Text
  pub token_id : Text
  pub token_secret : Text
  pub node : Text
  pub storage_pool : Text
  pub network_bridge : Text
  pub vlan_id : ℤ
  pub profiles : Profiles
  pub skip_tls_verify : Bool

pub data ProviderChoice : Type 0 where
  proxmox : ProxmoxConfig → ProviderChoice
  mock : ProviderChoice

pub data ProvisionerChoice : Type 0 where
  noop ansible : ProvisionerChoice

-- What the parts are built with.
pub record Wiring : Type 0 where
  pub jwt_secret : Text
  pub jwt_expiry : ℤ
  pub provider : ProviderChoice
  pub provisioner : ProvisionerChoice
  pub proxy : Option Text
  pub addr : Text

abbrev pub proxmox_config : Config → ProxmoxConfig
proxmox_config cfg = record {
  api_url = cfg.proxmox_url;
  token_id = cfg.proxmox_token_id;
  token_secret = cfg.proxmox_token_secret;
  node = cfg.proxmox_node;
  storage_pool = cfg.proxmox_storage_pool;
  network_bridge = cfg.proxmox_network_bridge;
  vlan_id = cfg.proxmox_vlan_id;
  profiles = cfg.proxmox_profiles;
  skip_tls_verify = cfg.proxmox_skip_tls_verify;
}

abbrev pub provider_of : Config → ProviderChoice
provider_of cfg =
    if text_eq cfg.provider (codes "proxmox") then proxmox (proxmox_config cfg) else mock

abbrev pub provisioner_of : Config → ProvisionerChoice
provisioner_of cfg = if text_eq cfg.provisioner_mode (codes "none") then noop else ansible

abbrev pub proxy_of : Config → Option Text
proxy_of cfg = if is_empty cfg.proxy_addr then none else some cfg.proxy_addr

abbrev pub wiring_of : Config → Wiring
wiring_of cfg = record {
  jwt_secret = cfg.jwt_secret;
  jwt_expiry = cfg.jwt_expiry;
  provider = provider_of cfg;
  provisioner = provisioner_of cfg;
  proxy = proxy_of cfg;
  addr = cfg.http_addr;
}

pub data StartError : Type 0 where
  bad_settings : ConfigError → StartError
  no_database no_path : StartError
  import_failed : ImportError → StartError

pub data Start : Type 0 where
  started : Wiring → Start
  stopped : StartError → Start

module _ (sys : System) (o : Outside) (repo : Repository) where
  -- An import that fails is noted in the log, and the server starts.
  abbrev pub imported_first : Text → World → World
  imported_first path w = if is_empty path then w else (import_all o repo path w).1

  -- `connects` is whether the two connections are made.
  abbrev pub start_with : Bool → Settings → World → Start × World
  start_with connects (fatal e) w = (stopped (bad_settings e), w)
  start_with false (settings cfg) w = (stopped no_database, w)
  start_with true (settings cfg) w =
      (started (wiring_of cfg), imported_first cfg.scenario_repo_path w)

  -- `main` of cmd/server.
  unfoldable pub start_server : Bool → World → Start × World
  start_server connects w = start_with connects (load sys) w

  abbrev import_exit : Option ImportError × World → Option StartError × World
  import_exit (none, w) = (none, w)
  import_exit (some e, w) = (some (import_failed e), w)

  abbrev import_with : Bool → Settings → World → Option StartError × World
  import_with connects (fatal e) w = (some (bad_settings e), w)
  import_with connects (settings cfg) w =
      if is_empty cfg.scenario_repo_path
      then (some no_path, w)
      else if connects
      then import_exit (import_all o repo cfg.scenario_repo_path w)
      else (some no_database, w)

  -- `main` of cmd/import-scenarios.
  unfoldable pub run_import : Bool → World → Option StartError × World
  run_import connects w = import_with connects (load sys) w
