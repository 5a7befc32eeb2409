-- ===== src/Startup/Examples.antt =====
-- The theorem on the start of the server at work: Proxmox with one profile.
use painkiller.Prelude.{
  ◌≡◌, refl, ap, pos, true, false, none, some, [], ◌∷◌, codes, text_eq, trim_space, is_empty,
}
use painkiller.Example.{shop, calm}
use painkiller.Proxmox.Profiles.{
  load_clone_profiles, load_profiles, validate_profile_config, first_error,
}
use painkiller.Config.{Config, System, settings, get_env, read_settings, check_settings, load}
use painkiller.Importer.Files.{Repository}
use painkiller.Startup.{wiring_of, started, start_with, start_server}
use painkiller.Startup.Started.{Ready, start_server_ok}

-- Every variable reads "proxmox".
abbrev system : System
system = record {
  getenv = λ _. codes "proxmox";
  read_file = λ _. some [];
  decode_profiles = λ _.
      some ((codes "small", record { template_vmid = pos 1; clone_mode = []; config = [] }) ∷ []);
}

-- A repository in which nothing can be read.
abbrev no_files : Repository
no_files = record {
  walk = [];
  read_file = λ _. none;
  decode_scenario = λ _. none;
  decode_checks = λ _. none;
  dir = λ path. path;
  join = λ a b. b;
  rev_parse = none;
}

abbrev expected : Config
unfolding read_settings
expected = record (read_settings system) {
  proxmox_profiles =
      (codes "small", record { template_vmid = pos 1; clone_mode = codes "linked"; config = [] })
      ∷ [];
}

loaded : load system ≡ settings expected
unfolding load check_settings read_settings get_env text_eq load_clone_profiles load_profiles
    validate_profile_config first_error trim_space
loaded = refl

server_started : (start_server system calm no_files true shop).0 ≡ started (wiring_of expected)
unfolding start_server
server_started = ap (λ s. (start_with system calm no_files true s shop).0) loaded

start_server_ok_example :
    (is_empty (wiring_of expected).jwt_secret ≡ false) × Ready (wiring_of expected).provider
start_server_ok_example =
    start_server_ok system calm no_files true (wiring_of expected) shop server_started
