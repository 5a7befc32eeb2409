-- ===== src/Config/Checked.antt =====
-- What the settings promise to the parts that are built from them.
use painkiller.Prelude.{
  ◌≡◌, refl, ◌⊎◌, inl, inr, Bool, true, false, Option, none, some, All, arith, Text, codes, text_eq,
  text_eq_sound, is_empty, Bool-cases, if◌then◌else◌,
}
use mathlib.Core.Path.{subst}
use painkiller.Proxmox.Machines.{Profiles}
use painkiller.Proxmox.Profiles.{Loaded, refused, profiles, load_clone_profiles}
use painkiller.Proxmox.Loaded.{GoodProfile, load-Good}
use painkiller.Config.{
  Config, System, ConfigError, Settings, settings, fatal, is_incomplete, proxmox_incomplete,
  with_profiles, parsed_profiles, load_profiles_file, check_complete, check_provider,
  check_settings, read_settings, load,
}

-- What the back end is chosen by: the mock, or Proxmox with all that it needs.
abbrev pub Provided : Config → Type 0
Provided cfg =
    (cfg.provider ≡ codes "mock")
    ⊎ ((cfg.provider ≡ codes "proxmox")
        × (is_empty cfg.proxmox_url ≡ false)
        × (is_empty cfg.proxmox_token_id ≡ false)
        × (is_empty cfg.proxmox_token_secret ≡ false)
        × (is_empty cfg.proxmox_node ≡ false)
        × All GoodProfile cfg.proxmox_profiles)

fatal_never :
    (b : Bool) (e : ConfigError) (s : Settings) (c : Config)
    → (if b then fatal e else s) ≡ settings c
    → (b ≡ false) × (s ≡ settings c)
fatal_never true e s c h = cc
fatal_never false e s c h = (refl, h)

module _ (sys : System) where
  file_loaded :
      (cfg c : Config) (content : Option Text)
      → load_profiles_file sys cfg content ≡ settings c
      → (ps : Profiles) × (qs : Profiles) × (load_clone_profiles ps ≡ profiles qs)
        × (record cfg { proxmox_profiles = qs } ≡ c)
  file_loaded cfg c none h = cc
  file_loaded cfg c (some content) h = decoded (sys.decode_profiles content) h
    where
      accepted :
          (ps : Profiles) (r : Loaded)
          → load_clone_profiles ps ≡ r
          → with_profiles sys cfg r ≡ settings c
          → (ps : Profiles) × (qs : Profiles) × (load_clone_profiles ps ≡ profiles qs)
            × (record cfg { proxmox_profiles = qs } ≡ c)
      accepted ps (refused e) same h = cc
      accepted ps (profiles qs) same h = (ps, qs, same, ground arith)

      decoded :
          (m : Option Profiles)
          → parsed_profiles sys cfg m ≡ settings c
          → (ps : Profiles) × (qs : Profiles) × (load_clone_profiles ps ≡ profiles qs)
            × (record cfg { proxmox_profiles = qs } ≡ c)
      decoded none h = cc
      decoded (some ps) h = accepted ps (load_clone_profiles ps) refl h

  check_settings_ok :
      (cfg c : Config)
      → check_settings sys cfg ≡ settings c
      → (is_empty c.jwt_secret ≡ false) × Provided c
  unfolding check_settings
  check_settings_ok cfg c h =
      let (secret, h₁) = fatal_never (is_empty cfg.jwt_secret) _ (check_provider sys cfg) c h in
      elim (Bool-cases (text_eq cfg.provider (codes "proxmox"))) [
        | inl proxmox ↦
            let h₂ : check_complete sys cfg ≡ settings c = ground arith in
            let (full, h₃) =
              fatal_never (is_incomplete sys cfg) proxmox_incomplete
                (load_profiles_file sys cfg (sys.read_file cfg.proxmox_profiles_file)) c h₂ in
            let (ps, qs, loaded, same) = file_loaded cfg c _ h₃ in
            let name = text_eq_sound cfg.provider (codes "proxmox") proxmox in
            let good = (load-Good ps qs loaded).1 in
            subst (λ d. (is_empty d.jwt_secret ≡ false) × Provided d) same
              (secret, inr (name, ground arith, ground arith, ground arith, ground arith, good))
        | inr other ↦
            let same : cfg ≡ c = ground arith in
            let name = text_eq_sound cfg.provider (codes "mock") (ground arith) in
            subst (λ d. (is_empty d.jwt_secret ≡ false) × Provided d) same (secret, inl name)
      ]

  -- If the settings load, then there is a secret for the tokens, and the provider is the mock, or it
  -- is Proxmox with an address, both parts of the token, a node and good profiles.
  pub load_ok : (c : Config) → load sys ≡ settings c → (is_empty c.jwt_secret ≡ false) × Provided c
  unfolding load
  load_ok c h = check_settings_ok (read_settings sys) c h
