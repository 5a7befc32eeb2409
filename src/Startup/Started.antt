-- ===== src/Startup/Started.antt =====
-- What a server that has started was built with.
use painkiller.Prelude.{
  ◌≡◌, refl, ap, inl, inr, Bool, true, false, All, arith, codes, text_eq, is_empty,
}
use mathlib.Core.Path.{subst}
use painkiller.Outside.{Outside}
use painkiller.Store.{World}
use painkiller.Proxmox.Loaded.{GoodProfile}
use painkiller.Config.{Config, System, Settings, settings, fatal, load}
use painkiller.Config.Checked.{Provided, load_ok}
use painkiller.Importer.Files.{Repository}
use painkiller.Startup.{
  ProviderChoice, proxmox, mock, proxmox_config, Wiring, wiring_of, provider_of, started,
  start_with, start_server,
}

-- The mock, or Proxmox with an address, both parts of the token, a node and good profiles.
abbrev pub Ready : ProviderChoice → Type 0
Ready mock = Unit
Ready (proxmox p) =
    (is_empty p.api_url ≡ false)
    × (is_empty p.token_id ≡ false)
    × (is_empty p.token_secret ≡ false)
    × (is_empty p.node ≡ false)
    × All GoodProfile p.profiles

Provided-Ready : (c : Config) → Provided c → Ready (provider_of c)
unfolding text_eq
Provided-Ready c (inl name) =
    let other : text_eq c.provider (codes "proxmox") ≡ false =
      ap (λ t. text_eq t (codes "proxmox")) name in
    let chosen : mock ≡ provider_of c = ground (arith, other) in subst Ready chosen tt
Provided-Ready c (inr (name, url, id, secret, node, good)) =
    let own : text_eq c.provider (codes "proxmox") ≡ true =
      ap (λ t. text_eq t (codes "proxmox")) name in
    let chosen : proxmox (proxmox_config c) ≡ provider_of c = ground (arith, own) in
    subst Ready chosen (url, id, secret, node, good)

wired :
    (sys : System) (o : Outside) (repo : Repository) (connects : Bool) (s : Settings) (x : Wiring)
    (w : World)
    → (start_with sys o repo connects s w).0 ≡ started x
    → (c : Config) × (s ≡ settings c) × (wiring_of c ≡ x)
wired sys o repo connects (fatal e) x w h = cc
wired sys o repo false (settings c) x w h = cc
wired sys o repo true (settings c) x w h = (c, refl, cc)

-- If the server starts, then it has a secret to sign its tokens with, and its machines come from the
-- mock, or from Proxmox with an address, both parts of the token, a node and good profiles.
pub start_server_ok :
    (sys : System) (o : Outside) (repo : Repository) (connects : Bool) (x : Wiring) (w : World)
    → (start_server sys o repo connects w).0 ≡ started x
    → (is_empty x.jwt_secret ≡ false) × Ready x.provider
unfolding start_server
start_server_ok sys o repo connects x w h =
    let (c, loaded, same) = wired sys o repo connects (load sys) x w h in
    let (secret, provided) = load_ok sys c loaded in
    subst (λ y. (is_empty y.jwt_secret ≡ false) × Ready y.provider) same
      (secret, Provided-Ready c provided)
