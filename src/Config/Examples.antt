-- ===== src/Config/Examples.antt =====
-- The theorem on durations at work, on one that is too long.
use painkiller.Prelude.{
  ℕ, ◌*◌, ◌≤◌, ◌≡◌, refl, ◌⊎◌, pos, negsuc, some, [], ◌∷◌, codes, text_eq, atoi, arith,
  if◌then◌else◌,
}
use painkiller.Config.{System, second, get_duration_env}
use painkiller.Config.Expiry.{get_duration_env_range}

-- Every variable reads "proxmox", but for the number of seconds.
abbrev system : System
system = record {
  getenv = λ key. if text_eq key (codes "JWT_EXPIRY") then codes "9223372037" else codes "proxmox";
  read_file = λ _. some [];
  decode_profiles = λ _.
      some ((codes "small", record { template_vmid = pos 1; clone_mode = []; config = [] }) ∷ []);
}

get_duration_env_range_example :
    (9223372037 ≤ 9223372036
      × (get_duration_env system (codes "JWT_EXPIRY") (pos 1) ≡ pos (9223372037 * second)))
    ⊎ ((n : ℕ) × (9223372037 ≤ 9223372037)
        × (get_duration_env system (codes "JWT_EXPIRY") (pos 1) ≡ negsuc n))
unfolding atoi text_eq
get_duration_env_range_example =
    get_duration_env_range system (codes "JWT_EXPIRY") (pos 1) 9223372037 refl refl (omega arith)
