-- ===== src/Config/Expiry.antt =====
-- `JWT_EXPIRY` in seconds as a number of nanoseconds in 64 bits.
use painkiller.Prelude.{
  ℕ, ◌-◌, ◌*◌, ◌^◌, ◌≤◌, ◌<◌, ◌≡◌, ◌∙◌, ℤ, pos, negsuc, ◌*ℤ◌, to_int64, to_int64-pos, some, Text,
  false, arith, atoi, is_empty, ◌⊎◌, inl, inr, Bool-cases, leb,
}
use painkiller.Config.{System, second, get_duration_env}

to_nanoseconds : (s : ℕ) → pos s *ℤ pos second ≡ pos (s * second)
unfolding ◌*ℤ◌
to_nanoseconds s = ground arith

to_int64-high : (n : ℕ) → 2 ^ 63 ≤ n → n < 2 ^ 64 → to_int64 (pos n) ≡ negsuc (2 ^ 64 - n - 1)
unfolding to_int64
to_int64-high n h k = ground arith

duration_of :
    (sys : System) (key : Text) (fallback : ℤ) (s : ℕ)
    → is_empty (sys.getenv key) ≡ false
    → atoi (sys.getenv key) ≡ some (pos s)
    → get_duration_env sys key fallback ≡ to_int64 (pos (s * second))
unfolding get_duration_env
duration_of sys key fallback s set number = ground (arith, number, set, to_nanoseconds s)

-- If the variable holds a number of seconds up to 18446744073, then up to 9223372036, which is 292
-- years, the duration is that number of seconds, and above it the duration is negative.
pub get_duration_env_range :
    (sys : System) (key : Text) (fallback : ℤ) (s : ℕ)
    → is_empty (sys.getenv key) ≡ false
    → atoi (sys.getenv key) ≡ some (pos s)
    → s ≤ 18446744073
    → (s ≤ 9223372036 × (get_duration_env sys key fallback ≡ pos (s * second)))
      ⊎ ((n : ℕ) × (9223372037 ≤ s) × (get_duration_env sys key fallback ≡ negsuc n))
get_duration_env_range sys key fallback s set number small =
    let value = duration_of sys key fallback s set number in
    elim (Bool-cases (leb s 9223372036)) [
      | inl kept ↦
          let low : s ≤ 9223372036 = ground arith in
          inl (low, value ∙ to_int64-pos (s * second) (omega (arith, low)))
      | inr above ↦
          let high : 9223372037 ≤ s = ground arith in
          inr (
            2 ^ 64 - s * second - 1,
            high,
            value ∙ to_int64-high (s * second) (omega (arith, high)) (omega (arith, small)),
          )
    ]
