-- ===== src/Scoring/Percentage.antt =====
-- The percentage that internal/scoring/handler.go reports.
use painkiller.Prelude.{ℕ, zero, suc, ◌*◌, ◌/◌, ◌≤◌, pos, ◌*ℤ◌, quot, ◌≡◌, refl, arith}
use painkiller.Scoring.{percentage}
use native.Mathlib.Omega.{div_any}
use native.Mathlib.Nat.{lt-div-mul-add, div-le_of_le-mul}

times_100 : (n : ℕ) → pos n *ℤ pos 100 ≡ pos (n * 100)
unfolding ◌*ℤ◌
times_100 n = ground arith

percentage-pos : (n m : ℕ) → percentage (pos n) (pos (suc m)) ≡ pos (n * 100 / suc m)
unfolding percentage quot
percentage-pos n m = ground (arith, times_100 n)

-- A total between nothing and the maximum is reported as a percentage between 0 and 100, rounded
-- down: with a maximum above 0, `p` per cent of it are at most the total, and `p + 1` are more. A
-- maximum of 0 is reported as 0 per cent.
pub percentage_range :
    (n m : ℕ)
    → n ≤ m
    → (p : ℕ) × (percentage (pos n) (pos m) ≡ pos p)
      × (p ≤ 100)
      × (m * p ≤ n * 100)
      × (1 ≤ m → suc (n * 100) ≤ m * suc p)
unfolding percentage
percentage_range n zero h = (0, refl, omega arith, omega arith, λ one. omega arith)
percentage_range n (suc m) h =
    let p = n * 100 / suc m in
    let whole = div_any (n * 100) (suc m) in
    let rest = lt-div-mul-add {a = n * 100} {b = suc m} (omega arith) in
    (
      p,
      percentage-pos n m,
      div-le_of_le-mul (suc m) (omega arith),
      omega (arith, whole),
      λ _. omega (arith, rest),
    )
