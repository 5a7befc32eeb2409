-- ===== src/Prelude/Decimal.antt =====
-- Numbers in decimal notation: fmt's and strconv's `%d`, `ParseInt` and `Sscanf`.
use Prim.Native.Nat.{ℕ, zero, suc, ◌+◌, ◌-◌, ◌*◌, ◌/◌, ◌%◌, ◌^◌, ◌<◌}
use mathlib.Core.Path.{◌≡◌, refl, ap, ◌∙◌}
use mathlib.Core.Bool.{Bool, true, false, ◌&&◌, not}
use mathlib.Core.List.{[], ◌∷◌, ◌++◌}
use mathlib.Core.Option.{Option, none, some}
use native.Mathlib.Omega.{arith}
use painkiller.Prelude.Tests.{◌==◌, ltb, leb, if◌then◌else◌}
use painkiller.Prelude.Int.{ℤ, pos, negsuc}
use painkiller.Prelude.Strings.{Text, is_space, is_empty}

digits : ℕ → ℕ → Text
digits zero n = []
digits (suc fuel) n =
    let front = digits fuel (n / 10) in
    if ltb n 10 then (48 + n) ∷ [] else front ++ (48 + n % 10) ∷ []

-- `%d` of a number; each turn leaves a tenth of it.
unfoldable pub decimal : ℕ → Text
unfolding digits
decimal n = digits (suc n) n

-- `%d` of an `int`.
abbrev pub decimal_ℤ : ℤ → Text
decimal_ℤ (pos n) = decimal n
decimal_ℤ (negsuc n) = 45 ∷ decimal (suc n)

abbrev is_digit : ℕ → Bool
is_digit c = leb 48 c && leb c 57

-- The digits at the head of a text, and what follows them.
unfoldable pub take_digits : Text → Text × Text
take_digits [] = ([], [])
take_digits (c ∷ s) =
    let (t, rest) = take_digits s in if is_digit c then (c ∷ t, rest) else ([], c ∷ s)

unfoldable pub digits_value : ℕ → Text → ℕ
digits_value n [] = n
digits_value n (c ∷ s) = digits_value (10 * n + (c - 48)) s

-- The value of digits after a sign, where it fits `int64`.
abbrev signed_value : Bool → Text → Option ℤ
signed_value minus [] = none
signed_value minus (c ∷ s) =
    let n = digits_value 0 (c ∷ s) in
    if minus
    then (if leb n (2 ^ 63) then some (if n == 0 then pos 0 else negsuc (n - 1)) else none)
    else if ltb n (2 ^ 63)
    then some (pos n)
    else none

-- Digits alone, or none.
abbrev all_digits : Text × Text → Text
all_digits (t, []) = t
all_digits (t, _ ∷ _) = []

-- A sign, if any, and the digits after it.
abbrev with_sign : (Text → Text) → Text → Option ℤ
with_sign digits_of [] = none
with_sign digits_of (c ∷ s) =
    if c == 45
    then signed_value true (digits_of s)
    else signed_value false (digits_of (if c == 43 then s else c ∷ s))

-- `strconv.Atoi(s)`
unfoldable pub atoi : Text → Option ℤ
unfolding take_digits digits_value
atoi s = with_sign (λ t. all_digits (take_digits t)) s

-- Spaces but no newline.
abbrev skip_spaces : Text → Text
skip_spaces [] = []
skip_spaces (c ∷ s) =
    let rest = skip_spaces s in if is_space c && not (c == 10) then rest else c ∷ s

abbrev or_zero : Option ℤ → ℤ
or_zero none = pos 0
or_zero (some n) = n

-- `n := 0; fmt.Sscanf(s, "%d", &n)`: an error leaves the 0.
unfoldable pub sscan_int : Text → ℤ
unfolding take_digits digits_value
sscan_int s = or_zero (with_sign (λ t. (take_digits t).0) (skip_spaces s))

-- Reading the digits of a number.
value_append :
    (n : ℕ) (s : Text) (c : ℕ) → digits_value n (s ++ c ∷ []) ≡ 10 * digits_value n s + (c - 48)
unfolding digits_value
value_append n [] c = refl
value_append n (d ∷ s) c = value_append (10 * n + (d - 48)) s c

value-digits : (fuel n : ℕ) → n < fuel → digits_value 0 (digits fuel n) ≡ n
unfolding digits digits_value
value-digits zero n h = ground arith
value-digits (suc fuel) n h =
    ground (arith, value_append 0 (digits fuel (n / 10)) (48 + n % 10), value-digits fuel (n / 10))

take_append :
    (s : Text) (c : ℕ)
    → take_digits s ≡ (s, [])
    → is_digit c ≡ true
    → take_digits (s ++ c ∷ []) ≡ (s ++ c ∷ [], [])
unfolding take_digits
take_append [] c h d = ground arith
take_append (b ∷ s) c h d = ground (arith, take_append s c)

take-digits : (fuel n : ℕ) → take_digits (digits fuel n) ≡ (digits fuel n, [])
unfolding digits take_digits
take-digits zero n = refl
take-digits (suc fuel) n =
    ground (arith, take-digits fuel (n / 10), take_append (digits fuel (n / 10)) (48 + n % 10))

append_some : (s : Text) (c : ℕ) → is_empty (s ++ c ∷ []) ≡ false
append_some [] c = refl
append_some (b ∷ s) c = refl

digits_some : (fuel n : ℕ) → is_empty (digits (suc fuel) n) ≡ false
unfolding digits
digits_some fuel n = ground (arith, append_some (digits fuel (n / 10)) (48 + n % 10))

unsigned :
    (digits_of : Text → Text) (c : ℕ) (s : Text)
    → is_digit c ≡ true
    → with_sign digits_of (c ∷ s) ≡ signed_value false (digits_of (c ∷ s))
unsigned digits_of c s digit =
    let no_minus : (c == 45) ≡ false = ground arith in
    let no_plus : (c == 43) ≡ false = ground arith in ground arith

signed_small :
    (c : ℕ) (s : Text)
    → digits_value 0 (c ∷ s) < 2 ^ 63
    → signed_value false (c ∷ s) ≡ some (pos (digits_value 0 (c ∷ s)))
signed_small c s small = ground arith

scan_digits :
    (s : Text)
    → take_digits s ≡ (s, [])
    → is_empty s ≡ false
    → digits_value 0 s < 2 ^ 63
    → sscan_int s ≡ pos (digits_value 0 s)
unfolding take_digits sscan_int
scan_digits [] h some_digit small = cc
scan_digits (c ∷ s) h some_digit small =
    let digit : is_digit c ≡ true = ground arith in
    let still : skip_spaces (c ∷ s) ≡ c ∷ s = ground arith in
    let read : (take_digits (c ∷ s)).0 ≡ c ∷ s = ap (λ p. p.0) h in
    let value : with_sign (λ t. (take_digits t).0) (c ∷ s) ≡ some (pos (digits_value 0 (c ∷ s))) =
      unsigned (λ t. (take_digits t).0) c s digit
      ∙ ap (signed_value false) read
      ∙ signed_small c s small in
    ap or_zero (ap (with_sign (λ t. (take_digits t).0)) still ∙ value)

-- A number that is printed is read back.
pub sscan-decimal : (n : ℕ) → n < 2 ^ 63 → sscan_int (decimal n) ≡ pos n
unfolding decimal
sscan-decimal n h = ground (
  arith,
  scan_digits (digits (suc n) n) (take-digits (suc n) n) (digits_some n n),
  value-digits (suc n) n,
)
