-- ===== src/Prelude/Strings.antt =====
-- Go strings as lists of code points, and what the program uses of package strings. The texts that
-- the program reads come out of the JSON and YAML decoders, which yield valid UTF-8.
use Prim.Native.Nat.{ℕ}
use Prim.Native.Char.{code}
use Prim.Native.String.{String}
use mathlib.Core.Path.{◌≡◌, refl}
use mathlib.Core.Bool.{Bool, true, false, ◌&&◌, ◌||◌}
use mathlib.Core.List.{List, [], ◌∷◌}
use native.Mathlib.Omega.{arith}
use painkiller.Prelude.Tests.{◌==◌, leb, if◌then◌else◌}

abbrev pub Text : Type 0
Text = List ℕ

-- The code points of a literal.
abbrev pub codes : String → Text
codes String.[] = []
codes (String.◌∷◌ c s) = code c ∷ codes s

-- `s == t`
unfoldable pub text_eq : Text → Text → Bool
text_eq [] [] = true
text_eq (c ∷ s) (d ∷ t) = c == d && text_eq s t
text_eq _ _ = false

pub text_eq_sound : (s t : Text) → text_eq s t ≡ true → s ≡ t
unfolding text_eq
text_eq_sound [] [] h = refl
text_eq_sound [] (d ∷ t) h = cc
text_eq_sound (c ∷ s) [] h = cc
text_eq_sound (c ∷ s) (d ∷ t) h = ground (arith, text_eq_sound s t)

pub text_eq_refl : (s : Text) → text_eq s s ≡ true
unfolding text_eq
text_eq_refl [] = refl
text_eq_refl (c ∷ s) = ground (arith, text_eq_refl s)

-- `s == ""`
abbrev pub is_empty : Text → Bool
is_empty [] = true
is_empty (_ ∷ _) = false

-- `strings.HasPrefix(s, prefix)`, the prefix first.
unfoldable pub has_prefix : Text → Text → Bool
has_prefix [] s = true
has_prefix (c ∷ p) [] = false
has_prefix (c ∷ p) (d ∷ s) = c == d && has_prefix p s

-- `strings.Contains(s, sub)`, the part first.
unfoldable pub contains : Text → Text → Bool
unfolding has_prefix
contains p [] = is_empty p
contains p (d ∷ s) = has_prefix p (d ∷ s) || contains p s

-- `unicode.IsSpace`
abbrev pub is_space : ℕ → Bool
is_space c =
    (leb 9 c && leb c 13)
    || c == 32
    || c == 133
    || c == 160
    || c == 5760
    || (leb 8192 c && leb c 8202)
    || c == 8232
    || c == 8233
    || c == 8239
    || c == 8287
    || c == 12288

abbrev pub trim_left : Text → Text
trim_left [] = []
trim_left (c ∷ s) = let rest = trim_left s in if is_space c then rest else c ∷ s

abbrev pub trim_right : Text → Text
trim_right [] = []
trim_right (c ∷ s) = let rest = trim_right s in if is_space c && is_empty rest then [] else c ∷ rest

-- `strings.TrimSpace(s)`
unfoldable pub trim_space : Text → Text
trim_space s = trim_left (trim_right s)
