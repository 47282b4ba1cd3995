-- ===== src/Prelude/Text.antt =====
-- Go strings as lists of code points, with the functions of `strings` that the program calls.
use Prim.Native.Nat.{ℕ}
use Prim.Native.Char.{code}
use Prim.Native.String.{String}
use mathlib.Core.Path.{◌≡◌, refl}
use mathlib.Core.Logic.{◌↔◌}
use mathlib.Core.Bool.{Bool, true, false, ◌&&◌, ◌||◌}
use mathlib.Core.List.{List, [], ◌∷◌}
use native.Mathlib.Omega.{arith}
use antitimely.Prelude.Tests.{◌==◌, if◌then◌else◌}

abbrev pub Str : Type 0
Str = List ℕ

-- The code points of a literal.
abbrev pub codes : String → Str
codes String.[] = []
codes (String.◌∷◌ c s) = code c ∷ codes s

unfoldable pub str_eq : Str → Str → Bool
str_eq [] [] = true
str_eq [] (d ∷ t) = false
str_eq (c ∷ s) [] = false
str_eq (c ∷ s) (d ∷ t) = (c == d) && str_eq s t

pub str_eq_iff : (s t : Str) → (str_eq s t ≡ true) ↔ (s ≡ t)
unfolding str_eq
str_eq_iff [] [] = (λ h. refl, λ h. refl)
str_eq_iff [] (d ∷ t) = (λ h. cc, λ h. cc)
str_eq_iff (c ∷ s) [] = (λ h. cc, λ h. cc)
str_eq_iff (c ∷ s) (d ∷ t) = ground (arith, str_eq_iff s t)

pub str_eq_refl : (s : Str) → str_eq s s ≡ true
str_eq_refl s = (str_eq_iff s s).1 refl

-- `strings.HasPrefix(s, p)`
unfoldable pub has_prefix : Str → Str → Bool
has_prefix s [] = true
has_prefix [] (d ∷ p) = false
has_prefix (c ∷ s) (d ∷ p) = (c == d) && has_prefix s p

-- `strings.Contains(s, p)`
unfoldable pub contains : Str → Str → Bool
unfolding has_prefix
contains [] p = has_prefix [] p
contains (c ∷ s) p = has_prefix (c ∷ s) p || contains s p

-- `strings.Contains(s, "c")` for one character
unfoldable pub has_char : ℕ → Str → Bool
has_char c [] = false
has_char c (d ∷ s) = (c == d) || has_char c s

-- All characters are equal to `c`.
unfoldable pub only : ℕ → Str → Bool
only c [] = true
only c (d ∷ s) = (c == d) && only c s

-- `strings.TrimRight(s, "c")`: a character is dropped when only `c` follows from it on.
unfoldable pub trim_right : ℕ → Str → Str
unfolding only
trim_right c [] = []
trim_right c (d ∷ s) = if only c (d ∷ s) then [] else d ∷ trim_right c s
