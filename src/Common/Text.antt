-- ===== src/Common/Text.antt =====
-- Strings as the list of their bytes.
use Prim.Native.Nat.{ℕ}
use Prim.Native.Char.{code}
use Prim.Native.String.{String}
use mathlib.Core.Path.{◌≡◌, refl}
use mathlib.Core.Bool.{Bool, true, false, ◌&&◌}
use mathlib.Core.List.{List, [], ◌∷◌}
use native.Mathlib.Omega.{arith}
use civan.Common.Tests.{◌==◌}

abbrev pub Chars : Type 0
Chars = List ℕ

-- The bytes of a literal, which is ASCII.
abbrev pub codes : String → Chars
codes String.[] = []
codes (String.◌∷◌ c s) = code c ∷ codes s

-- `==` on strings.
abbrev pub equal_chars : Chars → Chars → Bool
equal_chars [] [] = true
equal_chars [] (d ∷ b) = false
equal_chars (c ∷ a) [] = false
equal_chars (c ∷ a) (d ∷ b) = c == d && equal_chars a b

pub equal_chars_refl : (a : Chars) → equal_chars a a ≡ true
equal_chars_refl [] = refl
equal_chars_refl (c ∷ a) = ground (arith, equal_chars_refl a)

pub equal_chars→≡ : (a b : Chars) → equal_chars a b ≡ true → a ≡ b
equal_chars→≡ [] [] h = refl
equal_chars→≡ [] (d ∷ b) h = cc
equal_chars→≡ (c ∷ a) [] h = cc
equal_chars→≡ (c ∷ a) (d ∷ b) h = ground (arith, equal_chars→≡ a b)
