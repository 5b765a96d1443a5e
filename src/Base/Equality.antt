-- ===== src/Base/Equality.antt =====
-- Whether two lists of numbers are the same, and two texts up to the case of their ASCII letters.
use Prim.Native.Nat.{ℕ, ◌+◌}
use Prim.Native.Char.{code}
use Prim.Native.String.{String}
use mathlib.Core.Path.{◌≡◌, refl, ap₂}
use mathlib.Core.Bool.{Bool, true, false, ◌&&◌}
use mathlib.Core.List.{List, [], ◌∷◌}
use native.Mathlib.Omega.{arith}
use matrixcache.Base.Tests.{◌==◌, leb, if◌then◌else◌}

unfoldable pub list_eq : List ℕ → List ℕ → Bool
list_eq [] [] = true
list_eq [] (y ∷ ys) = false
list_eq (x ∷ xs) [] = false
list_eq (x ∷ xs) (y ∷ ys) = (x == y) && list_eq xs ys

pub list_eq-eq : (xs ys : List ℕ) → list_eq xs ys ≡ true → xs ≡ ys
unfolding list_eq
list_eq-eq [] [] h = refl
list_eq-eq [] (y ∷ ys) h = absurd (cc)
list_eq-eq (x ∷ xs) [] h = absurd (cc)
list_eq-eq (x ∷ xs) (y ∷ ys) h = ap₂ ◌∷◌ (ground arith) (list_eq-eq xs ys (ground arith))

pub list_eq_refl : (xs : List ℕ) → list_eq xs xs ≡ true
unfolding list_eq
list_eq_refl [] = refl
list_eq_refl (x ∷ xs) = ground (arith, list_eq_refl xs)

-- The lower case of a code point, for the ASCII letters.
unfoldable pub to_lower : ℕ → ℕ
to_lower c = if leb 65 c && leb c 90 then c + 32 else c

unfoldable pub lower_codes : String → List ℕ
lower_codes String.[] = []
lower_codes (String.◌∷◌ c s) = to_lower (code c) ∷ lower_codes s

unfoldable pub eq_ignore_ascii_case : String → String → Bool
eq_ignore_ascii_case s t = list_eq (lower_codes s) (lower_codes t)
