-- ===== src/Base/Strings.antt =====
-- A text as the list of its characters' numbers: its bytes, if it is ASCII.
use Prim.Native.Char.{code}
use Prim.Native.String.{String}
use Prim.Native.Nat.{ℕ}
use mathlib.Core.Path.{◌≡◌, refl}
use mathlib.Core.Bool.{Bool, true, false, ◌&&◌}
use mathlib.Core.List.{List, [], ◌∷◌}
use native.Mathlib.Omega.{arith}
use eos_payg.Base.Tests.{◌==◌}

abbrev pub bytes : String → List ℕ
bytes String.[] = []
bytes (String.◌∷◌ c s) = code c ∷ bytes s

-- `g_str_equal`.
unfoldable pub str_equal : List ℕ → List ℕ → Bool
str_equal [] [] = true
str_equal [] (b ∷ t) = false
str_equal (a ∷ s) [] = false
str_equal (a ∷ s) (b ∷ t) = a == b && str_equal s t

pub str_equal_lem : (s t : List ℕ) → str_equal s t ≡ true → s ≡ t
unfolding str_equal
str_equal_lem [] [] h = refl
str_equal_lem [] (b ∷ t) h = cc
str_equal_lem (a ∷ s) [] h = cc
str_equal_lem (a ∷ s) (b ∷ t) h = grind (arith, str_equal_lem s t)

pub str_equal_refl : (s : List ℕ) → str_equal s s ≡ true
unfolding str_equal
str_equal_refl [] = refl
str_equal_refl (a ∷ s) = ground (arith, str_equal_refl s)
