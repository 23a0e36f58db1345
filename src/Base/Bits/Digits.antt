-- ===== src/Base/Bits/Digits.antt =====
-- An operation on the binary digits of two numbers, on their halves and lowest digits. The library
-- defines it by recursion on a count of digits, and any count that is large enough gives the same.
use Prim.Native.Nat.{ℕ, zero, suc, ◌+◌, ◌-◌, ◌*◌, ◌/◌, ◌%◌, ◌≤◌, ◌<◌, digits}
use mathlib.Core.Path.{◌≡◌, refl, ap, ◌∙◌}
use native.Mathlib.Omega.{arith}

module _ (z : ℕ → ℕ) (f : ℕ → ℕ → ℕ) where
  one_more : (a n b : ℕ) → a ≤ n → digits z f (suc n) a b ≡ digits z f n a b
  one_more zero zero b h = refl
  one_more zero (suc n) b h = refl
  one_more (suc a) zero b h = absurd (omega arith)
  one_more (suc a) (suc n) b h = omega (arith, one_more (suc a / 2) n (b / 2) (omega arith))

  many_more : (k n a b : ℕ) → n ≡ k + a → digits z f n a b ≡ digits z f a a b
  many_more zero n a b h = ap (λ m. digits z f m a b) (omega arith)
  many_more (suc k) zero a b h = absurd (omega arith)
  many_more (suc k) (suc n) a b h = one_more a n b (omega arith) ∙ many_more k n a b (omega arith)

  pub halve :
      (a b : ℕ)
      → 0 < a
      → digits z f a a b ≡ digits z f (a / 2) (a / 2) (b / 2) * 2 + f (a % 2) (b % 2)
  halve zero b h = absurd (omega arith)
  halve (suc a) b h =
      let enough : digits z f a (suc a / 2) (b / 2) ≡ digits z f (suc a / 2) (suc a / 2) (b / 2) =
        many_more (a - suc a / 2) a (suc a / 2) (b / 2) (omega arith) in
      omega (arith, enough)
