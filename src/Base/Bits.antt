-- ===== src/Base/Bits.antt =====
-- `|` of two words that share no bit, and `&` with a mask of ones, as arithmetic.
mod Digits
use Prim.Native.Nat.{
  ℕ, zero, suc, ◌+◌, ◌*◌, ◌/◌, ◌%◌, ◌^◌, ◌≤◌, ◌<◌, min, max, bit_and, bit_or, bit_and-bitwise,
  bit_or-bitwise,
}
use mathlib.Core.Path.{◌≡◌, refl, sym, ap, ◌∙◌}
use native.Mathlib.Nat.{pow-suc, mul_assoc}
use native.Mathlib.Omega.{arith}
use Digits.{halve}

-- `&` and `|` on the halves of two words.
halves-bit_and : (a b : ℕ) → 0 < a → bit_and a b ≡ bit_and (a / 2) (b / 2) * 2 + min (a % 2) (b % 2)
halves-bit_and a b h =
    omega (arith, bit_and-bitwise a b, bit_and-bitwise (a / 2) (b / 2), halve (λ _. 0) min a b h)

halves-bit_or : (a b : ℕ) → 0 < a → bit_or a b ≡ bit_or (a / 2) (b / 2) * 2 + max (a % 2) (b % 2)
halves-bit_or a b h =
    omega (arith, bit_or-bitwise a b, bit_or-bitwise (a / 2) (b / 2), halve (λ c. c) max a b h)

-- The first word is 0.
bit_and_none : (b : ℕ) → bit_and 0 b ≡ 0
bit_and_none b = bit_and-bitwise 0 b

bit_or_none : (b : ℕ) → bit_or 0 b ≡ b
bit_or_none b = bit_or-bitwise 0 b

-- The second word is 0, for first words below a bound.
bit_and_empty : (bound a : ℕ) → a < bound → bit_and a 0 ≡ 0
bit_and_empty zero a h = absurd (omega arith)
bit_and_empty (suc bound) zero h = bit_and_none 0
bit_and_empty (suc bound) (suc a) h =
    let rest : bit_and (suc a / 2) 0 ≡ 0 = bit_and_empty bound (suc a / 2) (omega arith) in
    omega (arith, halves-bit_and (suc a) 0, rest)

bit_or_empty : (bound a : ℕ) → a < bound → bit_or a 0 ≡ a
bit_or_empty zero a h = absurd (omega arith)
bit_or_empty (suc bound) zero h = bit_or_none 0
bit_or_empty (suc bound) (suc a) h =
    let rest : bit_or (suc a / 2) 0 ≡ suc a / 2 = bit_or_empty bound (suc a / 2) (omega arith) in
    omega (arith, halves-bit_or (suc a) 0, rest)

-- A word shifted up by `k` bits, joined to one of at most `k` bits.
pub bit_or-shifted : (k a b : ℕ) → b < 2 ^ k → bit_or (a * 2 ^ k) b ≡ a * 2 ^ k + b
bit_or-shifted zero a b h = ground (arith, bit_or_empty (suc a) a (omega arith))
bit_or-shifted (suc k) zero b h = ground (arith, bit_or_none b)
bit_or-shifted (suc k) (suc a) b h =
    let twice : suc a * 2 ^ suc k ≡ suc a * 2 ^ k * 2 =
      ap (λ t. suc a * t) (pow-suc 2 k) ∙ sym (mul_assoc (suc a) (2 ^ k) 2) in
    let half : suc a * 2 ^ suc k / 2 ≡ suc a * 2 ^ k = omega (arith, twice) in
    let positive : 0 < suc a * 2 ^ suc k = ground (arith, twice, pow-suc 2 k) in
    ground (
      arith,
      pow-suc 2 k,
      twice,
      half,
      halves-bit_or (suc a * 2 ^ suc k) b positive,
      bit_or-shifted k (suc a) (b / 2) (omega (arith, pow-suc 2 k)),
    )

-- One more bit at the low end of a mask.
bit_and-mask : (a m : ℕ) → bit_and a (m * 2 + 1) ≡ bit_and (a / 2) m * 2 + a % 2
bit_and-mask zero m = omega (arith, bit_and_none (m * 2 + 1), bit_and_none m)
bit_and-mask (suc a) m =
    let half : (m * 2 + 1) / 2 ≡ m = omega arith in
    rw (halves-bit_and (suc a) (m * 2 + 1) (omega arith), half) (omega arith)

-- Masks of ones up to 13 bits.
bit_and-mask_4 : (a : ℕ) → bit_and a 15 ≡ a % 16
bit_and-mask_4 a = omega (
  arith,
  bit_and-mask a 7,
  bit_and-mask (a / 2) 3,
  bit_and-mask (a / 2 / 2) 1,
  bit_and-mask (a / 2 / 2 / 2) 0,
  bit_and_empty (suc a) (a / 2 / 2 / 2 / 2) (omega arith),
)

pub bit_and-mask_5 : (a : ℕ) → bit_and a 31 ≡ a % 32
bit_and-mask_5 a = omega (arith, bit_and-mask a 15, bit_and-mask_4 (a / 2))

pub bit_and-mask_8 : (a : ℕ) → bit_and a 255 ≡ a % 256
bit_and-mask_8 a = omega (
  arith,
  bit_and-mask a 127,
  bit_and-mask (a / 2) 63,
  bit_and-mask (a / 2 / 2) 31,
  bit_and-mask_5 (a / 2 / 2 / 2),
)

pub bit_and-mask_13 : (a : ℕ) → bit_and a 8191 ≡ a % 8192
bit_and-mask_13 a = omega (
  arith,
  bit_and-mask a 4095,
  bit_and-mask (a / 2) 2047,
  bit_and-mask (a / 2 / 2) 1023,
  bit_and-mask (a / 2 / 2 / 2) 511,
  bit_and-mask (a / 2 / 2 / 2 / 2) 255,
  bit_and-mask_8 (a / 2 / 2 / 2 / 2 / 2),
)
