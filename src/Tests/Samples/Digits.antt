-- ===== src/Tests/Samples/Digits.antt =====
-- A reader of decimal numbers between two bounds.
use eos_payg.Base.{
  ℕ, ◌≤◌, ◌<◌, ◌≡◌, ◌↔◌, Bool, true, ◌&&◌, Option, none, some, List, [], ◌∷◌, ltb, leb,
  if◌then◌else◌, length, All, arith,
}
use eos_payg.Codes.{IsDigit, value}

abbrev all_digits : List ℕ → Bool
all_digits [] = true
all_digits (c ∷ s) = leb b'0' c && leb c b'9' && all_digits s

all_digits_lem : (s : List ℕ) → (all_digits s ≡ true) ↔ All IsDigit s
all_digits_lem [] = (λ h. tt, λ h. ground arith)
all_digits_lem (c ∷ s) = (
  λ h. (ground arith, (all_digits_lem s).0 (ground arith)),
  λ h. ground (arith, h.0, (all_digits_lem s).1 h.1),
)

abbrev pub string_to_unsigned : List ℕ → ℕ → ℕ → Option ℕ
string_to_unsigned s low high =
    if ltb 0 (length s) && all_digits s && leb low (value s) && leb (value s) high
    then some (value s)
    else none

pub string_to_unsigned_lem :
    (s : List ℕ) (low high v : ℕ)
    → (string_to_unsigned s low high ≡ some v)
      ↔ ((0 < length s) × All IsDigit s × (value s ≡ v) × (low ≤ v) × (v ≤ high))
string_to_unsigned_lem s low high v = (
  λ h.
      (ground arith, (all_digits_lem s).0 (ground arith), ground arith, ground arith, ground arith),
  λ h. ground (arith, h, (all_digits_lem s).1 h.1),
)
