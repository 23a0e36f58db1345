-- ===== src/Codes/Period.antt =====
-- Which codes, keys and periods `epc_code_validate`, `validate_key` and `epc_period_validate`
-- accept.
use eos_payg.Base.{
  ℕ, ◌≤◌, ◌<◌, ◌^◌, ◌≡◌, true, false, List, [], ◌∷◌, length, All, arith, ◌⊎◌, inl, inr, Bool-cases,
}
use eos_payg.Codes.{
  invalid_period, invalid_key, invalid_code, ok, err, periods, has_case, period_validate,
  validate_key, code_validate,
}

has_case-le : (v n : ℕ) (cs : List ℕ) → All (λ c. c ≤ n) cs → has_case v cs ≡ true → v ≤ n
unfolding has_case
has_case-le v n [] a h = cc
has_case-le v n (c ∷ cs) (ac, a) h = ground (arith, has_case-le v n cs a)

pub has_case-periods-lt : (v : ℕ) → has_case v periods ≡ true → v < 32
has_case-periods-lt v h = omega (arith, has_case-le v 31 periods (omega arith) h)

-- `epc_period_validate` gives an error or success, and its assertion holds.
pub period_validate_lem :
    (period : ℕ)
    → ((period_validate period ≡ ok tt) × (has_case period periods ≡ true) × (period < 32))
      ⊎ ((period_validate period ≡ err invalid_period) × (has_case period periods ≡ false))
unfolding period_validate
period_validate_lem period = elim (Bool-cases (has_case period periods)) [
  | inl p ↦ ground (arith, has_case-periods-lt period p)
  | inr n ↦ ground arith
]

pub validate_key_lem :
    (key : List ℕ)
    → ((validate_key key ≡ ok tt) × (64 ≤ length key))
      ⊎ ((validate_key key ≡ err invalid_key) × (length key < 64))
unfolding validate_key
validate_key_lem key = ground arith

pub code_validate_lem :
    (code : ℕ)
    → ((code_validate code ≡ ok tt) × (code < 2 ^ 26))
      ⊎ ((code_validate code ≡ err invalid_code) × (2 ^ 26 ≤ code))
unfolding code_validate
code_validate_lem code = ground arith
