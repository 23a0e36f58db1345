-- ===== src/Codes/Calculate.antt =====
-- What `epc_calculate_code` returns on every branch.
use eos_payg.Base.{
  ℕ, ◌+◌, ◌*◌, ◌%◌, ◌<◌, ◌^◌, bit_or, ◌≡◌, List, [], ◌∷◌, length, get_or, if◌then◌else◌, ltb, arith,
}
use eos_payg.Base.Bits.{bit_or-shifted, bit_and-mask_13}
use eos_payg.Codes.{
  invalid_period, invalid_key, ok, err, periods, has_case, Glib, sign_result, code_value,
  calculate_code,
}
use eos_payg.Codes.Period.{period_validate_lem, validate_key_lem, code_validate_lem}

-- The fields do not overlap: the code is their sum, and fits in 26 bits.
pub code_value_lem :
    (period counter sign : ℕ)
    → period < 32
    → counter < 256
    → sign < 2 ^ 13
    → code_value period counter sign ≡ period * 2 ^ 21 + counter * 2 ^ 13 + sign
unfolding code_value
code_value_lem period counter sign hp hc hs = ground (
  arith,
  bit_or-shifted 21 period (counter * 2 ^ 13) (omega arith),
  bit_or-shifted 13 (period * 256 + counter) sign hs,
)

module _ (G : Glib) where
  pub sign_result-lt :
      (period counter : ℕ) (key : List ℕ) → sign_result G period counter key < 2 ^ 13
  unfolding sign_result
  sign_result-lt period counter key = omega (
    arith,
    bit_and-mask_13 (
        bit_or (get_or (G.hmac_sha1 key (period % 256 ∷ counter % 256 ∷ [])) 18 0 * 2 ^ 8)
          (get_or (G.hmac_sha1 key (period % 256 ∷ counter % 256 ∷ [])) 19 0)),
  )

  -- For an 8-bit counter epc_calculate_code refuses, in this order, a period outside the
  -- enumeration and a key of less than 64 bytes, and otherwise returns period, counter and 13-bit
  -- signature side by side; it fails no assertion.
  pub calculate_code_lem :
      (period counter : ℕ) (key : List ℕ)
      → counter < 256
      → calculate_code G period counter key ≡ (
          if has_case period periods
          then if ltb (length key) 64
            then err invalid_key
            else ok (period * 2 ^ 21 + counter * 2 ^ 13 + sign_result G period counter key)
          else err invalid_period)
  unfolding calculate_code
  calculate_code_lem period counter key hc = ground (
    arith,
    period_validate_lem period,
    validate_key_lem key,
    G.length-hmac_sha1 key (period % 256 ∷ counter % 256 ∷ []),
    sign_result-lt period counter key,
    code_value_lem period counter (sign_result G period counter key),
    code_validate_lem (code_value period counter (sign_result G period counter key)),
  )
