-- ===== src/Codes/Verify.antt =====
-- `epc_verify_code` against `epc_calculate_code`.
use eos_payg.Base.{
  ℕ, ◌+◌, ◌*◌, ◌/◌, ◌%◌, ◌<◌, ◌^◌, ◌≡◌, true, List, length, if◌then◌else◌, ltb, arith, ◌==◌,
}
use eos_payg.Base.Bits.{bit_and-mask_5, bit_and-mask_8}
use eos_payg.Codes.{
  invalid_period, invalid_key, invalid_code, invalid_signature, ok, err, periods, has_case, Glib,
  sign_result, calculate_code, verify_code,
}
use eos_payg.Codes.Period.{period_validate_lem, validate_key_lem, code_validate_lem}
use eos_payg.Codes.Calculate.{sign_result-lt, calculate_code_lem}

-- The fields that `epc_verify_code` extracts from a code.
abbrev pub period_of : ℕ → ℕ
period_of code = code / 2 ^ 21 % 32

abbrev pub counter_of : ℕ → ℕ
counter_of code = code / 2 ^ 13 % 256

module _ (G : Glib) where
  -- Epc_verify_code refuses, in this order, a code of more than 26 bits, a key of less than 64
  -- bytes, a period outside the enumeration and a wrong signature, and otherwise returns the
  -- period and counter fields; it fails no assertion.
  pub verify_code_lem :
      (code : ℕ) (key : List ℕ)
      → let p = period_of code in
        let c = counter_of code in
        verify_code G code key ≡ (
          if ltb code (2 ^ 26)
          then if ltb (length key) 64
            then err invalid_key
            else if has_case p periods
            then if sign_result G p c key == code % 2 ^ 13 then ok (p, c) else err invalid_signature
            else err invalid_period
          else err invalid_code)
  unfolding verify_code
  verify_code_lem code key = ground (
    arith,
    code_validate_lem code,
    validate_key_lem key,
    bit_and-mask_5 (code / 2 ^ 21),
    bit_and-mask_8 (code / 2 ^ 13),
    calculate_code_lem G (period_of code) (counter_of code) key (omega arith),
    sign_result-lt G (period_of code) (counter_of code) key,
  )

  fields :
      (period counter : ℕ) (key : List ℕ) {code : ℕ}
      → counter < 256
      → calculate_code G period counter key ≡ ok code
      → (code < 2 ^ 26)
        × (period_of code ≡ period)
        × (counter_of code ≡ counter)
        × (code % 2 ^ 13 ≡ sign_result G period counter key)
  fields period counter key {code} hc made =
      let sum : (period < 32)
          × (code ≡ period * 2 ^ 21 + counter * 2 ^ 13 + sign_result G period counter key) =
        ground (arith, period_validate_lem period, calculate_code_lem G period counter key hc) in
      omega (arith, sum, sign_result-lt G period counter key)

  -- A code that epc_calculate_code made for an 8-bit counter is accepted by epc_verify_code under
  -- the same key, with its period and counter.
  pub verify_code-calculate_code :
      (period counter : ℕ) (key : List ℕ) {code : ℕ}
      → counter < 256
      → calculate_code G period counter key ≡ ok code
      → verify_code G code key ≡ ok (period, counter)
  verify_code-calculate_code period counter key {code} hc made =
      let (a, b, c, d) = fields period counter key hc made in
      ground (
        arith,
        a,
        b,
        c,
        d,
        period_validate_lem period,
        verify_code_lem code key,
        calculate_code_lem G period counter key hc,
        sign_result-lt G period counter key,
      )

  -- What epc_verify_code accepts is the code that epc_calculate_code makes for the returned period
  -- and counter; the period is one of the enumeration, and the counter fits in 8 bits.
  pub calculate_code-verify_code :
      (code : ℕ) (key : List ℕ) {period counter : ℕ}
      → verify_code G code key ≡ ok (period, counter)
      → (calculate_code G period counter key ≡ ok code)
        × (has_case period periods ≡ true)
        × (counter < 256)
  calculate_code-verify_code code key {period} {counter} h = ground (
    arith,
    verify_code_lem code key,
    calculate_code_lem G (period_of code) (counter_of code) key,
    sign_result-lt G (period_of code) (counter_of code) key,
  )
