-- ===== src/Tests/Codes.antt =====
-- The codes on concrete inputs: period 5 (two days), counter 3, and a key of 64 bytes.
use eos_payg.Base.{ℕ, ◌<◌, ◌≡◌, ◌⊎◌, refl, true, false, some, List, [], ◌∷◌, replicate, arith}
use eos_payg.Codes.{
  invalid_period, invalid_signature, ok, err, periods, has_case, period_validate, validate_key,
  code_validate, code_value, sign_result, calculate_code, verify_code, format_code, parse_code,
}
use eos_payg.Codes.Period.{period_validate_lem}
use eos_payg.Codes.Verify.{verify_code-calculate_code, calculate_code-verify_code}
use eos_payg.Codes.Text.{parse_code-format_code}
use eos_payg.Tests.Samples.{glib}

abbrev key : List ℕ
key = replicate 64 7

-- 5 * 2 ^ 21 + 3 * 2 ^ 13 + 1283.
abbrev code : ℕ
code = 10511619

abbrev text : List ℕ
text = b'1' ∷ b'0' ∷ b'5' ∷ b'1' ∷ b'1' ∷ b'6' ∷ b'1' ∷ b'9' ∷ []

calculated : calculate_code glib 5 3 key ≡ ok code
unfolding calculate_code period_validate has_case validate_key sign_result code_validate code_value
calculated = refl

verified : verify_code glib code key ≡ ok (5, 3)
unfolding verify_code code_validate validate_key calculate_code period_validate has_case sign_result
    code_value
verified = refl

formatted : format_code code ≡ some text
unfolding format_code
formatted = refl

parsed : parse_code glib text ≡ ok code
unfolding parse_code code_validate
parsed = refl

forged : verify_code glib 10511618 key ≡ err invalid_signature
unfolding verify_code code_validate validate_key calculate_code period_validate has_case sign_result
    code_value
forged = refl

verify_code-calculate_code_example : verify_code glib code key ≡ ok (5, 3)
verify_code-calculate_code_example =
    verify_code-calculate_code glib 5 3 key (omega arith) calculated

calculate_code-verify_code_example :
    (calculate_code glib 5 3 key ≡ ok code) × (has_case 5 periods ≡ true) × (3 < 256)
calculate_code-verify_code_example = calculate_code-verify_code glib code key verified

parse_code-format_code_example : parse_code glib text ≡ ok code
parse_code-format_code_example = parse_code-format_code glib code formatted

period_validate_lem_example :
    ((period_validate 25 ≡ ok tt) × (has_case 25 periods ≡ true) × (25 < 32))
    ⊎ ((period_validate 25 ≡ err invalid_period) × (has_case 25 periods ≡ false))
period_validate_lem_example = period_validate_lem 25
