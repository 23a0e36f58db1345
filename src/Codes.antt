-- ===== src/Codes.antt =====
-- libeos-payg-codes/codes.c: generation and verification of codes. A `GBytes` is the list of its
-- bytes, a `GError` the constructor of `EpcCodeError`, and a failed `g_assert` the result `abort`.
-- The sources use SHA-1 HMAC, `g_ascii_string_to_unsigned` and the other functions of GLib through
-- the record `Glib`, whose laws are what their documentation says.
pub mod Period
pub mod Calculate
pub mod Verify
pub mod Text
use eos_payg.Base.{
  ℕ, zero, suc, ◌+◌, ◌-◌, ◌*◌, ◌/◌, ◌%◌, ◌^◌, ◌≤◌, ◌<◌, bit_and, bit_or, ◌≡◌, ◌↔◌, Bool, true,
  false, not, ◌&&◌, ◌||◌, Option, none, some, List, [], ◌∷◌, ltb, leb, ◌==◌, if◌then◌else◌, length,
  get_or, All, replicate,
}

pub data EpcCodeError : Type 0 where
  invalid_period invalid_key invalid_code invalid_signature : EpcCodeError

-- What a function that sets a `GError` leaves: its value, the error, or a failed assertion.
pub data Result {ℓ} (A : Type ℓ) : Type ℓ where
  ok : A → Result A
  err : EpcCodeError → Result A
  abort : Result A

infixl 5 ◌>>=◌ ◌>>◌
abbrev pub ◌>>=◌ {ℓ κ} : {A : Type ℓ} {B : Type κ} → Result A → (A → Result B) → Result B
ok a >>= f = f a
err e >>= f = err e
abort >>= f = abort

abbrev pub ◌>>◌ {ℓ} : {B : Type ℓ} → Result (Unit {0}) → Result B → Result B
m >> k = m >>= λ _. k

abbrev pub ensure : Bool → EpcCodeError → Result (Unit {0})
ensure true e = ok tt
ensure false e = err e

-- `g_assert`.
abbrev pub assert : Bool → Result (Unit {0})
assert true = ok tt
assert false = abort

abbrev pub counter_width_bits : ℕ
counter_width_bits = 8

abbrev pub period_width_bits : ℕ
period_width_bits = 5

abbrev pub sign_width_bits : ℕ
sign_width_bits = 13

abbrev pub code_value_width_bits : ℕ
code_value_width_bits = counter_width_bits + period_width_bits + sign_width_bits

abbrev pub code_str_width_digits : ℕ
code_str_width_digits = 8

abbrev pub key_minimum_length_bytes : ℕ
key_minimum_length_bytes = 64

-- The enumerated values of `EpcPeriod`, in the order of the `switch` of `epc_period_validate`.
abbrev pub periods : List ℕ
periods =
    0 ∷ 1 ∷ 2 ∷ 23 ∷ 3 ∷ 24 ∷ 4 ∷ 5 ∷ 6 ∷ 7 ∷ 8 ∷ 9 ∷ 10 ∷ 11 ∷ 12 ∷ 13 ∷ 14 ∷ 15 ∷ 16 ∷ 17 ∷ 18
    ∷ 25 ∷ 19 ∷ 20 ∷ 21 ∷ 22 ∷ 31 ∷ []

-- Whether a `switch` that lists these values has a case for `v`.
unfoldable pub has_case : ℕ → List ℕ → Bool
has_case v [] = false
has_case v (c ∷ cs) = v == c || has_case v cs

unfoldable pub period_validate : ℕ → Result (Unit {0})
period_validate period =
    if has_case period periods
    then assert (ltb period (2 ^ period_width_bits))
    else err invalid_period

unfoldable pub validate_key : List ℕ → Result (Unit {0})
validate_key key = if ltb (length key) key_minimum_length_bytes then err invalid_key else ok tt

unfoldable pub code_validate : ℕ → Result (Unit {0})
code_validate code =
    if code / 2 ^ code_value_width_bits == 0 && ltb code (10 ^ code_str_width_digits)
    then ok tt
    else err invalid_code

abbrev pub is_ok {ℓ} : {A : Type ℓ} → Result A → Bool
is_ok (ok a) = true
is_ok (err e) = false
is_ok abort = false

-- The number that a list of ASCII digits spells, behind the digits of `n`.
abbrev pub value_from : ℕ → List ℕ → ℕ
value_from n [] = n
value_from n (c ∷ s) = value_from (n * 10 + (c - b'0')) s

abbrev pub value : List ℕ → ℕ
value s = value_from 0 s

abbrev pub IsDigit : ℕ → Type 0
IsDigit c = (b'0' ≤ c) × (c ≤ b'9')

-- The functions of GLib that the codes rest on.
-- `hmac_sha1 key message` is the digest that `g_hmac_new`, two calls of `g_hmac_update` and
-- `g_hmac_get_digest` leave: 20 bytes, a function of the key and of the bytes fed in.
-- `string_to_unsigned` is `g_ascii_string_to_unsigned` in base 10: it accepts exactly a non-empty
-- text of digits, with no sign and no space, whose value lies between the two bounds.
pub record Glib : Type 0 where
  pub hmac_sha1 : List ℕ → List ℕ → List ℕ
  pub string_to_unsigned : List ℕ → ℕ → ℕ → Option ℕ
  pub length-hmac_sha1 : (key message : List ℕ) → length (hmac_sha1 key message) ≡ 20
  pub hmac_sha1-bytes : (key message : List ℕ) → All (λ b. b < 256) (hmac_sha1 key message)
  pub string_to_unsigned_iff :
      (s : List ℕ) (low high v : ℕ)
      → (string_to_unsigned s low high ≡ some v)
        ↔ ((0 < length s) × All IsDigit s × (value s ≡ v) × (low ≤ v) × (v ≤ high))

-- `g_strdup_printf ("%08u", n)`, for the at most ten digits of a 32-bit number: the last digits
-- first, until none is left and eight are out.
unfoldable pub print_digits : ℕ → ℕ → ℕ → List ℕ → List ℕ
print_digits zero width n out = out
print_digits (suc fuel) width n out =
    let rest = print_digits fuel (width - 1) (n / 10) ((b'0' + n % 10) ∷ out) in
    if width == 0 && n == 0 then out else rest

unfoldable pub format_08u : ℕ → List ℕ
unfolding print_digits
format_08u n = print_digits 10 code_str_width_digits n []

-- `none` is the `NULL` of an invalid code, or the failed assertion on the length.
unfoldable pub format_code : ℕ → Option (List ℕ)
unfolding code_validate format_08u
format_code code =
    let code_str = format_08u code in
    if is_ok (code_validate code) && length code_str == code_str_width_digits
    then some code_str
    else none

-- The three fields of a code, in `guint32` arithmetic.
unfoldable pub code_value : ℕ → ℕ → ℕ → ℕ
code_value period counter sign =
    bit_or
      (bit_or (period * 2 ^ (counter_width_bits + sign_width_bits) % 2 ^ 32)
        (counter * 2 ^ sign_width_bits % 2 ^ 32))
      sign

-- What `epc_parse_code` does with the outcome of `g_ascii_string_to_unsigned`.
unfoldable pub parsed_code : Option ℕ → Result ℕ
parsed_code none = err invalid_code
parsed_code (some v) = do code_validate (v % 2 ^ 32); ok (v % 2 ^ 32)

module _ (G : Glib) where
  -- The signature: the last two bytes of the digest, as a big-endian word, cut to 13 bits.
  unfoldable pub sign_result : ℕ → ℕ → List ℕ → ℕ
  sign_result period counter key =
      let digest = G.hmac_sha1 key (period % 256 ∷ counter % 256 ∷ []) in
      bit_and (bit_or (get_or digest 18 0 * 2 ^ 8) (get_or digest 19 0)) (2 ^ sign_width_bits - 1)

  unfoldable pub calculate_code : ℕ → ℕ → List ℕ → Result ℕ
  calculate_code period counter key = do
    period_validate period
    validate_key key
    assert (period / 2 ^ period_width_bits == 0)
    assert (counter / 2 ^ counter_width_bits == 0)
    let digest = G.hmac_sha1 key (period % 256 ∷ counter % 256 ∷ [])
    assert (length digest == 20)
    let sign = sign_result period counter key
    assert (sign / 2 ^ sign_width_bits == 0)
    let code = code_value period counter sign
    assert (is_ok (code_validate code))
    ok code

  unfoldable pub verify_code : ℕ → List ℕ → Result (ℕ × ℕ)
  verify_code code key = do
    code_validate code
    validate_key key
    let period =
        bit_and (code / 2 ^ (counter_width_bits + sign_width_bits)) (2 ^ period_width_bits - 1)
    let counter = bit_and (code / 2 ^ sign_width_bits) (2 ^ counter_width_bits - 1)
    check_code ← calculate_code period counter key
    ensure (check_code == code) invalid_signature
    ok (period, counter)

  unfoldable pub parse_code : List ℕ → Result ℕ
  unfolding parsed_code
  parse_code code_str =
      if not (length code_str == code_str_width_digits)
      then err invalid_code
      else parsed_code (G.string_to_unsigned code_str 0 (2 ^ code_value_width_bits - 1))
