-- ===== src/Codes/Text.antt =====
-- `epc_format_code` and `epc_parse_code`: the decimal text of a code.
use eos_payg.Base.{
  ℕ, ◌+◌, ◌-◌, ◌*◌, ◌/◌, ◌%◌, ◌<◌, ◌^◌, ◌≡◌, ◌⊎◌, inl, inr, none, some, List, [], ◌∷◌, length, All,
  arith, refl, Bool-cases, Option-cases, ◌==◌,
}
use eos_payg.Codes.{
  invalid_code, ok, err, Glib, IsDigit, value, format_08u, format_code, parse_code,
}
use eos_payg.Codes.Period.{code_validate_lem}

-- The eight digits of a number below 10 ^ 8, by repeated division.
abbrev pub digits_of : ℕ → List ℕ
digits_of n =
    (b'0' + n / 10 / 10 / 10 / 10 / 10 / 10 / 10 % 10)
    ∷ (b'0' + n / 10 / 10 / 10 / 10 / 10 / 10 % 10)
    ∷ (b'0' + n / 10 / 10 / 10 / 10 / 10 % 10)
    ∷ (b'0' + n / 10 / 10 / 10 / 10 % 10)
    ∷ (b'0' + n / 10 / 10 / 10 % 10)
    ∷ (b'0' + n / 10 / 10 % 10)
    ∷ (b'0' + n / 10 % 10)
    ∷ (b'0' + n % 10)
    ∷ []

format_08u_lem : (n : ℕ) → n < 10 ^ 8 → format_08u n ≡ digits_of n
unfolding format_08u
format_08u_lem n h =
    let done : n / 10 / 10 / 10 / 10 / 10 / 10 / 10 / 10 ≡ 0 = omega arith in ground (arith, done)

digit_back : (m : ℕ) → b'0' + m - b'0' ≡ m
digit_back m = omega arith

value-digits_of : (n : ℕ) → n < 10 ^ 8 → value (digits_of n) ≡ n
value-digits_of n h = simp digit_back (omega arith)

-- Appending a digit to `m`, and taking it off again.
last_digit : (m c : ℕ) → IsDigit c → b'0' + (m * 10 + (c - b'0')) % 10 ≡ c
last_digit m c d = omega arith

other_digits : (m c : ℕ) → IsDigit c → (m * 10 + (c - b'0')) / 10 ≡ m
other_digits m c d = omega arith

digits_of-value : (s : List ℕ) → length s ≡ 8 → All IsDigit s → digits_of (value s) ≡ s
digits_of-value (a ∷ b ∷ c ∷ d ∷ e ∷ f ∷ g ∷ h ∷ []) len
      (da, (db, (dc, (dd, (de, (df, (dg, (dh, _)))))))) =
    simp (
      other_digits _ h dh,
      other_digits _ g dg,
      other_digits _ f df,
      other_digits _ e de,
      other_digits _ d dd,
      other_digits _ c dc,
      other_digits _ b db,
      last_digit _ h dh,
      last_digit _ g dg,
      last_digit _ f df,
      last_digit _ e de,
      last_digit _ d dd,
      last_digit _ c dc,
      last_digit _ b db,
      last_digit _ a da,
    )
digits_of-value _ len digits = absurd (omega arith)

pub format_code_lem : (code : ℕ) → code < 2 ^ 26 → format_code code ≡ some (digits_of code)
unfolding format_code
format_code_lem code h = ground (arith, code_validate_lem code, format_08u_lem code)

-- The texts that `epc_parse_code` takes.
abbrev pub IsCodeText : List ℕ → Type 0
IsCodeText s = (length s ≡ 8) × All IsDigit s × (value s < 2 ^ 26)

module _ (G : Glib) where
  -- Epc_parse_code reads the text that epc_format_code prints back as the same code.
  pub parse_code-format_code :
      (code : ℕ) {s : List ℕ} → format_code code ≡ some s → parse_code G s ≡ ok code
  unfolding parse_code format_code
  parse_code-format_code code {s} h =
      let small : code < 2 ^ 26 = ground (arith, code_validate_lem code) in
      let text : s ≡ digits_of code = ground (arith, format_code_lem code small) in
      let read : G.string_to_unsigned (digits_of code) 0 (2 ^ 26 - 1) ≡ some code =
        (G.string_to_unsigned_iff (digits_of code) 0 (2 ^ 26 - 1) code).1 (
          omega arith,
          omega arith,
          value-digits_of code (omega arith),
          omega arith,
          omega arith,
        ) in
      rw (text, read) (ground (arith, code_validate_lem code))

  -- Epc_parse_code accepts exactly the texts of eight digits of value below 2 ^ 26, with that
  -- value, and refuses every other text as an invalid code.
  pub parse_code_lem :
      (s : List ℕ)
      → (IsCodeText s × (parse_code G s ≡ ok (value s)))
        ⊎ ((¬ IsCodeText s) × (parse_code G s ≡ err invalid_code))
  unfolding parse_code
  parse_code_lem s = elim (Bool-cases (length s == 8)) [
    | inr long ↦ inr (λ t. ground (arith, t.0), ground arith)
    | inl eight ↦ elim (Option-cases (G.string_to_unsigned s 0 (2 ^ 26 - 1))) [
      | inl refused ↦ inr (λ t. absurd (unread refused t), ground arith)
      | inr (v, read) ↦
          let (nonempty, digits, same, low, high) =
            (G.string_to_unsigned_iff s 0 (2 ^ 26 - 1) v).0 read in
          inl ((ground arith, digits, omega arith), ground (arith, code_validate_lem v))
    ]
  ]
    where
      unread : G.string_to_unsigned s 0 (2 ^ 26 - 1) ≡ none → ¬ IsCodeText s
      unread refused t =
          let read : G.string_to_unsigned s 0 (2 ^ 26 - 1) ≡ some (value s) =
            (G.string_to_unsigned_iff s 0 (2 ^ 26 - 1) (value s)).1
              (omega (arith, t.0), t.1, refl, omega arith, omega (arith, t.2)) in
          cc

  -- A text that epc_parse_code accepts is the text that epc_format_code prints for its code.
  pub format_code-parse_code :
      (s : List ℕ) {code : ℕ} → parse_code G s ≡ ok code → format_code code ≡ some s
  format_code-parse_code s {code} h =
      ground (arith, parse_code_lem s, digits_of-value s, format_code_lem code)
