-- ===== src/Generate/Loop.antt =====
-- The loop of `main`: what it prints for a range of counters.
use eos_payg.Base.{
  ℕ, zero, suc, ◌+◌, ◌-◌, ◌*◌, ◌≤◌, ◌<◌, ◌^◌, ◌≡◌, refl, inl, inr, true, none, some, List, [], ◌∷◌,
  leb, length, arith, Bool-cases,
}
use eos_payg.Codes.{
  invalid_key, Result, ok, ◌>>=◌, periods, has_case, Glib, sign_result, calculate_code, format_code,
  parse_code, verify_code,
}
use eos_payg.Codes.Calculate.{calculate_code_lem, sign_result-lt}
use eos_payg.Codes.Verify.{verify_code-calculate_code}
use eos_payg.Codes.Text.{parse_code-format_code, format_code_lem}
use eos_payg.Codes.Period.{has_case-periods-lt}
use eos_payg.Generate.{exit_ok, exit_failed, code_error, Exit, exit_with, generate}

abbrev pub success : List (List ℕ) → Exit
success lines = record { status = exit_ok; printed = lines; error = none }

-- What a manager does with a text and its key: reading the code, and checking it.
abbrev pub entered : Glib → List ℕ → List ℕ → Result (ℕ × ℕ)
entered G key s = parse_code G s >>= λ code. verify_code G code key

-- The lines are texts that carry the period and the counters from the given one on.
abbrev pub IsPrinted : Glib → ℕ → List ℕ → ℕ → List (List ℕ) → Type 0
IsPrinted G period key counter [] = Unit
IsPrinted G period key counter (s ∷ lines) =
    (entered G key s ≡ ok (period, counter)) × IsPrinted G period key (counter + 1) lines

module _ (G : Glib) where
  line :
      (period counter : ℕ) (key : List ℕ)
      → has_case period periods ≡ true
      → 64 ≤ length key
      → counter < 256
      → (code : ℕ) × (s : List ℕ) × (calculate_code G period counter key ≡ ok code)
        × (format_code code ≡ some s)
        × (entered G key s ≡ ok (period, counter))
  line period counter key valid long low =
      let code : ℕ = period * 2 ^ 21 + counter * 2 ^ 13 + sign_result G period counter key in
      let made : calculate_code G period counter key ≡ ok code =
        ground (arith, calculate_code_lem G period counter key low) in
      let small : code < 2 ^ 26 =
        omega (arith, sign_result-lt G period counter key, has_case-periods-lt period valid) in
      let printed = format_code_lem code small in
      let back : parse_code G _ ≡ ok code = parse_code-format_code G code printed in
      let seen = verify_code-calculate_code G period counter key low made in
      (code, _, made, printed, rw (back) seen)

  pub generate_lem :
      (fuel period counter max_counter : ℕ) (key : List ℕ)
      → has_case period periods ≡ true
      → 64 ≤ length key
      → max_counter < 256
      → counter ≤ max_counter + 1
      → max_counter + 1 < counter + fuel
      → (lines : List (List ℕ)) × (generate G fuel period key counter max_counter
          ≡ some (success lines))
        × (length lines ≡ max_counter + 1 - counter)
        × IsPrinted G period key counter lines
  unfolding generate
  generate_lem zero period counter max_counter key valid long low before enough =
      absurd (omega arith)
  generate_lem (suc fuel) period counter max_counter key valid long low before enough =
      elim (Bool-cases (leb counter max_counter)) [
        | inl more ↦
            let (code, s, made, printed, seen) =
              line period counter key valid long (ground arith) in
            let (lines, rest, len, good) =
              generate_lem fuel period (counter + 1) max_counter key valid long low (ground arith)
                (omega arith) in
            (s ∷ lines, rw (more, made, printed, rest) refl, ground (arith, len), (seen, good))
        | inr done ↦ ([], rw (done) refl, ground arith, tt)
      ]

  -- A key that is too short stops the loop at its first code.
  pub generate-short_key :
      (fuel period counter max_counter : ℕ) (key : List ℕ)
      → has_case period periods ≡ true
      → length key < 64
      → counter < 256
      → counter ≤ max_counter
      → generate G (suc fuel) period key counter max_counter
        ≡ some (exit_with exit_failed (code_error invalid_key))
  unfolding generate
  generate-short_key fuel period counter max_counter key valid short low more =
      ground (arith, calculate_code_lem G period counter key low)
