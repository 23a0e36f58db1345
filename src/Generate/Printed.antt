-- ===== src/Generate/Printed.antt =====
-- Whole runs of eos-payg-generate.
use eos_payg.Base.{
  ℕ, ◌+◌, ◌-◌, ◌≤◌, ◌<◌, ◌≡◌, refl, ◌⊎◌, inl, inr, Bool, true, false, Option, none, some, List, [],
  ◌∷◌, length, All, ltb, arith, Bool-cases, Option-cases,
}
use eos_payg.Codes.{invalid_key, ok, Glib, IsDigit, value, periods, has_case}
use eos_payg.Generate.{
  exit_invalid_options, exit_failed, Message, code_error, Exit, exit_with, Options, parse_period,
  generate_all, with_key, with_args, listing, main,
}
use eos_payg.Generate.Periods.{parse_period_lem, parse_period-periods}
use eos_payg.Generate.Loop.{success, IsPrinted, generate_lem, generate-short_key}

-- The counters that the third argument asks for: the first and the last.
pub data Counters : List (List ℕ) → ℕ → ℕ → Type 0 where
  every_counter : Counters [] 0 255
  one_counter :
      (s : List ℕ)
      → 0 < length s
      → All IsDigit s
      → value s < 256
      → Counters (s ∷ []) (value s) (value s)

-- What is known of a run: it returns, with a message exactly if it failed, and it fails in the loop
-- only at the first code, for a key that is too short.
abbrev pub IsAnswer : Option Exit → Type 0
IsAnswer r =
    (e : Exit) × (r ≡ some e)
    × ((e ≡ success e.printed)
        ⊎ (((m : Message) × (e ≡ exit_with exit_invalid_options m))
            ⊎ (e ≡ exit_with exit_failed (code_error invalid_key))))

module _ (G : Glib) where
  generate_all-IsAnswer :
      (period lo hi : ℕ) (key : List ℕ)
      → has_case period periods ≡ true
      → lo ≤ hi
      → hi < 256
      → IsAnswer (generate_all G period key lo hi)
  unfolding generate_all
  generate_all-IsAnswer period lo hi key valid some_left low =
      elim (Bool-cases (ltb (length key) 64)) [
        | inl short ↦ (
          _,
          generate-short_key G 256 period lo hi key valid (ground arith) (omega arith) some_left,
          inr (inr refl),
        )
        | inr long ↦
            let (lines, made, len, good) =
              generate_lem G 257 period lo hi key valid (ground arith) low (omega arith)
                (omega arith) in
            (success lines, made, inl refl)
      ]

  string_to_unsigned-le : (s : List ℕ) {v : ℕ} → G.string_to_unsigned s 0 255 ≡ some v → v < 256
  string_to_unsigned-le s {v} h = omega (arith, (G.string_to_unsigned_iff s 0 255 v).0 h)

  with_key-IsAnswer :
      (period : ℕ) (c k : Option (List ℕ))
      → has_case period periods ≡ true
      → IsAnswer (with_key G period c k)
  unfolding with_key
  with_key-IsAnswer period c none valid = (_, refl, inr (inl (_, refl)))
  with_key-IsAnswer period none (some key) valid =
      generate_all-IsAnswer period 0 255 key valid (omega arith) (omega arith)
  with_key-IsAnswer period (some s) (some key) valid =
      elim (Option-cases (G.string_to_unsigned s 0 255)) [
        | inl bad ↦ rw (bad) (_, refl, inr (inl (_, refl)))
        | inr (v, good) ↦ rw (good) (
            generate_all-IsAnswer period v v key valid (omega arith) (string_to_unsigned-le s good))
      ]

  module _ (load_contents : List ℕ → Option (List ℕ)) where
    with_args-IsAnswer : (args : List (List ℕ)) → IsAnswer (with_args G load_contents args)
    unfolding with_args
    with_args-IsAnswer [] = (_, refl, inr (inl (_, refl)))
    with_args-IsAnswer (f ∷ []) = (_, refl, inr (inl (_, refl)))
    with_args-IsAnswer (f ∷ s ∷ []) = elim (parse_period_lem s) [
      | inl (p, good) ↦
          rw (good) (with_key-IsAnswer p none (load_contents f) (parse_period-periods s good))
      | inr bad ↦ rw (bad) (_, refl, inr (inl (_, refl)))
    ]
    with_args-IsAnswer (f ∷ s ∷ c ∷ []) = elim (parse_period_lem s) [
      | inl (p, good) ↦
          rw (good) (with_key-IsAnswer p (some c) (load_contents f) (parse_period-periods s good))
      | inr bad ↦ rw (bad) (_, refl, inr (inl (_, refl)))
    ]
    with_args-IsAnswer (f ∷ s ∷ c ∷ more ∷ rest) = (_, refl, inr (inl (_, refl)))

    -- Eos-payg-generate ends on every command line, whatever the key file holds, and fails no
    -- assertion: it ends with success and no message, or with invalid options and a message and
    -- nothing printed, or fails with the message that the key is too short and nothing printed.
    main-IsAnswer : (o : Option Options) → IsAnswer (main G load_contents o)
    unfolding main listing
    main-IsAnswer none = (_, refl, inr (inl (_, refl)))
    main-IsAnswer (some o) = elim (Bool-cases o.list_periods) [
      | inl list ↦ rw (list) (_, refl, inl refl)
      | inr run ↦ rw (run) (with_args-IsAnswer o.args)
    ]

    -- For the name of a period, a key file of at least 64 bytes and either no counter or a counter
    -- of digits below 256, eos-payg-generate ends with success after printing one line to each
    -- counter asked for, in their order; each line is a text that epc_parse_code and
    -- epc_verify_code accept under the key, with the period and that counter.
    pub main_prints :
        (file s : List ℕ) (rest : List (List ℕ)) (quiet : Bool) {lo hi period : ℕ} {key : List ℕ}
        → Counters rest lo hi
        → parse_period s ≡ ok period
        → load_contents file ≡ some key
        → 64 ≤ length key
        → (lines : List (List ℕ)) × (main G load_contents
              (some (record { quiet = quiet; list_periods = false; args = file ∷ s ∷ rest }))
            ≡ some (success lines))
          × (length lines ≡ hi + 1 - lo)
          × IsPrinted G period key lo lines
    unfolding main with_args with_key generate_all
    main_prints file s [] quiet {period = period} {key = key} every_counter named loaded long =
        let (lines, made, count, good) =
          generate_lem G 257 period 0 255 key (parse_period-periods s named) long (omega arith)
            (omega arith) (omega arith) in
        (lines, rw (named, loaded) made, count, good)
    main_prints file s _ quiet {period = period} {key = key} (one_counter c some_digit digits small)
          named loaded long =
        let v : ℕ = value c in
        let read : G.string_to_unsigned c 0 255 ≡ some v =
          (G.string_to_unsigned_iff c 0 255 v).1
            (some_digit, digits, refl, omega arith, omega arith) in
        let (lines, made, count, good) =
          generate_lem G 257 period v v key (parse_period-periods s named) long small (omega arith)
            (omega arith) in
        (lines, rw (named, loaded, read) made, count, good)
