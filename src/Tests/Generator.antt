-- ===== src/Tests/Generator.antt =====
-- The generator on concrete inputs: the period of two days, and a key of 64 bytes.
use eos_payg.Base.{
  ℕ, ◌+◌, ◌-◌, ◌≡◌, ◌↔◌, refl, true, false, Option, some, List, [], ◌∷◌, length, replicate, ◌==◌,
  if◌then◌else◌, arith,
}
use eos_payg.Base.Strings.{bytes, str_equal}
use eos_payg.Codes.{
  ok, err, invalid_key, invalid_period, periods, has_case, period_validate, validate_key,
  calculate_code,
}
use eos_payg.Generate.{
  Options, exit_failed, exit_invalid_options, exit_with, code_error, counter_not_parsed,
  parse_period, main, generate, generate_all, with_args, with_key,
}
use eos_payg.Generate.Periods.{parse_period_iff}
use eos_payg.Generate.Loop.{success, IsPrinted}
use eos_payg.Generate.Printed.{one_counter, main_prints}
use eos_payg.Tests.Samples.{glib}

abbrev key : List ℕ
key = replicate 64 7

-- A file system whose files with names of three letters hold the key, and all others nothing.
abbrev key_of : List ℕ → Option (List ℕ)
key_of name = if length name == 3 then some key else some []

abbrev key_file : List ℕ
key_file = bytes "key"

abbrev options : List (List ℕ) → Options
options args = record { quiet = false; list_periods = false; args = args }

named : parse_period (bytes "2d") ≡ ok 5
unfolding parse_period str_equal
named = refl

unnamed : parse_period (bytes "2w") ≡ err invalid_period
unfolding parse_period str_equal
unnamed = refl

short_key :
    main glib key_of (some (options (bytes "other" ∷ bytes "2d" ∷ [])))
    ≡ some (exit_with exit_failed (code_error invalid_key))
unfolding main with_args with_key generate_all generate parse_period str_equal calculate_code
    period_validate has_case validate_key
short_key = refl

counter_too_large :
    main glib key_of (some (options (key_file ∷ bytes "2d" ∷ bytes "256" ∷ [])))
    ≡ some (exit_with exit_invalid_options counter_not_parsed)
unfolding main with_args with_key parse_period str_equal
counter_too_large = refl

parse_period_iff_example :
    (has_case 25 periods ≡ true)
    ↔ ((s : List ℕ) × (parse_period s ≡ ok 25) × ((t : List ℕ) → parse_period t ≡ ok 25 → t ≡ s))
parse_period_iff_example = parse_period_iff 25

main_prints_example :
    (lines : List (List ℕ)) × (main glib key_of
        (some (options (key_file ∷ bytes "2d" ∷ bytes "17" ∷ [])))
      ≡ some (success lines))
    × (length lines ≡ 17 + 1 - 17)
    × IsPrinted glib 5 key 17 lines
main_prints_example =
    main_prints glib key_of key_file (bytes "2d") (bytes "17" ∷ []) false
      (one_counter (bytes "17") (omega arith) (omega arith) (omega arith)) named refl (omega arith)
