-- ===== src/Generate.antt =====
-- eos-payg-generate/main.c: the tool that prints the codes of a key and a period. What the command
-- line holds comes from `g_option_context_parse`, and the key from `g_file_load_contents`.
pub mod Periods
pub mod Loop
pub mod Printed
use eos_payg.Base.{
  ℕ, zero, suc, ◌+◌, ◌≡◌, Bool, true, false, Option, none, some, List, [], ◌∷◌, ◌++◌, map, leb,
  if◌then◌else◌,
}
use eos_payg.Base.Strings.{bytes, str_equal}
use eos_payg.Codes.{
  EpcCodeError, invalid_period, Result, ok, err, abort, Glib, calculate_code, format_code,
}

pub data ExitStatus : Type 0 where
  exit_ok exit_invalid_options exit_failed : ExitStatus

pub record PeriodEntry : Type 0 where
  pub period : ℕ
  pub period_str : List ℕ
  pub description : List ℕ

abbrev pub entry : ℕ → List ℕ → List ℕ → PeriodEntry
entry p s d = record { period = p; period_str = s; description = d }

abbrev pub table : List PeriodEntry
table =
    entry 0 (bytes "5s") (bytes "5 seconds")
    ∷ entry 1 (bytes "1m") (bytes "1 minute")
    ∷ entry 2 (bytes "5m") (bytes "5 minutes")
    ∷ entry 23 (bytes "30m") (bytes "30 minutes")
    ∷ entry 3 (bytes "1h") (bytes "1 hour")
    ∷ entry 24 (bytes "8h") (bytes "8 hours")
    ∷ entry 4 (bytes "1d") (bytes "1 day")
    ∷ entry 5 (bytes "2d") (bytes "2 days")
    ∷ entry 6 (bytes "3d") (bytes "3 days")
    ∷ entry 7 (bytes "4d") (bytes "4 days")
    ∷ entry 8 (bytes "5d") (bytes "5 days")
    ∷ entry 9 (bytes "6d") (bytes "6 days")
    ∷ entry 10 (bytes "7d") (bytes "7 days")
    ∷ entry 11 (bytes "8d") (bytes "8 days")
    ∷ entry 12 (bytes "9d") (bytes "9 days")
    ∷ entry 13 (bytes "10d") (bytes "10 days")
    ∷ entry 14 (bytes "11d") (bytes "11 days")
    ∷ entry 15 (bytes "12d") (bytes "12 days")
    ∷ entry 16 (bytes "13d") (bytes "13 days")
    ∷ entry 17 (bytes "14d") (bytes "14 days")
    ∷ entry 18 (bytes "30d") (bytes "30 days")
    ∷ entry 25 (bytes "31d") (bytes "31 days")
    ∷ entry 19 (bytes "60d") (bytes "60 days")
    ∷ entry 20 (bytes "90d") (bytes "90 days")
    ∷ entry 21 (bytes "120d") (bytes "120 days")
    ∷ entry 22 (bytes "365d") (bytes "365 days")
    ∷ entry 31 (bytes "infinite") (bytes "Infinite")
    ∷ []

unfoldable pub find_period : List ℕ → List PeriodEntry → Result ℕ
find_period period_str [] = err invalid_period
find_period period_str (e ∷ es) =
    let rest = find_period period_str es in
    if str_equal period_str e.period_str then ok e.period else rest

unfoldable pub parse_period : List ℕ → Result ℕ
unfolding find_period
parse_period period_str = find_period period_str table

-- What a run writes to its standard error.
pub data Message : Type 0 where
  option_parsing_failed required_missing too_many_arguments : Message
  code_error : EpcCodeError → Message
  key_not_loaded counter_not_parsed : Message

pub record Exit : Type 0 where
  pub status : ExitStatus
  pub printed : List (List ℕ)
  pub error : Option Message

abbrev pub exit_with : ExitStatus → Message → Exit
exit_with s e = record { status = s; printed = []; error = some e }

-- What `g_option_context_parse` leaves in `quiet`, `list_periods` and `args`; an `args` of `NULL`
-- has no argument.
pub record Options : Type 0 where
  pub quiet : Bool
  pub list_periods : Bool
  pub args : List (List ℕ)

abbrev pub epc_maxcounter : ℕ
epc_maxcounter = 255

-- The line of a period: the bullet and the dash are three bytes each.
abbrev pub period_line : Bool → PeriodEntry → List ℕ
period_line true e = e.period_str
period_line false e =
    (32 ∷ 226 ∷ 128 ∷ 162 ∷ 32 ∷ [])
    ++ e.period_str
    ++ (32 ∷ 226 ∷ 128 ∷ 148 ∷ 32 ∷ [])
    ++ e.description

unfoldable pub listing : Bool → Exit
listing quiet = record {
  status = exit_ok;
  printed =
      (if quiet then [] else bytes "Available periods:" ∷ []) ++ map (period_line quiet) table;
  error = none;
}

abbrev print_line : List ℕ → Option Exit → Option Exit
print_line line none = none
print_line line (some e) = some (record e { printed = line ∷ e.printed })

-- `g_print` of the code, and the rest of the loop.
abbrev print_code : Option (List ℕ) → Option Exit → Option Exit
print_code none rest = none
print_code (some code_str) rest = print_line code_str rest

abbrev pass : Result ℕ → Option Exit → Option Exit
pass (ok code) rest = print_code (format_code code) rest
pass (err e) rest = some (exit_with exit_failed (code_error e))
pass abort rest = none

module _ (G : Glib) where
  -- The loop over the counters. `none` is a failed assertion, or no fuel.
  unfoldable pub generate : ℕ → ℕ → List ℕ → ℕ → ℕ → Option Exit
  generate zero period key counter max_counter = none
  generate (suc fuel) period key counter max_counter =
      let rest = generate fuel period key (counter + 1) max_counter in
      if leb counter max_counter
      then pass (calculate_code G period counter key) rest
      else some (record { status = exit_ok; printed = []; error = none })

  unfoldable pub generate_all : ℕ → List ℕ → ℕ → ℕ → Option Exit
  generate_all period key min_counter max_counter =
      generate (epc_maxcounter + 2) period key min_counter max_counter

  -- The counters to print, and the loop.
  abbrev counted : ℕ → List ℕ → Option ℕ → Option Exit
  counted period key none = some (exit_with exit_invalid_options counter_not_parsed)
  counted period key (some counter) = generate_all period key counter counter

  unfoldable pub with_key : ℕ → Option (List ℕ) → Option (List ℕ) → Option Exit
  with_key period counter_str none = some (exit_with exit_invalid_options key_not_loaded)
  with_key period none (some key) = generate_all period key 0 epc_maxcounter
  with_key period (some counter_str) (some key) =
      counted period key (G.string_to_unsigned counter_str 0 epc_maxcounter)

  -- `load_contents` is `g_file_load_contents`, from a file's name to its bytes.
  module _ (load_contents : List ℕ → Option (List ℕ)) where
    abbrev with_period : List ℕ → Option (List ℕ) → Result ℕ → Option Exit
    with_period key_filename counter_str (ok period) =
        with_key period counter_str (load_contents key_filename)
    with_period key_filename counter_str (err e) =
        some (exit_with exit_invalid_options (code_error e))
    with_period key_filename counter_str abort = none

    unfoldable pub with_args : List (List ℕ) → Option Exit
    with_args (file ∷ period_str ∷ []) = with_period file none (parse_period period_str)
    with_args (file ∷ period_str ∷ counter_str ∷ []) =
        with_period file (some counter_str) (parse_period period_str)
    with_args (file ∷ period_str ∷ counter_str ∷ more ∷ rest) =
        some (exit_with exit_invalid_options too_many_arguments)
    with_args args = some (exit_with exit_invalid_options required_missing)

    -- `none` is a command line that `g_option_context_parse` refuses.
    unfoldable pub main : Option Options → Option Exit
    main none = some (exit_with exit_invalid_options option_parsing_failed)
    main (some o) =
        let run = with_args o.args in if o.list_periods then some (listing o.quiet) else run
