-- ===== src/Manager/UsedCodes.antt =====
-- The used codes: the search of `check_is_counter_unused`, and their form in the state file.
pub mod Replay
use eos_payg.Base.{
  ℕ, ◌+◌, ◌%◌, ◌≡◌, Bool, true, false, Option, none, some, List, [], ◌∷◌, ◌++◌, ◌==◌, ◌&&◌, ◌||◌,
  not, if◌then◌else◌,
}
use eos_payg.Codes.{is_ok, period_validate}
use eos_payg.Manager.{Manager, UsedCode, Runtime}

-- The loop leaves at the first entry with this counter and period.
unfoldable pub is_used : ℕ → ℕ → List UsedCode → Bool
is_used period counter [] = false
is_used period counter (u ∷ us) =
    (counter == u.counter && period == u.period) || is_used period counter us

unfoldable pub check_is_counter_unused : Manager → ℕ → ℕ → Bool
check_is_counter_unused m period counter = not (is_used period counter m.used_codes)

-- `UsedCode used_code = { counter, period }`, appended, and the array sorted.
unfoldable pub mark_used : Runtime → ℕ → ℕ → Manager → Manager
mark_used R period counter m =
    let u : UsedCode = record { counter = counter % 256; period = period % 256 } in
    record m { used_codes = R.array_sort (m.used_codes ++ (u ∷ [])) }

-- The array as the bytes of the used-codes file, and back.
unfoldable pub encode_used_codes : List UsedCode → List ℕ
encode_used_codes [] = []
encode_used_codes (u ∷ us) = u.counter ∷ u.period ∷ encode_used_codes us

unfoldable pub decode_used_codes : List ℕ → List UsedCode
decode_used_codes (c ∷ p ∷ bytes) = record { counter = c; period = p } ∷ decode_used_codes bytes
decode_used_codes _ = []

-- The loop of `file_load_cb` over the loaded entries.
unfoldable pub all_periods_valid : List UsedCode → Bool
all_periods_valid [] = true
all_periods_valid (u ∷ us) = is_ok (period_validate u.period) && all_periods_valid us
