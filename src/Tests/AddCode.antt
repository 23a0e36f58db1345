-- ===== src/Tests/AddCode.antt =====
-- `epg_manager_add_code` and what follows it on a manager that has seen no code.
use eos_payg.Base.Int.{pos}
use eos_payg.Manager.Keeps.{Keeps}
use eos_payg.Manager.AddCode.Jump.{wallclock_time_changed_lem}
use eos_payg.Base.{ℕ, ◌≤◌, ◌≡◌, refl, true, Option, none, some, List, [], ◌∷◌, arith}
use eos_payg.Codes.{
  calculate_code, verify_code, parse_code, sign_result, period_validate, validate_key,
  code_validate, has_case, code_value,
}
use eos_payg.Manager.{Manager, ManagerError, used_codes_sort_cb, code_already_used}
use eos_payg.Manager.RateLimit.{
  check_rate_limiting, clear_rate_limiting, window_start, n_attempts, push_attempt, end_time,
}
use eos_payg.Manager.UsedCodes.{is_used, check_is_counter_unused, mark_used, encode_used_codes}
use eos_payg.Manager.Save.{begin_save, save_state_async, bytes_of_uint64}
use eos_payg.Manager.Expiry.{
  extend_expiry_time, set_expiry_time, set_expiry_timer, clamped, expiry_time_set, find_span,
}
use eos_payg.Manager.AddCode.{
  AddResult, added, refused, add_verified, add_checked, add_parsed, add_limited, add_code,
  wallclock_time_changed,
}
use eos_payg.Manager.AddCode.Branches.{IsReady}
use eos_payg.Manager.AddCode.Outcome.{Outcome, add_code_lem}
use eos_payg.Manager.Trace.{Steps}
use eos_payg.Manager.Trace.Attempts.{single_use}
use eos_payg.Tests.Samples.{runtime, clock_at, fresh}

-- The code of period 5 and counter 3.
abbrev text : List ℕ
text = b'1' ∷ b'0' ∷ b'5' ∷ b'1' ∷ b'1' ∷ b'6' ∷ b'1' ∷ b'9' ∷ []

abbrev first : Option (Manager × AddResult)
unfolding add_code add_limited add_parsed add_checked add_verified check_rate_limiting
    clear_rate_limiting window_start n_attempts push_attempt end_time is_used
    check_is_counter_unused mark_used encode_used_codes begin_save save_state_async bytes_of_uint64
    extend_expiry_time set_expiry_time set_expiry_timer clamped expiry_time_set find_span
    calculate_code verify_code parse_code sign_result period_validate validate_key code_validate
    has_case code_value used_codes_sort_cb
first = add_code runtime (clock_at 3600) text fresh

-- The state behind an operation that did not abort.
abbrev state_of : Option (Manager × AddResult) → Manager
state_of none = fresh
state_of (some r) = r.0

abbrev after : Manager
after = state_of first

took : add_code runtime (clock_at 3600) text fresh ≡ some (after, added 172800)
unfolding add_code add_limited add_parsed add_checked add_verified check_rate_limiting
    clear_rate_limiting window_start n_attempts push_attempt end_time is_used
    check_is_counter_unused mark_used encode_used_codes begin_save save_state_async bytes_of_uint64
    extend_expiry_time set_expiry_time set_expiry_timer clamped expiry_time_set find_span
    calculate_code verify_code parse_code sign_result period_validate validate_key code_validate
    has_case code_value used_codes_sort_cb
took = refl

abbrev second : Option (Manager × AddResult)
unfolding add_code add_limited add_parsed add_checked add_verified check_rate_limiting
    clear_rate_limiting window_start n_attempts push_attempt end_time is_used
    check_is_counter_unused mark_used encode_used_codes begin_save save_state_async bytes_of_uint64
    extend_expiry_time set_expiry_time set_expiry_timer clamped expiry_time_set find_span
    calculate_code verify_code parse_code sign_result period_validate validate_key code_validate
    has_case code_value used_codes_sort_cb
second = add_code runtime (clock_at 7200) text after

abbrev after_second : Manager
after_second = state_of second

refused_again :
    add_code runtime (clock_at 7200) text after ≡ some (after_second, refused code_already_used)
unfolding add_code add_limited add_parsed add_checked add_verified check_rate_limiting
    clear_rate_limiting window_start n_attempts push_attempt end_time is_used
    check_is_counter_unused mark_used encode_used_codes begin_save save_state_async bytes_of_uint64
    extend_expiry_time set_expiry_time set_expiry_timer clamped expiry_time_set find_span
    calculate_code verify_code parse_code sign_result period_validate validate_key code_validate
    has_case code_value used_codes_sort_cb
refused_again = refl

first-IsReady : IsReady (clock_at 3600) fresh
first-IsReady = record {
  now_fits = omega arith;
  expiry_fits = omega arith;
  few_saves = omega arith;
}

second-IsReady : IsReady (clock_at 7200) after
unfolding first
second-IsReady = record {
  now_fits = omega arith;
  expiry_fits = omega arith;
  few_saves = omega arith;
}

add_code_lem_example :
    Outcome runtime (clock_at 3600) text fresh (add_code runtime (clock_at 3600) text fresh)
add_code_lem_example = add_code_lem runtime (clock_at 3600) text fresh first-IsReady

single_use_example :
    ((e : ManagerError) × (◌≡◌ {A = AddResult} (refused code_already_used) (refused e)))
    × (after_second.expiry_time_secs ≡ after.expiry_time_secs)
unfolding first
single_use_example =
    single_use runtime (clock_at 3600) (clock_at 7200) text fresh after after after_second 172800
      (refused code_already_used) first-IsReady took (Steps.done after) second-IsReady refused_again

-- The wall clock jumps by an hour, two hours after boot.
wallclock_time_changed_lem_example :
    (m' : Manager) × (wallclock_time_changed runtime (clock_at 7200) (pos 3600) after ≡ some m')
    × (m'.expiry_time_secs ≤ 176400)
    × ((true ≡ true) → m'.expiry_time_secs ≡ 172800)
    × (m'.pending_internal_save_state_calls ≡ 2)
    × Keeps after m'
unfolding first
wallclock_time_changed_lem_example =
    wallclock_time_changed_lem runtime (clock_at 7200) 3600 after second-IsReady (omega arith)
