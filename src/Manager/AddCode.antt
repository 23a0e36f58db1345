-- ===== src/Manager/AddCode.antt =====
-- `epg_manager_add_code`, `epg_manager_clear_code`, `epg_manager_wallclock_time_changed`, and the
-- properties that they change.
pub mod Branches
pub mod Outcome
pub mod Jump
use eos_payg.Base.{
  ℕ, ◌+◌, ◌-◌, ◌*◌, ◌^◌, ◌≡◌, Bool, true, false, not, Option, none, some, List, [], ◌∷◌, ltb, leb,
  ◌==◌, if◌then◌else◌,
}
use eos_payg.Base.Int.{ℤ, pos, negsuc}
use eos_payg.Codes.{Result, ok, err, abort, parse_code, verify_code}
use eos_payg.Manager.{
  Manager, Runtime, Clock, ManagerError, invalid_code, code_already_used, too_many_attempts,
  disabled, cancelled, emit, notify_expiry_time, ◌>>=◌,
}
use eos_payg.Manager.RateLimit.{check_rate_limiting, clear_rate_limiting}
use eos_payg.Manager.UsedCodes.{check_is_counter_unused, mark_used}
use eos_payg.Manager.Expiry.{extend_expiry_time, set_expiry_time, clear_expiry_timer}
use eos_payg.Manager.Save.{begin_save}

-- `added` carries `*time_added`.
pub data AddResult : Type 0 where
  added : ℕ → AddResult
  refused : ManagerError → AddResult

module _ (R : Runtime) (c : Clock) where
  -- From "Check the counter hasn’t been used before" on.
  unfoldable pub add_verified : ℕ → ℕ → Manager → Option (Manager × AddResult)
  add_verified period counter m =
      if check_is_counter_unused m period counter
      then (do
        r ← extend_expiry_time R c c.time period (mark_used R period counter m)
        m' ← begin_save c (clear_rate_limiting r.0)
        some (m', added r.1))
      else some (m, refused code_already_used)

  -- What `epc_verify_code` gives decides how it goes on.
  unfoldable pub add_checked : Result (ℕ × ℕ) → Manager → Option (Manager × AddResult)
  add_checked (ok (period, counter)) m = add_verified period counter m
  add_checked (err e) m = some (m, refused invalid_code)
  add_checked abort m = none

  -- What `epc_parse_code` gives decides how it goes on.
  unfoldable pub add_parsed : Result ℕ → Manager → Option (Manager × AddResult)
  unfolding add_checked
  add_parsed (ok code) m = add_checked (verify_code R.glib code m.key_bytes) m
  add_parsed (err e) m = some (m, refused invalid_code)
  add_parsed abort m = none

  -- What `check_rate_limiting` gives decides how it goes on.
  unfoldable pub add_limited : Manager → Bool → List ℕ → Option (Manager × AddResult)
  unfolding add_parsed
  add_limited m false code_str = some (m, refused too_many_attempts)
  add_limited m true code_str =
      if m.is_cancelled
      then some (m, refused cancelled)
      else add_parsed (parse_code R.glib code_str) m

  unfoldable pub add_code : List ℕ → Manager → Option (Manager × AddResult)
  unfolding add_limited
  add_code code_str m =
      if m.enabled
      then (let (m', allowed) = check_rate_limiting m c.time in add_limited m' allowed code_str)
      else some (m, refused disabled)

-- The option beside the state is the error.
unfoldable pub clear_code : Clock → Manager → Option (Manager × Option ManagerError)
clear_code c m =
    if not m.enabled
    then some (m, some disabled)
    else if m.is_cancelled
    then some (m, some cancelled)
    else do
      let m' =
          (if m.expiry_time_secs == 0
            then m
            else emit notify_expiry_time (record m { expiry_time_secs = 0 }))
      m'' ← begin_save c (clear_expiry_timer m')
      some (m'', none)

-- The credit that a forward jump of the wall clock by `delta` seconds consumes.
unfoldable pub consume_credit : Runtime → Clock → ℕ → Manager → Option Manager
consume_credit R c delta m =
    if ltb c.time m.expiry_time_secs
    then (do
      let credit = m.expiry_time_secs - c.time
      r ← set_expiry_time R c false c.time (if ltb credit delta then 0 else credit - delta) m
      some r.0)
    else some m

-- `delta` is a `gint64`; `wallclock_now_secs` is not read.
unfoldable pub wallclock_time_changed : Runtime → Clock → ℤ → Manager → Option Manager
unfolding consume_credit
wallclock_time_changed R c (negsuc n) m = begin_save c m
wallclock_time_changed R c (pos delta) m =
    if delta == 0 then some m else do m' ← consume_credit R c delta m; begin_save c m'

unfoldable pub get_expiry_time : Manager → ℕ
get_expiry_time m = if m.enabled then m.expiry_time_secs else 0

unfoldable pub get_rate_limit_end_time : Manager → ℕ
get_rate_limit_end_time m = if m.enabled then m.rate_limit_end_time_secs else 0
