-- ===== src/Manager/RateLimit.antt =====
-- `check_rate_limiting` and `clear_rate_limiting`.
pub mod Window
use eos_payg.Base.{
  ℕ, suc, ◌+◌, ◌-◌, ◌*◌, ◌%◌, ◌^◌, Bool, true, false, List, [], ◌∷◌, ltb, leb, if◌then◌else◌,
  get_or, take, replicate,
}
use eos_payg.Manager.{Manager, emit_if_enabled, notify_rate_limit_end_time}

abbrev pub rate_limiting_n_attempts : ℕ
rate_limiting_n_attempts = 10

abbrev pub rate_limiting_time_period_secs : ℕ
rate_limiting_time_period_secs = 30 * 60

-- `now_secs - RATE_LIMITING_TIME_PERIOD_SECS`, which wraps in `guint64`.
unfoldable pub window_start : ℕ → ℕ
window_start now = (now + 2 ^ 64 - rate_limiting_time_period_secs) % 2 ^ 64

-- The loop that counts the attempts of the last period.
unfoldable pub n_attempts : ℕ → List ℕ → ℕ
n_attempts start [] = 0
n_attempts start (t ∷ ts) = (if leb start t then 1 else 0) + n_attempts start ts

-- `memmove` by one place, and the new entry at index 0.
unfoldable pub push_attempt : ℕ → List ℕ → List ℕ
push_attempt now history = now ∷ take (rate_limiting_n_attempts - 1) history

unfoldable pub end_time : ℕ → ℕ
end_time oldest = if ltb 0 oldest then (oldest + rate_limiting_time_period_secs) % 2 ^ 64 else 0

-- The flag is the result: whether the attempt is allowed.
unfoldable pub check_rate_limiting : Manager → ℕ → Manager × Bool
check_rate_limiting m now =
    let n = n_attempts (window_start now) m.rate_limiting_history in
    let history = push_attempt now m.rate_limiting_history in
    let m' = record m {
      rate_limiting_history = history;
      rate_limit_end_time_secs = end_time (get_or history (rate_limiting_n_attempts - 1) 0);
    } in
    if leb rate_limiting_n_attempts n
    then (emit_if_enabled notify_rate_limit_end_time m', false)
    else (m', true)

unfoldable pub clear_rate_limiting : Manager → Manager
clear_rate_limiting m = emit_if_enabled notify_rate_limit_end_time (record m {
  rate_limiting_history = replicate rate_limiting_n_attempts 0;
  rate_limit_end_time_secs = 0;
})
