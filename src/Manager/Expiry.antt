-- ===== src/Manager/Expiry.antt =====
-- `check_expired_cb`, `set_expiry_time` and `extend_expiry_time`.
pub mod Time
use eos_payg.Base.{
  ℕ, ◌+◌, ◌-◌, ◌*◌, ◌^◌, min, Bool, true, false, not, ◌&&◌, Option, none, some, List, [], ◌∷◌, ltb,
  leb, ◌==◌, if◌then◌else◌,
}
use eos_payg.Manager.{
  Manager, Runtime, Clock, max_uint64, max_uint, max_int64, emit, emit_if_enabled,
  notify_expiry_time, expired, assert, ◌>>=◌, ◌>>◌,
}
use eos_payg.Manager.Save.{begin_save}

-- The flag is `G_SOURCE_CONTINUE`: whether the source stays attached.
unfoldable pub check_expired_cb : Clock → Manager → Manager × Bool
check_expired_cb c m =
    if m.enabled
    then if leb m.expiry_time_secs c.time then (emit expired m, false) else (m, true)
    else (m, false)

abbrev pub clear_expiry_timer : Manager → Manager
clear_expiry_timer m = record m { expiry = none }

-- "Clamp to the end of time instead of overflowing."
unfoldable pub clamped : Option ℕ → ℕ
clamped (some t) = t
clamped none = max_uint64

-- The part of `set_expiry_time` that sets the timer, or finds that it cannot.
unfoldable pub set_expiry_timer : Clock → ℕ → Manager → Option Manager
unfolding check_expired_cb
set_expiry_timer c now m = if m.expiry_time_secs == max_uint64 then some m else do
  assert (leb now m.expiry_time_secs)
  some (
      if c.source_ok
      then record m { expiry = some (min (m.expiry_time_secs - now) max_uint) }
      else (check_expired_cb c (record m { expiry_time_secs = now })).0)

-- The end of `set_expiry_time`, told whether there is a change to make known.
unfoldable pub expiry_time_set : Clock → Bool → Bool → Manager → Option (Manager × Bool)
expiry_time_set c save_state false m = some (m, false)
expiry_time_set c false true m = some (emit notify_expiry_time m, false)
expiry_time_set c true true m = do m' ← begin_save c (emit notify_expiry_time m); some (m', true)

-- The flag says whether a save was started.
unfoldable pub set_expiry_time : Runtime → Clock → Bool → ℕ → ℕ → Manager → Option (Manager × Bool)
set_expiry_time R c save_state now span m = do
  m' ←
      set_expiry_timer c now (
        clear_expiry_timer
          (record m { expiry_time_secs = clamped (R.uint64_checked_add now span) }))
  expiry_time_set c save_state (not (m.expiry_time_secs == m'.expiry_time_secs) && m'.enabled) m'

-- The `switch` of `extend_expiry_time`: the seconds of each period.
abbrev pub period_spans : List (ℕ × ℕ)
period_spans =
    (0, 5)
    ∷ (1, 60)
    ∷ (2, 5 * 60)
    ∷ (23, 30 * 60)
    ∷ (3, 60 * 60)
    ∷ (24, 8 * 60 * 60)
    ∷ (4, 24 * 60 * 60)
    ∷ (5, 2 * 24 * 60 * 60)
    ∷ (6, 3 * 24 * 60 * 60)
    ∷ (7, 4 * 24 * 60 * 60)
    ∷ (8, 5 * 24 * 60 * 60)
    ∷ (9, 6 * 24 * 60 * 60)
    ∷ (10, 7 * 24 * 60 * 60)
    ∷ (11, 8 * 24 * 60 * 60)
    ∷ (12, 9 * 24 * 60 * 60)
    ∷ (13, 10 * 24 * 60 * 60)
    ∷ (14, 11 * 24 * 60 * 60)
    ∷ (15, 12 * 24 * 60 * 60)
    ∷ (16, 13 * 24 * 60 * 60)
    ∷ (17, 14 * 24 * 60 * 60)
    ∷ (18, 30 * 24 * 60 * 60)
    ∷ (25, 31 * 24 * 60 * 60)
    ∷ (19, 60 * 24 * 60 * 60)
    ∷ (20, 90 * 24 * 60 * 60)
    ∷ (21, 120 * 24 * 60 * 60)
    ∷ (22, 365 * 24 * 60 * 60)
    ∷ (31, max_uint64)
    ∷ []

unfoldable pub find_span : ℕ → List (ℕ × ℕ) → Option ℕ
find_span period [] = none
find_span period ((p, span) ∷ rest) = if period == p then some span else find_span period rest

-- The result is the time added, a `gint64`.
unfoldable pub extend_expiry_time : Runtime → Clock → ℕ → ℕ → Manager → Option (Manager × ℕ)
extend_expiry_time R c now period m = do
  span ← find_span period period_spans
  let base = if ltb now m.expiry_time_secs then m.expiry_time_secs else now
  r ← set_expiry_time R c false base span m
  some (r.0, min span max_int64)
