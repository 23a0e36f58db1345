-- ===== src/ClockJumpSource.antt =====
-- libeos-payg/clock-jump-source.c: the source that is dispatched when the wall clock jumps. It waits
-- for a timer of the kernel that is canceled when the clock is set.
use eos_payg.Base.{ℕ, Bool, true, false, not, ◌||◌, Option, none, some, ◌==◌, if◌then◌else◌}
use eos_payg.RealClock.{Timespec, Itimerspec}

-- What `read` gives: a number of bytes, or -1 with an `errno`.
pub data Read : Type 0 where
  read_bytes : ℕ → Read
  read_failed : ℕ → Read

-- A `read` that does not fail leaves `errno` as it was.
abbrev pub errno_after : Read → ℕ → ℕ
errno_after (read_bytes n) errno = errno
errno_after (read_failed e) errno = e

abbrev pub is_zero : Read → Bool
is_zero (read_bytes n) = n == 0
is_zero (read_failed e) = false

-- `ecanceled` is the system's `ECANCELED`, `time_max` its `TIME_MAX`.
module _ (ecanceled time_max : ℕ) where
  -- The callback returns `none` where it aborts; the flag says whether the source stays.
  unfoldable pub clock_jump_source_dispatch :
      {S : Type 0} → Option (S → Option (S × Bool)) → ℕ → Read → S → Option (S × Bool)
  clock_jump_source_dispatch none errno r user_data = some (user_data, false)
  clock_jump_source_dispatch (some callback) errno r user_data =
      if is_zero r || not (errno_after r errno == ecanceled)
      then some (user_data, false)
      else callback user_data

  -- Told whether `timerfd_create` and `timerfd_settime` succeed; the outer `none` is `g_error`, the
  -- inner one an error that is returned.
  unfoldable pub clock_jump_source_new : Bool → Bool → Option (Option Itimerspec)
  clock_jump_source_new false is_set = some none
  clock_jump_source_new true false = none
  clock_jump_source_new true true =
      let its : Timespec = record { tv_sec = time_max; tv_nsec = 0 } in
      some (some (record { it_interval = its; it_value = its }))
