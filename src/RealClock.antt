-- ===== src/RealClock.antt =====
-- libeos-payg/real-clock.c over libeos-payg/boottime-source.c: the clock of the daemon and the timers
-- it gives. The clock and the timers of the kernel are the interface `Boottime`.
pub mod Timer
use eos_payg.Base.{
  ℕ, zero, suc, ◌+◌, ◌*◌, ◌/◌, ◌%◌, ◌^◌, ◌<◌, ◌≡◌, min, Bool, true, false, Option, none, some,
  if◌then◌else◌,
}
use eos_payg.Manager.{max_uint}

-- Neither part is negative.
pub record Timespec : Type 0 where
  pub tv_sec : ℕ
  pub tv_nsec : ℕ

pub record Itimerspec : Type 0 where
  pub it_interval : Timespec
  pub it_value : Timespec

-- In microseconds.
unfoldable pub get_boottime : Timespec → ℕ
get_boottime ts = ts.tv_sec * 1000000 + ts.tv_nsec / 1000

unfoldable pub real_clock_get_time : Timespec → ℕ
real_clock_get_time ts = get_boottime ts / 1000000

-- `none` is the error of a `timerfd_create` that fails; a `guint` is the number of milliseconds.
unfoldable pub boottime_source_new : Bool → ℕ → Option Itimerspec
boottime_source_new false interval_ms = none
boottime_source_new true interval_ms =
    let its : Timespec = record {
      tv_sec = interval_ms / 1000;
      tv_nsec = interval_ms % 1000 * (1000 * 1000);
    } in
    some (record { it_interval = its; it_value = its })

unfoldable pub real_clock_source_new_seconds : Bool → ℕ → Option Itimerspec
real_clock_source_new_seconds created interval =
    boottime_source_new created (min interval (max_uint / 1000) * 1000 % 2 ^ 32)

-- Told whether the timer could be read; the flag says whether the source stays.
unfoldable pub boottime_source_dispatch : {S : Type 0} → Option (S → S × Bool) → Bool → S → S × Bool
boottime_source_dispatch none readable user_data = (user_data, false)
boottime_source_dispatch (some callback) false user_data = (user_data, false)
boottime_source_dispatch (some callback) true user_data = callback user_data

abbrev pub nanoseconds : Timespec → ℕ
nanoseconds ts = ts.tv_sec * 10 ^ 9 + ts.tv_nsec

-- `CLOCK_BOOTTIME`, read at a time in nanoseconds, and the expirations of a timer, counted from 0, in
-- nanoseconds after it was set, as `clock_gettime` and `timerfd_settime` document them: a first
-- expiration of 0 disarms a timer.
pub record Boottime : Type 0 where
  pub clock_gettime : ℕ → Timespec
  pub expiration : Itimerspec → ℕ → Option ℕ
  pub nanoseconds-clock_gettime : (t : ℕ) → nanoseconds (clock_gettime t) ≡ t
  pub clock_gettime_normal : (t : ℕ) → (clock_gettime t).tv_nsec < 10 ^ 9
  pub expiration_armed :
      (its : Itimerspec) (k : ℕ)
      → 0 < nanoseconds its.it_value
      → expiration its k ≡ some (nanoseconds its.it_value + k * nanoseconds its.it_interval)
  pub expiration_disarmed :
      (its : Itimerspec) (k : ℕ) → nanoseconds its.it_value ≡ 0 → expiration its k ≡ none
