-- ===== src/HwClock.antt =====
-- libeos-payg/hwclock.c: the updates of the hardware clock from the system's. The device is the kernel's:
-- what its calls answer are arguments.
pub mod Queue
use eos_payg.Base.{
  ℕ, ◌+◌, ◌/◌, ◌^◌, Bool, true, false, not, Option, none, some, List, [], ◌∷◌, ◌&&◌, ltb,
  if◌then◌else◌,
}

-- What an update logs.
pub data Message : Type 0 where
  failed_to_update updated : Message

-- `is_open` is `rtc_fd != -1`, `idle_sources` the number of the sources that the main loop has for
-- `payg_hwclock_update`, `timers` that of the timers of 659 seconds, `times_set` counts the calls of
-- `RTC_SET_TIME`, and `log` has the newest message first.
pub record HwClock : Type 0 where
  pub is_open : Bool
  pub queued : Bool
  pub warned : Bool
  pub idle_sources : ℕ
  pub timers : ℕ
  pub times_set : ℕ
  pub log : List Message

-- The variables at the start of the program.
abbrev pub initial_hwclock : HwClock
initial_hwclock = record {
  is_open = false;
  queued = false;
  warned = false;
  idle_sources = 0;
  timers = 0;
  times_set = 0;
  log = [];
}

-- Told whether the `ioctl` succeeds; the flag says whether the source stays.
unfoldable pub hwclock_update : Bool → HwClock → HwClock × Bool
hwclock_update set h =
    let h' = record h { queued = false; times_set = h.times_set + 1 } in
    if not set && not h.warned
    then (record h' { warned = true; log = failed_to_update ∷ h.log }, false)
    else (record h' { log = updated ∷ h.log }, false)

unfoldable pub hwclock_queue_update : HwClock → HwClock
hwclock_queue_update h =
    if not h.is_open
    then h
    else if not h.queued
    then record h { queued = true; idle_sources = h.idle_sources + 1 }
    else h

unfoldable pub source_hwclock_update : HwClock → HwClock × Bool
source_hwclock_update h = (hwclock_queue_update h, true)

-- Told whether the device opens, and the seconds of its clock, if it can be read, and of the system's.
-- Both are taken to be after 1970.
unfoldable pub hwclock_init : Bool → Option ℕ → ℕ → HwClock → HwClock × Bool
hwclock_init false rtc_secs sys_secs h = (record h { is_open = false }, false)
hwclock_init true none sys_secs h = (record h { is_open = true }, false)
hwclock_init true (some rtc_secs) sys_secs h =
    if ltb (rtc_secs / 2 ^ 19) (sys_secs / 2 ^ 19)
    then (record h { is_open = true }, false)
    else (record h { is_open = true; timers = h.timers + 1 }, true)
