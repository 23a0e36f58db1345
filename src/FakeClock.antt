-- ===== src/FakeClock.antt =====
-- libeos-payg/fake-clock.c: the clock of the tests, whose time is set by hand, and its sources. A
-- source holds a reference to the clock: the clock is an argument and a result of what reads it.
pub mod Sources
use eos_payg.Base.{
  ℕ, suc, ◌+◌, ◌-◌, ◌*◌, ◌/◌, ◌%◌, ◌^◌, Bool, false, Option, none, some, ltb, leb, ◌==◌,
  if◌then◌else◌,
}
use eos_payg.Base.Int.{ℤ, pos, negsuc}

abbrev pub max_int64 : ℕ
max_int64 = 2 ^ 63 - 1

-- Both times are `gint64`, and never negative: 0 until the first use, then positive.
pub record FakeClock : Type 0 where
  pub time_secs : ℕ
  pub wallclock_time_secs : ℕ

-- The getters set a value on their first use.
unfoldable pub get_wallclock_time : FakeClock → FakeClock × ℕ
get_wallclock_time self =
    if self.wallclock_time_secs == 0
    then (record self { wallclock_time_secs = 1231006505 }, 1231006505)
    else (self, self.wallclock_time_secs)

unfoldable pub set_wallclock_time : ℤ → FakeClock → FakeClock
set_wallclock_time (pos new_time) self =
    if ltb 0 new_time then record self { wallclock_time_secs = new_time } else self
set_wallclock_time (negsuc n) self = self

unfoldable pub get_time : FakeClock → FakeClock × ℕ
get_time self =
    if self.time_secs == 0
    then (record self { time_secs = 424242 }, 424242)
    else (self, self.time_secs)

unfoldable pub set_time : ℤ → FakeClock → FakeClock
set_time (pos new_time) self = if ltb 0 new_time then record self { time_secs = new_time } else self
set_time (negsuc n) self = self

-- The two halves of the time at which the source is ready.
pub record FakeSource : Type 0 where
  pub ready_time_secs_high : ℕ
  pub ready_time_secs_low : ℕ

-- `ready_time_secs >> 32` and `ready_time_secs & 0xFFFFFFFF`, of a number that is not negative.
abbrev pub with_ready_time : ℕ → FakeSource
with_ready_time t = record {
  ready_time_secs_high = t / 2 ^ 32 % 2 ^ 32;
  ready_time_secs_low = t % 2 ^ 32;
}

unfoldable pub source_check : FakeSource → FakeClock → FakeClock × Bool
unfolding get_time
source_check source clock =
    let (clock', now) = get_time clock in
    (clock', leb (source.ready_time_secs_high * 2 ^ 32 + source.ready_time_secs_low) now)

-- The option is the callback, as the value that it returns; the flag says whether the source stays.
unfoldable pub source_dispatch : Option Bool → FakeSource → FakeSource × Bool
source_dispatch none source = (source, false)
source_dispatch (some result) source = (with_ready_time max_int64, result)

-- `none` is `NULL`, from the guard on the interval.
unfoldable pub source_new_seconds : ℕ → FakeClock → FakeClock × Option FakeSource
unfolding get_time
source_new_seconds interval self =
    let (self', current_time) = get_time self in
    if leb interval (max_int64 - current_time)
    then (self', some (with_ready_time (current_time + interval)))
    else (self', none)

unfoldable pub fake_clock_new : ℤ → ℤ → FakeClock
unfolding set_time set_wallclock_time
fake_clock_new optional_time optional_wallclock_time =
    set_wallclock_time optional_wallclock_time
      (set_time optional_time (record { time_secs = 0; wallclock_time_secs = 0 }))
