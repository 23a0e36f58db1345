-- ===== src/FakeClock/Sources.antt =====
-- What the fake clock shows, and when its sources are ready.
use eos_payg.Base.{
  ℕ, ◌+◌, ◌/◌, ◌%◌, ◌^◌, ◌≤◌, ◌<◌, ◌≡◌, ◌↔◌, Bool, true, false, some, ◌==◌, if◌then◌else◌, arith,
}
use eos_payg.Base.Int.{ℤ, pos, negsuc}
use eos_payg.FakeClock.{
  FakeClock, FakeSource, max_int64, get_time, set_time, get_wallclock_time, set_wallclock_time,
  source_check, source_dispatch, source_new_seconds, fake_clock_new,
}

-- A new fake clock shows the positive times that it was given and fixed ones for the others, and
-- reading it changes neither what it shows next nor the other time.
pub fake_clock_new_lem :
    (t w : ℤ)
    → let clock = fake_clock_new t w in
      ((get_time clock).1 ≡ elim t [ pos n ↦ (if n == 0 then 424242 else n) | negsuc n ↦ 424242 ])
      × ((get_wallclock_time clock).1
          ≡ elim w [ pos n ↦ (if n == 0 then 1231006505 else n) | negsuc n ↦ 1231006505 ])
      × ((get_wallclock_time (get_time clock).0).1 ≡ (get_wallclock_time clock).1)
      × ((get_time (get_time clock).0).1 ≡ (get_time clock).1)
unfolding fake_clock_new set_time set_wallclock_time get_time get_wallclock_time
fake_clock_new_lem (pos n) (pos m) = ground arith
fake_clock_new_lem (pos n) (negsuc m) = ground arith
fake_clock_new_lem (negsuc n) (pos m) = ground arith
fake_clock_new_lem (negsuc n) (negsuc m) = ground arith

-- The fake clock makes a source for an interval whose end is a gint64, and the source is ready
-- exactly if the clock, however set since, shows a time at least the interval after that of its
-- making; dispatched with a callback it is not ready at any time below the last one.
pub source_new_seconds_lem :
    (interval : ℕ) (before after : FakeClock) (result : Bool)
    → (get_time before).1 + interval ≤ max_int64
    → (source : FakeSource) × ((source_new_seconds interval before).1 ≡ some source)
      × (((source_check source after).1 ≡ true)
          ↔ ((get_time before).1 + interval ≤ (get_time after).1))
      × ((get_time after).1 < max_int64
          → (source_check (source_dispatch (some result) source).0 after).1 ≡ false)
unfolding source_new_seconds source_check source_dispatch get_time
source_new_seconds_lem interval before after result fits = (
  record {
    ready_time_secs_high = ((get_time before).1 + interval) / 2 ^ 32 % 2 ^ 32;
    ready_time_secs_low = ((get_time before).1 + interval) % 2 ^ 32;
  },
  ground arith,
  (λ h. ground arith, λ h. ground arith),
  λ h. ground arith,
)
