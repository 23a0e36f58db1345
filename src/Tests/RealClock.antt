-- ===== src/Tests/RealClock.antt =====
-- The timer of 60 days with the daemon's clock.
use eos_payg.Base.{
  ℕ, suc, ◌+◌, ◌*◌, ◌/◌, ◌%◌, ◌^◌, ◌<◌, ◌≤◌, ◌≡◌, refl, min, Bool, true, false, none, some,
  if◌then◌else◌, ltb, arith,
}
use eos_payg.Manager.{Manager, emit, expired}
use eos_payg.Manager.Expiry.{set_expiry_time}
use eos_payg.RealClock.{
  Itimerspec, Boottime, nanoseconds, real_clock_get_time, get_boottime,
  real_clock_source_new_seconds,
}
use eos_payg.RealClock.Timer.{max_seconds, run_timer, set_expiry_time-expired}
use eos_payg.Tests.Samples.{runtime, clock_at, fresh}

abbrev boottime : Boottime
boottime = record {
  clock_gettime = λ t. record { tv_sec = t / 10 ^ 9; tv_nsec = t % 10 ^ 9 };
  expiration = λ its k.
      if ltb 0 (nanoseconds its.it_value)
      then some (nanoseconds its.it_value + k * nanoseconds its.it_interval)
      else none;
  nanoseconds-clock_gettime = λ t. omega arith;
  clock_gettime_normal = λ t. omega arith;
  expiration_armed = λ its k h. ground arith;
  expiration_disarmed = λ its k h. ground arith;
}

-- The timer is set half a second after an hour.
shows_hour : real_clock_get_time (boottime.clock_gettime 3600500000000) ≡ 3600
unfolding real_clock_get_time get_boottime
shows_hour = refl

set_expiry_time-expired_example :
    let i = min 5184000 max_seconds in
    (r : Manager × Bool) × (interval : ℕ) × (its : Itimerspec) × (k : ℕ) × (set_expiry_time runtime
        (clock_at 3600)
        true
        3600
        5184000
        fresh
      ≡ some r)
    × (r.0.expiry ≡ some interval)
    × (real_clock_source_new_seconds true interval ≡ some its)
    × (k * i < 5184000)
    × (5184000 ≤ suc k * i)
    × (boottime.expiration its k ≡ some (suc k * i * 10 ^ 9))
    × (run_timer boottime (clock_at 3600) its 3600500000000 k r.0 ≡ (r.0, true))
    × (run_timer boottime (clock_at 3600) its 3600500000000 (suc k) r.0 ≡ (emit expired r.0, false))
set_expiry_time-expired_example =
    set_expiry_time-expired boottime runtime (clock_at 3600) true 3600 5184000 3600500000000 fresh
      refl refl (omega arith) (omega arith) (omega arith) shows_hour
