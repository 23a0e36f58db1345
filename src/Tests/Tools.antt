-- ===== src/Tests/Tools.antt =====
-- The clock of the tests and the debug flags on concrete inputs.
use eos_payg.Base.{◌+◌, ◌≤◌, true, false, some, [], ◌∷◌, arith}
use eos_payg.FakeClock.{FakeClock, max_int64, get_time}
use eos_payg.Debug.{EfiVariables}

-- Five seconds after the clock's first time, and later.
abbrev before : FakeClock
before = record { time_secs = 1000; wallclock_time_secs = 0 }

abbrev after : FakeClock
after = record { time_secs = 1005; wallclock_time_secs = 0 }

started : (get_time before).1 + 5 ≤ max_int64
unfolding get_time
started = omega arith

-- The LSM is off, and secure boot is taken to be on.
abbrev debugging : EfiVariables
debugging = record {
  debug_exists = true;
  debug_content = some (68 ∷ []);
  stray = 0;
  secureboot_active = false;
  active_exists = true;
}

abbrev plain : EfiVariables
plain = record debugging { debug_exists = false }
