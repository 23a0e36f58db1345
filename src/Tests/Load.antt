-- ===== src/Tests/Load.antt =====
-- A start: what it finds of the state files, an hour after boot.
use eos_payg.Base.{◌+◌, ℕ, ◌-◌, ◌≤◌, ◌≡◌, refl, true, none, some, [], ◌∷◌, arith}
use eos_payg.Codes.{period_validate, has_case}
use eos_payg.Manager.{Manager}
use eos_payg.Manager.UsedCodes.{is_used, all_periods_valid}
use eos_payg.Manager.Save.{save_state_async}
use eos_payg.Manager.Expiry.Time.{add_clamped}
use eos_payg.Manager.Load.{
  LoadState, wallclock_time_file, expiry_seconds_file, used_codes_file, contents, remaining_credit,
  file_load_cb,
}
use eos_payg.Manager.Load.Credit.{restart_credit_at_most}
use eos_payg.Manager.Load.Restart.{restart_credit_lem, restart_used_codes_lem, found_file}
use eos_payg.Tests.Samples.{runtime, clock_at, gtask, fresh}

-- The state of a start whose four first loads are under way.
abbrev pub starting : LoadState gtask
starting = record {
  manager = fresh;
  task = record { pending = 4; handle = [] };
  task_data = none;
  requests = [];
}

-- A manager with two used codes and a day and an hour on its clock, at the save.
abbrev saved : Manager
saved = record fresh {
  expiry_time_secs = 90000;
  used_codes = record { counter = 3; period = 5 } ∷ record { counter = 4; period = 25 } ∷ [];
}

valid : all_periods_valid saved.used_codes ≡ true
unfolding all_periods_valid period_validate has_case
valid = refl

restart_credit_at_most_example :
    (st1 : LoadState gtask) × (st2 : LoadState gtask) × (file_load_cb gtask runtime
        (clock_at 10)
        wallclock_time_file
        (contents (save_state_async (clock_at 3600) saved).clock_time)
        starting
      ≡ some st1)
    × (file_load_cb gtask runtime
          (clock_at 10)
          expiry_seconds_file
          (contents (save_state_async (clock_at 3600) saved).expiry_seconds)
          st1
        ≡ some st2)
    × (st2.manager.expiry_time_secs
        ≤ 10 + (90000 - 3600 - ((clock_at 10).wallclock - (clock_at 3600).save_wallclock)))
restart_credit_at_most_example =
    restart_credit_at_most gtask runtime (clock_at 3600) (clock_at 10) saved starting (omega arith)
      (omega arith) (omega arith) (omega arith) refl (omega arith) (omega arith) refl

restart_credit_lem_example :
    (st1 : LoadState gtask) × (st2 : LoadState gtask) × (file_load_cb gtask runtime
        (clock_at 10)
        wallclock_time_file
        (contents (save_state_async (clock_at 3600) saved).clock_time)
        starting
      ≡ some st1)
    × (file_load_cb gtask runtime
          (clock_at 10)
          expiry_seconds_file
          (contents (save_state_async (clock_at 3600) saved).expiry_seconds)
          st1
        ≡ some st2)
    × ((clock_at 10).source_ok ≡ true
        → (st2.manager.expiry_time_secs
            ≡ add_clamped 10 (
                remaining_credit
                  (clock_at 3600).save_wallclock
                  (90000 - 3600)
                  (clock_at 10).wallclock)))
restart_credit_lem_example =
    restart_credit_lem gtask runtime (clock_at 3600) (clock_at 10) saved starting (omega arith)
      (omega arith) (omega arith) (omega arith) refl (omega arith) (omega arith) refl

restart_used_codes_lem_example :
    (st' : LoadState gtask) × (file_load_cb gtask runtime
        (clock_at 10)
        used_codes_file
        (found_file (save_state_async (clock_at 3600) saved).used_codes)
        starting
      ≡ some st')
    × ((p n : ℕ) → is_used p n st'.manager.used_codes ≡ is_used p n saved.used_codes)
restart_used_codes_lem_example =
    restart_used_codes_lem gtask runtime (clock_at 3600) (clock_at 10) saved starting valid refl
