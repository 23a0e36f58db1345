-- ===== src/Tests/Startup.antt =====
-- The service on concrete inputs. A provider is here a number: how often it was told of a change of
-- the wall clock, and it is enabled while that is less than three.
use eos_payg.Base.{ℕ, ◌+◌, ◌-◌, ◌^◌, ◌≡◌, refl, true, false, none, some, List, [], ◌∷◌, ltb}
use eos_payg.Base.Int.{ℤ}
use eos_payg.Debug.{EfiVariables, get_eospayg_active_set, read_eospayg_debug}
use eos_payg.Manager.{Clock}
use eos_payg.Provider.{Provider, provider_wallclock_time_changed}
use eos_payg.Service.{
  Service, Reading, Start, start_failed, no_provider, not_found, load_failed, secure_init_sync,
  startup_async, clock_jump_cb,
}
use eos_payg.Service.Startup.{startup_async-active}
use eos_payg.Service.Jumps.{told, forward, back}
use eos_payg.Service.Wakeups.{Wakeup, wakeups, wake, clock_jump_callback, wakeups_lem}
use eos_payg.ClockJumpSource.{read_failed, clock_jump_source_dispatch}
use eos_payg.Tests.Samples.{clock_at}

abbrev counting : Provider ℕ
counting = record {
  iface_add_code = none;
  iface_clear_code = none;
  iface_shutdown_async = none;
  iface_wallclock_time_changed = some (λ c delta n. some (n + 1));
  iface_get_expiry_time = some (λ n. 5000);
  iface_get_enabled = some (λ n. ltb n 3);
  iface_get_rate_limit_end_time = none;
  iface_get_clock = some (λ c n. c);
  iface_get_account_id = none;
  iface_code_format = none;
  iface_code_format_prefix = none;
  iface_code_format_suffix = none;
  iface_code_length = 0;
}

abbrev new : Service ℕ
new = record {
  provider = none;
  manager_service = none;
  holding = false;
  holds = 0;
  has_source = false;
  clock_realtime_secs_v0 = 0;
  clock_boottime_secs_v0 = 0;
  eospayg_active_efivar = false;
  hwclock_updates = 0;
}

abbrev with_provider : Service ℕ
with_provider = record new {
  provider = some 0;
  has_source = true;
  clock_realtime_secs_v0 = 1500000000;
  clock_boottime_secs_v0 = 10;
}

abbrev reading : ℕ → ℕ → Reading
reading r b = record { realtime = r; boottime = b }

abbrev start : Start ℕ
start = record {
  config_enabled = some true;
  manager = λ enabled. some 0;
  reading = reading 1500000000 10;
  source_ok = true;
  clock = clock_at 3600;
  timer_id = 7;
  subtree_id = 4;
}

abbrev variables : EfiVariables
variables = record {
  debug_exists = false;
  debug_content = none;
  stray = 0;
  secureboot_active = true;
  active_exists = true;
}

active : get_eospayg_active_set variables ≡ true
unfolding get_eospayg_active_set read_eospayg_debug
active = refl

startup_async-active_example :
    (s' : Service ℕ) × (startup_async counting start load_failed
        (secure_init_sync counting false variables start not_found new)
      ≡ some (s', start_failed no_provider))
    × (s'.provider ≡ none)
    × (s'.manager_service ≡ none)
startup_async-active_example =
    startup_async-active counting variables start start not_found load_failed new active refl tt tt

-- A jump forward by 50 seconds, and none.
-- `errno` is 125, ECANCELED, after each `read`.
abbrev canceled : ℕ → ℕ → ℕ → Wakeup
canceled errno real boot = record {
  errno = errno;
  result = read_failed 125;
  clock = clock_at boot;
  reading = reading real boot;
}

abbrev woken : List Wakeup
woken = canceled 0 1500000060 20 ∷ canceled 11 1500000070 30 ∷ []

abbrev later : Service ℕ
later = record with_provider {
  provider = some 1;
  clock_realtime_secs_v0 = 1500000070;
  clock_boottime_secs_v0 = 30;
  hwclock_updates = 2;
}

jumped : wakeups counting 125 (2 ^ 63 - 1) woken with_provider ≡ some later
unfolding wakeups wake clock_jump_source_dispatch clock_jump_callback clock_jump_cb
    provider_wallclock_time_changed
jumped = refl

wakeups_lem_example :
    (later.has_source ≡ true)
    × (ds : List (Clock × ℤ)) × (p' : ℕ) × (told counting ds 0 ≡ some p')
    × (some 1 ≡ some p')
    × (forward ds + 1500000000 + 30 ≡ back ds + 1500000070 + 10)
wakeups_lem_example =
    wakeups_lem counting 125 (2 ^ 63 - 1) woken 0 with_provider (refl, (refl, tt)) refl refl jumped
