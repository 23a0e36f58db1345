-- ===== src/Tests/Service.antt =====
-- The D-Bus object over a manager, on concrete inputs.
use eos_payg.Base.{
  ℕ, ◌≤◌, ◌<◌, ◌≡◌, ◌≢◌, ◌⊎◌, refl, Bool, true, false, Option, none, some, List, [], ◌∷◌, length,
  get_or, replicate, arith,
}
use eos_payg.Base.Int.{pos}
use eos_payg.Base.Strings.{bytes, str_equal}
use eos_payg.Codes.{ok}
use eos_payg.Generate.{main, parse_period}
use eos_payg.Generate.Loop.{success}
use eos_payg.Manager.{Manager, Snapshot, save_started, notify_expiry_time}
use eos_payg.Manager.RateLimit.{
  check_rate_limiting, window_start, n_attempts, push_attempt, end_time,
}
use eos_payg.Manager.UsedCodes.{is_used}
use eos_payg.Manager.AddCode.{clear_code, get_expiry_time, get_rate_limit_end_time}
use eos_payg.Manager.AddCode.Branches.{IsReady, Added}
use eos_payg.Provider.{
  Provider, provider_get_clock, provider_get_expiry_time, provider_get_enabled,
  provider_get_rate_limit_end_time, provider_get_code_format, provider_get_code_format_prefix,
  provider_get_code_format_suffix, provider_get_code_length, provider_get_account_id,
}
use eos_payg.Provider.OfManager.{manager_provider, get_enabled, get_account_id}
use eos_payg.ManagerService.{
  ManagerService, emit_signal, no_parameters, Variant, uint64, uint32, int64, string, boolean,
  payg_interface, new_service, expired_cb, shutdown_timer_fires, times, notify_expiry_time_cb,
  set_provider,
}
use eos_payg.ManagerService.Properties
use eos_payg.ManagerService.Properties.{
  DbusError, Reply, return_value, return_dict, return_error, property_read_only, properties_get,
  properties_set, properties_get_all, insert_all, insert_value,
}
use eos_payg.ManagerService.Calls.{code_argument, method_call}
use eos_payg.ManagerService.Timer.{
  IsIdle, IsRunning, IsTimed, Steps, shutdown_timer_lem, set_provider_lem,
}
use eos_payg.ManagerService.EndToEnd.{printed_code_accepted, clear_code-shutdown_timer}
use eos_payg.Tests.Samples.{glib, runtime, clock_at, fresh}
use Prim.Native.String.{String}

abbrev provider : Provider Manager
provider = manager_provider runtime

-- The object ten minutes before it powers off, and after.
abbrev running : ManagerService
running = record new_service { shutdown_timer_id = 7; timers = 7 ∷ [] }

abbrev over : ManagerService
over = record new_service { shutdown_timer_id = 7; poweroffs = 1 }

-- A manager whose credit ran out at 3000 seconds.
abbrev spent : Manager
spent = record fresh { expiry_time_secs = 3000 }

abbrev ready : IsReady (clock_at 3600) spent
ready = record { now_fits = omega arith; expiry_fits = omega arith; few_saves = omega arith }

abbrev any_name : String → Bool
any_name n = true

expired_over : expired_cb 9 over ≡ some (emit_signal payg_interface "Expired" no_parameters over)
unfolding expired_cb
expired_over = refl

late : times provider (clock_at 3600) spent ≡ some (3000, 3600)
unfolding manager_provider times provider_get_clock provider_get_expiry_time get_expiry_time
late = refl

shutdown_timer_lem_example :
    ((s' : ManagerService) × (expired_cb 9 running ≡ some s')
      × IsRunning s'
      × (s'.shutdown_timer_id ≡ 7)
      × (s'.poweroffs ≡ 0))
    × ((s' : ManagerService) × (notify_expiry_time_cb provider (clock_at 3600) spent running
          ≡ some s')
        × (s'.poweroffs ≡ 0)
        × ((((spent.expiry_time_secs ≡ 0) ⊎ (3600 < 3000)) × IsIdle s')
            ⊎ ((spent.expiry_time_secs ≢ 0) × (3000 ≤ 3600) × (s' ≡ running))))
    × ((shutdown_timer_fires 7 running).timers ≡ [])
    × ((shutdown_timer_fires 7 running).poweroffs ≡ 1)
    × ((shutdown_timer_fires 7 running).shutdown_timer_id ≡ 7)
shutdown_timer_lem_example =
    shutdown_timer_lem provider running 9 (clock_at 3600) spent (omega arith, refl) late

set_provider_lem_example :
    (s : ManagerService) × (set_provider provider (clock_at 3600) 7 spent new_service ≡ some s)
    × (((3000 ≤ 3600) × IsRunning s × (s.shutdown_timer_id ≡ 7))
        ⊎ ((3600 < 3000) × (s ≡ new_service)))
    × ((s' : ManagerService) → Steps provider s s' → IsTimed s')
set_provider_lem_example = set_provider_lem provider (clock_at 3600) spent 7 (omega arith) late

abbrev dict : List (String × Variant)
dict =
    ("ExpiryTime", uint64 3000)
    ∷ ("Enabled", boolean true)
    ∷ ("RateLimitEndTime", uint64 0)
    ∷ ("CodeFormat", string (bytes "^[0-9]{8}$"))
    ∷ ("CodeFormatPrefix", string [])
    ∷ ("CodeFormatSuffix", string [])
    ∷ ("CodeLength", uint32 8)
    ∷ ("AccountID", string [])
    ∷ []

all_got : properties_get_all any_name provider payg_interface spent ≡ some (return_dict dict)
unfolding manager_provider properties_get_all insert_all insert_value Properties.get_expiry_time
    Properties.get_enabled Properties.get_rate_limit_end_time Properties.get_code_format
    Properties.get_code_format_prefix Properties.get_code_format_suffix Properties.get_code_length
    Properties.get_account_id provider_get_expiry_time provider_get_enabled
    provider_get_rate_limit_end_time provider_get_code_format provider_get_code_format_prefix
    provider_get_code_format_suffix provider_get_code_length provider_get_account_id get_expiry_time
    get_enabled get_account_id get_rate_limit_end_time
all_got = refl

named : parse_period (bytes "2d") ≡ ok 5
unfolding parse_period str_equal
named = refl

-- A file system with one key.
abbrev key_of : List ℕ → Option (List ℕ)
key_of file = some (replicate 64 7)

allowed : (check_rate_limiting spent 3600).1 ≡ true
unfolding check_rate_limiting window_start n_attempts push_attempt end_time
allowed = refl

unused : is_used 5 3 [] ≡ false
unfolding is_used
unused = refl

printed_code_accepted_example :
    (lines : List (List ℕ)) × (m' : Manager) × (time : ℕ) × (main glib key_of (
        some (record { quiet = false; list_periods = false; args = bytes "key" ∷ bytes "2d" ∷ [] }))
      ≡ some (success lines))
    × (length lines ≡ 256)
    × (method_call any_name
          (manager_provider runtime)
          "/"
          "/"
          payg_interface
          "AddCode"
          (clock_at 3600)
          (code_argument (get_or lines 3 []))
          spent
        ≡ some (m', return_value (int64 (pos time) ∷ [])))
    × Added runtime (clock_at 3600) 5 3 (check_rate_limiting spent 3600).0 m' time
printed_code_accepted_example =
    printed_code_accepted runtime any_name key_of "/" (bytes "key") (bytes "2d") (clock_at 3600)
      spent 5 3 named refl (omega arith) (omega arith) ready refl allowed refl unused

clear_code-shutdown_timer_example :
    (m' : Manager) × (snapshot : Snapshot) × (s' : ManagerService) × (clear_code
        (clock_at 3600)
        spent
      ≡ some (m', none))
    × (m'.events ≡ save_started snapshot ∷ notify_expiry_time ∷ [])
    × (m'.expiry ≡ none)
    × (notify_expiry_time_cb (manager_provider runtime) (clock_at 3600) m' running ≡ some s')
    × IsIdle s'
clear_code-shutdown_timer_example =
    clear_code-shutdown_timer runtime (clock_at 3600) spent running ready (omega arith) refl refl
      (omega arith) (omega arith, refl)
