-- ===== src/Service.antt =====
-- libeos-payg/service.c: the service around a provider. `P` is the class of the providers, external
-- ones and `EpgManager` alike, so that a provider is a state of type `S`. What the loader, the
-- configuration file and the clocks give are arguments, and `none` is a failed assertion.
pub mod Startup
pub mod Jumps
pub mod Wakeups
pub mod Holding
use eos_payg.Base.{
  ℕ, ◌+◌, ◌-◌, ◌≡◌, Bool, true, false, not, ◌&&◌, Option, none, some, List, [], ◌∷◌, ◌==◌,
  if◌then◌else◌,
}
use eos_payg.Base.Int.{ℤ, pos, negsuc, sub_ℕ}
use eos_payg.Base.Strings.{bytes}
use eos_payg.Debug.{EfiVariables, get_eospayg_active_set}
use eos_payg.Efi.{EfiOps, Efi, var_delete}
use eos_payg.Manager.{Clock, assert, ◌>>=◌, ◌>>◌}
use eos_payg.Provider.{
  Provider, provider_get_enabled, provider_wallclock_time_changed, provider_shutdown_async,
}
use eos_payg.ManagerService.{ManagerService, new_service, set_provider, register, unregister}

-- `holds` is the count of `gss_service_hold` without `gss_service_release`, `hwclock_updates` that of
-- `payg_hwclock_queue_update`. The two clocks are seconds.
pub record Service (S : Type 0) : Type 0 where
  pub provider : Option S
  pub manager_service : Option ManagerService
  pub holding : Bool
  pub holds : ℕ
  pub has_source : Bool
  pub clock_realtime_secs_v0 : ℕ
  pub clock_boottime_secs_v0 : ℕ
  pub eospayg_active_efivar : Bool
  pub hwclock_updates : ℕ

-- The two clocks, read one after the other.
pub record Reading : Type 0 where
  pub realtime : ℕ
  pub boottime : ℕ

-- `EPG_SERVICE_ERROR_NO_PROVIDER`, or the error of what failed.
pub data StartError : Type 0 where
  no_provider config_error manager_error register_error : StartError

-- How the task of the start returns: true, true with the service told to exit, or an error.
pub data StartResult : Type 0 where
  started exits : StartResult
  start_failed : StartError → StartResult

-- What `epg_provider_loader_get_first_enabled_finish` gives: a provider, none, or an error.
pub data Found (S : Type 0) : Type 0 where
  found : S → Found S
  not_found load_failed : Found S

-- What a start reads beside the loader: the setting `Enabled`, what `epg_manager_new_finish` gives,
-- the clocks with whether a clock-jump source can be made, the provider's clock, and the ids that GLib
-- gives.
pub record Start (S : Type 0) : Type 0 where
  pub config_enabled : Option Bool
  pub manager : Bool → Option S
  pub reading : Reading
  pub source_ok : Bool
  pub clock : Clock
  pub timer_id : ℕ
  pub subtree_id : ℕ

module _ {S : Type 0} (P : Provider S) where
  -- In 64-bit arithmetic: (v1 of the real time - v0) - (v1 of the boot time - v0).
  abbrev pub jump_delta : Reading → Service S → ℤ
  jump_delta v1 s =
      sub_ℕ (v1.realtime + s.clock_boottime_secs_v0) (s.clock_realtime_secs_v0 + v1.boottime)

  abbrev pub is_zero : ℤ → Bool
  is_zero (pos n) = n == 0
  is_zero (negsuc n) = false

  abbrev jumped : Reading → S → Service S → Service S
  jumped v1 p s = record s {
    provider = some p;
    clock_realtime_secs_v0 = v1.realtime;
    clock_boottime_secs_v0 = v1.boottime;
    hwclock_updates = s.hwclock_updates + 1;
  }

  unfoldable pub clock_jump_cb : Clock → Reading → Service S → Option (Service S)
  clock_jump_cb c v1 s = do
    p ← s.provider
    p' ←
        (if is_zero (jump_delta v1 s)
          then some p
          else provider_wallclock_time_changed P c (jump_delta v1 s) p)
    some (jumped v1 p' s)

  unfoldable pub service_set_provider : Reading → Bool → S → Service S → Service S
  service_set_provider v0 source_ok p s = record s {
    provider = some p;
    clock_realtime_secs_v0 = v0.realtime;
    clock_boottime_secs_v0 = v0.boottime;
    has_source = source_ok;
  }

  abbrev with_found : Start S → Found S → Service S → Service S
  with_found x (found p) s = service_set_provider x.reading x.source_ok p s
  with_found x not_found s = s
  with_found x load_failed s = s

  unfoldable pub secure_init_sync : Bool → EfiVariables → Start S → Found S → Service S → Service S
  secure_init_sync legacy_mode v x r s =
      with_found x r
        (record s { eospayg_active_efivar = not legacy_mode && get_eospayg_active_set v })

  abbrev held : Bool → Service S → Service S
  held enabled s =
      if enabled && not s.holding
      then record s { holds = s.holds + 1 }
      else if not enabled && s.holding
      then record s { holds = s.holds - 1 }
      else s

  unfoldable pub provider_notify_enabled_cb : S → Service S → Option (Service S)
  provider_notify_enabled_cb p s = do
    enabled ← provider_get_enabled P p
    some (record (held enabled s) { holding = enabled })

  abbrev register_result : Bool → StartResult
  register_result ok = if ok then started else start_failed register_error

  unfoldable pub startup_complete : Start S → Service S → Option (Service S × StartResult)
  startup_complete x s = do
    p ← s.provider
    m ← set_provider P x.clock x.timer_id p new_service
    let r = register x.subtree_id m
    s' ← provider_notify_enabled_cb p (record s { manager_service = some r.0 })
    some (s', register_result r.1)

  unfoldable pub manager_new_cb : Start S → Option S → Service S → Option (Service S × StartResult)
  manager_new_cb x none s = some (s, start_failed manager_error)
  manager_new_cb x (some p) s = do
    enabled ← provider_get_enabled P p
    (if enabled
        then startup_complete x (service_set_provider x.reading x.source_ok p s)
        else some (s, exits))

  abbrev configured : Start S → Option Bool → Service S → Option (Service S × StartResult)
  configured x none s = some (s, start_failed config_error)
  configured x (some enabled) s = manager_new_cb x (x.manager enabled) s

  -- What follows if the loader gave no provider.
  abbrev fall_back : Start S → Service S → Option (Service S × StartResult)
  fall_back x s =
      if s.eospayg_active_efivar
      then some (s, start_failed no_provider)
      else configured x x.config_enabled s

  unfoldable pub provider_get_first_enabled_cb :
      Start S → Found S → Service S → Option (Service S × StartResult)
  provider_get_first_enabled_cb x (found p) s =
      startup_complete x (service_set_provider x.reading x.source_ok p s)
  provider_get_first_enabled_cb x not_found s = fall_back x s
  provider_get_first_enabled_cb x load_failed s = fall_back x s

  -- The loader runs only if there is no provider yet.
  abbrev start_with : Option S → Start S → Found S → Service S → Option (Service S × StartResult)
  start_with (some p) x r s = startup_complete x s
  start_with none x r s = provider_get_first_enabled_cb x r s

  unfoldable pub startup_async : Start S → Found S → Service S → Option (Service S × StartResult)
  startup_async x r s = start_with s.provider x r s

  -- An object that was never made is not unregistered.
  abbrev unregistered : Option ManagerService → Option ManagerService
  unregistered none = none
  unregistered (some m) = some (unregister m)

  abbrev shut_down : Clock → Option S → Service S → Option (Service S)
  shut_down c none s = some s
  shut_down c (some p) s = do
    p' ← provider_shutdown_async P c p
    some (record s { provider = some p'; manager_service = unregistered s.manager_service })

  -- `epg_service_shutdown`, which waits for the provider's answer before it unregisters.
  unfoldable pub shutdown : Clock → Service S → Option (Service S)
  shutdown c s = shut_down c s.provider s

  -- The flag says whether a variable was deleted.
  unfoldable pub provider_unlocked_cb :
      {Store : Type 0} (efi : EfiOps Store) → Service S → Efi efi → Efi efi × Bool
  provider_unlocked_cb efi s e =
      if s.eospayg_active_efivar then var_delete efi (bytes "active") e else (e, false)
