-- ===== src/ManagerService.antt =====
-- libeos-payg/manager-service.c: the object com.endlessm.Payg1 on the bus, which forwards calls to a
-- provider, tells of its changes, and powers the computer off ten minutes after the credit has
-- expired. The state of the object also holds what it has asked of the main loop and of the bus: the
-- timers that run, the times that one of them powered off, and the signals emitted, newest first.
-- `none` is a failed assertion.
pub mod Properties
pub mod Calls
pub mod Interface
pub mod Timer
pub mod EndToEnd
use eos_payg.Base.{
  ℕ, ◌+◌, ◌*◌, ◌^◌, ◌≡◌, Bool, true, false, not, ◌||◌, Option, none, some, List, [], ◌∷◌, ltb, leb,
  ◌==◌, if◌then◌else◌,
}
use eos_payg.Base.Int.{ℤ, pos, negsuc}
use eos_payg.Manager.{Clock, assert, ◌>>=◌, ◌>>◌}
use eos_payg.Provider.{Provider, provider_get_clock, provider_get_expiry_time}
use Prim.Native.String.{String}

-- The values of `GVariant` that go over the bus.
pub data Variant : Type 0 where
  uint64 : ℕ → Variant
  uint32 : ℕ → Variant
  int64 : ℤ → Variant
  boolean : Bool → Variant
  string : List ℕ → Variant

-- The parameters of the signals: none, `(is)`, and `(sa{sv}as)`.
pub data Parameters : Type 0 where
  no_parameters : Parameters
  seconds_and_reason : ℤ → String → Parameters
  changed : String → List (String × Variant) → List String → Parameters

pub record Signal : Type 0 where
  pub interface_name : String
  pub signal_name : String
  pub parameters : Parameters

pub record ManagerService : Type 0 where
  pub entry_subtree_id : ℕ
  pub shutdown_timer_id : ℕ
  pub timers : List ℕ
  pub poweroffs : ℕ
  pub signals : List Signal

abbrev pub payg_interface : String
payg_interface = "com.endlessm.Payg1"

abbrev pub properties_interface : String
properties_interface = "org.freedesktop.DBus.Properties"

-- `g_dbus_connection_emit_signal`; the source only warns of its failure.
abbrev pub emit_signal : String → String → Parameters → ManagerService → ManagerService
emit_signal i n ps s = record s {
  signals = (record { interface_name = i; signal_name = n; parameters = ps }) ∷ s.signals;
}

abbrev pub timeout_poweroff_no_credit_minutes : ℕ
timeout_poweroff_no_credit_minutes = 10

-- `g_source_remove`.
abbrev pub source_remove : ℕ → List ℕ → List ℕ
source_remove id [] = []
source_remove id (t ∷ ts) = let rest = source_remove id ts in if id == t then rest else t ∷ rest

-- `new_id` is the id that `g_timeout_add_seconds_full` gives the timer.
unfoldable pub expired_cb : ℕ → ManagerService → Option ManagerService
expired_cb new_id s =
    let s' = emit_signal payg_interface "Expired" no_parameters s in
    if not (s.shutdown_timer_id == 0) then some s' else do
      assert (ltb 0 new_id)
      some (
          emit_signal payg_interface "ImpendingShutdown"
            (seconds_and_reason (pos (60 * 10)) "PAYG credit expired")
            (record s' { shutdown_timer_id = new_id; timers = new_id ∷ s.timers }))

-- `payg_system_poweroff`, which the main loop calls when the timer `id` is over. It is given no
-- pointer to an id to clear, and asks for the removal of the timer.
unfoldable pub shutdown_timer_fires : ℕ → ManagerService → ManagerService
shutdown_timer_fires id s = record s {
  timers = source_remove id s.timers;
  poweroffs = s.poweroffs + 1;
}

module _ {S : Type 0} (P : Provider S) (c : Clock) where
  -- The two times that both callers compare: the expiry time, and now.
  unfoldable pub times : S → Option (ℕ × ℕ)
  times p = do
    clock ← provider_get_clock P c p
    assert (ltb clock.time (2 ^ 63))
    expiry_time ← provider_get_expiry_time P p
    some (expiry_time, clock.time)

  unfoldable pub notify_expiry_time_cb : S → ManagerService → Option ManagerService
  notify_expiry_time_cb p s = if s.shutdown_timer_id == 0 then some s else do
    t ← times p
    some (
        if t.0 == 0 || ltb t.1 t.0
        then emit_signal payg_interface "ImpendingShutdown"
            (seconds_and_reason (negsuc 0) "PAYG credit extended")
            (record s {
              timers = source_remove s.shutdown_timer_id s.timers;
              shutdown_timer_id = 0;
            })
        else s)

  -- `epg_manager_service_new`: a new object, of which the provider is set.
  unfoldable pub set_provider : ℕ → S → ManagerService → Option ManagerService
  set_provider new_id p s = do t ← times p; if leb t.0 t.1 then expired_cb new_id s else some s

abbrev pub new_service : ManagerService
new_service = record {
  entry_subtree_id = 0;
  shutdown_timer_id = 0;
  timers = [];
  poweroffs = 0;
  signals = [];
}

-- `subtree_id` is what `g_dbus_connection_register_subtree` gives, 0 for an error.
unfoldable pub register : ℕ → ManagerService → ManagerService × Bool
register subtree_id s =
    if subtree_id == 0 then (s, false) else (record s { entry_subtree_id = subtree_id }, true)

unfoldable pub unregister : ManagerService → ManagerService
unregister s = record s { entry_subtree_id = 0 }
