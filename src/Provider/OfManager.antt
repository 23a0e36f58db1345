-- ===== src/Provider/OfManager.antt =====
-- manager.c: the class `EpgManager` as a provider.
use eos_payg.Base.{ℕ, Bool, some, List}
use eos_payg.Base.Strings.{bytes}
use eos_payg.Manager.{Manager, Runtime}
use eos_payg.Manager.AddCode.{
  add_code, clear_code, wallclock_time_changed, get_expiry_time, get_rate_limit_end_time,
}
use eos_payg.Manager.Shutdown.{shutdown_async}
use eos_payg.Provider.{Provider}

unfoldable pub get_enabled : Manager → Bool
get_enabled m = m.enabled

unfoldable pub get_account_id : Manager → List ℕ
get_account_id m = m.account_id

unfoldable pub manager_provider : Runtime → Provider Manager
manager_provider R = record {
  iface_add_code = some (λ c code_str m. add_code R c code_str m);
  iface_clear_code = some clear_code;
  iface_shutdown_async = some shutdown_async;
  iface_wallclock_time_changed = some (λ c delta m. wallclock_time_changed R c delta m);
  iface_get_expiry_time = some get_expiry_time;
  iface_get_enabled = some get_enabled;
  iface_get_rate_limit_end_time = some get_rate_limit_end_time;
  iface_get_clock = some (λ c m. c);
  iface_get_account_id = some get_account_id;
  iface_code_format = some (bytes "^[0-9]{8}$");
  iface_code_format_prefix = some (bytes "");
  iface_code_format_suffix = some (bytes "");
  iface_code_length = 8;
}
