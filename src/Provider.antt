-- ===== src/Provider.antt =====
-- libeos-payg/provider.c: the interface of a provider of credit. A virtual function that a class
-- leaves `NULL` is `none` in the record, and a wrapper's failed `g_assert` is the result `none`; so is
-- the crash of the one wrapper that does not test its function. An operation takes what it reads from
-- its clock, as in `Manager`.
pub mod OfManager
use eos_payg.Base.{ℕ, Bool, Option, none, some, List, []}
use eos_payg.Base.Int.{ℤ}
use eos_payg.Manager.{Clock, ManagerError, ◌>>=◌}
use eos_payg.Manager.AddCode.{AddResult}

-- `EpgProviderInterface`, for a class whose instances have a state of type `S`. `get_clock` gives the
-- provider's clock, among what can be read at the time of the call.
pub record Provider (S : Type 0) : Type 0 where
  pub iface_add_code : Option (Clock → List ℕ → S → Option (S × AddResult))
  pub iface_clear_code : Option (Clock → S → Option (S × Option ManagerError))
  pub iface_shutdown_async : Option (Clock → S → S)
  pub iface_wallclock_time_changed : Option (Clock → ℤ → S → Option S)
  pub iface_get_expiry_time : Option (S → ℕ)
  pub iface_get_enabled : Option (S → Bool)
  pub iface_get_rate_limit_end_time : Option (S → ℕ)
  pub iface_get_clock : Option (Clock → S → Clock)
  pub iface_get_account_id : Option (S → List ℕ)
  pub iface_code_format : Option (List ℕ)
  pub iface_code_format_prefix : Option (List ℕ)
  pub iface_code_format_suffix : Option (List ℕ)
  pub iface_code_length : ℕ

module _ {S : Type 0} (P : Provider S) where
  unfoldable pub provider_add_code : Clock → List ℕ → S → Option (S × AddResult)
  provider_add_code c code_str s = do f ← P.iface_add_code; f c code_str s

  unfoldable pub provider_clear_code : Clock → S → Option (S × Option ManagerError)
  provider_clear_code c s = do f ← P.iface_clear_code; f c s

  unfoldable pub provider_shutdown_async : Clock → S → Option S
  provider_shutdown_async c s = do f ← P.iface_shutdown_async; some (f c s)

  unfoldable pub provider_wallclock_time_changed : Clock → ℤ → S → Option S
  provider_wallclock_time_changed c delta s = do f ← P.iface_wallclock_time_changed; f c delta s

  unfoldable pub provider_get_expiry_time : S → Option ℕ
  provider_get_expiry_time s = do f ← P.iface_get_expiry_time; some (f s)

  unfoldable pub provider_get_enabled : S → Option Bool
  provider_get_enabled s = do f ← P.iface_get_enabled; some (f s)

  unfoldable pub provider_get_rate_limit_end_time : S → Option ℕ
  provider_get_rate_limit_end_time s = do f ← P.iface_get_rate_limit_end_time; some (f s)

  unfoldable pub provider_get_code_format : Option (List ℕ)
  provider_get_code_format = P.iface_code_format

  -- The empty text, unless the class has one.
  abbrev or_empty : Option (List ℕ) → List ℕ
  or_empty none = []
  or_empty (some text) = text

  unfoldable pub provider_get_code_format_prefix : List ℕ
  provider_get_code_format_prefix = or_empty P.iface_code_format_prefix

  unfoldable pub provider_get_code_format_suffix : List ℕ
  provider_get_code_format_suffix = or_empty P.iface_code_format_suffix

  unfoldable pub provider_get_code_length : ℕ
  provider_get_code_length = P.iface_code_length

  unfoldable pub provider_get_clock : Clock → S → Option Clock
  provider_get_clock c s = do f ← P.iface_get_clock; some (f c s)

  unfoldable pub provider_get_account_id : S → Option (List ℕ)
  provider_get_account_id s = do f ← P.iface_get_account_id; some (f s)
