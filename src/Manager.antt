-- ===== src/Manager.antt =====
-- libeos-payg/manager.c: the state of an `EpgManager`, what it takes from outside, and what it tells
-- the outside. The operations are in the modules below, one to a part of the file.
--
-- An operation returns the new state beside its result; `none` is a failed `g_assert`, which aborts
-- the process. Signals, property notifications and started saves are kept in `events`, newest first.
pub mod Keeps
pub mod RateLimit
pub mod UsedCodes
pub mod Expiry
pub mod Save
pub mod Shutdown
pub mod AddCode
pub mod Trace
pub mod Load
pub mod Construct
use eos_payg.Base.{
  ℕ, zero, suc, ◌+◌, ◌-◌, ◌^◌, ◌≤◌, ◌<◌, ◌≡◌, Bool, true, false, Option, none, some, List, [], ◌∷◌,
  ltb, ◌==◌, ◌&&◌, if◌then◌else◌, length, ◌⊎◌,
}
use eos_payg.Base.Int.{ℤ, pos, negsuc, sub_ℕ}
use eos_payg.Codes.{Glib}

abbrev pub max_uint64 : ℕ
max_uint64 = 2 ^ 64 - 1

abbrev pub max_uint : ℕ
max_uint = 2 ^ 32 - 1

abbrev pub max_int64 : ℕ
max_int64 = 2 ^ 63 - 1

-- An entry of the used-codes file.
pub record UsedCode : Type 0 where
  pub counter : ℕ
  pub period : ℕ

-- The order of the entries: the counter first.
unfoldable pub used_codes_sort_cb : UsedCode → UsedCode → ℤ
used_codes_sort_cb a b =
    if a.counter == b.counter
    then if a.period == b.period then pos 0 else sub_ℕ a.period b.period
    else sub_ℕ a.counter b.counter

abbrev pub same_code : UsedCode → UsedCode → Bool
same_code a b = a.counter == b.counter && a.period == b.period

-- How often an entry stands in a list.
abbrev pub count : UsedCode → List UsedCode → ℕ
count u [] = 0
count u (v ∷ vs) = let rest = count u vs in if same_code u v then suc rest else rest

-- What a comparison function says of two entries that stand in order.
abbrev pub IsNotPositive : ℤ → Type 0
IsNotPositive (pos n) = n ≡ 0
IsNotPositive (negsuc n) = Unit {0}

abbrev pub IsSorted : List UsedCode → Type 0
IsSorted [] = Unit {0}
IsSorted (u ∷ []) = Unit {0}
IsSorted (u ∷ v ∷ vs) = IsNotPositive (used_codes_sort_cb u v) × IsSorted (v ∷ vs)

-- The functions of GLib that the manager rests on, beside those that codes.c uses.
-- `array_sort` is `g_array_sort` with `used_codes_sort_cb`: it reorders the entries, so that
-- neighbours are in order.
pub record Runtime : Type 0 where
  pub glib : Glib
  pub uint64_checked_add : ℕ → ℕ → Option ℕ
  pub array_sort : List UsedCode → List UsedCode
  pub uint64_checked_add_fits :
      (a b : ℕ) → a + b ≤ 2 ^ 64 - 1 → uint64_checked_add a b ≡ some (a + b)
  pub uint64_checked_add_overflow : (a b : ℕ) → 2 ^ 64 - 1 < a + b → uint64_checked_add a b ≡ none
  pub count-array_sort : (u : UsedCode) (l : List UsedCode) → count u (array_sort l) ≡ count u l
  pub array_sort-IsSorted : (l : List UsedCode) → IsSorted (array_sort l)

-- What one operation reads from its `EpgClock`: the two times, the two times that a save which it
-- starts reads again, and whether `epg_clock_source_new_seconds` gives a source. All times are
-- `guint64` seconds.
pub record Clock : Type 0 where
  pub time : ℕ
  pub wallclock : ℕ
  pub save_time : ℕ
  pub save_wallclock : ℕ
  pub source_ok : Bool

-- The contents that a save writes to the state directory; no used codes delete the file.
pub record Snapshot : Type 0 where
  pub clock_time : List ℕ
  pub expiry_seconds : List ℕ
  pub used_codes : Option (List ℕ)

pub data Event : Type 0 where
  notify_expiry_time notify_enabled notify_rate_limit_end_time expired : Event
  save_started : Snapshot → Event
  shutdown_returned : Bool → Event

-- `EpgManagerError`, and `G_IO_ERROR_CANCELLED`.
pub data ManagerError : Type 0 where
  invalid_code code_already_used too_many_attempts disabled display_account_id cancelled :
      ManagerError

-- `expiry` is the interval of the attached expiry source, in seconds. `pending_shutdown` says
-- whether a shutdown waits for saves, `is_cancelled` whether `cancellable` is.
pub record Manager : Type 0 where
  pub used_codes : List UsedCode
  pub expiry_time_secs : ℕ
  pub enabled : Bool
  pub key_bytes : List ℕ
  pub account_id : List ℕ
  pub expiry : Option ℕ
  pub last_save_time_secs : ℕ
  pub last_save_expiry_secs : ℕ
  pub last_save_time_secs_set : Bool
  pub last_save_expiry_secs_set : Bool
  pub rate_limiting_history : List ℕ
  pub rate_limit_end_time_secs : ℕ
  pub pending_internal_save_state_calls : ℕ
  pub pending_shutdown : Bool
  pub is_cancelled : Bool
  pub events : List Event

abbrev pub emit : Event → Manager → Manager
emit e m = record m { events = e ∷ m.events }

-- `if (self->enabled) g_object_notify (…)`.
abbrev pub emit_if_enabled : Event → Manager → Manager
emit_if_enabled e m = if m.enabled then emit e m else m

infixl 5 ◌>>=◌ ◌>>◌
abbrev pub ◌>>=◌ {ℓ κ} : {A : Type ℓ} {B : Type κ} → Option A → (A → Option B) → Option B
none >>= f = none
some a >>= f = f a

abbrev pub ◌>>◌ {ℓ} : {B : Type ℓ} → Option (Unit {0}) → Option B → Option B
m >> k = m >>= λ _. k

-- `g_assert`.
abbrev pub assert : Bool → Option (Unit {0})
assert true = some tt
assert false = none
