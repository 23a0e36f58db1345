-- ===== src/ManagerService/Properties.antt =====
-- The properties of com.endlessm.Payg1: `manager_properties`, and org.freedesktop.DBus.Properties.
pub mod GetAll
use eos_payg.Base.{
  ℕ, ◌≡◌, Bool, true, false, not, ◌&&◌, Option, none, some, List, [], ◌∷◌, if◌then◌else◌,
}
use eos_payg.Manager.{ManagerError, ◌>>=◌}
use eos_payg.Provider.{
  Provider, provider_get_expiry_time, provider_get_enabled, provider_get_rate_limit_end_time,
  provider_get_code_format, provider_get_code_format_prefix, provider_get_code_format_suffix,
  provider_get_code_length, provider_get_account_id,
}
use eos_payg.ManagerService.{
  Variant, uint64, uint32, boolean, string, changed, ManagerService, payg_interface,
  properties_interface, emit_signal,
}
use Prim.Native.String.{String}
use text.Mathlib.Text.{◌==◌ as str_eq}

-- `G_DBUS_ERROR`, and an error of the provider's.
pub data DbusError : Type 0 where
  unknown_interface unknown_property property_read_only : DbusError
  provider_error : ManagerError → DbusError

-- What a call is answered with: values, a dictionary, or an error.
pub data Reply : Type 0 where
  return_value : List Variant → Reply
  return_dict : List (String × Variant) → Reply
  return_error : DbusError → Reply

-- An entry of `manager_properties`, for the provider whose state is an `S`. A function `NULL` is
-- `none`.
pub record PropertyEntry (S : Type 0) : Type 0 where
  pub interface_name : String
  pub property_name : String
  pub object_property_name : String
  pub get_func : S → Option Variant
  pub set_func : Option (Variant → S → Option (S × Reply))

-- A read-only entry.
abbrev pub read_only : {S : Type 0} → String → String → (S → Option Variant) → PropertyEntry S
read_only n o get = record {
  interface_name = payg_interface;
  property_name = n;
  object_property_name = o;
  get_func = get;
  set_func = none;
}

-- A text, of a function that can fail its assertion.
abbrev as_text : Option (List ℕ) → Option Variant
as_text none = none
as_text (some t) = some (string t)

abbrev as_uint64 : Option ℕ → Option Variant
as_uint64 none = none
as_uint64 (some n) = some (uint64 n)

abbrev as_boolean : Option Bool → Option Variant
as_boolean none = none
as_boolean (some b) = some (boolean b)

-- The functions `epg_manager_service_manager_get_…`.
module _ {S : Type 0} (P : Provider S) where
  unfoldable pub get_expiry_time : S → Option Variant
  get_expiry_time p = as_uint64 (provider_get_expiry_time P p)

  unfoldable pub get_enabled : S → Option Variant
  get_enabled p = as_boolean (provider_get_enabled P p)

  unfoldable pub get_rate_limit_end_time : S → Option Variant
  get_rate_limit_end_time p = as_uint64 (provider_get_rate_limit_end_time P p)

  unfoldable pub get_code_format : S → Option Variant
  get_code_format p = as_text (provider_get_code_format P)

  unfoldable pub get_code_format_prefix : S → Option Variant
  get_code_format_prefix p = some (string (provider_get_code_format_prefix P))

  unfoldable pub get_code_format_suffix : S → Option Variant
  get_code_format_suffix p = some (string (provider_get_code_format_suffix P))

  unfoldable pub get_code_length : S → Option Variant
  get_code_length p = some (uint32 (provider_get_code_length P))

  unfoldable pub get_account_id : S → Option Variant
  get_account_id p = as_text (provider_get_account_id P p)

  abbrev pub manager_properties : List (PropertyEntry S)
  manager_properties =
      read_only "ExpiryTime" "expiry-time" get_expiry_time
      ∷ read_only "Enabled" "enabled" get_enabled
      ∷ read_only "RateLimitEndTime" "rate-limit-end-time" get_rate_limit_end_time
      ∷ read_only "CodeFormat" "code-format" get_code_format
      ∷ read_only "CodeFormatPrefix" "code-format-prefix" get_code_format_prefix
      ∷ read_only "CodeFormatSuffix" "code-format-suffix" get_code_format_suffix
      ∷ read_only "CodeLength" "code-ui-string" get_code_length
      ∷ read_only "AccountID" "account-id" get_account_id
      ∷ []

-- `g_variant_dict_insert_value`, which replaces the value of a key that is there.
unfoldable pub insert_value : String → Variant → List (String × Variant) → List (String × Variant)
insert_value n v [] = (n, v) ∷ []
insert_value n v ((k, w) ∷ d) =
    let rest = insert_value n v d in if str_eq k n then (k, v) ∷ d else (k, w) ∷ rest

abbrev pub got : Option Variant → Option Reply
got none = none
got (some v) = some (return_value (v ∷ []))

abbrev got_all : Option (List (String × Variant)) → Option Reply
got_all none = none
got_all (some d) = some (return_dict d)

module _ {S : Type 0} where
  abbrev pub is_property : String → String → PropertyEntry S → Bool
  is_property i n e = str_eq e.interface_name i && str_eq e.property_name n

  -- The first entry of the name.
  unfoldable pub find_property : String → String → List (PropertyEntry S) → Option (PropertyEntry S)
  find_property i n [] = none
  find_property i n (e ∷ es) =
      let rest = find_property i n es in if is_property i n e then some e else rest

  unfoldable pub find_object_property : String → List (PropertyEntry S) → Option (PropertyEntry S)
  find_object_property n [] = none
  find_object_property n (e ∷ es) =
      let rest = find_object_property n es in
      if str_eq n e.object_property_name then some e else rest

  abbrev pub get_found : Option (PropertyEntry S) → S → Option Reply
  get_found none p = some (return_error unknown_property)
  get_found (some e) p = got (e.get_func p)

  abbrev pub set_with : Option (Variant → S → Option (S × Reply)) → Variant → S → Option (S × Reply)
  set_with none v p = some (p, return_error property_read_only)
  set_with (some f) v p = f v p

  abbrev pub set_found : Option (PropertyEntry S) → Variant → S → Option (S × Reply)
  set_found none v p = some (p, return_error unknown_property)
  set_found (some e) v p = set_with e.set_func v p

  -- The loop of `epg_manager_service_manager_properties_get_all`.
  unfoldable pub insert_all :
      String
      → S
      → List (PropertyEntry S)
      → List (String × Variant)
      → Option (List (String × Variant))
  insert_all i p [] d = some d
  insert_all i p (e ∷ es) d =
      if str_eq e.interface_name i
      then (do v ← e.get_func p; insert_all i p es (insert_value e.property_name v d))
      else insert_all i p es d

-- `is_interface_name` is `g_dbus_is_interface_name`.
module _ (is_interface_name : String → Bool) {S : Type 0} (P : Provider S) where
  unfoldable pub properties_get : String → String → S → Option Reply
  properties_get i n p =
      if is_interface_name i
      then get_found (find_property i n (manager_properties P)) p
      else some (return_error unknown_interface)

  unfoldable pub properties_set : String → String → Variant → S → Option (S × Reply)
  properties_set i n v p =
      if is_interface_name i
      then set_found (find_property i n (manager_properties P)) v p
      else some (p, return_error unknown_interface)

  unfoldable pub properties_get_all : String → S → Option Reply
  properties_get_all i p =
      if is_interface_name i
      then (if str_eq i payg_interface
          then got_all (insert_all i p (manager_properties P) [])
          else some (return_error unknown_interface))
      else some (return_error unknown_interface)

-- `PropertiesChanged` for the D-Bus property of a notified property of the object, if it has one.
module _ {S : Type 0} (P : Provider S) where
  abbrev changed_property : Option (PropertyEntry S) → S → ManagerService → Option ManagerService
  changed_property none p s = some s
  changed_property (some e) p s = do
    value ← e.get_func p
    some (
        emit_signal properties_interface "PropertiesChanged"
          (changed e.interface_name ((e.property_name, value) ∷ []) []) s)

  unfoldable pub notify_cb : String → S → ManagerService → Option ManagerService
  notify_cb object_property p s =
      changed_property (find_object_property object_property (manager_properties P)) p s
