-- ===== src/ManagerService/Calls.antt =====
-- The dispatch of method calls: `manager_methods` and its handlers.
use eos_payg.Base.{ℕ, Bool, false, ◌&&◌, Option, none, some, List, [], ◌∷◌, if◌then◌else◌}
use eos_payg.Base.Int.{pos}
use eos_payg.Manager.{Clock, ManagerError, ◌>>=◌}
use eos_payg.Manager.AddCode.{AddResult, added, refused}
use eos_payg.Provider.{Provider, provider_add_code, provider_clear_code}
use eos_payg.ManagerService.{Variant, int64, payg_interface, properties_interface}
use eos_payg.ManagerService.Properties.{
  Reply, return_value, return_error, provider_error, properties_get, properties_set,
  properties_get_all,
}
use Prim.Native.String.{String}
use text.Mathlib.Text.{◌==◌ as str_eq}

-- The parameters of a call, by their D-Bus types.
pub data CallParameters : Type 0 where
  no_arguments : CallParameters
  interface_argument : String → CallParameters
  property_arguments : String → String → CallParameters
  value_arguments : String → String → Variant → CallParameters
  code_argument : List ℕ → CallParameters

-- A handler; a call with parameters of another type never reaches it, and is a failed assertion.
abbrev pub Handler : Type 0 → Type 0
Handler S = Clock → CallParameters → S → Option (S × Reply)

-- An answer that leaves the provider as it is.
abbrev unchanged : {S : Type 0} → S → Option Reply → Option (S × Reply)
unchanged p none = none
unchanged p (some r) = some (p, r)

abbrev pub add_code_reply : AddResult → Reply
add_code_reply (added time_added) = return_value (int64 (pos time_added) ∷ [])
add_code_reply (refused e) = return_error (provider_error e)

abbrev pub clear_code_reply : Option ManagerError → Reply
clear_code_reply none = return_value []
clear_code_reply (some e) = return_error (provider_error e)

-- What `epg_manager_service_entry_dispatch` finds: whether there is an object at the node, which is
-- `none` for the root, with the interface.
unfoldable pub entry_dispatch : Option String → String → Bool
entry_dispatch none i = str_eq i payg_interface
entry_dispatch (some node) i = false

module _ (is_interface_name : String → Bool) {S : Type 0} (P : Provider S) where
  unfoldable pub call_get : Handler S
  call_get c (property_arguments i n) p = unchanged p (properties_get is_interface_name P i n p)
  call_get c _ p = none

  unfoldable pub call_set : Handler S
  call_set c (value_arguments i n v) p = properties_set is_interface_name P i n v p
  call_set c _ p = none

  unfoldable pub call_get_all : Handler S
  call_get_all c (interface_argument i) p = unchanged p (properties_get_all is_interface_name P i p)
  call_get_all c _ p = none

  unfoldable pub manager_add_code : Handler S
  manager_add_code c (code_argument code_str) p = do
    r ← provider_add_code P c code_str p
    some (r.0, add_code_reply r.1)
  manager_add_code c _ p = none

  unfoldable pub manager_clear_code : Handler S
  manager_clear_code c no_arguments p = do
    r ← provider_clear_code P c p
    some (r.0, clear_code_reply r.1)
  manager_clear_code c _ p = none

  abbrev pub manager_methods : List (String × String × Handler S)
  manager_methods =
      (properties_interface, "Get", call_get)
      ∷ (properties_interface, "Set", call_set)
      ∷ (properties_interface, "GetAll", call_get_all)
      ∷ (payg_interface, "AddCode", manager_add_code)
      ∷ (payg_interface, "ClearCode", manager_clear_code)
      ∷ []

  -- The first handler of the name; that there is one is asserted.
  unfoldable pub find_method :
      String → String → List (String × String × Handler S) → Option (Handler S)
  find_method i n [] = none
  find_method i n ((j, m, func) ∷ rest) =
      let found = find_method i n rest in if str_eq j i && str_eq m n then some func else found

  -- `own_path` is the object's path.
  unfoldable pub method_call : String → String → String → String → Handler S
  method_call own_path object_path i n c parameters p =
      if str_eq object_path own_path
      then (do func ← find_method i n manager_methods; func c parameters p)
      else none
