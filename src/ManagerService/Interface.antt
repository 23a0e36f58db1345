-- ===== src/ManagerService/Interface.antt =====
-- libeos-payg/manager-interface.h: what the object says of its methods, signals and properties, with
-- the types of their values as D-Bus signatures.
use eos_payg.Base.{List, [], ◌∷◌, Option, none, some}
use eos_payg.ManagerService.{payg_interface}
use Prim.Native.String.{String}

pub record ArgInfo : Type 0 where
  pub arg_name : String
  pub signature : String

pub record MethodInfo : Type 0 where
  pub method_name : String
  pub in_args : List ArgInfo
  pub out_args : List ArgInfo

pub record SignalInfo : Type 0 where
  pub signal_name : String
  pub args : List ArgInfo

-- All of them have the flag `G_DBUS_PROPERTY_INFO_FLAGS_READABLE` alone.
pub record PropertyInfo : Type 0 where
  pub property_name : String
  pub signature : String

pub record InterfaceInfo : Type 0 where
  pub name : String
  pub methods : List MethodInfo
  pub signals : List SignalInfo
  pub properties : List PropertyInfo

abbrev pub arg : String → String → ArgInfo
arg n t = record { arg_name = n; signature = t }

abbrev pub property : String → String → PropertyInfo
property n t = record { property_name = n; signature = t }

abbrev pub manager_interface_methods : List MethodInfo
manager_interface_methods =
    (record {
      method_name = "AddCode";
      in_args = arg "code" "s" ∷ [];
      out_args = arg "time_added" "x" ∷ [];
    })
    ∷ (record { method_name = "ClearCode"; in_args = []; out_args = [] })
    ∷ []

abbrev pub manager_interface_signals : List SignalInfo
manager_interface_signals =
    (record { signal_name = "Expired"; args = [] })
    ∷ (record {
      signal_name = "ImpendingShutdown";
      args = arg "seconds_remaining" "i" ∷ arg "shutdown_reason" "s" ∷ [];
    })
    ∷ []

abbrev pub manager_interface_properties : List PropertyInfo
manager_interface_properties =
    property "ExpiryTime" "t"
    ∷ property "Enabled" "b"
    ∷ property "RateLimitEndTime" "t"
    ∷ property "CodeFormat" "s"
    ∷ property "CodeFormatPrefix" "s"
    ∷ property "CodeFormatSuffix" "s"
    ∷ property "CodeLength" "u"
    ∷ property "AccountID" "s"
    ∷ []

abbrev pub manager_interface : InterfaceInfo
manager_interface = record {
  name = payg_interface;
  methods = manager_interface_methods;
  signals = manager_interface_signals;
  properties = manager_interface_properties;
}

-- `epg_manager_service_entry_introspect`: the interfaces of a node, which is `none` for the root.
unfoldable pub entry_introspect : Option String → List InterfaceInfo
entry_introspect none = manager_interface ∷ []
entry_introspect (some node) = []
