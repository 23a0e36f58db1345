-- ===== src/Efi/Boot.antt =====
-- The Boolean variables of the firmware, and what the functions of libeos-payg/util.c ask for.
use eos_payg.Base.{
  ℕ, Bool, true, false, not, ◌&&◌, Option, none, some, List, ◌==◌, get_or, if◌then◌else◌,
}
use eos_payg.Base.Strings.{bytes}
use eos_payg.Debug.{EfiVariables}
use eos_payg.Efi.{Name, full_efi_name, EfiOps, Efi, var_exists, var_read, var_read_fullname}

-- GLOBAL_VARIABLE_GUID and SECUREBOOT_SETUP_GUID.
abbrev pub global_variable_guid : Name
global_variable_guid = bytes "8be4df61-93ca-11d2-aa0d-00e098032b8c"

abbrev pub secureboot_setup_guid : Name
secureboot_setup_guid = bytes "7b59104a-c00d-4158-87ff-f04d6396a915"

pub data EfivarStates : Type 0 where
  efivar_not_exist efivar_true efivar_false : EfivarStates

module _ {Store : Type 0} (efi : EfiOps Store) where
  -- `stray` is the byte behind a content that is empty.
  abbrev pub first_byte : ℕ → Option (List ℕ) → Bool
  first_byte stray none = false
  first_byte stray (some content) = not (get_or content 0 stray == 0)

  unfoldable pub var_read_fullname_boolean : ℕ → Name → Efi efi → Bool
  var_read_fullname_boolean stray name e = first_byte stray (var_read_fullname efi name none e)

  unfoldable pub secureboot_active : Bool → ℕ → Efi efi → Bool
  unfolding var_read_fullname_boolean
  secureboot_active test_mode stray e =
      if test_mode
      then true
      else var_read_fullname_boolean stray (full_efi_name global_variable_guid (bytes "SecureBoot"))
          e

  unfoldable pub setupmode_active : ℕ → Efi efi → Bool
  unfolding var_read_fullname_boolean
  setupmode_active stray e =
      var_read_fullname_boolean stray (full_efi_name global_variable_guid (bytes "SetupMode")) e

  abbrev pub is_none : Option (List ℕ) → Bool
  is_none none = true
  is_none (some content) = false

  -- `is_not_found` is whether the store's error for a reading that fails is that the variable does
  -- not exist; the error after the pivot is another one.
  unfoldable pub secureboot_setup_active : (Name → Store → Bool) → ℕ → Efi efi → EfivarStates
  unfolding var_read_fullname_boolean
  secureboot_setup_active is_not_found stray e =
      let name = full_efi_name secureboot_setup_guid (bytes "SecureBootSetup") in
      let flag = var_read_fullname_boolean stray name e in
      if is_none (var_read_fullname efi name none e)
        && not e.post_pivot
        && is_not_found name e.store
      then efivar_not_exist
      else if flag
      then efivar_true
      else efivar_false

  -- What `_read_eospayg_debug` and the decisions read of a store that is not the tests'.
  unfoldable pub efi_variables : ℕ → Efi efi → EfiVariables
  unfolding secureboot_active
  efi_variables stray e = record {
    debug_exists = var_exists efi (bytes "debug") e;
    debug_content = var_read efi (bytes "debug") none e;
    stray = stray;
    secureboot_active = secureboot_active false stray e;
    active_exists = var_exists efi (bytes "active") e;
  }
