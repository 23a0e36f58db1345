-- ===== src/Daemon/Firmware.antt =====
-- The decision to enforce PAYG, from the files of efivarfs.
use eos_payg.Base.{ℕ, ◌≡◌, refl, ap, ◌∙◌, inl, true, false, ◌&&◌, ◌||◌, none}
use eos_payg.Base.Strings.{bytes}
use eos_payg.Debug.{get_secure_boot_enabled, get_eospayg_active_set}
use eos_payg.Debug.Decisions.{default_decisions_lem}
use eos_payg.Efi.{Name, full_efi_name, eospayg_efi_name, Efi}
use eos_payg.Efi.Boot.{global_variable_guid, secureboot_active, efi_variables}
use eos_payg.Efi.Efivarfs.{Kernel, efivarfs_ops}
use eos_payg.Efi.Efivarfs.Contents.{Documented, IsReliable}
use eos_payg.Efi.Efivarfs.Flags.{
  is_flag_set, is_there, var_read_fullname_boolean_lem, var_exists-is_there,
}
use eos_payg.Daemon.{Host, decide}
use eos_payg.Daemon.Enforcing.{decide_lem}

module _ {F : Type 0} (K : Kernel F) (D : Documented K) (works : IsReliable K D) where
  -- SecureBoot, EOSPAYG_debug and EOSPAYG_active, with the bytes of their files.
  abbrev pub secure_boot_file : Name
  secure_boot_file = full_efi_name global_variable_guid (bytes "SecureBoot")

  secureboot_active-is_flag_set :
      (e : Efi (efivarfs_ops K)) (stray : ℕ)
      → e.post_pivot ≡ false
      → secureboot_active (efivarfs_ops K) false stray e
        ≡ is_flag_set (D.contents secure_boot_file e.store)
  unfolding secureboot_active
  secureboot_active-is_flag_set e stray early =
      var_read_fullname_boolean_lem K D works secure_boot_file e stray early

  -- For a daemon from the initramfs over efivarfs, before the pivot, if no call on a file that is
  -- there fails and there is no file for EOSPAYG_debug, PAYG is enforced exactly if there is a
  -- file for EOSPAYG_active and the first byte of SecureBoot, behind its attributes, is there and
  -- not 0 or its check is skipped.
  pub decide-contents :
      (h : Host) (e : Efi (efivarfs_ops K)) (stray : ℕ)
      → h.variables ≡ efi_variables (efivarfs_ops K) stray e
      → e.post_pivot ≡ false
      → h.in_initramfs ≡ true
      → D.contents (eospayg_efi_name (bytes "debug")) e.store ≡ none
      → (decide (efivarfs_ops K) h e).enforcing_mode ≡ (
          (h.skip_sb_check || is_flag_set (D.contents secure_boot_file e.store))
          && is_there (D.contents (eospayg_efi_name (bytes "active")) e.store))
  unfolding efi_variables
  decide-contents h e stray same early here no_debug =
      let v = efi_variables (efivarfs_ops K) stray e in
      let undecided : v.debug_exists ≡ false =
        var_exists-is_there K D works (bytes "debug") e ∙ ap is_there no_debug in
      let (_, secure, active, _, _, _) = default_decisions_lem v none (inl undecided) in
      let boot : get_secure_boot_enabled h.variables
          ≡ is_flag_set (D.contents secure_boot_file e.store) =
        ap get_secure_boot_enabled same ∙ secure ∙ secureboot_active-is_flag_set e stray early in
      let activated : get_eospayg_active_set h.variables
          ≡ is_there (D.contents (eospayg_efi_name (bytes "active")) e.store) =
        ap get_eospayg_active_set same
        ∙ active
        ∙ var_exists-is_there K D works (bytes "active") e in
      (decide_lem (efivarfs_ops K) h e).1 ∙ rw (here, boot, activated) refl
