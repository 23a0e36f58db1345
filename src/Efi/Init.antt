-- ===== src/Efi/Init.antt =====
-- `eospayg_efi_init` and `eospayg_efi_var_supported`: which operations `efi` points to, and whether the
-- directory of variables is open.
use eos_payg.Base.{
  ◌≡◌, Bool, true, false, not, ◌&&◌, ◌||◌, Option, none, some, if◌then◌else◌, arith,
}

pub data Ops : Type 0 where
  to_test to_efivarfs : Ops

-- The variables of the file; `efi_fd` is whether it is not -1, `efi_dir` whether it is not `NULL`.
pub record Globals : Type 0 where
  pub efi : Option Ops
  pub efi_fd : Bool
  pub efi_dir : Bool
  pub test_mode : Bool

abbrev pub initial_globals : Globals
initial_globals = record { efi = none; efi_fd = false; efi_dir = false; test_mode = false }

-- Whether the two calls of `open` and that of `fdopendir` succeed.
pub record Opens : Type 0 where
  pub first : Bool
  pub second : Bool
  pub stream : Bool

-- The part behind the tests of `efi` and of the flag. A descriptor that was opened before a failure
-- is closed by `glnx_autofd`.
abbrev pub open_efivars : Opens → Globals → Globals × Bool
open_efivars o g =
    let g' = record g { efi = some to_efivarfs } in
    if not o.first
    then (g', false)
    else if not o.second
    then (g', false)
    else if not o.stream
    then (record g' { efi_dir = false }, false)
    else (record g' { efi_dir = true; efi_fd = true }, true)

abbrev pub init_unset : Bool → Opens → Globals → Globals × Bool
init_unset is_test o g =
    if is_test then (record g { test_mode = true; efi = some to_test }, true) else open_efivars o g

-- `is_test` is `flags & EOSPAYG_EFI_TEST_MODE`.
unfoldable pub efi_init : Bool → Opens → Globals → Globals × Bool
efi_init is_test o g = elim g.efi [ none ↦ init_unset is_test o g | some ops ↦ (g, true) ]

unfoldable pub efi_var_supported : Globals → Bool
efi_var_supported g = if g.test_mode then true else g.efi_fd

-- The first call of eospayg_efi_init succeeds exactly in test mode or if the directory can be
-- opened twice and as a stream, and EFI variables are then supported exactly if it succeeded;
-- every further call changes nothing and returns TRUE, also if the first one failed.
pub efi_init-efi_var_supported :
    (is_test again : Bool) (o o' : Opens)
    → let first = efi_init is_test o initial_globals in
      let second = efi_init again o' first.0 in
      (first.1 ≡ (is_test || (o.first && o.second && o.stream)))
      × (efi_var_supported first.0 ≡ first.1)
      × (second ≡ (first.0, true))
unfolding efi_init efi_var_supported
efi_init-efi_var_supported is_test again o o' = ground arith
