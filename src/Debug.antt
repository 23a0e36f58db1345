-- ===== src/Debug.antt =====
-- libeos-payg/util.c: how the EFI variable EOSPAYG_debug overrides the daemon's decisions.
pub mod Decisions
use eos_payg.Base.{
  ℕ, ◌*◌, ◌^◌, bit_and, bit_or, Bool, true, false, not, ◌&&◌, Option, none, some, List, get_or,
  ◌==◌, if◌then◌else◌,
}

abbrev pub set_g_messages_debug_all : ℕ
set_g_messages_debug_all = 2 ^ 0

abbrev pub secure_boot_off : ℕ
secure_boot_off = 2 ^ 1

abbrev pub secure_boot_on : ℕ
secure_boot_on = 2 ^ 2

abbrev pub eospayg_active_off : ℕ
eospayg_active_off = 2 ^ 3

abbrev pub eospayg_active_on : ℕ
eospayg_active_on = 2 ^ 4

abbrev pub dont_use_watchdog : ℕ
dont_use_watchdog = 2 ^ 5

abbrev pub dont_use_lsm : ℕ
dont_use_lsm = 2 ^ 6

abbrev pub skip_securitylevel_check : ℕ
skip_securitylevel_check = 2 ^ 7

-- What the calls of efi.c give: whether `debug` exists, its content unless it cannot be read,
-- whether secure boot is active, and whether `active` exists. `stray` is the byte that the source
-- reads behind the content if that is empty.
pub record EfiVariables : Type 0 where
  pub debug_exists : Bool
  pub debug_content : Option (List ℕ)
  pub stray : ℕ
  pub secureboot_active : Bool
  pub active_exists : Bool

-- `flags & flag`, as a condition.
abbrev pub has_flag : ℕ → ℕ → Bool
has_flag flags flag = not (bit_and flags flag == 0)

-- `if (byte & flag) debug_flags |= flag`.
abbrev pub copy_flag : ℕ → ℕ → ℕ → ℕ
copy_flag byte flag debug_flags =
    if has_flag byte flag then bit_or debug_flags flag else debug_flags

unfoldable pub flags_of : ℕ → ℕ
flags_of byte = copy_flag byte skip_securitylevel_check (
    copy_flag byte dont_use_lsm (
      copy_flag byte dont_use_watchdog (
        copy_flag byte eospayg_active_on (
          copy_flag byte eospayg_active_off (
            copy_flag byte secure_boot_on
              (copy_flag byte secure_boot_off (copy_flag byte set_g_messages_debug_all 0)))))))

unfoldable pub read_eospayg_debug : EfiVariables → ℕ
read_eospayg_debug v =
    if v.debug_exists
    then elim v.debug_content [ none ↦ 0 | some content ↦ flags_of (get_or content 0 v.stray) ]
    else 0

-- The environment variable `G_MESSAGES_DEBUG`, where `true` stands for the value "all", and other
-- values are `false`: one that is set is not overwritten.
unfoldable pub set_debug_env_vars : EfiVariables → Option Bool → Option Bool
set_debug_env_vars v env =
    if has_flag (read_eospayg_debug v) set_g_messages_debug_all
    then elim env [ none ↦ some true | some value ↦ some value ]
    else env

unfoldable pub get_secure_boot_enabled : EfiVariables → Bool
get_secure_boot_enabled v =
    if has_flag (read_eospayg_debug v) secure_boot_off
    then false
    else if has_flag (read_eospayg_debug v) secure_boot_on
    then true
    else v.secureboot_active

unfoldable pub get_eospayg_active_set : EfiVariables → Bool
get_eospayg_active_set v =
    if has_flag (read_eospayg_debug v) eospayg_active_off
    then false
    else if has_flag (read_eospayg_debug v) eospayg_active_on
    then true
    else v.active_exists

unfoldable pub should_use_watchdog : EfiVariables → Bool
should_use_watchdog v = not (has_flag (read_eospayg_debug v) dont_use_watchdog)

unfoldable pub should_use_lsm : EfiVariables → Bool
should_use_lsm v = not (has_flag (read_eospayg_debug v) dont_use_lsm)

unfoldable pub should_check_securitylevel : EfiVariables → Bool
should_check_securitylevel v = not (has_flag (read_eospayg_debug v) skip_securitylevel_check)
