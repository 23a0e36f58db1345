-- ===== src/Tests/Daemon.antt =====
-- The daemon over the EFI store of the tests.
use eos_payg.Base.{
  ℕ, ◌≤◌, ◌<◌, ◌≡◌, ◌≢◌, ◌⊎◌, refl, ◌∙◌, true, false, none, some, [], ◌∷◌, if◌then◌else◌, arith,
}
use eos_payg.Debug.{
  EfiVariables, read_eospayg_debug, get_secure_boot_enabled, get_eospayg_active_set,
  should_use_watchdog,
}
use eos_payg.Efi.{Efi, var_read, var_read_fullname, var_write, eospayg_efi_name, full_efi_name}
use eos_payg.Efi.Store.{find_target, test_read, test_write, test_ops}
use eos_payg.Daemon.{
  Host, ran, signalled, failed, exit_success, raised, pings_watchdog, spinning, level_name,
  test_and_update_securitylevel, decide, finish, main,
}
use eos_payg.Daemon.SecurityLevel.{
  test_ops-IsOverwriting, took_level, test_and_update_securitylevel_lem,
}
use eos_payg.Daemon.Enforcing.{decide_lem, main-enforcing}
use eos_payg.Daemon.Spin.{is_due, finish_lem}

abbrev empty : Efi test_ops
empty = record { store = none ∷ none ∷ none ∷ []; post_pivot = false }

-- A store with the level 200.
abbrev with_level : Efi test_ops
with_level = (var_write test_ops (level_name test_ops) (200 ∷ []) empty).0

level_read : var_read test_ops (level_name test_ops) (some 1) with_level ≡ some (200 ∷ [])
unfolding var_read var_write test_write test_read find_target var_read_fullname eospayg_efi_name
    full_efi_name
level_read = refl

early : with_level.post_pivot ≡ false
unfolding var_write
early = refl

test_and_update_securitylevel_lem_example :
    ((4 < 200)
      × (200 < 128)
      × (test_and_update_securitylevel test_ops with_level ≡ (with_level, false)))
    ⊎ (((◌≡◌ {A = ℕ} 200 4)
          × (test_and_update_securitylevel test_ops with_level ≡ (with_level, true)))
        ⊎ (((200 < 4) ⊎ (128 ≤ 200))
            × ((e' : Efi test_ops) × (test_and_update_securitylevel test_ops with_level
                  ≡ (e', true))
                × ((took_level test_ops with_level ≡ false)
                    ⊎ (var_read test_ops (level_name test_ops) (some 1) e' ≡ some (4 ∷ []))))))
test_and_update_securitylevel_lem_example =
    test_and_update_securitylevel_lem test_ops with_level 200 test_ops-IsOverwriting early
      (omega arith) level_read

abbrev no_debug : EfiVariables
no_debug = record {
  debug_exists = false;
  debug_content = none;
  stray = 0;
  secureboot_active = true;
  active_exists = true;
}

-- A secure start whose service fails.
abbrev pub host : Host
host = record {
  in_initramfs = true;
  efi_init_ok = true;
  variables = no_debug;
  skip_sb_check = false;
  hwclock_init_ok = true;
  watchdog_opens = true;
  lsm_opens = true;
  has_notify_socket = true;
  notify_ok = true;
  bus_attempts = false ∷ true ∷ [];
  run_result = failed;
  source_id = 12;
  iterations = false ∷ true ∷ false ∷ [];
}

modes :
    (get_secure_boot_enabled no_debug ≡ true)
    × (get_eospayg_active_set no_debug ≡ true)
    × (should_use_watchdog no_debug ≡ true)
unfolding get_secure_boot_enabled get_eospayg_active_set should_use_watchdog read_eospayg_debug
modes = (refl, refl, refl)

enforced : (decide test_ops host empty).enforcing_mode ≡ true
enforced = (decide_lem test_ops host empty).1 ∙ simp (modes.0, modes.1)

main-enforcing_example : main test_ops host empty ≢ exit_success
main-enforcing_example =
    main-enforcing test_ops host empty enforced (decide_lem test_ops host empty).0 modes.2

finish_lem_example :
    let d = decide test_ops host empty in
    ((failed ≡ failed) × (finish test_ops host d ≡ spinning))
    ⊎ (((failed ≡ signalled)
          × (finish test_ops host d ≡ (if is_due host.iterations then raised else spinning)))
        ⊎ ((failed ≡ ran)
            × (finish test_ops host d ≡ (if d.watchdog then pings_watchdog else exit_success))))
finish_lem_example = finish_lem test_ops host (decide test_ops host empty) (omega arith) enforced
