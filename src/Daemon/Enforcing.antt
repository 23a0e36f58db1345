-- ===== src/Daemon/Enforcing.antt =====
-- Whether PAYG is enforced, and what then keeps the daemon running.
use eos_payg.Base.{
  ◌≡◌, ◌≢◌, refl, sym, ◌∙◌, ap, inl, inr, Bool, true, false, not, ◌&&◌, ◌||◌, if◌then◌else◌,
  Bool-cases, arith,
}
use eos_payg.Debug.{
  get_secure_boot_enabled, get_eospayg_active_set, should_use_watchdog, should_use_lsm,
  should_check_securitylevel,
}
use eos_payg.Efi.{EfiOps, Efi}
use eos_payg.Daemon.{
  Daemon, Host, RunResult, ran, signalled, failed, exit_success, ending, spin, scheduled, finish,
  main, Run, stops, goes_on, open_watchdog, open_lsm, notify_systemd, pivot, decide, and_then,
  end_of, connects, poweroff_unless, start, check_secure_boot, check_active, check_hwclock,
  check_level, test_and_update_securitylevel,
}

module _ {Store : Type 0} (efi : EfiOps Store) (h : Host) where
  -- The modes, which the checks of the level and of the clock leave alone.
  abbrev modes : Daemon efi → Bool × Bool
  modes d = (d.enforcing_mode, d.legacy_mode)

  modes-poweroff_unless : (ok : Bool) (d : Daemon efi) → modes (poweroff_unless efi ok d) ≡ modes d
  modes-poweroff_unless true d = refl
  modes-poweroff_unless false d = refl

  modes-check_level : (d : Daemon efi) → modes (check_level efi h d) ≡ modes d
  unfolding check_level
  modes-check_level d =
      elim (Bool-cases (d.enforcing_mode && should_check_securitylevel h.variables)) [
        | inl checks ↦
            let r = test_and_update_securitylevel efi d.vars in
            rw (checks) (modes-poweroff_unless r.1 (record d { vars = r.0 }))
        | inr skips ↦ rw (skips) refl
      ]

  modes-check_hwclock : (d : Daemon efi) → modes (check_hwclock efi h d) ≡ modes d
  unfolding check_hwclock
  modes-check_hwclock d = elim (Bool-cases (d.enforcing_mode && not h.hwclock_init_ok)) [
    | inl broken ↦ rw (broken) refl
    | inr works ↦ rw (works) refl
  ]

  modes-check_secure_boot :
      (d : Daemon efi)
      → modes (check_secure_boot efi h d) ≡ (
        d.enforcing_mode && (h.skip_sb_check || get_secure_boot_enabled h.variables),
        d.legacy_mode,
      )
  unfolding check_secure_boot
  modes-check_secure_boot d = ground arith

  modes-check_active :
      (d : Daemon efi)
      → modes (check_active efi h d)
        ≡ (d.enforcing_mode && get_eospayg_active_set h.variables, d.legacy_mode)
  unfolding check_active
  modes-check_active d = ground arith

  -- The checks of a start from the initramfs.
  abbrev checked : Efi efi → Daemon efi
  checked e = check_hwclock efi h (
      check_level efi h (
        check_active efi h
          (check_secure_boot efi h (poweroff_unless efi h.efi_init_ok (start efi e)))))

  abbrev allowed : Bool
  allowed =
      (h.skip_sb_check || get_secure_boot_enabled h.variables) && get_eospayg_active_set h.variables

  modes-checked : (e : Efi efi) → modes (checked e) ≡ (allowed, false)
  modes-checked e =
      modes-check_hwclock _
      ∙ modes-check_level _
      ∙ modes-check_active _
      ∙ ap (λ q. (q.0 && get_eospayg_active_set h.variables, q.1))
          (modes-check_secure_boot _
            ∙ ap (λ q. (q.0 && (h.skip_sb_check || get_secure_boot_enabled h.variables), q.1))
                (modes-poweroff_unless h.efi_init_ok (start efi e)))

  decide-early : (e : Efi efi) → h.in_initramfs ≡ true → decide efi h e ≡ checked e
  unfolding decide
  decide-early e early = simp early

  decide-late :
      (e : Efi efi)
      → h.in_initramfs ≡ false
      → decide efi h e ≡ record (start efi e) { legacy_mode = true }
  unfolding decide
  decide-late e late = simp late

  -- The daemon is in legacy mode exactly if it was not started from the initramfs, and enforces
  -- PAYG exactly if it is in legacy mode, or if EOSPAYG_active counts as set and secure boot
  -- counts as enabled or its check is skipped.
  pub decide_lem :
      (e : Efi efi)
      → ((decide efi h e).legacy_mode ≡ not h.in_initramfs)
        × ((decide efi h e).enforcing_mode ≡ (
            not h.in_initramfs
            || ((h.skip_sb_check || get_secure_boot_enabled h.variables)
                && get_eospayg_active_set h.variables)))
  decide_lem e = elim (Bool-cases h.in_initramfs) [
    | inr late ↦ (
      ap (λ d. d.legacy_mode) (decide-late e late) ∙ sym (ap not late),
      ap (λ d. d.enforcing_mode) (decide-late e late) ∙ sym (ap (λ b. not b || allowed) late),
    )
    | inl early ↦
        let all = ap modes (decide-early e early) ∙ modes-checked e in
        (
          ap (λ q. q.1) all ∙ sym (ap not early),
          ap (λ q. q.0) all ∙ sym (ap (λ b. not b || allowed) early),
        )
  ]

  -- Once the watchdog is open, the process does not end with success.
  abbrev IsGuarded : Run efi → Type 0
  IsGuarded (stops ends) = ends ≢ exit_success
  IsGuarded (goes_on d) = d.watchdog ≡ true

  IsGuarded-and_then :
      (r : Run efi) (f : Daemon efi → Run efi)
      → IsGuarded r
      → ((d : Daemon efi) → d.watchdog ≡ true → IsGuarded (f d))
      → IsGuarded (and_then efi r f)
  IsGuarded-and_then (stops ends) f guarded step = guarded
  IsGuarded-and_then (goes_on d) f guarded step = step d guarded

  open_watchdog-IsGuarded :
      (d : Daemon efi)
      → d.enforcing_mode ≡ true
      → should_use_watchdog h.variables ≡ true
      → IsGuarded (open_watchdog efi h d)
  unfolding open_watchdog
  open_watchdog-IsGuarded d on used = elim (Bool-cases h.watchdog_opens) [
    | inl opens ↦ simp (on, used, opens) refl
    | inr shut ↦ simp (on, used, shut) (λ same. cc)
  ]

  open_lsm-IsGuarded : (d : Daemon efi) → d.watchdog ≡ true → IsGuarded (open_lsm efi h d)
  unfolding open_lsm
  open_lsm-IsGuarded d guarded =
      elim (Bool-cases (d.enforcing_mode && should_use_lsm h.variables)) [
        | inr skips ↦ simp (skips) guarded
        | inl uses ↦ elim (Bool-cases h.lsm_opens) [
          | inl opens ↦ simp (uses, opens) guarded
          | inr shut ↦ simp (uses, shut) (λ same. cc)
        ]
      ]

  notify_systemd-IsGuarded :
      (d : Daemon efi) → d.watchdog ≡ true → IsGuarded (notify_systemd efi h d)
  unfolding notify_systemd
  notify_systemd-IsGuarded d guarded = elim (Bool-cases h.has_notify_socket) [
    | inr no_socket ↦ simp (no_socket) (λ same. cc)
    | inl socket ↦ elim (Bool-cases h.notify_ok) [
      | inr silent ↦ simp (socket, silent) (λ same. cc)
      | inl told ↦ elim (Bool-cases (connects h.bus_attempts)) [
        | inr never ↦ simp (socket, told, never) (λ same. cc)
        | inl at_last ↦ simp (socket, told, at_last) guarded
      ]
    ]
  ]

  ending-watchdog : (r : RunResult) → ending r true ≢ exit_success
  ending-watchdog ran same = cc
  ending-watchdog signalled same = cc
  ending-watchdog failed same = cc

  finish-watchdog : (d : Daemon efi) → d.watchdog ≡ true → finish efi h d ≢ exit_success
  unfolding finish
  finish-watchdog d guarded =
      let result : RunResult = if d.enforcing_mode then h.run_result else ran in
      elim (Bool-cases (spin h.iterations (scheduled h.source_id result)).1) [
        | inl over ↦ simp (over, guarded) (ending-watchdog result)
        | inr not_over ↦ simp (not_over) (λ same. cc)
      ]

  end_of-IsGuarded : (r : Run efi) → IsGuarded r → end_of efi h r ≢ exit_success
  end_of-IsGuarded (stops ends) guarded = guarded
  end_of-IsGuarded (goes_on d) guarded = finish-watchdog d guarded

  -- A daemon from the initramfs that enforces PAYG and is to use the watchdog never exits with
  -- success, whatever the kernel, systemd, the bus and the service answer.
  pub main-enforcing :
      (e : Efi efi)
      → (decide efi h e).enforcing_mode ≡ true
      → (decide efi h e).legacy_mode ≡ false
      → should_use_watchdog h.variables ≡ true
      → main efi h e ≢ exit_success
  unfolding main pivot
  main-enforcing e on here used =
      let d : Daemon efi = decide efi h e in
      let guarded =
        IsGuarded-and_then _ (notify_systemd efi h)
          (IsGuarded-and_then _ (open_lsm efi h) (open_watchdog-IsGuarded d on used)
            open_lsm-IsGuarded)
          notify_systemd-IsGuarded in
      simp (here) (end_of-IsGuarded _ guarded)
