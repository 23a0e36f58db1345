-- ===== src/Daemon.antt =====
-- eos-paygd/main.c: the daemon. What the kernel, systemd and the bus answer is the record `Host`; the
-- decisions of libeos-payg/util.c are those of `Debug`, and EFI variables are read and written over
-- the interface of `Efi`. A `char` is signed, as on x86.
pub mod SecurityLevel
pub mod Enforcing
pub mod Spin
pub mod Devices
pub mod Firmware
use eos_payg.Base.{
  ℕ, zero, suc, ◌+◌, ◌-◌, ◌*◌, Bool, true, false, not, ◌&&◌, ◌||◌, Option, none, some, List, [],
  ◌∷◌, ltb, ◌==◌, if◌then◌else◌, get_or,
}
use eos_payg.Base.Int.{ℤ, pos, negsuc}
use eos_payg.Base.Strings.{bytes}
use eos_payg.Debug.{
  EfiVariables, get_secure_boot_enabled, get_eospayg_active_set, should_use_watchdog,
  should_use_lsm, should_check_securitylevel,
}
use eos_payg.Efi.{EfiOps, Efi, var_read, var_overwrite, root_pivot}

abbrev pub epg_security_level : ℕ
epg_security_level = 4

abbrev pub timeout_poweroff_on_error_minutes : ℕ
timeout_poweroff_on_error_minutes = 20

-- The value of a byte as a signed `char`.
abbrev pub char_value : ℕ → ℤ
char_value b = if ltb b 128 then pos b else negsuc (255 - b)

abbrev pub is_above : ℤ → ℕ → Bool
is_above (pos n) level = ltb level n
is_above (negsuc n) level = false

abbrev pub is_below : ℤ → ℕ → Bool
is_below (pos n) level = ltb n level
is_below (negsuc n) level = true

-- `level[0] = …`.
abbrev pub set_first : ℕ → List ℕ → List ℕ
set_first b [] = []
set_first b (a ∷ s) = b ∷ s

-- What `main` has decided and set up. `poweroff_timers` are the delays, in seconds, of the calls of
-- `payg_system_poweroff` that are due whatever happens.
pub record Daemon {Store : Type 0} (efi : EfiOps Store) : Type 0 where
  pub vars : Efi efi
  pub enforcing_mode : Bool
  pub legacy_mode : Bool
  pub poweroff_timers : List ℕ
  pub watchdog : Bool
  pub lsm : Bool

-- How `gss_service_run` ends: with no error, on a signal, or with another error.
pub data RunResult : Type 0 where
  ran signalled : RunResult
  failed : RunResult

-- What the calls of the rest of the system give. `bus_attempts` says which tries to connect to the
-- bus succeed, `iterations` in which rounds of
-- the last loop a scheduled call is due, and `source_id` the id that GLib gives the call.
pub record Host : Type 0 where
  pub in_initramfs : Bool
  pub efi_init_ok : Bool
  pub variables : EfiVariables
  pub skip_sb_check : Bool
  pub hwclock_init_ok : Bool
  pub watchdog_opens : Bool
  pub lsm_opens : Bool
  pub has_notify_socket : Bool
  pub notify_ok : Bool
  pub bus_attempts : List Bool
  pub run_result : RunResult
  pub source_id : ℕ
  pub iterations : List Bool

-- How the process ends: with a status, by a signal that it raises again, or not at all, pinging the
-- watchdog or waiting in a loop.
pub data Ending : Type 0 where
  exit_success exit_failure raised pings_watchdog connecting spinning : Ending

-- Whether one of the tries to connect succeeds.
abbrev pub connects : List Bool → Bool
connects [] = false
connects (ok ∷ rest) = ok || connects rest

-- The state of the last loop: the id that it looks at, the scheduled call of `payg_system_poweroff`,
-- with whether it is given the address of that id, and the number of calls made.
pub record Loop : Type 0 where
  pub timeout_id : ℕ
  pub source : Option Bool
  pub poweroffs : ℕ

-- `payg_system_poweroff`, which asks for its removal.
abbrev pub system_poweroff : Option Bool → Loop → Loop
system_poweroff none l = l
system_poweroff (some has_address) l = record {
  timeout_id = if has_address then 0 else l.timeout_id;
  source = none;
  poweroffs = l.poweroffs + 1;
}

-- `g_main_context_iteration`, where the scheduled call may be due.
abbrev pub iteration : Bool → Loop → Loop
iteration true l = system_poweroff l.source l
iteration false l = l

-- `while (timeout_id)`, over the given rounds; the flag says whether the loop has ended.
unfoldable pub spin : List Bool → Loop → Loop × Bool
spin [] l = (l, l.timeout_id == 0)
spin (due ∷ rest) l =
    let next = spin rest (iteration due l) in if l.timeout_id == 0 then (l, true) else next

-- What is scheduled for the result of the service.
unfoldable pub scheduled : ℕ → RunResult → Loop
scheduled id ran = record { timeout_id = 0; source = none; poweroffs = 0 }
scheduled id signalled = record { timeout_id = id; source = some true; poweroffs = 0 }
scheduled id failed = record { timeout_id = id; source = some false; poweroffs = 0 }

-- How the process ends behind the loop.
abbrev pub ending : RunResult → Bool → Ending
ending ran watchdog = if watchdog then pings_watchdog else exit_success
ending signalled watchdog = raised
ending failed watchdog = exit_failure

module _ {Store : Type 0} (efi : EfiOps Store) where
  abbrev pub level_name : List ℕ
  level_name = bytes "securitylevel"

  -- The test of the level that was read.
  abbrev update_level : List ℕ → Efi efi → Efi efi × Bool
  update_level level e =
      let stored = char_value (get_or level 0 0) in
      if is_above stored epg_security_level
      then (e, false)
      else if is_below stored epg_security_level
      then ((var_overwrite efi level_name (set_first epg_security_level level) e).0, true)
      else (e, true)

  abbrev update_read : Option (List ℕ) → Efi efi → Efi efi × Bool
  update_read none e = (e, false)
  update_read (some level) e = update_level level e

  unfoldable pub test_and_update_securitylevel : Efi efi → Efi efi × Bool
  test_and_update_securitylevel e = update_read (var_read efi level_name (some 1) e) e

  abbrev pub poweroff_later : Daemon efi → Daemon efi
  poweroff_later d = record d {
    poweroff_timers = (timeout_poweroff_on_error_minutes * 60) ∷ d.poweroff_timers;
  }

  abbrev pub poweroff_unless : Bool → Daemon efi → Daemon efi
  poweroff_unless true d = d
  poweroff_unless false d = poweroff_later d

  abbrev pub start : Efi efi → Daemon efi
  start e = record {
    vars = e;
    enforcing_mode = true;
    legacy_mode = false;
    poweroff_timers = [];
    watchdog = false;
    lsm = false;
  }

  unfoldable pub check_secure_boot : Host → Daemon efi → Daemon efi
  check_secure_boot h d =
      if not h.skip_sb_check && not (get_secure_boot_enabled h.variables)
      then record d { enforcing_mode = false }
      else d

  unfoldable pub check_active : Host → Daemon efi → Daemon efi
  check_active h d =
      if not (get_eospayg_active_set h.variables) then record d { enforcing_mode = false } else d

  abbrev pub level_checked : Efi efi × Bool → Daemon efi → Daemon efi
  level_checked (e, ok) d = poweroff_unless ok (record d { vars = e })

  unfoldable pub check_level : Host → Daemon efi → Daemon efi
  check_level h d =
      if d.enforcing_mode && should_check_securitylevel h.variables
      then level_checked (test_and_update_securitylevel d.vars) d
      else d

  unfoldable pub check_hwclock : Host → Daemon efi → Daemon efi
  check_hwclock h d = if d.enforcing_mode && not h.hwclock_init_ok then poweroff_later d else d

  -- The part of `main` before the service is made.
  unfoldable pub decide : Host → Efi efi → Daemon efi
  decide h e =
      if h.in_initramfs
      then check_hwclock h (
          check_level h
            (check_active h (check_secure_boot h (poweroff_unless h.efi_init_ok (start e)))))
      else record (start e) { legacy_mode = true }

  -- What a step of `main` leaves: a state to go on with, or the end of the process.
  pub data Run : Type 0 where
    stops : Ending → Run
    goes_on : Daemon efi → Run

  abbrev pub and_then : Run → (Daemon efi → Run) → Run
  and_then (stops ending) f = stops ending
  and_then (goes_on d) f = f d

  unfoldable pub open_watchdog : Host → Daemon efi → Run
  open_watchdog h d =
      if d.enforcing_mode && should_use_watchdog h.variables
      then (if h.watchdog_opens then goes_on (record d { watchdog = true }) else stops exit_failure)
      else goes_on d

  unfoldable pub open_lsm : Host → Daemon efi → Run
  open_lsm h d =
      if d.enforcing_mode && should_use_lsm h.variables
      then (if h.lsm_opens then goes_on (record d { lsm = true }) else stops exit_failure)
      else goes_on d

  -- Telling systemd, and waiting for the bus.
  unfoldable pub notify_systemd : Host → Daemon efi → Run
  notify_systemd h d =
      if not h.has_notify_socket
      then stops exit_failure
      else if not h.notify_ok
      then stops exit_failure
      else if not (connects h.bus_attempts)
      then stops connecting
      else goes_on (record d { vars = root_pivot efi d.vars })

  -- The part of `main` from there to the service.
  unfoldable pub pivot : Host → Daemon efi → Run
  pivot h d =
      if d.legacy_mode
      then goes_on d
      else and_then (and_then (open_watchdog h d) (open_lsm h)) (notify_systemd h)

  -- The end of `main`.
  unfoldable pub finish : Host → Daemon efi → Ending
  finish h d =
      let result = if d.enforcing_mode then h.run_result else ran in
      let r = spin h.iterations (scheduled h.source_id result) in
      if r.1 then ending result d.watchdog else spinning

  abbrev pub end_of : Host → Run → Ending
  end_of h (stops e) = e
  end_of h (goes_on d) = finish h d

  unfoldable pub main : Host → Efi efi → Ending
  main h e = end_of h (pivot h (decide h e))
