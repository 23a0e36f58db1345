-- ===== src/Lib.antt =====
-- eos-payg: pay as you go for a computer. A server issues codes, a user types them in, and a daemon
-- counts down the time that they buy.
--
-- Codes (libeos-payg-codes/codes.c, codes.h): Codes.antt has one function to each function of the file.
--   Codes/Period has the validators, Codes/Calculate and Codes/Verify the making and checking of a
--   code, Codes/Text its decimal text. GLib's HMAC and number reader are the record Glib.
-- MultiTask (libeos-payg/multi-task.c): MultiTask.antt has the count of operations on a GTask, and
--   MultiTask/Once what a task returns.
-- Manager (libeos-payg/manager.c): Manager.antt has the state of an EpgManager, with one field to each
--   field of struct _EpgManager that an operation reads or writes. The GObject references to files
--   and to the clock are in Manager/Construct alone. Its operations are in the child modules.
--     Manager/RateLimit  check_rate_limiting, clear_rate_limiting
--     Manager/UsedCodes  check_is_counter_unused, and the array of used codes
--     Manager/Expiry     check_expired_cb, set_expiry_time, extend_expiry_time
--     Manager/Save       epg_manager_save_state_async and the call of it that operations share;
--                        Save/Task has its operations on the files, their callbacks and its task
--     Manager/Shutdown   internal_save_state_cb, epg_manager_shutdown_async, shutdown_save_state_cb
--     Manager/AddCode    epg_manager_add_code, epg_manager_clear_code,
--                        epg_manager_wallclock_time_changed, and the two property getters
--     Manager/Load       epg_manager_init_async, file_load_cb, file_load_delete_cb; Load/Start has the
--                        start as a sequence of callbacks, with a cancellation between them
--     Manager/Construct  epg_manager_init, epg_manager_set_property, epg_manager_constructed,
--                        epg_manager_new
--     Manager/Trace      sequences of operations: what holds from one restart to the next
--   The manager uses Codes to check a text, and MultiTask for the task of its start.
-- FakeClock (libeos-payg/fake-clock.c): FakeClock.antt has the clock of the tests and its sources.
-- ClockJumpSource (libeos-payg/clock-jump-source.c): ClockJumpSource.antt has the source that is dispatched
--   when the clock is set, and Service/Wakeups the service that it calls back.
-- RealClock (libeos-payg/real-clock.c, boottime-source.c): RealClock.antt has the daemon's clock and its
--   timers, over the kernel's, and RealClock/Timer the timer of the manager's expiry time.
-- HwClock (libeos-payg/hwclock.c): HwClock.antt has the updates of the hardware clock, and HwClock/Queue
--   what is under way after any sequence of requests.
-- Debug (libeos-payg/util.c): Debug.antt has the decisions that the EFI variable EOSPAYG_debug overrides.
-- Efi (libeos-payg/efi.c): Efi.antt has the guarded access to variables over an interface, EfiOps.
--     Efi/Init      eospayg_efi_init
--     Efi/Boot      the variables of the firmware that are read as Booleans
--     Efi/Store     the implementation in memory that the tests use
--     Efi/Efivarfs  that over the files of efivarfs, on the calls of the kernel: Efivarfs/Contents has
--                   what the kernel documents, Writes, Variables, Flags and Sizes what follows
-- Provider (libeos-payg/provider.c, provider.h): Provider.antt has the interface of providers as a record
--   of functions that a class may leave out, and their wrappers; Provider/OfManager has the manager's.
-- ManagerService (libeos-payg/manager-service.c): ManagerService.antt has the object on the bus with its
--   shutdown timer, over any provider.
--     ManagerService/Properties  the table of properties, Get, Set, GetAll and PropertiesChanged
--     ManagerService/Calls       the table of methods and their dispatch
--     ManagerService/Interface   manager-interface.h, what the object declares
--     ManagerService/Timer       what starts and stops the timer
--     ManagerService/EndToEnd    the object over the manager, and the codes of the generator
-- Loader (libeos-payg/provider-loader.c): Loader.antt has the loading of plugins and the choice of a
--   provider, over MultiTask.
-- Service (libeos-payg/service.c): Service.antt has the start, which asks the loader, then makes the
--   manager; the jumps of the clock, which it tells the provider; and the hold that keeps it running.
-- Daemon (eos-paygd/main.c): Daemon.antt has the security level over the EFI variables, the decisions
--   whether PAYG is enforced, and the ways in which main ends; Daemon/Firmware joins it with
--   efivarfs. Daemon/Devices has the writes to devices, to systemd and to the log.
-- Generate (eos-payg-generate/main.c): Generate.antt has the tool that prints codes.
-- Tests applies the theorems to concrete inputs; Tests/Samples has the functions that stand for GLib.
--
-- How code becomes definitions. A GError is a constructor of an error type, a failed g_assert is none
-- or abort, signals and started saves are kept in the list events, and requests for I/O in the list
-- requests; the results of I/O come back as arguments of the callbacks. What an operation reads from
-- its clock is the record Clock. Machine integers are natural numbers with their wrap-around written
-- out. The fuel of the printer of a 32-bit number is ten digits, and that of the generator's loop one
-- round more than there are counters, and one for its end. A loop that waits for the kernel or the main
-- loop takes the list of what its rounds find.
--
-- Not modelled: what the kernel does with the writes to devices; the clocks and
-- timers of the kernel; two saves of the state whose operations overlap; the cancellation of tasks
-- other than that of the manager's start; the GObject boilerplate; the scripts.
pub mod Base
pub mod Codes
pub mod MultiTask
pub mod Manager
pub mod FakeClock
pub mod RealClock
pub mod HwClock
pub mod Debug
pub mod Efi
pub mod Generate
pub mod Provider
pub mod ManagerService
pub mod Loader
pub mod Service
pub mod ClockJumpSource
pub mod Daemon
pub mod Tests
