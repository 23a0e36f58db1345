-- ===== src/ManagerService/EndToEnd.antt =====
-- The object over an `EpgManager`: calls from the bus, and the shutdown timer.
use eos_payg.Base.{
  ℕ, zero, suc, subst, ◌+◌, ◌≤◌, ◌<◌, ◌^◌, ◌≡◌, ◌≢◌, refl, inl, Bool, true, false, Option, none,
  some, List, [], ◌∷◌, length, get_or, arith, ltb, ◌==◌,
}
use eos_payg.Base.Int.{pos}
use eos_payg.Codes.{Result, ok, err, abort, ◌>>=◌, Glib, parse_code, verify_code}
use eos_payg.Manager.{
  Manager, Runtime, Clock, Snapshot, save_started, notify_expiry_time, max_uint64,
}
use eos_payg.Manager.RateLimit.{check_rate_limiting}
use eos_payg.Manager.UsedCodes.{is_used}
use eos_payg.Manager.Save.{begin_save, save_state_async}
use eos_payg.Manager.AddCode.{added, add_code, clear_code, get_expiry_time}
use eos_payg.Manager.AddCode.Branches.{IsReady, Added}
use eos_payg.Manager.AddCode.Outcome.{
  is_disabled, is_limited, was_cancelled, is_invalid, was_used, is_added, add_code_lem,
}
use eos_payg.Provider.{provider_add_code, provider_get_clock, provider_get_expiry_time}
use eos_payg.Provider.OfManager.{manager_provider}
use eos_payg.Generate.{main, parse_period}
use eos_payg.Generate.Loop.{success, entered, IsPrinted}
use eos_payg.Generate.Printed.{every_counter, main_prints}
use eos_payg.ManagerService.{ManagerService, int64, payg_interface, times, notify_expiry_time_cb}
use eos_payg.ManagerService.Properties.{return_value}
use eos_payg.ManagerService.Calls.{code_argument, method_call, manager_add_code, find_method}
use eos_payg.ManagerService.Timer.{IsIdle, IsRunning, notified-IsIdle}
use Prim.Native.String.{String}
use text.Mathlib.TextEquality.{eq_iff}

entered_ok :
    (G : Glib) (key s : List ℕ) {r : ℕ × ℕ}
    → entered G key s ≡ ok r
    → (code : ℕ) × (parse_code G s ≡ ok code) × (verify_code G code key ≡ ok r)
entered_ok G key s {r} h = go (parse_code G s) refl h
  where
    go :
        (v : Result ℕ)
        → parse_code G s ≡ v
        → (v >>= λ code. verify_code G code key) ≡ ok r
        → (code : ℕ) × (parse_code G s ≡ ok code) × (verify_code G code key ≡ ok r)
    go (ok code) read h' = (code, read, h')
    go (err e) read h' = absurd cc
    go abort read h' = absurd cc

get-IsPrinted :
    (G : Glib) (period : ℕ) (key : List ℕ) (from i n : ℕ) (lines : List (List ℕ))
    → IsPrinted G period key from lines
    → i < length lines
    → from + i ≡ n
    → entered G key (get_or lines i []) ≡ ok (period, n)
get-IsPrinted G period key from i n [] good low at = absurd (omega arith)
get-IsPrinted G period key from zero n (s ∷ lines) (first, good) low at =
    let same : from ≡ n = omega arith in subst (λ k. entered G key s ≡ ok (period, k)) same first
get-IsPrinted G period key from (suc i) n (s ∷ lines) (first, good) low at =
    get-IsPrinted G period key (from + 1) i n lines good (omega arith) (omega arith)

-- The manager when `epg_manager_clear_code` starts its save.
abbrev cleared : Manager → Manager
cleared m = record m { expiry_time_secs = 0; events = notify_expiry_time ∷ m.events; expiry = none }

abbrev saved : Clock → Manager → Manager
saved c m = record m {
  pending_internal_save_state_calls = m.pending_internal_save_state_calls + 1;
  events = save_started (save_state_async c m) ∷ m.events;
}

clear_code_notifies :
    (c : Clock) (m : Manager)
    → IsReady c m
    → m.enabled ≡ true
    → m.is_cancelled ≡ false
    → m.expiry_time_secs ≢ 0
    → (m' : Manager) × (snapshot : Snapshot) × (clear_code c m ≡ some (m', none))
      × (m'.events ≡ save_started snapshot ∷ notify_expiry_time ∷ m.events)
      × (m'.expiry ≡ none)
      × (m'.expiry_time_secs ≡ 0)
unfolding clear_code begin_save
clear_code_notifies c m ready on here unspent =
    let credit : (m.expiry_time_secs == 0) ≡ false = ground arith in
    let counted : ltb m.pending_internal_save_state_calls max_uint64 ≡ true =
      ground (arith, ready.few_saves) in
    (
      saved c (cleared m),
      save_state_async c (cleared m),
      rw (on, here, credit, counted) refl,
      refl,
      refl,
      refl,
    )

module _ (R : Runtime) where
  -- The code that a text carries is added, if nothing but the code can refuse it.
  accepted :
      (c : Clock) (m : Manager) (s : List ℕ) (period counter : ℕ)
      → IsReady c m
      → m.enabled ≡ true
      → (check_rate_limiting m c.time).1 ≡ true
      → m.is_cancelled ≡ false
      → is_used period counter m.used_codes ≡ false
      → entered R.glib m.key_bytes s ≡ ok (period, counter)
      → (m' : Manager) × (time : ℕ) × (add_code R c s m ≡ some (m', added time))
        × Added R c period counter (check_rate_limiting m c.time).0 m' time
  accepted c m s period counter ready on more here unused good =
      let (code, parses, verifies) = entered_ok R.glib m.key_bytes s good in
      elim (add_code_lem R c s m ready) [
        | is_disabled off h ↦ absurd cc
        | is_limited on' refuses h ↦ absurd cc
        | was_cancelled on' more' gone h ↦ absurd cc
        | is_invalid on' more' here' bad h ↦ absurd (bad code period counter parses verifies)
        | was_used code' p n on' more' here' parses' verifies' used h ↦ absurd cc
        | is_added code' p n m' time on' more' here' parses' verifies' unused' done changes ↦
            let same : ◌≡◌ {A = ℕ × ℕ} (p, n) (period, counter) = cc in
            (
              m',
              time,
              done,
              subst (λ q. Added R c q.0 q.1 (check_rate_limiting m c.time).0 m' time) same changes,
            )
      ]

  -- For the name of a period, and the manager's key of at least 64 bytes in the key file, eos-
  -- payg-generate prints 256 lines; AddCode on the bus with the line of a counter below 256 is
  -- answered with the time added, and leaves the manager as a successful epg_manager_add_code for
  -- that period and counter does, if the manager is enabled, not shut down, allowed another
  -- attempt by the rate limit and has not used that code, its clock and expiry time fit in 64 bits
  -- and another save can be counted.
  pub printed_code_accepted :
      (is_interface_name : String → Bool) (load_contents : List ℕ → Option (List ℕ)) (path : String)
      (file name : List ℕ) (c : Clock) (m : Manager) (period counter : ℕ)
      → parse_period name ≡ ok period
      → load_contents file ≡ some m.key_bytes
      → 64 ≤ length m.key_bytes
      → counter < 256
      → IsReady c m
      → m.enabled ≡ true
      → (check_rate_limiting m c.time).1 ≡ true
      → m.is_cancelled ≡ false
      → is_used period counter m.used_codes ≡ false
      → (lines : List (List ℕ)) × (m' : Manager) × (time : ℕ) × (main R.glib load_contents
            (some (record { quiet = false; list_periods = false; args = file ∷ name ∷ [] }))
          ≡ some (success lines))
        × (length lines ≡ 256)
        × (method_call is_interface_name
              (manager_provider R)
              path
              path
              payg_interface
              "AddCode"
              c
              (code_argument (get_or lines counter []))
              m
            ≡ some (m', return_value (int64 (pos time) ∷ [])))
        × Added R c period counter (check_rate_limiting m c.time).0 m' time
  unfolding method_call find_method manager_add_code provider_add_code manager_provider
  printed_code_accepted is_interface_name load_contents path file name c m period counter named
        loaded long low ready on more here unused =
      let (lines, printed, count, good) =
        main_prints R.glib load_contents file name [] false every_counter named loaded long in
      let reads : entered R.glib m.key_bytes (get_or lines counter []) ≡ ok (period, counter) =
        get-IsPrinted R.glib period m.key_bytes 0 counter counter lines good (omega (arith, count))
          (omega arith) in
      let (m', time, done, changes) =
        accepted c m (get_or lines counter []) period counter ready on more here unused reads in
      (
        lines,
        m',
        time,
        printed,
        ground (arith, count),
        rw ((eq_iff path path).1 refl, done) refl,
        changes,
      )

  cleared_times :
      (c : Clock) (m : Manager)
      → c.time < 2 ^ 63
      → m.expiry_time_secs ≡ 0
      → times (manager_provider R) c m ≡ some (0, c.time)
  unfolding times provider_get_clock provider_get_expiry_time manager_provider get_expiry_time
  cleared_times c m early spent = ground arith

  -- On an enabled manager that is not shut down and whose expiry time is not 0, while the clock
  -- fits in 63 bits, the expiry time fits in 64 bits and another save can be counted,
  -- epg_manager_clear_code notifies of the expiry time, removes its timer, and the handler of that
  -- notification cancels a shutdown timer that runs, as if credit had been added.
  pub clear_code-shutdown_timer :
      (c : Clock) (m : Manager) (s : ManagerService)
      → IsReady c m
      → c.time < 2 ^ 63
      → m.enabled ≡ true
      → m.is_cancelled ≡ false
      → m.expiry_time_secs ≢ 0
      → IsRunning s
      → (m' : Manager) × (snapshot : Snapshot) × (s' : ManagerService) × (clear_code c m
          ≡ some (m', none))
        × (m'.events ≡ save_started snapshot ∷ notify_expiry_time ∷ m.events)
        × (m'.expiry ≡ none)
        × (notify_expiry_time_cb (manager_provider R) c m' s ≡ some s')
        × IsIdle s'
  clear_code-shutdown_timer c m s ready early on here unspent running =
      let (m', snapshot, cleared, events, expiry, spent) =
        clear_code_notifies c m ready on here unspent in
      let (s', notified, idle) =
        notified-IsIdle (manager_provider R) c m' s (cleared_times c m' early spent) (inl refl)
          running in
      (m', snapshot, s', cleared, events, expiry, notified, idle)
