-- ===== src/RealClock/Timer.antt =====
-- When the timer of an expiry time reaches the manager, with the daemon's clock.
use eos_payg.Base.{
  ℕ, zero, suc, ◌+◌, ◌*◌, ◌/◌, ◌%◌, ◌^◌, ◌<◌, ◌≤◌, ◌-◌, ◌≡◌, inl, inr, refl, ap, ◌∙◌, min, Bool,
  true, false, none, some, if◌then◌else◌, leb, Bool-cases, ◌==◌, arith,
}
use eos_payg.Manager.{Manager, Runtime, Clock, max_uint, max_uint64, emit, expired}
use eos_payg.Manager.Expiry.{check_expired_cb, set_expiry_time}
use eos_payg.Manager.Expiry.Time.{add_clamped, set_expiry_time_lem}
use eos_payg.RealClock.{
  Timespec, Itimerspec, Boottime, nanoseconds, get_boottime, real_clock_get_time,
  boottime_source_new, real_clock_source_new_seconds, boottime_source_dispatch,
}

-- A reading of the clock is its whole seconds.
time_seconds : (ts : Timespec) → ts.tv_nsec < 10 ^ 9 → real_clock_get_time ts ≡ ts.tv_sec
unfolding real_clock_get_time get_boottime
time_seconds ts h = omega arith

-- The longest interval of a timer, in seconds: about 49.7 days.
abbrev pub max_seconds : ℕ
max_seconds = max_uint / 1000

abbrev pub seconds : ℕ → Itimerspec
seconds i =
    let its : Timespec = record { tv_sec = i; tv_nsec = 0 } in
    record { it_interval = its; it_value = its }

source-seconds :
    (interval : ℕ)
    → real_clock_source_new_seconds true interval ≡ some (seconds (min interval max_seconds))
unfolding real_clock_source_new_seconds boottime_source_new
source-seconds interval = ap some (in_seconds (min interval max_seconds) (omega arith))
  where
    in_seconds :
        (j : ℕ)
        → j ≤ max_seconds
        → (let its : Timespec = record {
          tv_sec = j * 1000 % 2 ^ 32 / 1000;
          tv_nsec = j * 1000 % 2 ^ 32 % 1000 * (1000 * 1000);
        } in
            record { it_interval = its; it_value = its })
          ≡ seconds j
    in_seconds j h =
        let whole : j * 1000 % 2 ^ 32 / 1000 ≡ j = omega arith in
        let none_left : j * 1000 % 2 ^ 32 % 1000 * (1000 * 1000) ≡ 0 = omega arith in
        rw (whole, none_left) refl

-- The whole number of intervals before the end of a span.
intervals : (i span : ℕ) → 0 < i → (k : ℕ) × (k * i < suc span) × (suc span ≤ suc k * i)
intervals i zero h = (0, omega arith, omega arith)
intervals i (suc span) h =
    let (k, before, after) = intervals i span h in
    elim (Bool-cases (leb (suc (suc span)) (suc k * i))) [
      | inl within ↦ (k, omega arith, ground (arith, within))
      | inr past ↦ (suc k, ground (arith, past, after), ground (arith, past, after))
    ]

module _ (K : Boottime) (c : Clock) (its : Itimerspec) (start : ℕ) where
  -- The dispatch of one expiration of a timer that was set at `start`, as soon as it is due; `c` has
  -- what else an operation could read.
  unfoldable dispatch : ℕ → Manager → Manager × Bool
  dispatch k m = elim (K.expiration its k) [
    | none ↦ (m, true)
    | some t ↦
        let now = real_clock_get_time (K.clock_gettime (start + t)) in
        boottime_source_dispatch (some (check_expired_cb (record c { time = now }))) true m
  ]

  -- The first `n` expirations; the flag says whether the source is still attached.
  unfoldable pub run_timer : ℕ → Manager → Manager × Bool
  unfolding dispatch
  run_timer zero m = (m, true)
  run_timer (suc n) m =
      let (m', stays) = run_timer n m in if stays then dispatch n m' else (m', false)

in_nanoseconds : (k i : ℕ) → k * nanoseconds (seconds i).it_interval ≡ k * i * 10 ^ 9
in_nanoseconds zero i = omega arith
in_nanoseconds (suc k) i = omega (arith, in_nanoseconds k i)

-- A time that is whole seconds later shows as so many seconds more.
later_seconds :
    (K : Boottime) (start j : ℕ)
    → real_clock_get_time (K.clock_gettime (start + j * 10 ^ 9))
      ≡ real_clock_get_time (K.clock_gettime start) + j
later_seconds K start j =
    let later = start + j * 10 ^ 9 in
    rw
      (
        time_seconds (K.clock_gettime later) (K.clock_gettime_normal later),
        time_seconds (K.clock_gettime start) (K.clock_gettime_normal start),
      )
      (omega (
        arith,
        K.nanoseconds-clock_gettime later,
        K.nanoseconds-clock_gettime start,
        K.clock_gettime_normal later,
        K.clock_gettime_normal start,
      ))

module _ (c : Clock) where
  not_expired :
      (t : ℕ) (m : Manager)
      → m.enabled ≡ true
      → t < m.expiry_time_secs
      → check_expired_cb (record c { time = t }) m ≡ (m, true)
  unfolding check_expired_cb
  not_expired t m on early = ground arith

  has_expired :
      (t : ℕ) (m : Manager)
      → m.enabled ≡ true
      → m.expiry_time_secs ≤ t
      → check_expired_cb (record c { time = t }) m ≡ (emit expired m, false)
  unfolding check_expired_cb
  has_expired t m on due = ground arith

module _ (K : Boottime) (c : Clock) (start i : ℕ) (positive : 0 < i) where
  -- A timer of `i` seconds shows the manager, at its k-th expiration, `i` seconds more than at the
  -- one before.
  dispatch_time :
      (k : ℕ) (m : Manager)
      → dispatch K c (seconds i) start k m
        ≡ check_expired_cb
            (record c { time = real_clock_get_time (K.clock_gettime start) + suc k * i })
            m
  unfolding dispatch boottime_source_dispatch
  dispatch_time k m =
      rw (dispatch, K.expiration_armed (seconds i) k (omega (arith, positive)))
        (ap (λ t. check_expired_cb (record c { time = t }) m)
          (ap (λ t. real_clock_get_time (K.clock_gettime (start + t)))
              (omega (arith, in_nanoseconds k i))
            ∙ later_seconds K start (suc k * i)))

  -- Before the expiry time an expiration leaves the manager as it is and the timer running.
  run_timer_early :
      (n : ℕ) (m : Manager)
      → m.enabled ≡ true
      → real_clock_get_time (K.clock_gettime start) + n * i < m.expiry_time_secs
      → run_timer K c (seconds i) start n m ≡ (m, true)
  unfolding run_timer
  run_timer_early zero m on early = refl
  run_timer_early (suc n) m on early =
      let before = run_timer_early n m on (omega (arith, early)) in
      rw (run_timer, before)
        (dispatch_time n m
          ∙ not_expired c (real_clock_get_time (K.clock_gettime start) + suc n * i) m on early)

  -- The first expiration that is not before the expiry time emits the signal and ends the timer.
  run_timer_expired :
      (n : ℕ) (m : Manager)
      → m.enabled ≡ true
      → real_clock_get_time (K.clock_gettime start) + n * i < m.expiry_time_secs
      → m.expiry_time_secs ≤ real_clock_get_time (K.clock_gettime start) + suc n * i
      → run_timer K c (seconds i) start (suc n) m ≡ (emit expired m, false)
  unfolding run_timer
  run_timer_expired n m on early due =
      rw (run_timer, run_timer_early n m on early)
        (dispatch_time n m
          ∙ has_expired c (real_clock_get_time (K.clock_gettime start) + suc n * i) m on due)

whole_intervals : (i span : ℕ) → 0 < i → 0 < span → (k : ℕ) × (k * i < span) × (span ≤ suc k * i)
whole_intervals i span some_time positive =
    let (k, before, after) = intervals i (span - 1) some_time in
    (k, omega (arith, before, positive), omega (arith, after, positive))

armed_span :
    (now span : ℕ)
    → now + span < max_uint64
    → (if add_clamped now span == max_uint64
        then none
        else some (min (add_clamped now span - now) max_uint))
      ≡ some (min span max_uint)
armed_span now span fits = ground arith

first_expiration :
    (K : Boottime) (i k : ℕ) → 0 < i → K.expiration (seconds i) k ≡ some (suc k * i * 10 ^ 9)
first_expiration K i k positive =
    K.expiration_armed (seconds i) k (omega (arith, positive))
    ∙ ap some (omega (arith, in_nanoseconds k i))

-- On an enabled manager with a working clock source, while another save can be counted, with the
-- daemon's clock at now and timers of the kernel that are served as soon as they expire,
-- set_expiry_time with a span above 0 that does not reach the end of time starts a timer whose
-- interval is the span, or 4294967 seconds if that is shorter; the signal that the time has
-- expired comes at the first multiple of this interval that is not before the end of the span, not
-- at an earlier one, and the timer then ends.
pub set_expiry_time-expired :
    (K : Boottime) (R : Runtime) (c : Clock) (save_state : Bool) (now span start : ℕ) (m : Manager)
    → c.source_ok ≡ true
    → m.enabled ≡ true
    → m.pending_internal_save_state_calls < max_uint64
    → 0 < span
    → now + span < max_uint64
    → real_clock_get_time (K.clock_gettime start) ≡ now
    → let i = min span max_seconds in
      (r : Manager × Bool) × (interval : ℕ) × (its : Itimerspec) × (k : ℕ) × (set_expiry_time R c
          save_state now span m
        ≡ some r)
      × (r.0.expiry ≡ some interval)
      × (real_clock_source_new_seconds true interval ≡ some its)
      × (k * i < span)
      × (span ≤ suc k * i)
      × (K.expiration its k ≡ some (suc k * i * 10 ^ 9))
      × (run_timer K c its start k r.0 ≡ (r.0, true))
      × (run_timer K c its start (suc k) r.0 ≡ (emit expired r.0, false))
set_expiry_time-expired K R c save_state now span start m works on few positive fits shows =
    let (r, done, set) = set_expiry_time_lem R c save_state now span m (omega (arith, fits)) few in
    let i = min span max_seconds in
    let some_time : 0 < i = omega (arith, positive) in
    let (k, before, after) = whole_intervals i span some_time positive in
    let on' : r.0.enabled ≡ true = set.keeps.enabled_kept ∙ on in
    let time : r.0.expiry_time_secs ≡ now + span = set.time_set works ∙ omega (arith, fits) in
    (
      r,
      min span max_uint,
      seconds i,
      k,
      done,
      set.timer_set works ∙ armed_span now span fits,
      source-seconds (min span max_uint) ∙ ap (λ j. some (seconds j)) (omega arith),
      before,
      after,
      first_expiration K i k some_time,
      run_timer_early K c start i some_time k r.0 on' (omega (arith, before, time, shows)),
      run_timer_expired K c start i some_time k r.0 on' (omega (arith, before, time, shows))
          (omega (arith, after, time, shows)),
    )
