-- ===== src/HwClock/Queue.antt =====
-- The updates that are under way.
use eos_payg.Base.{
  ℕ, ◌+◌, ◌-◌, ◌≤◌, ◌≡◌, refl, ap, ◌∙◌, Bool, true, false, Option, none, some, List, [], ◌∷◌, ◌==◌,
  if◌then◌else◌, arith,
}
use eos_payg.HwClock.{
  HwClock, initial_hwclock, hwclock_update, hwclock_queue_update, source_hwclock_update,
  hwclock_init,
}

-- What can happen: the clock jumps, a timer is due, or the main loop is idle, and dispatches a source
-- for payg_hwclock_update, if there is one.
pub data Happening : Type 0 where
  clock_jump timer : Happening
  idle : Bool → Happening

-- A source that does not stay is removed.
pub happens : Happening → HwClock → HwClock
unfolding source_hwclock_update hwclock_update
happens clock_jump h = hwclock_queue_update h
happens timer h = (source_hwclock_update h).0
happens (idle set) h =
    let (h', stays) = hwclock_update set h in
    if h.idle_sources == 0
    then h
    else if stays
    then h'
    else record h' { idle_sources = h'.idle_sources - 1 }

pub happen : List Happening → HwClock → HwClock
happen [] h = h
happen (x ∷ xs) h = happen xs (happens x h)

-- How often an update is asked for.
abbrev pub asked : Happening → ℕ
asked clock_jump = 1
asked timer = 1
asked (idle set) = 0

abbrev pub requests : List Happening → ℕ
requests [] = 0
requests (x ∷ xs) = asked x + requests xs

record IsQueue (h : HwClock) : Type 0 where
  one_source : h.idle_sources ≡ (if h.queued then 1 else 0)
  not_when_closed : h.is_open ≡ false → h.queued ≡ false

happens-IsQueue : (x : Happening) (h : HwClock) → IsQueue h → IsQueue (happens x h)
unfolding happens hwclock_queue_update source_hwclock_update hwclock_update
happens-IsQueue clock_jump h q = ground (arith, q)
happens-IsQueue timer h q = ground (arith, q)
happens-IsQueue (idle set) h q = ground (arith, q)

happens_open : (x : Happening) (h : HwClock) → (happens x h).is_open ≡ h.is_open
unfolding happens hwclock_queue_update source_hwclock_update hwclock_update
happens_open clock_jump h = ground arith
happens_open timer h = ground arith
happens_open (idle set) h = ground arith

happens_count :
    (x : Happening) (h : HwClock)
    → (happens x h).times_set + (happens x h).idle_sources ≤ h.times_set + h.idle_sources + asked x
unfolding happens hwclock_queue_update source_hwclock_update hwclock_update
happens_count clock_jump h = ground arith
happens_count timer h = ground arith
happens_count (idle set) h = ground arith

happen_lem :
    (xs : List Happening) (h : HwClock)
    → IsQueue h
    → IsQueue (happen xs h)
      × ((happen xs h).is_open ≡ h.is_open)
      × ((happen xs h).times_set + (happen xs h).idle_sources
          ≤ h.times_set + h.idle_sources + requests xs)
unfolding happen
happen_lem [] h q = (q, refl, omega arith)
happen_lem (x ∷ xs) h q =
    let (q', still, count) = happen_lem xs (happens x h) (happens-IsQueue x h q) in
    (q', still ∙ happens_open x h, omega (arith, count, happens_count x h))

hwclock_init-IsQueue :
    (opens : Bool) (rtc_secs : Option ℕ) (sys_secs : ℕ)
    → let h = (hwclock_init opens rtc_secs sys_secs initial_hwclock).0 in
      IsQueue h × (h.is_open ≡ opens) × (h.times_set + h.idle_sources ≡ 0)
unfolding hwclock_init
hwclock_init-IsQueue false rtc_secs sys_secs = ground arith
hwclock_init-IsQueue true none sys_secs = ground arith
hwclock_init-IsQueue true (some rtc_secs) sys_secs = ground arith

-- After a request the next idle moment of the main loop sets the time once.
next_idle :
    (set : Bool) (h : HwClock)
    → IsQueue h
    → (happens (idle set) (hwclock_queue_update h)).times_set
      ≡ h.times_set + (if h.is_open then 1 else 0)
unfolding happens hwclock_queue_update hwclock_update
next_idle set h q = ground (arith, q)

-- After payg_hwclock_init, whatever the device answers, and any sequence of clock jumps, timers
-- and idle moments of the main loop, one update is under way exactly if queued is set, and none
-- otherwise; no more updates have been made or are under way than were asked for; and if the
-- device was opened, the next idle moment after a further request sets the time of the device
-- exactly once, and otherwise never.
pub happen-hwclock_init :
    (opens : Bool) (rtc_secs : Option ℕ) (sys_secs : ℕ) (xs : List Happening) (set : Bool)
    → let h = happen xs (hwclock_init opens rtc_secs sys_secs initial_hwclock).0 in
      (h.idle_sources ≡ (if h.queued then 1 else 0))
      × (h.times_set + h.idle_sources ≤ requests xs)
      × ((happens (idle set) (hwclock_queue_update h)).times_set
          ≡ h.times_set + (if opens then 1 else 0))
happen-hwclock_init opens rtc_secs sys_secs xs set =
    let start = (hwclock_init opens rtc_secs sys_secs initial_hwclock).0 in
    let (queue, opened, none_yet) = hwclock_init-IsQueue opens rtc_secs sys_secs in
    let (queue', still, count) = happen_lem xs start queue in
    (
      queue'.one_source,
      omega (arith, count, none_yet),
      next_idle set (happen xs start) queue'
          ∙ ap (λ b. (happen xs start).times_set + (if b then 1 else 0)) (still ∙ opened),
    )
