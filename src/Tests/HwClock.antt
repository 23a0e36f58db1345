-- ===== src/Tests/HwClock.antt =====
-- Two requests and an update of the hardware clock.
use eos_payg.Base.{◌+◌, ◌≤◌, ◌≡◌, true, some, [], ◌∷◌, if◌then◌else◌}
use eos_payg.HwClock.{initial_hwclock, hwclock_queue_update, hwclock_init}
use eos_payg.HwClock.Queue.{Happening, happens, happen, requests, happen-hwclock_init}

happen-hwclock_init_example :
    let xs = Happening.clock_jump ∷ Happening.timer ∷ Happening.idle true ∷ Happening.timer ∷ [] in
    let h = happen xs (hwclock_init true (some 1500000000) 1500000007 initial_hwclock).0 in
    (h.idle_sources ≡ (if h.queued then 1 else 0))
    × (h.times_set + h.idle_sources ≤ requests xs)
    × ((happens (Happening.idle true) (hwclock_queue_update h)).times_set ≡ h.times_set + 1)
happen-hwclock_init_example =
    happen-hwclock_init true (some 1500000000) 1500000007
      (Happening.clock_jump ∷ Happening.timer ∷ Happening.idle true ∷ Happening.timer ∷ []) true
