-- ===== src/Service/Wakeups.antt =====
-- The clock-jump source of the service, dispatched by the main loop.
use eos_payg.Base.{
  ℕ, ◌+◌, ◌≡◌, refl, sym, ◌∙◌, Bool, true, false, Option, some, List, [], ◌∷◌, ◌==◌, if◌then◌else◌,
  All, Bool-cases, inl, inr, Option-cases, arith,
}
use eos_payg.Base.Int.{ℤ}
use eos_payg.ClockJumpSource.{Read, read_failed, clock_jump_source_dispatch}
use eos_payg.Manager.{Clock, ◌>>=◌}
use eos_payg.Provider.{Provider, provider_wallclock_time_changed}
use eos_payg.Service.{Service, Reading, is_zero, jump_delta, clock_jump_cb}
use eos_payg.Service.Jumps.{forward, back, clock_jumps, told, clock_jumps_lem}

-- A time at which the source is ready: `errno` before the `read`, what that gives, and the clocks.
pub record Wakeup : Type 0 where
  pub errno : ℕ
  pub result : Read
  pub clock : Clock
  pub reading : Reading

abbrev pub readings : List Wakeup → List (Clock × Reading)
readings [] = []
readings (w ∷ ws) = (w.clock, w.reading) ∷ readings ws

-- The `read` of a timer that was canceled, as the kernel documents it.
abbrev pub AllCanceled : ℕ → List Wakeup → Type 0
AllCanceled ecanceled ws = All (λ w. w.result ≡ read_failed ecanceled) ws

module _ {S : Type 0} (P : Provider S) (ecanceled time_max : ℕ) where
  -- The callback of the source, which always continues.
  unfoldable pub clock_jump_callback : Clock → Reading → Service S → Option (Service S × Bool)
  clock_jump_callback c v1 s = do s' ← clock_jump_cb P c v1 s; some (s', true)

  -- A source that has been removed is not dispatched.
  unfoldable pub wake : Wakeup → Service S → Option (Service S)
  unfolding clock_jump_source_dispatch clock_jump_callback
  wake w s =
      if s.has_source
      then (do
        (s', stays) ←
            clock_jump_source_dispatch ecanceled time_max
              (some (clock_jump_callback w.clock w.reading)) w.errno w.result s
        some (record s' { has_source = stays }))
      else some s

  unfoldable pub wakeups : List Wakeup → Service S → Option (Service S)
  wakeups [] s = some s
  wakeups (w ∷ ws) s = do s' ← wake w s; wakeups ws s'

  clock_jump_cb-source :
      (c : Clock) (v1 : Reading) (s s' : Service S)
      → clock_jump_cb P c v1 s ≡ some s'
      → s'.has_source ≡ s.has_source
  unfolding clock_jump_cb
  clock_jump_cb-source c v1 s s' h = elim (Option-cases s.provider) [
    | inl missing ↦ absurd (ground arith)
    | inr (p, own) ↦ elim (Bool-cases (is_zero P (jump_delta P v1 s))) [
      | inl still ↦ ground arith
      | inr moves ↦
          elim (Option-cases (provider_wallclock_time_changed P c (jump_delta P v1 s) p)) [
            | inl failed ↦ absurd (ground arith)
            | inr (p', changed) ↦ ground arith
          ]
    ]
  ]

  attached_still :
      (s : Service S) → s.has_source ≡ true → some (record s { has_source = true }) ≡ some s
  attached_still s attached = cc

  -- A source that finds its timer canceled calls back, and stays.
  wake-canceled :
      (w : Wakeup) (s : Service S)
      → w.result ≡ read_failed ecanceled
      → s.has_source ≡ true
      → wake w s ≡ clock_jump_cb P w.clock w.reading s
  unfolding wake
  wake-canceled w s canceled attached = elim (Option-cases (clock_jump_cb P w.clock w.reading s)) [
    | inl aborts ↦ ground (arith, canceled, attached, aborts)
    | inr (s', called) ↦ ground (
      arith,
      canceled,
      attached,
      called,
      clock_jump_cb-source w.clock w.reading s s' called,
      attached_still s' (clock_jump_cb-source w.clock w.reading s s' called ∙ attached),
    )
  ]

  wakeups-clock_jumps :
      (ws : List Wakeup) (s : Service S)
      → AllCanceled ecanceled ws
      → s.has_source ≡ true
      → wakeups ws s ≡ clock_jumps P (readings ws) s
  unfolding wakeups clock_jumps
  wakeups-clock_jumps [] s canceled attached = refl
  wakeups-clock_jumps (w ∷ ws) s (canceled, others) attached =
      rw (wake-canceled w s canceled attached)
        (elim (Option-cases (clock_jump_cb P w.clock w.reading s)) [
          | inl aborts ↦ simp aborts refl
          | inr (s', called) ↦ simp called (
              wakeups-clock_jumps ws s' others
                (clock_jump_cb-source w.clock w.reading s s' called ∙ attached))
        ])

  clock_jumps-source :
      (rs : List (Clock × Reading)) (s s' : Service S)
      → clock_jumps P rs s ≡ some s'
      → s'.has_source ≡ s.has_source
  unfolding clock_jumps
  clock_jumps-source [] s s' h = ground (arith, h)
  clock_jumps-source ((c, v1) ∷ rs) s s' h = elim (Option-cases (clock_jump_cb P c v1 s)) [
    | inl aborts ↦ absurd (ground (arith, h, aborts))
    | inr (s1, called) ↦
        clock_jumps-source rs s1 s' (ground (arith, h, called))
        ∙ clock_jump_cb-source c v1 s s1 called
  ]

  -- A source that was removed is not dispatched any more.
  wakeups-removed :
      (ws : List Wakeup) (s : Service S) → s.has_source ≡ false → wakeups ws s ≡ some s
  unfolding wakeups wake
  wakeups-removed [] s removed = refl
  wakeups-removed (w ∷ ws) s removed = ground (arith, removed, wakeups-removed ws s removed)

  -- A read that fails with another error removes it, and nothing tells the provider any more.
  wakeups-other :
      (w : Wakeup) (ws : List Wakeup) (s : Service S) (e : ℕ)
      → w.result ≡ read_failed e
      → (e == ecanceled) ≡ false
      → s.has_source ≡ true
      → wakeups (w ∷ ws) s ≡ some (record s { has_source = false })
  unfolding wakeups wake
  wakeups-other w ws s e failed other attached =
      ground
        (arith, failed, other, attached, wakeups-removed ws (record s { has_source = false }) refl)

  -- While the clock-jump source is attached and each read of its timer fails with ECANCELED, over
  -- any sequence of its dispatches that returns, the source stays attached, and the provider is
  -- told of a sequence of changes and nothing else, and the changes add up to what the wall clock
  -- has moved on more than the boot-time clock since the first reading.
  pub wakeups_lem :
      (ws : List Wakeup) (p : S) (s : Service S) {s' : Service S}
      → AllCanceled ecanceled ws
      → s.has_source ≡ true
      → s.provider ≡ some p
      → wakeups ws s ≡ some s'
      → (s'.has_source ≡ true)
        × (ds : List (Clock × ℤ)) × (p' : S) × (told P ds p ≡ some p')
        × (s'.provider ≡ some p')
        × (forward ds + s.clock_realtime_secs_v0 + s'.clock_boottime_secs_v0
            ≡ back ds + s'.clock_realtime_secs_v0 + s.clock_boottime_secs_v0)
  wakeups_lem ws p s {s'} canceled attached own h =
      let run = sym (wakeups-clock_jumps ws s canceled attached) ∙ h in
      let (ds, p', tells, ends, sums) = clock_jumps_lem P (readings ws) p s own run in
      (clock_jumps-source (readings ws) s s' run ∙ attached, ds, p', tells, ends, sums)
