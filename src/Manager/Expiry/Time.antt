-- ===== src/Manager/Expiry/Time.antt =====
-- The expiry time that `set_expiry_time` and `extend_expiry_time` leave.
use eos_payg.Base.{
  ℕ, ◌+◌, ◌-◌, ◌≤◌, ◌<◌, min, max, ◌≡◌, inl, inr, refl, Bool, true, false, none, some, ◌==◌, ◌&&◌,
  ◌||◌, not, if◌then◌else◌, ltb, leb, arith, Bool-cases, Option-cases, check_below, check_below_lem,
}
use eos_payg.Codes.{periods, has_case}
use eos_payg.Codes.Period.{has_case-periods-lt}
use eos_payg.Manager.{
  Manager, Runtime, Clock, max_uint64, max_uint, max_int64, emit, notify_expiry_time,
}
use eos_payg.Manager.Keeps.{Keeps}
use eos_payg.Manager.Save.Begin.{begin_save_lem}
use eos_payg.Manager.Expiry.{
  check_expired_cb, clamped, set_expiry_timer, expiry_time_set, set_expiry_time, period_spans,
  find_span, extend_expiry_time,
}

-- `MIN (G_MAXUINT64, now + span)`.
abbrev pub add_clamped : ℕ → ℕ → ℕ
add_clamped now span = min max_uint64 (now + span)

clamped-checked_add :
    (R : Runtime) (now span : ℕ) → clamped (R.uint64_checked_add now span) ≡ add_clamped now span
unfolding clamped
clamped-checked_add R now span = elim (Bool-cases (ltb max_uint64 (now + span))) [
  | inl big ↦ ground (arith, R.uint64_checked_add_overflow now span)
  | inr fits ↦ ground (arith, R.uint64_checked_add_fits now span)
]

-- The state with its timer set, where the assertion of `set_expiry_timer` holds.
armed : Clock → ℕ → Manager → Manager
unfolding check_expired_cb
armed c now m =
    if m.expiry_time_secs == max_uint64
    then m
    else if c.source_ok
    then record m { expiry = some (min (m.expiry_time_secs - now) max_uint) }
    else (check_expired_cb c (record m { expiry_time_secs = now })).0

set_expiry_timer-armed :
    (c : Clock) (now : ℕ) (m : Manager)
    → now ≤ m.expiry_time_secs
    → set_expiry_timer c now m ≡ some (armed c now m)
unfolding set_expiry_timer armed
set_expiry_timer-armed c now m h = ground arith

armed-Keeps :
    (c : Clock) (now : ℕ) (m : Manager)
    → Keeps m (armed c now m)
      × ((armed c now m).pending_internal_save_state_calls ≡ m.pending_internal_save_state_calls)
unfolding armed
armed-Keeps c now m = ground arith

-- The expiry time and the timer that a working clock leaves.
armed_time :
    (c : Clock) (now : ℕ) (m : Manager)
    → c.source_ok ≡ true
    → m.expiry ≡ none
    → ((armed c now m).expiry_time_secs ≡ m.expiry_time_secs)
      × ((armed c now m).expiry ≡ (
          if m.expiry_time_secs == max_uint64
          then none
          else some (min (m.expiry_time_secs - now) max_uint)))
unfolding armed
armed_time c now m works off = ground arith

armed_le :
    (c : Clock) (now : ℕ) (m : Manager)
    → now ≤ m.expiry_time_secs
    → (armed c now m).expiry_time_secs ≤ m.expiry_time_secs
unfolding armed
armed_le c now m h = ground arith

expiry_time_set_lem :
    (c : Clock) (save_state changed : Bool) (m : Manager)
    → m.pending_internal_save_state_calls < max_uint64
    → (r : Manager × Bool) × (expiry_time_set c save_state changed m ≡ some r)
      × Keeps m r.0
      × (r.0.expiry_time_secs ≡ m.expiry_time_secs)
      × (r.0.expiry ≡ m.expiry)
      × (r.0.pending_internal_save_state_calls ≡ (
          if r.1
          then m.pending_internal_save_state_calls + 1
          else m.pending_internal_save_state_calls))
      × (save_state ≡ false → r.1 ≡ false)
unfolding expiry_time_set
expiry_time_set_lem c save_state false m few =
    ((m, false), refl, ground arith, refl, refl, refl, λ _. refl)
expiry_time_set_lem c false true m few =
    ((emit notify_expiry_time m, false), refl, ground arith, refl, refl, refl, λ _. refl)
expiry_time_set_lem c true true m few =
    let (m', done, keeps, time, timer, counted) =
      begin_save_lem c (emit notify_expiry_time m) few in
    ((m', true), rw done, ground arith, time, timer, counted, λ h. cc)

-- What `set_expiry_time` did: it set the clamped sum and the timer, with a working clock, and kept
-- the rest. A save that it started is counted.
pub record SetExpiry (c : Clock) (save_state : Bool) (now span : ℕ) (m : Manager)
    (r : Manager × Bool) : Type 0 where
  pub keeps : Keeps m r.0
  pub counted : r.0.pending_internal_save_state_calls ≡ (
      if r.1 then m.pending_internal_save_state_calls + 1 else m.pending_internal_save_state_calls)
  pub unsaved : save_state ≡ false → r.1 ≡ false
  pub at_most : r.0.expiry_time_secs ≤ add_clamped now span
  pub time_set : c.source_ok ≡ true → r.0.expiry_time_secs ≡ add_clamped now span
  pub timer_set :
      c.source_ok ≡ true
      → r.0.expiry ≡ (
          if add_clamped now span == max_uint64
          then none
          else some (min (add_clamped now span - now) max_uint))

-- For a clock that fits in 64 bits, while another save can be counted, set_expiry_time fails no
-- assertion, counts the save that it starts, starts none unless told to, keeps the rest of the
-- state and sets at most the clamped sum; with a working clock source it sets that sum, and the
-- timer.
pub set_expiry_time_lem :
    (R : Runtime) (c : Clock) (save_state : Bool) (now span : ℕ) (m : Manager)
    → now ≤ max_uint64
    → m.pending_internal_save_state_calls < max_uint64
    → (r : Manager × Bool) × (set_expiry_time R c save_state now span m ≡ some r)
      × SetExpiry c save_state now span m r
unfolding set_expiry_time
set_expiry_time_lem R c save_state now span m fits few =
    let m0 : Manager = record m {
      expiry_time_secs = clamped (R.uint64_checked_add now span);
      expiry = none;
    } in
    let sum : clamped (R.uint64_checked_add now span) ≡ add_clamped now span =
      clamped-checked_add R now span in
    let set : set_expiry_timer c now m0 ≡ some (armed c now m0) =
      set_expiry_timer-armed c now m0 (omega (arith, sum)) in
    let m1 = armed c now m0 in
    let (r, done, keeps, time, timer, counted, unsaved) =
      expiry_time_set_lem c save_state
        (not (m.expiry_time_secs == m1.expiry_time_secs) && m1.enabled) m1
        (omega (arith, armed-Keeps c now m0)) in
    (
      r,
      rw set done,
      record {
        keeps = ground (arith, keeps, armed-Keeps c now m0);
        counted = ground (arith, counted, armed-Keeps c now m0);
        unsaved = unsaved;
        at_most = omega (arith, sum, time, armed_le c now m0 (omega (arith, sum)));
        time_set = λ works. ground (arith, time, sum, armed_time c now m0 works refl);
        timer_set = λ works. ground (arith, timer, sum, armed_time c now m0 works refl);
      },
    )

has_span : ℕ → Bool
has_span p = elim (find_span p period_spans) [
  | none ↦ false
  | some span ↦ leb 5 span && leb span max_uint64
]

-- The table of the spans, checked by evaluation.
span_table : check_below (λ p. not (has_case p periods) || has_span p) 32 ≡ true
unfolding check_below has_case has_span find_span
span_table = refl

-- Every period of the enumeration has a span of at least five seconds that fits in 64 bits, so
-- that the default of the switch is not reached.
pub find_span-periods :
    (period : ℕ)
    → has_case period periods ≡ true
    → (span : ℕ) × (find_span period period_spans ≡ some span) × (5 ≤ span) × (span ≤ max_uint64)
unfolding has_span
find_span-periods period h =
    let known =
      check_below_lem (λ p. not (has_case p periods) || has_span p) 32 period
        (has_case-periods-lt period h) span_table in
    elim (Option-cases (find_span period period_spans)) [
      | inl missing ↦ absurd (ground (arith, known))
      | inr (span, found) ↦ (span, found, ground (arith, known), ground (arith, known))
    ]

-- For a period of the enumeration, a clock and an expiry time that fit in 64 bits, and while
-- another save can be counted, extend_expiry_time returns, reports the span of the period cut to a
-- gint64, starts no save and keeps the rest of the state; with a working clock source it sets the
-- expiry time to the later of now and the old one plus the span, clamped to 64 bits, and the timer
-- to the difference from the later one, clamped to 32 bits, or to none if the time is the last
-- one.
pub extend_expiry_time_lem :
    (R : Runtime) (c : Clock) (now period : ℕ) (m : Manager)
    → has_case period periods ≡ true
    → now ≤ max_uint64
    → m.expiry_time_secs ≤ max_uint64
    → m.pending_internal_save_state_calls < max_uint64
    → (span : ℕ) × (r : Manager × ℕ) × (find_span period period_spans ≡ some span)
      × (extend_expiry_time R c now period m ≡ some r)
      × (r.1 ≡ min span max_int64)
      × Keeps m r.0
      × (r.0.pending_internal_save_state_calls ≡ m.pending_internal_save_state_calls)
      × (c.source_ok ≡ true
          → (r.0.expiry_time_secs ≡ add_clamped (max now m.expiry_time_secs) span)
            × (r.0.expiry ≡ (
                if add_clamped (max now m.expiry_time_secs) span == max_uint64
                then none
                else some (
                    min
                      (add_clamped (max now m.expiry_time_secs) span - max now m.expiry_time_secs)
                      max_uint))))
unfolding extend_expiry_time
extend_expiry_time_lem R c now period m valid fits old few =
    let (span, found, low, high) = find_span-periods period valid in
    let base : ℕ = (if ltb now m.expiry_time_secs then m.expiry_time_secs else now) in
    let (r, done, set) = set_expiry_time_lem R c false base span m (ground arith) few in
    (
      span,
      (r.0, min span max_int64),
      found,
      rw (found, done),
      refl,
      set.keeps,
      ground (arith, set.counted, set.unsaved refl),
      λ works. (ground (arith, set.time_set works), ground (arith, set.timer_set works)),
    )
