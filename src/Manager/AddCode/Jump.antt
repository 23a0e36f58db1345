-- ===== src/Manager/AddCode/Jump.antt =====
-- `epg_manager_clear_code` and `epg_manager_wallclock_time_changed`.
use eos_payg.Base.Int.{pos, negsuc}
use eos_payg.Base.{
  ℕ, ◌+◌, ◌-◌, ◌≤◌, ◌<◌, ◌≡◌, ◌⊎◌, inl, inr, refl, ◌∙◌, true, false, none, some, ◌==◌,
  if◌then◌else◌, ltb, arith, Bool-cases,
}
use eos_payg.Manager.{Manager, Runtime, Clock, disabled, cancelled}
use eos_payg.Manager.{emit, notify_expiry_time}
use eos_payg.Manager.Keeps.{Keeps}
use eos_payg.Manager.Save.{begin_save}
use eos_payg.Manager.Save.Begin.{begin_save_lem}
use eos_payg.Manager.AddCode.Branches.{IsReady}
use eos_payg.Manager.Expiry.Time.{set_expiry_time_lem}
use eos_payg.Manager.Keeps.{Keeps-trans}
use eos_payg.Manager.AddCode.{clear_code, consume_credit, wallclock_time_changed}

-- The state in the middle of `clear_code`.
abbrev cleared : Manager → Manager
cleared m =
    (if m.expiry_time_secs == 0
      then m
      else emit notify_expiry_time (record m { expiry_time_secs = 0 }))

cleared_lem :
    (m : Manager)
    → ((cleared m).expiry_time_secs ≡ 0)
      × ((cleared m).pending_internal_save_state_calls ≡ m.pending_internal_save_state_calls)
      × Keeps m (cleared m)
cleared_lem m = (ground arith, ground arith, ground arith)

clear_code_active :
    (c : Clock) (m m2 : Manager)
    → m.enabled ≡ true
    → m.is_cancelled ≡ false
    → begin_save c (record (cleared m) { expiry = none }) ≡ some m2
    → clear_code c m ≡ some (m2, none)
unfolding clear_code
clear_code_active c m m2 on here begun = ground arith

-- While the clock and the expiry time fit in 64 bits and another save can be counted,
-- epg_manager_clear_code gives an error and changes nothing if PAYG is disabled or the manager is
-- shut down, and otherwise expires the time, stops the timer, starts one save and keeps the rest
-- of the state.
pub clear_code_lem :
    (c : Clock) (m : Manager)
    → IsReady c m
    → ((m.enabled ≡ false) × (clear_code c m ≡ some (m, some disabled)))
      ⊎ ((m.enabled ≡ true) × (m.is_cancelled ≡ true) × (clear_code c m ≡ some (m, some cancelled)))
      ⊎ ((m' : Manager) × (clear_code c m ≡ some (m', none))
          × (m'.expiry_time_secs ≡ 0)
          × (m'.expiry ≡ none)
          × (m'.pending_internal_save_state_calls ≡ m.pending_internal_save_state_calls + 1)
          × Keeps m m')
unfolding clear_code
clear_code_lem c m ready = elim (Bool-cases m.enabled) [
  | inr off ↦ inl (off, simp off)
  | inl on ↦ elim (Bool-cases m.is_cancelled) [
    | inl gone ↦ inr (inl (on, gone, simp (on, gone)))
    | inr here ↦
        let m1 : Manager = record (cleared m) { expiry = none } in
        let same = cleared_lem m in
        let (m2, begun, keeps, time, timer, counted) =
          begin_save_lem c m1 (omega (arith, same, ready.few_saves)) in
        inr (
          inr (
            m2,
            clear_code_active c m m2 on here begun,
            time ∙ same.0,
            timer,
            ground (arith, counted, same),
            Keeps-trans m (cleared m) m2 same.2 (ground (arith, keeps)),
          ))
  ]
]

-- The credit that is left after a forward jump of the wall clock by `delta` seconds.
abbrev pub credit_after : ℕ → ℕ → ℕ → ℕ
credit_after now expiry delta = expiry - now - delta

pub consume_credit_lem :
    (R : Runtime) (c : Clock) (delta : ℕ) (m : Manager)
    → IsReady c m
    → (m' : Manager) × (consume_credit R c delta m ≡ some m')
      × Keeps m m'
      × (m'.pending_internal_save_state_calls ≡ m.pending_internal_save_state_calls)
      × (m'.expiry_time_secs ≤ m.expiry_time_secs)
      × (c.source_ok ≡ true
          → (m'.expiry_time_secs ≡ (
              if ltb c.time m.expiry_time_secs
              then c.time + credit_after c.time m.expiry_time_secs delta
              else m.expiry_time_secs)))
unfolding consume_credit
consume_credit_lem R c delta m ready = elim (Bool-cases (ltb c.time m.expiry_time_secs)) [
  | inr past ↦ (m, simp past, ground arith, refl, omega arith, λ works. ground arith)
  | inl ahead ↦
      let credit = m.expiry_time_secs - c.time in
      let left : ℕ = (if ltb credit delta then 0 else credit - delta) in
      let (r, done, set) =
        set_expiry_time_lem R c false c.time left m ready.now_fits ready.few_saves in
      (
        r.0,
        simp (ahead, done),
        set.keeps,
        ground (arith, set.counted, set.unsaved refl),
        ground (arith, set.at_most, ready.expiry_fits),
        λ works. ground (arith, set.time_set works, ready.expiry_fits),
      )
]

-- While the clock and the expiry time fit in 64 bits and another save can be counted, a forward
-- jump of the wall clock fails no assertion, never raises the expiry time, starts one save and
-- keeps the rest of the state, also after a shutdown; with a working clock source it takes exactly
-- the jump from the credit that is left, down to none.
pub wallclock_time_changed_lem :
    (R : Runtime) (c : Clock) (delta : ℕ) (m : Manager)
    → IsReady c m
    → 0 < delta
    → (m' : Manager) × (wallclock_time_changed R c (pos delta) m ≡ some m')
      × (m'.expiry_time_secs ≤ m.expiry_time_secs)
      × (c.source_ok ≡ true
          → (m'.expiry_time_secs ≡ (
              if ltb c.time m.expiry_time_secs
              then c.time + credit_after c.time m.expiry_time_secs delta
              else m.expiry_time_secs)))
      × (m'.pending_internal_save_state_calls ≡ m.pending_internal_save_state_calls + 1)
      × Keeps m m'
unfolding wallclock_time_changed
wallclock_time_changed_lem R c delta m ready jump =
    let moved : (delta == 0) ≡ false = ground arith in
    let (m1, done, keeps1, same, less, time1) = consume_credit_lem R c delta m ready in
    let (m2, begun, keeps, time, timer, counted) =
      begin_save_lem c m1 (omega (arith, same, ready.few_saves)) in
    (
      m2,
      rw (moved, done, begun),
      omega (arith, time, less),
      λ works. time ∙ time1 works,
      ground (arith, counted, same),
      Keeps-trans m m1 m2 keeps1 keeps,
    )

-- While the clock and the expiry time fit in 64 bits and another save can be counted, a backward
-- jump of the wall clock returns, keeps the expiry time and the rest of the state, and starts one
-- save.
pub wallclock_time_changed_back :
    (R : Runtime) (c : Clock) (n : ℕ) (m : Manager)
    → IsReady c m
    → (m' : Manager) × (wallclock_time_changed R c (negsuc n) m ≡ some m')
      × (m'.expiry_time_secs ≡ m.expiry_time_secs)
      × (m'.pending_internal_save_state_calls ≡ m.pending_internal_save_state_calls + 1)
      × Keeps m m'
unfolding wallclock_time_changed
wallclock_time_changed_back R c n m ready =
    let (m2, begun, keeps, time, timer, counted) = begin_save_lem c m ready.few_saves in
    (m2, begun, time, counted, keeps)
