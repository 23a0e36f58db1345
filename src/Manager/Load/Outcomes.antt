-- ===== src/Manager/Load/Outcomes.antt =====
-- What `file_load_cb` leaves under way, with the request that it answers taken away.
use eos_payg.Base.{
  ℕ, ◌+◌, ◌-◌, ◌≤◌, ◌<◌, ◌≡◌, inl, inr, refl, sym, subst, ◌∙◌, Bool, true, false, ◌&&◌, some,
  if◌then◌else◌, Bool-cases, arith,
}
use eos_payg.MultiTask.{GTask, multi_return_boolean}
use eos_payg.Manager.{Runtime, Clock, max_uint64}
use eos_payg.Manager.Load.Branches.{branch_weight, load_expiry-Grows, Branch, loads}
use eos_payg.Manager.Load.Growth.{
  load_weight, has_delete, Grows, Grows-trans, Grows-le, still-Grows,
}
use eos_payg.Manager.Load.{
  LoadState, File, wallclock_time_file, expiry_seconds_file, expiry_time_file, used_codes_file,
  key_file, account_id_file, Loaded, contents, not_found, load_failed, is_clock_file, with_error,
  failed_task_error, remaining_credit, deduce_expiry, load_file, file_finished, file_loaded,
  file_load, file_load_cb,
}

some_pair : {A : Type 0} → (a b : A) → some a ≡ some b → a ≡ b
some_pair a b h = cc

module _ (G : GTask) (R : Runtime) (c : Clock) (fits : c.time ≤ max_uint64) where
  -- Behind a branch a clock file may start one save more.
  finish_weight : File → ℕ
  finish_weight f = if is_clock_file G f then 1 else 0

  finishes :
      (f : File) (st : LoadState G)
      → st.manager.pending_internal_save_state_calls < max_uint64
      → (st' : LoadState G) × (file_finished G R c f st
          ≡ some (record st' { task = multi_return_boolean G true st'.task }))
        × Grows G (finish_weight f) st st'
        × (st'.task_data ≡ st.task_data)
  unfolding file_finished deduce_expiry finish_weight
  finishes f st few = elim (Bool-cases (is_clock_file G f)) [
    | inr other ↦ (st, simp other refl, simp other (still-Grows G st st refl refl refl), refl)
    | inl clock ↦
        elim (Bool-cases
          (st.manager.last_save_time_secs_set && st.manager.last_save_expiry_secs_set)) [
            | inr unset ↦ (
              st,
              simp (clock, unset) refl,
              simp clock (Grows-le G 0 1 st st (still-Grows G st st refl refl refl) (omega arith)),
              refl,
            )
            | inl set ↦
                let credit =
                  remaining_credit st.manager.last_save_time_secs st.manager.last_save_expiry_secs
                    c.wallclock in
                let (st', done, grows, same) = load_expiry-Grows G R c fits credit st few in
                (st', simp (clock, set, done) refl, simp clock grows, same)
          ]
  ]

  weights : (f : File) → branch_weight f + finish_weight f + 1 ≤ load_weight f
  unfolding finish_weight
  weights wallclock_time_file = omega arith
  weights expiry_time_file = omega arith
  weights expiry_seconds_file = omega arith
  weights used_codes_file = omega arith
  weights key_file = omega arith
  weights account_id_file = omega arith

  -- What is left: the task has its error, or an error waits for a deletion, or the operation has
  -- returned.
  pub data Outcome (f : File) (st st' : LoadState G) : Type 1 where
    errs : (e : ℕ) → st' ≡ with_error G e st → Outcome f st st'
    rejected :
        Grows G (load_weight f - 1) st st'
        → has_delete st'.requests ≡ true
        → (e : ℕ) → st'.task_data ≡ some e
        → Outcome f st st'
    returned :
        (st1 : LoadState G)
        → Grows G (load_weight f - 1) st st1
        → st1.task_data ≡ st.task_data
        → st' ≡ record st1 { task = multi_return_boolean G true st1.task }
        → Outcome f st st'

  ends :
      (f : File) (st : LoadState G) (r : LoadState G × Bool)
      → r.0.manager.pending_internal_save_state_calls < max_uint64
      → Branch G R c fits (branch_weight f) st r
      → (st' : LoadState G) × (file_loaded G R c f (some r) ≡ some st') × Outcome f st st'
  unfolding file_loaded
  ends f st (st1, false) few (grows, there, (e, at)) = (
    st1,
    refl,
    rejected
        (Grows-le G (branch_weight f) (load_weight f - 1) st st1 grows (omega (arith, weights f)))
        there e at,
  )
  ends f st (st1, true) few (grows, same) =
      let (st2, done, more, same2) = finishes f st1 few in
      (
        record st2 { task = multi_return_boolean G true st2.task },
        done,
        returned st2
            (Grows-trans G (branch_weight f) (finish_weight f) (load_weight f - 1) st st1 st2 grows
              more (omega (arith, weights f)))
            (same2 ∙ same) refl,
      )

  -- What a rejected file leaves.
  pub leaves_rejected :
      (f : File) (l : Loaded) (st st' : LoadState G)
      → st.manager.pending_internal_save_state_calls < max_uint64
      → load_file G R c f l st ≡ some (st', false)
      → Grows G (load_weight f - 1) st st'
        × (has_delete st'.requests ≡ true)
        × ((e : ℕ) × (st'.task_data ≡ some e))
  leaves_rejected f l st st' few refused =
      let (r, done, branch) = loads G R c fits f l st few in
      let (grows, there, error) =
        subst (λ r. Branch G R c fits (branch_weight f) st r)
          (some_pair r (st', false) (sym done ∙ refused)) branch in
      (
        Grows-le G (branch_weight f) (load_weight f - 1) st st' grows (omega (arith, weights f)),
        there,
        error,
      )

  small_share : (f : File) → branch_weight f ≤ 4
  small_share wallclock_time_file = omega arith
  small_share expiry_time_file = omega arith
  small_share expiry_seconds_file = omega arith
  small_share used_codes_file = omega arith
  small_share key_file = omega arith
  small_share account_id_file = omega arith

  Branch-saves :
      (f : File) (st : LoadState G) (r : LoadState G × Bool)
      → Branch G R c fits (branch_weight f) st r
      → r.0.manager.pending_internal_save_state_calls
        ≤ st.manager.pending_internal_save_state_calls + 4
  Branch-saves f st (st1, true) (grows, same) =
      omega (arith, grows.started, grows.within, small_share f)
  Branch-saves f st (st1, false) (grows, there, error) =
      omega (arith, grows.started, grows.within, small_share f)

  goes :
      (f : File) (l : Loaded) (st : LoadState G)
      → st.manager.pending_internal_save_state_calls + 5 < max_uint64
      → (st' : LoadState G) × (file_loaded G R c f (load_file G R c f l st) ≡ some st')
        × Outcome f st st'
  goes f l st few =
      let (r, done, branch) = loads G R c fits f l st (omega arith) in
      let (st', ended, outcome) = ends f st r (omega (arith, Branch-saves f st r branch)) branch in
      (st', rw done ended, outcome)

  file_load_outcome :
      (f : File) (l : Loaded) (st : LoadState G)
      → st.manager.pending_internal_save_state_calls + 5 < max_uint64
      → (st' : LoadState G) × (file_load G R c f l st ≡ some st') × Outcome f st st'
  unfolding file_load
  file_load_outcome f (contents bs) st few = goes f (contents bs) st few
  file_load_outcome f not_found st few = goes f not_found st few
  file_load_outcome f (load_failed e) st few = (with_error G e st, refl, errs e refl)

  pub file_load_cb_outcome :
      (f : File) (l : Loaded) (st : LoadState G)
      → st.manager.pending_internal_save_state_calls + 5 < max_uint64
      → (st' : LoadState G) × (file_load_cb G R c f l st ≡ some st') × Outcome f st st'
  unfolding file_load_cb
  file_load_cb_outcome f l st few = elim (Bool-cases (G.had_error st.task.handle)) [
    | inl failed ↦
        (with_error G failed_task_error st, simp failed refl, errs failed_task_error refl)
    | inr fine ↦
        let (st', done, outcome) = file_load_outcome f l st few in (st', rw fine done, outcome)
  ]
