-- ===== src/Manager/Load/Start/Answers.antt =====
-- What the callbacks of the deletions and of the saves do to the start.
use eos_payg.Base.{
  ℕ, suc, ◌+◌, ◌-◌, ◌*◌, ◌≤◌, ◌<◌, ◌≡◌, ◌⊎◌, inl, inr, refl, sym, ap, subst, ◌∙◌, Bool, true, false,
  Option, none, some, List, ◌∷◌, ◌++◌, length, length-remove, Option-cases, arith,
}
use eos_payg.MultiTask.{GTask, multi_return_boolean}
use eos_payg.Manager.{Manager, Runtime, Clock}
use eos_payg.Manager.Shutdown.{internal_save_state_cb}
use eos_payg.Manager.Load.{
  LoadState, File, Request, load_contents, delete_file, Loaded, with_error, failed_task_error,
  file_load_cb, file_load_delete_cb, load_save_state_cb,
}
use eos_payg.Manager.Load.Growth.{weight, weigh, load_weight-pos}
use eos_payg.Manager.Load.Start.Waiting.{
  saves_of, measure, Leaks, Progress, waits, succeeded, failed, had_failed, fail_one, finish_one,
}
use eos_payg.MultiTask.Calls.{return_boolean_late, return_error_late}
use eos_payg.Manager.Load.Start.Counts.{weigh-remove}

module _ (G : GTask) (R : Runtime) (h0 : G.Handle) (fine : G.had_error h0 ≡ false) (k : ℕ) where
  abbrev pub Proceeds : LoadState G → LoadState G → Type 0
  Proceeds st st' = Progress G R h0 fine k st' × (measure G R h0 fine st' < measure G R h0 fine st)

  -- Behind an error the callbacks only use up what is under way.
  pub load_late :
      (c : Clock) (f : File) (l : Loaded) (st : LoadState G)
      → G.had_error st.task.handle ≡ true
      → file_load_cb G R c f l st ≡ some (with_error G failed_task_error st)
  unfolding file_load_cb
  load_late c f l st late = simp late refl

  -- How an operation that is not a load ends.
  abbrev pub Returned : LoadState G → LoadState G → Type 0
  Returned st st' = st' ≡ record st { task = multi_return_boolean G true st.task }

  abbrev pub Ends : LoadState G → LoadState G → Type 0
  Ends st st' = ((e : ℕ) × (st' ≡ with_error G e st)) ⊎ Returned st st'

  deleted :
      (lost : Option ℕ) (st : LoadState G)
      → ((e : ℕ) × (file_load_delete_cb G lost st ≡ with_error G e st))
        ⊎ ((st.task_data ≡ none) × Returned st (file_load_delete_cb G lost st))
  unfolding file_load_delete_cb
  deleted lost st = elim (Option-cases st.task_data) [
    | inr (e, at) ↦ inl (e, ground (arith, at))
    | inl nothing ↦ elim (Option-cases lost) [
      | inr (e, at) ↦ inl (e, ground (arith, nothing, at))
      | inl gone ↦ inr (nothing, ground (arith, nothing, gone))
    ]
  ]

  saved :
      (lost : Option ℕ) (st : LoadState G)
      → (ok : Bool) × Ends
          (record st { manager = internal_save_state_cb ok st.manager })
          (load_save_state_cb G lost st)
  unfolding load_save_state_cb
  saved none st = (true, inr refl)
  saved (some e) st = (false, inl (e, refl))

  internal_saves :
      (ok : Bool) (m : Manager)
      → (internal_save_state_cb ok m).pending_internal_save_state_calls
        ≡ m.pending_internal_save_state_calls - 1
  unfolding internal_save_state_cb
  internal_saves ok m = ground arith

  pub ends_late :
      (e : ℕ) (st st' : LoadState G)
      → Ends st st'
      → st.task.handle ≡ G.return_error h0 e
      → measure G R h0 fine st ≤ 10
      → Progress G R h0 fine k st' × (measure G R h0 fine st' ≡ measure G R h0 fine st)
  ends_late e st st' (inl (e', eq)) same small =
      let late = return_error_late G e' st.task (had_failed G R h0 fine k st e same) in
      let size = ap (measure G R h0 fine) eq in
      (failed e (ap (λ s. s.task.handle) eq ∙ late ∙ same) (omega (arith, size, small)), size)
  ends_late e st st' (inr eq) same small =
      let late = return_boolean_late G st.task (had_failed G R h0 fine k st e same) in
      let size = ap (measure G R h0 fine) eq in
      (failed e (ap (λ s. s.task.handle) eq ∙ late ∙ same) (omega (arith, size, small)), size)

  ends_early :
      (leaks : ℕ) (st st' : LoadState G)
      → k ≤ leaks
      → ((e : ℕ) × (st' ≡ with_error G e st)) ⊎ (Returned st st' × Leaks G R h0 fine leaks st)
      → st.task.handle ≡ h0
      → st.task.pending ≡ suc (length st.requests + saves_of G R h0 fine st + leaks)
      → st.task.pending + 6 * measure G R h0 fine st ≤ 65
      → Progress G R h0 fine k st' × (measure G R h0 fine st' ≡ measure G R h0 fine st)
  ends_early leaks st st' least (inl (e, eq)) same counted bounded = (
    subst (Progress G R h0 fine k) (sym eq) (
        fail_one G R h0 fine k e st same (omega (arith, counted))
          (omega (arith, bounded, counted))),
    ap (measure G R h0 fine) eq,
  )
  ends_early leaks st st' least (inr (eq, left)) same counted bounded = (
    subst (Progress G R h0 fine k) (sym eq)
        (finish_one G R h0 fine k leaks st least same counted bounded left),
    ap (measure G R h0 fine) eq,
  )

  with_Leaks :
      (st st' : LoadState G) (leaks : ℕ)
      → Leaks G R h0 fine leaks st
      → Ends st st'
      → ((e : ℕ) × (st' ≡ with_error G e st)) ⊎ (Returned st st' × Leaks G R h0 fine leaks st)
  with_Leaks st st' leaks left (inl ends) = inl ends
  with_Leaks st st' leaks left (inr eq) = inr (eq, left)

  -- A callback has something to answer.
  pub busy :
      (st : LoadState G) (before after : List Request) (q : Request)
      → st.requests ≡ before ++ (q ∷ after)
      → measure G R h0 fine st
        ≡ measure G R h0 fine (record st { requests = before ++ after }) + weight q
  busy st before after q at = omega (arith, ap weigh at, weigh-remove before after q)

  pub save_moves :
      (lost : Option ℕ) (st : LoadState G)
      → 0 < st.manager.pending_internal_save_state_calls
      → Progress G R h0 fine k st
      → Proceeds st (load_save_state_cb G lost st)
  save_moves lost st some_saves (succeeded none_left same over) =
      absurd (omega (arith, some_saves, over))
  save_moves lost st some_saves (failed e same small) =
      let (ok, ends) = saved lost st in
      let st0 : LoadState G = record st { manager = internal_save_state_cb ok st.manager } in
      let fewer = internal_saves ok st.manager in
      let (p, size) =
        ends_late e st0 (load_save_state_cb G lost st) ends same (omega (arith, fewer, small)) in
      (p, omega (arith, size, fewer, some_saves))
  save_moves lost st some_saves (waits leaks least same some_left counted bounded left) =
      let (ok, ends) = saved lost st in
      let st0 : LoadState G = record st { manager = internal_save_state_cb ok st.manager } in
      let fewer = internal_saves ok st.manager in
      let (p, size) =
        ends_early leaks st0 (load_save_state_cb G lost st) least (with_Leaks st0 _ leaks left ends)
          same (omega (arith, counted, fewer, some_saves)) (omega (arith, bounded, fewer)) in
      (p, omega (arith, size, fewer, some_saves))

  -- Where a deletion returns no error, no operation has been left.
  deletion_ends :
      (lost : Option ℕ) (st : LoadState G) (leaks : ℕ)
      → (leaks ≡ 0) ⊎ ((e : ℕ) × (st.task_data ≡ some e))
      → let st' = file_load_delete_cb G lost st in
        ((e : ℕ) × (st' ≡ with_error G e st)) ⊎ (Returned st st' × Leaks G R h0 fine leaks st)
  deletion_ends lost st leaks left = elim (deleted lost st) [
    | inl ends ↦ inl ends
    | inr (nothing, eq) ↦ elim left [
      | inl leakless ↦ inr (eq, inl leakless)
      | inr (e, at) ↦ absurd (ground arith)
    ]
  ]

  without_delete :
      (leaks : ℕ) (st : LoadState G)
      → Leaks G R h0 fine leaks st
      → (leaks ≡ 0) ⊎ ((e : ℕ) × (st.task_data ≡ some e))
  without_delete leaks st (inl leakless) = inl leakless
  without_delete leaks st (inr (there, error)) = inr error

  deletion_Ends : (lost : Option ℕ) (st : LoadState G) → Ends st (file_load_delete_cb G lost st)
  deletion_Ends lost st = elim (deleted lost st) [
    | inl ends ↦ inl ends
    | inr (nothing, eq) ↦ inr eq
  ]

  pub delete_moves :
      (f : File) (lost : Option ℕ) (before after : List Request) (st : LoadState G)
      → st.requests ≡ before ++ (delete_file f ∷ after)
      → Progress G R h0 fine k st
      → Proceeds st (file_load_delete_cb G lost (record st { requests = before ++ after }))
  delete_moves f lost before after st at (succeeded none_left same over) =
      absurd (omega (arith, busy st before after (delete_file f) at, over))
  delete_moves f lost before after st at (failed e same small) =
      let st0 : LoadState G = record st { requests = before ++ after } in
      let size = busy st before after (delete_file f) at in
      let (p, kept) =
        ends_late e st0 (file_load_delete_cb G lost st0) (deletion_Ends lost st0) same
          (omega (arith, size, small)) in
      (p, omega (arith, size, kept))
  delete_moves f lost before after st at (waits leaks least same some_left counted bounded left) =
      let st0 : LoadState G = record st { requests = before ++ after } in
      let size = busy st before after (delete_file f) at in
      let longer = ap (λ l. length l) at ∙ length-remove before after (delete_file f) in
      let (p, kept) =
        ends_early leaks st0 (file_load_delete_cb G lost st0) least
          (deletion_ends lost st0 leaks (without_delete leaks st left)) same
          (omega (arith, counted, longer)) (omega (arith, bounded, size)) in
      (p, omega (arith, size, kept))

  -- On a task that has failed or was cancelled, whatever ends changes only what is counted.
  late_ends :
      (st st' : LoadState G)
      → Ends st st'
      → G.had_error st.task.handle ≡ true
      → (st'.task.handle ≡ st.task.handle) × (measure G R h0 fine st' ≡ measure G R h0 fine st)
  late_ends st st' (inl (e, eq)) late =
      (ap (λ s. s.task.handle) eq ∙ return_error_late G e st.task late, ap (measure G R h0 fine) eq)
  late_ends st st' (inr eq) late =
      (ap (λ s. s.task.handle) eq ∙ return_boolean_late G st.task late, ap (measure G R h0 fine) eq)

  -- The callbacks then keep the task as it is.
  abbrev pub GoesOn : LoadState G → LoadState G → Type 0
  GoesOn st st' =
      (st'.task.handle ≡ st.task.handle) × (measure G R h0 fine st' < measure G R h0 fine st)

  pub load-GoesOn :
      (f : File) (before after : List Request) (st st' : LoadState G)
      → st.requests ≡ before ++ (load_contents f ∷ after)
      → st' ≡ with_error G failed_task_error (record st { requests = before ++ after })
      → G.had_error st.task.handle ≡ true
      → GoesOn st st'
  load-GoesOn f before after st st' at eq late =
      let st0 : LoadState G = record st { requests = before ++ after } in
      let (same, size) = late_ends st0 st' (inl (failed_task_error, eq)) late in
      (same, omega (arith, size, busy st before after (load_contents f) at, load_weight-pos f))

  pub delete-GoesOn :
      (f : File) (lost : Option ℕ) (before after : List Request) (st : LoadState G)
      → st.requests ≡ before ++ (delete_file f ∷ after)
      → G.had_error st.task.handle ≡ true
      → GoesOn st (file_load_delete_cb G lost (record st { requests = before ++ after }))
  delete-GoesOn f lost before after st at late =
      let st0 : LoadState G = record st { requests = before ++ after } in
      let (same, size) =
        late_ends st0 (file_load_delete_cb G lost st0) (deletion_Ends lost st0) late in
      (same, omega (arith, size, busy st before after (delete_file f) at))

  pub save-GoesOn :
      (lost : Option ℕ) (st : LoadState G)
      → 0 < st.manager.pending_internal_save_state_calls
      → G.had_error st.task.handle ≡ true
      → GoesOn st (load_save_state_cb G lost st)
  save-GoesOn lost st some_saves late =
      let (ok, ends) = saved lost st in
      let st0 : LoadState G = record st { manager = internal_save_state_cb ok st.manager } in
      let (same, size) = late_ends st0 (load_save_state_cb G lost st) ends late in
      (same, omega (arith, size, internal_saves ok st.manager, some_saves))
