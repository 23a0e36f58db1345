-- ===== src/Manager/Load/Start/Rejected.antt =====
-- A start that finds a state file of the wrong length.
use eos_payg.Base.{
  ℕ, ◌≤◌, ◌≡◌, ◌≢◌, ◌⊎◌, inl, inr, sym, ap, subst, ◌∙◌, true, false, Option, none, some, List, [],
  ◌∷◌, ◌++◌, length, length-remove, arith,
}
use eos_payg.MultiTask.{GTask}
use eos_payg.Manager.{Runtime, Clock, max_uint64}
use eos_payg.Manager.Load.{
  LoadState, File, Request, load_contents, contents, init_async, load_file, file_load_cb,
}
use eos_payg.Manager.Load.Growth.{load_weight-pos, has_delete}
use eos_payg.Manager.Load.Outcomes.{leaves_rejected}
use eos_payg.Manager.Load.Rejection.{is_number_file, Rejected, wrong_length}
use eos_payg.Manager.Load.Start.{Steps}
use eos_payg.Manager.Load.Start.Waiting.{Progress, waits, succeeded, failed}
use eos_payg.Manager.Load.Start.Answers.{busy}
use eos_payg.Manager.Load.Start.Loading.{loaded_rejected}
use eos_payg.Manager.Load.Start.Moves.{some_eq, Stands, Steps-Stands}
use eos_payg.Manager.Load.Start.Finished.{init_async-Progress}

module _ (G : GTask) (R : Runtime) (h0 : G.Handle) (fine : G.had_error h0 ≡ false) where
  -- The rejection leaves an operation that no callback returns but with an error.
  rejected-Progress :
      (c : Clock) (fits : c.time ≤ max_uint64) (f : File) (bs : List ℕ)
      → (before after : List Request) (st st' : LoadState G)
      → st.requests ≡ before ++ (load_contents f ∷ after)
      → G.had_error st.task.handle ≡ false
      → load_file G R c f (contents bs) (record st { requests = before ++ after })
        ≡ some (st', false)
      → Progress G R h0 fine 0 st
      → Progress G R h0 fine 1 st'
  rejected-Progress c fits f bs before after st st' at unfailed refused (succeeded done same over) =
      absurd (
        omega
          (arith, busy G R h0 fine 0 st before after (load_contents f) at, over, load_weight-pos f))
  rejected-Progress c fits f bs before after st st' at unfailed refused (failed e same small) =
      absurd (ground (arith, ap G.had_error same, G.had_error-return_error h0 e, unfailed))
  rejected-Progress c fits f bs before after st st' at unfailed refused
        (waits leaks least same some_left counted bounded left) =
      let st0 : LoadState G = record st { requests = before ++ after } in
      let size = busy G R h0 fine 0 st before after (load_contents f) at in
      let longer = ap (λ l. length l) at ∙ length-remove before after (load_contents f) in
      let (grows, there, (e, error)) =
        leaves_rejected G R c fits f (contents bs) st0 st' (omega (arith, bounded, size)) refused in
      (loaded_rejected G R h0 fine 1 f st0 st' leaks (omega arith) same
        (omega (arith, counted, longer)) (omega (arith, bounded, size)) grows there e error).0

  abbrev pub HasFailed : G.Handle → Type 0
  HasFailed h = (e : ℕ) × (h ≡ G.return_error h0 e)

  -- The task never returns true: without a cancellation it has returned nothing or an error, and
  -- when nothing is under way an error; from a cancellation on it stays as it was then.
  abbrev pub Fails : Option G.Handle → LoadState G → Type 0
  Fails none st =
      ((st.task.handle ≡ h0) ⊎ HasFailed st.task.handle)
      × (st.requests ≡ []
          → st.manager.pending_internal_save_state_calls ≡ 0
          → HasFailed st.task.handle)
  Fails (some h) st = (st.task.handle ≡ G.cancel h) × ((h ≡ h0) ⊎ HasFailed h)

  Progress-Fails : (st : LoadState G) → Progress G R h0 fine 1 st → Fails none st
  Progress-Fails st (waits leaks least same some_left counted bounded (inl leakless)) =
      absurd (omega (arith, least, leakless))
  Progress-Fails st (waits leaks least same some_left counted bounded (inr (there, error))) =
      (inl same, λ no_requests no_saves. absurd (ground (arith, ap has_delete no_requests, there)))
  Progress-Fails st (succeeded done same over) = absurd (omega (arith, done))
  Progress-Fails st (failed e same small) = (inr (e, same), λ no_requests no_saves. (e, same))

  Stands-Fails : (o : Option G.Handle) (st : LoadState G) → Stands G R h0 fine 1 o st → Fails o st
  Stands-Fails none st progress = Progress-Fails st progress
  Stands-Fails (some h) st (stopped, was, progress, at) =
      (stopped, subst (λ h. (h ≡ h0) ⊎ HasFailed h) at (Progress-Fails was progress).0)

  -- From epg_manager_init_async on a task that has not failed and is not in use, with nothing
  -- under way, if a callback of a load that reads its clock in 64 bits and finds the task not
  -- failed and not cancelled reads a file of one 64-bit number that is neither empty nor eight
  -- bytes long, it leaves the manager as it was and asks for the deletion of the file; and after
  -- any further callbacks, with any results, the task has returned nothing or an error, and an
  -- error when nothing is under way, or it has been cancelled and has returned nothing since.
  pub rejected_lem :
      (st st1 st2 st3 : LoadState G) (o : Option G.Handle) (n m : ℕ) (c : Clock) (f : File)
      → (bs : List ℕ) (before after : List Request) → st.task.handle ≡ h0
      → st.task.pending ≡ 0
      → st.requests ≡ []
      → st.manager.pending_internal_save_state_calls ≡ 0
      → Steps G R (init_async G st) none n st1
      → c.time ≤ max_uint64
      → st1.requests ≡ before ++ (load_contents f ∷ after)
      → G.had_error st1.task.handle ≡ false
      → is_number_file f ≡ true
      → length bs ≢ 0
      → length bs ≢ 8
      → file_load_cb G R c f (contents bs) (record st1 { requests = before ++ after }) ≡ some st2
      → Steps G R st2 o m st3
      → Rejected G f (record st1 { requests = before ++ after }) st2 × Fails o st3
  rejected_lem st st1 st2 st3 o n m c f bs before after same unattached no_requests no_saves steps
        fits at unfailed number filled wrong did later =
      let st0 : LoadState G = record st1 { requests = before ++ after } in
      let (start, size) = init_async-Progress G R h0 fine st same unattached no_requests no_saves in
      let (progress, _) = Steps-Stands G R h0 fine 0 (init_async G st) none n st1 steps start in
      let (st', refused, done, r) = wrong_length G R c f bs st0 number unfailed filled wrong in
      let eq : st' ≡ st2 = some_eq st' st2 (sym done ∙ did) in
      let p = rejected-Progress c fits f bs before after st1 st' at unfailed refused progress in
      let (stands, _) =
        Steps-Stands G R h0 fine 1 st2 o m st3 later (subst (Progress G R h0 fine 1) eq p) in
      (subst (Rejected G f st0) eq r, Stands-Fails o st3 stands)
