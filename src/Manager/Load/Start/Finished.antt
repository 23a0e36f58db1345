-- ===== src/Manager/Load/Start/Finished.antt =====
-- The end of the start.
use eos_payg.Base.{
  ℕ, ◌≤◌, ◌≡◌, ◌⊎◌, inl, refl, ap, subst, ◌∙◌, true, false, Option, none, some, List, [], ◌∷◌, ◌++◌,
  length, arith,
}
use eos_payg.MultiTask.{attach, GTask, MultiTask, multi_return_boolean}
use eos_payg.Manager.{Runtime, Clock, max_uint64}
use eos_payg.Manager.Load.{
  LoadState, File, Request, load_contents, Loaded, init_async, file_load_cb,
}
use eos_payg.Manager.Load.Growth.{weigh}
use eos_payg.Manager.Load.Outcomes.{file_load_cb_outcome}
use eos_payg.Manager.Load.Start.Waiting.{measure, Progress, waits}
use eos_payg.Manager.Load.Start.{Steps}
use eos_payg.Manager.Load.Start.Moves.{Answers, Answered, Stands, Steps-Stands, Progress-Answered}

module _ (G : GTask) (R : Runtime) (h0 : G.Handle) (fine : G.had_error h0 ≡ false) where
  attached :
      (t : MultiTask G)
      → t.pending ≡ 0
      → multi_return_boolean G true (attach G 5 t) ≡ record { pending = 4; handle = t.handle }
  unfolding attach multi_return_boolean
  attached t unattached = ground arith

  pub init_async-Progress :
      (st : LoadState G)
      → st.task.handle ≡ h0
      → st.task.pending ≡ 0
      → st.requests ≡ []
      → st.manager.pending_internal_save_state_calls ≡ 0
      → Progress G R h0 fine 0 (init_async G st) × (measure G R h0 fine (init_async G st) ≡ 10)
  unfolding init_async
  init_async-Progress st same unattached no_requests no_saves =
      let task = attached st.task unattached in
      let count = ap (λ l. length l) no_requests in
      let size = ap weigh no_requests in
      let pending : (multi_return_boolean G true (attach G 5 st.task)).pending ≡ 4 =
        ap (λ t. t.pending) task in
      (
        waits 0 (omega arith) (ap (λ t. t.handle) task ∙ same) (omega (arith, pending))
            (omega (arith, pending, count, no_saves)) (omega (arith, pending, size, no_saves))
            (inl refl),
        omega (arith, size, no_saves),
      )

  -- What is known of the task: without a cancellation it has returned nothing yet, or true, or one
  -- error, and it has returned when nothing is under way; from a cancellation on it returns nothing
  -- that it had not returned before.
  abbrev pub Outlook : Option G.Handle → LoadState G → Type 0
  Outlook none st =
      ((st.task.handle ≡ h0) ⊎ Answered G h0 st)
      × (st.requests ≡ [] → st.manager.pending_internal_save_state_calls ≡ 0 → Answered G h0 st)
  Outlook (some h) st = (st.task.handle ≡ G.cancel h) × ((h ≡ h0) ⊎ Answers G h0 h)

  Stands-Outlook :
      (o : Option G.Handle) (st : LoadState G) → Stands G R h0 fine 0 o st → Outlook o st
  Stands-Outlook none st progress = Progress-Answered G R h0 fine 0 st progress
  Stands-Outlook (some h) st (stopped, was, progress, at) = (
    stopped,
    subst (λ h. (h ≡ h0) ⊎ Answers G h0 h) at (Progress-Answered G R h0 fine 0 was progress).0,
  )

  -- From epg_manager_init_async on a task that has not failed and is not in use, with nothing
  -- under way, there are at most ten callbacks, in any order and with any results, and with or
  -- without a cancellation between them, while the clock fits in 64 bits; none of a load fails an
  -- assertion; without a cancellation the task has at any time returned true once, or one error,
  -- or nothing yet, and when no request and no save is under way it has returned; from a
  -- cancellation on it stays as it was then, so that one that had returned nothing never returns.
  pub Steps-init_async :
      (st st' : LoadState G) (o : Option G.Handle) (n : ℕ)
      → st.task.handle ≡ h0
      → st.task.pending ≡ 0
      → st.requests ≡ []
      → st.manager.pending_internal_save_state_calls ≡ 0
      → Steps G R (init_async G st) o n st'
      → (n ≤ 10)
        × Outlook o st'
        × ((c : Clock) (f : File) (l : Loaded) (before after : List Request)
            → c.time ≤ max_uint64
            → st'.requests ≡ before ++ (load_contents f ∷ after)
            → (st2 : LoadState G) × (file_load_cb G R c f l
                  (record st' { requests = before ++ after })
                ≡ some st2))
  Steps-init_async st st' o n same unattached no_requests no_saves steps =
      let (start, size) = init_async-Progress st same unattached no_requests no_saves in
      let (stands, less) = Steps-Stands G R h0 fine 0 (init_async G st) o n st' steps start in
      (
        omega (arith, size, less),
        Stands-Outlook o st' stands,
        λ c f l before after fits at.
            let st0 : LoadState G = record st' { requests = before ++ after } in
            let (st2, done, _) =
              file_load_cb_outcome G R c fits f l st0 (omega (arith, size, less)) in
            (st2, done),
      )
