-- ===== src/Manager/Load/Start/Moves.antt =====
-- What a callback and a cancellation do to a start: it proceeds until it is cancelled, and then stays
-- as it is.
use eos_payg.Base.{
  ℕ, ◌+◌, ◌≤◌, ◌<◌, ◌≡◌, ◌⊎◌, inl, inr, refl, sym, ap, subst, ◌∙◌, true, false, Option, none, some,
  List, [], ◌∷◌, ◌++◌, length, length-remove, arith,
}
use eos_payg.MultiTask.{GTask}
use eos_payg.Manager.{Runtime, Clock, max_uint64}
use eos_payg.Manager.Load.{
  LoadState, File, Request, load_contents, Loaded, with_error, failed_task_error, file_load_cb,
}
use eos_payg.Manager.Load.Growth.{has_delete, load_weight-pos}
use eos_payg.Manager.Load.Outcomes.{Outcome, file_load_cb_outcome}
use eos_payg.Manager.Load.Start.Waiting.{
  measure, Leaks, Progress, waits, succeeded, failed, had_failed,
}
use eos_payg.Manager.Load.Start.Answers.{
  Proceeds, load_late, ends_late, busy, save_moves, delete_moves, GoesOn, load-GoesOn,
  delete-GoesOn, save-GoesOn,
}
use eos_payg.Manager.Load.Start.Loading.{loaded}
use eos_payg.Manager.Load.Start.{Steps, here, next, cancels, Step, load_cb, delete_cb, save_cb}
use eos_payg.Manager.Load.Start.Counts.{has_delete-remove}

pub some_eq : {A : Type 0} (a b : A) → some a ≡ some b → a ≡ b
some_eq a b h = cc

module _ (G : GTask) (h0 : G.Handle) where
  -- Where the task of a start stands.
  abbrev pub Answers : G.Handle → Type 0
  Answers h = (h ≡ G.return_boolean h0 true) ⊎ ((e : ℕ) × (h ≡ G.return_error h0 e))

  abbrev pub Answered : LoadState G → Type 0
  Answered st = Answers st.task.handle

module _ (G : GTask) (R : Runtime) (h0 : G.Handle) (fine : G.had_error h0 ≡ false) (k : ℕ) where
  answered_Leaks :
      (f : File) (before after : List Request) (leaks : ℕ) (st : LoadState G)
      → st.requests ≡ before ++ (load_contents f ∷ after)
      → Leaks G R h0 fine leaks st
      → Leaks G R h0 fine leaks (record st { requests = before ++ after })
  answered_Leaks f before after leaks st at (inl leakless) = inl leakless
  answered_Leaks f before after leaks st at (inr (there, error)) = inr (
    sym (has_delete-remove before after (load_contents f) refl) ∙ sym (ap has_delete at) ∙ there,
    error,
  )

  load_moves :
      (c : Clock) (f : File) (l : Loaded) (before after : List Request) (st st' : LoadState G)
      → c.time ≤ max_uint64
      → st.requests ≡ before ++ (load_contents f ∷ after)
      → file_load_cb G R c f l (record st { requests = before ++ after }) ≡ some st'
      → Progress G R h0 fine k st
      → Proceeds G R h0 fine k st st'
  load_moves c f l before after st st' fits at did (succeeded none_left same over) = absurd (
      omega
        (arith, busy G R h0 fine k st before after (load_contents f) at, over, load_weight-pos f))
  load_moves c f l before after st st' fits at did (failed e same small) =
      let st0 : LoadState G = record st { requests = before ++ after } in
      let size = busy G R h0 fine k st before after (load_contents f) at in
      let eq : st' ≡ with_error G failed_task_error st0 =
        some_eq st' (with_error G failed_task_error st0)
          (sym did ∙ load_late G R h0 fine k c f l st0 (had_failed G R h0 fine k st e same)) in
      let (p, kept) =
        ends_late G R h0 fine k e st0 st' (inl (failed_task_error, eq)) same
          (omega (arith, size, small)) in
      (p, omega (arith, size, kept, load_weight-pos f))
  load_moves c f l before after st st' fits at did
        (waits leaks least same some_left counted bounded left) =
      let st0 : LoadState G = record st { requests = before ++ after } in
      let size = busy G R h0 fine k st before after (load_contents f) at in
      let longer = ap (λ l. length l) at ∙ length-remove before after (load_contents f) in
      let (st1, done, outcome) =
        file_load_cb_outcome G R c fits f l st0 (omega (arith, bounded, size)) in
      let eq : st1 ≡ st' = some_eq st1 st' (sym done ∙ did) in
      let (p, less) =
        loaded G R h0 fine k c fits f st0 st' leaks least same (omega (arith, counted, longer))
          (omega (arith, bounded, size)) (answered_Leaks f before after leaks st at left)
          (subst (Outcome G R c fits f st0) eq outcome) in
      (p, omega (arith, size, less))

  Step-moves :
      (st st' : LoadState G)
      → Step G R st st'
      → Progress G R h0 fine k st
      → Proceeds G R h0 fine k st st'
  Step-moves st st' (load_cb c f l before after fits at did) progress =
      load_moves c f l before after st st' fits at did progress
  Step-moves st st' (delete_cb f lost before after at eq) progress =
      subst (Proceeds G R h0 fine k st) (sym eq)
        (delete_moves G R h0 fine k f lost before after st at progress)
  Step-moves st st' (save_cb lost some_saves eq) progress =
      subst (Proceeds G R h0 fine k st) (sym eq)
        (save_moves G R h0 fine k lost st some_saves progress)

  pub Progress-Answered :
      (st : LoadState G)
      → Progress G R h0 fine k st
      → ((st.task.handle ≡ h0) ⊎ Answered G h0 st)
        × (st.requests ≡ [] → st.manager.pending_internal_save_state_calls ≡ 0 → Answered G h0 st)
  Progress-Answered st (waits leaks least same some_left counted bounded (inl leakless)) = (
    inl same,
    λ no_requests no_saves.
        absurd
          (omega (arith, some_left, counted, leakless, no_saves, ap (λ l. length l) no_requests)),
  )
  Progress-Answered st (waits leaks least same some_left counted bounded (inr (there, error))) =
      (inl same, λ no_requests no_saves. absurd (ground (arith, ap has_delete no_requests, there)))
  Progress-Answered st (succeeded none_left same over) = (inr (inl same), λ _ _. inl same)
  Progress-Answered st (failed e same small) = (inr (inr (e, same)), λ _ _. inr (e, same))

  -- Without a cancellation the start proceeds; from one on the task stays as it was then.
  abbrev pub Stands : Option G.Handle → LoadState G → Type 0
  Stands none st = Progress G R h0 fine k st
  Stands (some h) st =
      (st.task.handle ≡ G.cancel h)
      × (was : LoadState G) × Progress G R h0 fine k was
      × (was.task.handle ≡ h)

  Step-late :
      (st st' : LoadState G)
      → Step G R st st'
      → G.had_error st.task.handle ≡ true
      → GoesOn G R h0 fine k st st'
  Step-late st st' (load_cb c f l before after fits at did) late =
      let st0 : LoadState G = record st { requests = before ++ after } in
      load-GoesOn G R h0 fine k f before after st st' at
        (some_eq st' (with_error G failed_task_error st0)
          (sym did ∙ load_late G R h0 fine k c f l st0 late))
        late
  Step-late st st' (delete_cb f lost before after at eq) late =
      subst (GoesOn G R h0 fine k st) (sym eq)
        (delete-GoesOn G R h0 fine k f lost before after st at late)
  Step-late st st' (save_cb lost some_saves eq) late =
      subst (GoesOn G R h0 fine k st) (sym eq) (save-GoesOn G R h0 fine k lost st some_saves late)

  Step-Stands :
      (o : Option G.Handle) (st st' : LoadState G)
      → Step G R st st'
      → Stands o st
      → Stands o st' × (measure G R h0 fine st' < measure G R h0 fine st)
  Step-Stands none st st' step progress = Step-moves st st' step progress
  Step-Stands (some h) st st' step (stopped, was, progress, at) =
      let (same, less) = Step-late st st' step (ap G.had_error stopped ∙ G.had_error-cancel h) in
      ((same ∙ stopped, was, progress, at), less)

  pub Steps-Stands :
      (st : LoadState G) (o : Option G.Handle) (n : ℕ) (st' : LoadState G)
      → Steps G R st o n st'
      → Progress G R h0 fine k st
      → Stands o st' × (measure G R h0 fine st' + n ≤ measure G R h0 fine st)
  Steps-Stands st o n st' here progress = (progress, omega arith)
  Steps-Stands st o n st' (next {n = k} {st1 = st1} steps step) progress =
      let (p, less) = Steps-Stands st o k st1 steps progress in
      let (p', less') = Step-Stands o st1 st' step p in (p', omega (arith, less, less'))
  Steps-Stands st o n st' (cancels {st1 = st1} steps) progress =
      let (p, less) = Steps-Stands st none n st1 steps progress in ((refl, st1, p, refl), less)
