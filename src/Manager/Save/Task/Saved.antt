-- ===== src/Manager/Save/Task/Saved.antt =====
-- How a save ends.
use eos_payg.Base.{
  ℕ, ◌+◌, ◌*◌, ◌≤◌, ◌<◌, ◌≡◌, ◌⊎◌, inl, inr, refl, sym, ap, subst, ◌∙◌, true, false, List, [], ◌∷◌,
  ◌++◌, length, length-remove, Bool-cases, arith,
}
use eos_payg.MultiTask.{GTask, MultiTask, attach, multi_return_boolean}
use eos_payg.MultiTask.Calls.{return_waits, return_last, return_error_first}
use eos_payg.Manager.{Snapshot}
use eos_payg.Manager.Save.Task.{
  StateFile, is_same, StateFiles, IsReliable, Performed, contents_to_write, perform, Saving,
  start_save, perform_one, call_back, SaveStep, performs, calls_back, SaveSteps, started,
  after_step,
}
use eos_payg.Manager.Save.Task.Callbacks.{
  is_failure, EndsWith, has_failure, is_waiting, is_same_eq, has_failure-remove, is_waiting-remove,
  file_saved_cb-pending, file_saved_cb-late, file_saved_cb-succeeded, file_saved_cb-failed,
  last_or_more, neither, perform-succeeds, perform-other, all_wait, head_or_none, none_left,
}

module _ (F : StateFiles) (G : GTask) (sn : Snapshot) (h0 : G.Handle) where
  -- The files whose operation is performed, and did not fail, hold what the save gives them.
  abbrev Written : Saving F G → Type 0
  Written s =
      (f : StateFile)
      → is_waiting f s.waiting ≡ false
      → has_failure s.due ≡ false
      → F.contents s.files f ≡ contents_to_write sn f

  abbrev under_way : Saving F G → ℕ
  under_way s = length s.waiting + length s.due

  -- What the operations of this save give.
  abbrev pub IsResult : Performed → Type 0
  IsResult p = (f : StateFile) × (s : F.State) × ((perform F f (contents_to_write sn f) s).0 ≡ p)

  data Results : List Performed → Type 0 where
    nothing_due : Results []
    one_due : {p : Performed} {ps : List Performed} → IsResult p → Results ps → Results (p ∷ ps)

  Results-remove :
      (before after : List Performed) (p : Performed)
      → Results (before ++ (p ∷ after))
      → IsResult p × Results (before ++ after)
  Results-remove [] after p (one_due r rs) = (r, rs)
  Results-remove (q ∷ before) after p (one_due r rs) =
      let (one, others) = Results-remove before after p rs in (one, one_due r others)

  -- An error of one of the operations.
  abbrev pub Reported : ℕ → Type 0
  Reported e = (p : Performed) × IsResult p × EndsWith p e

  data Stands (s : Saving F G) : Type 0 where
    waits : s.task.handle ≡ h0 → 0 < under_way s → Written s → Results s.due → Stands s
    saved : s.task.handle ≡ G.return_boolean h0 true → under_way s ≡ 0 → Written s → Stands s
    fails : (e : ℕ) → Reported e → s.task.handle ≡ G.return_error h0 e → Stands s

  abbrev Counted : Saving F G → Type 0
  Counted s = s.task.pending ≡ under_way s

  performed_Written :
      (reliable : IsReliable F) (f : StateFile) (before after : List StateFile) (s : Saving F G)
      → s.waiting ≡ before ++ (f ∷ after)
      → Written s
      → Written (perform_one F G sn f (before ++ after) s)
  unfolding perform_one is_waiting has_failure
  performed_Written reliable f before after s at written g idle fine =
      let c = contents_to_write sn f in
      let (fine_now, fine_then) =
        neither (is_failure (perform F f c s.files).0) (has_failure s.due) fine in
      elim (Bool-cases (is_same f g)) [
        | inl same ↦
            subst (λ g. F.contents (perform F f c s.files).1 g ≡ contents_to_write sn g)
              (is_same_eq f g same) (perform-succeeds F reliable f c s.files fine_now)
        | inr differ ↦
            perform-other F reliable f g c s.files differ
            ∙ written g
                (ap (is_waiting g) at
                  ∙ is_waiting-remove before after f g
                  ∙ ground (arith, differ, idle))
                fine_then
      ]

  called_back_Written :
      (p : Performed) (before after : List Performed) (s : Saving F G)
      → s.due ≡ before ++ (p ∷ after)
      → is_failure p ≡ false
      → Written s
      → Written (call_back F G p (before ++ after) s)
  unfolding call_back
  called_back_Written p before after s at fine_now written g idle fine =
      written g idle
        (ap has_failure at ∙ has_failure-remove before after p ∙ ground (arith, fine_now, fine))

  measure : Saving F G → ℕ
  measure s = 2 * length s.waiting + length s.due

  performs_moves :
      (reliable : IsReliable F) (f : StateFile) (before after : List StateFile) (s : Saving F G)
      → s.waiting ≡ before ++ (f ∷ after)
      → Counted s
      → Stands s
      → Counted (perform_one F G sn f (before ++ after) s)
        × Stands (perform_one F G sn f (before ++ after) s)
        × (measure (perform_one F G sn f (before ++ after) s) + 1 ≡ measure s)
  unfolding perform_one measure
  performs_moves reliable f before after s at counted stands =
      let shorter = ap (λ l. length l) at ∙ length-remove before after f in
      (
        omega (arith, counted, shorter),
        elim stands [
          | waits same some_left written results ↦
              waits same (omega arith) (performed_Written reliable f before after s at written)
                (one_due (f, s.files, refl) results)
          | saved same over written ↦ absurd (omega (arith, over, shorter))
          | fails e reported same ↦ fails e reported same
        ],
        omega (arith, shorter),
      )

  -- A callback on a task that has returned nothing yet.
  call_back_waits :
      (no_error : G.had_error h0 ≡ false) (p : Performed) (before after : List Performed)
      → (s : Saving F G) → s.due ≡ before ++ (p ∷ after)
      → Counted s
      → s.task.handle ≡ h0
      → Written s
      → Results s.due
      → Stands (call_back F G p (before ++ after) s)
  unfolding call_back
  call_back_waits no_error p before after s at counted same written results =
      let longer = ap (λ l. length l) at ∙ length-remove before after p in
      let unfailed = ap G.had_error same ∙ no_error in
      let (result, results') = Results-remove before after p (subst Results at results) in
      elim (Bool-cases (is_failure p)) [
        | inl failed ↦
            let (e, failure, eq) = file_saved_cb-failed G p s.task failed in
            fails e (p, result, failure)
              (ap (λ t. t.handle) eq
                ∙ return_error_first G e s.task (omega (arith, counted, longer)) unfailed
                ∙ ap (λ h. G.return_error h e) same)
        | inr fine ↦
            let ends = ap (λ t. t.handle) (file_saved_cb-succeeded G p s.task fine) in
            let written' = called_back_Written p before after s at fine written in
            elim (last_or_more s.task.pending (omega (arith, counted, longer))) [
              | inl last ↦
                  saved
                    (ends
                      ∙ return_last G s.task last unfailed
                      ∙ ap (λ h. G.return_boolean h true) same)
                    (omega (arith, counted, longer, last)) written'
              | inr more ↦
                  waits (ends ∙ ap (λ t. t.handle) (return_waits G s.task more) ∙ same)
                    (omega (arith, counted, longer, more)) written' results'
            ]
      ]

  calls_back_moves :
      (no_error : G.had_error h0 ≡ false) (p : Performed) (before after : List Performed)
      → (s : Saving F G) → s.due ≡ before ++ (p ∷ after)
      → Counted s
      → Stands s
      → Counted (call_back F G p (before ++ after) s)
        × Stands (call_back F G p (before ++ after) s)
        × (measure (call_back F G p (before ++ after) s) + 1 ≡ measure s)
  unfolding call_back measure
  calls_back_moves no_error p before after s at counted stands =
      let shorter = ap (λ l. length l) at ∙ length-remove before after p in
      let pending = file_saved_cb-pending G p s.task (omega (arith, counted, shorter)) in
      (
        omega (arith, counted, shorter, pending),
        elim stands [
          | waits same some_left written results ↦
              call_back_waits no_error p before after s at counted same written results
          | saved same over written ↦ absurd (omega (arith, over, shorter))
          | fails e reported same ↦ fails e reported (
              file_saved_cb-late G p s.task (ap G.had_error same ∙ G.had_error-return_error h0 e)
              ∙ same)
        ],
        omega (arith, shorter),
      )

  attached :
      (t : MultiTask G)
      → t.pending ≡ 0
      → multi_return_boolean G true (attach G 4 t) ≡ record { pending = 3; handle = t.handle }
  unfolding attach multi_return_boolean
  attached t unattached = ground arith

  start_save-Stands :
      (s : F.State) (t : MultiTask G)
      → t.handle ≡ h0
      → t.pending ≡ 0
      → Counted (start_save F G s t)
        × Stands (start_save F G s t)
        × (measure (start_save F G s t) ≡ 6)
  unfolding start_save measure is_waiting is_same
  start_save-Stands s t same unattached =
      let task = attached t unattached in
      (
        ap (λ t. t.pending) task,
        waits (ap (λ t. t.handle) task ∙ same) (omega arith)
            (λ f idle _. absurd (ground (arith, all_wait f, idle))) nothing_due,
        refl,
      )

  SaveStep-moves :
      (reliable : IsReliable F) (no_error : G.had_error h0 ≡ false) (s s' : Saving F G)
      → SaveStep F G sn s s'
      → Counted s
      → Stands s
      → Counted s' × Stands s' × (measure s' + 1 ≡ measure s)
  SaveStep-moves reliable no_error s s' (performs f before after at eq) counted stands =
      subst (λ s'. Counted s' × Stands s' × (measure s' + 1 ≡ measure s)) (sym eq)
        (performs_moves reliable f before after s at counted stands)
  SaveStep-moves reliable no_error s s' (calls_back p before after at eq) counted stands =
      subst (λ s'. Counted s' × Stands s' × (measure s' + 1 ≡ measure s)) (sym eq)
        (calls_back_moves no_error p before after s at counted stands)

  SaveSteps-moves :
      (reliable : IsReliable F) (no_error : G.had_error h0 ≡ false)
      → (s : Saving F G) (n : ℕ) (s' : Saving F G) → SaveSteps F G sn s n s'
      → Counted s
      → Stands s
      → Counted s' × Stands s' × (measure s' + n ≡ measure s)
  SaveSteps-moves reliable no_error s n s' started counted stands = (counted, stands, omega arith)
  SaveSteps-moves reliable no_error s n s' (after_step {n = k} {s1 = s1} steps step) counted
        stands =
      let (counted1, stands1, less1) =
        SaveSteps-moves reliable no_error s k s1 steps counted stands in
      let (counted', stands', less) =
        SaveStep-moves reliable no_error s1 s' step counted1 stands1 in
      (counted', stands', omega (arith, less1, less))

  -- How the task of a save ends.
  abbrev pub IsSaved : Saving F G → Type 0
  IsSaved s =
      (s.task.handle ≡ G.return_boolean h0 true)
      × ((f : StateFile) → F.contents s.files f ≡ contents_to_write sn f)

  abbrev pub IsUnsaved : Saving F G → Type 0
  IsUnsaved s = (e : ℕ) × Reported e × (s.task.handle ≡ G.return_error h0 e)

  Stands-ended : (s : Saving F G) → Stands s → s.waiting ≡ [] → s.due ≡ [] → IsSaved s ⊎ IsUnsaved s
  unfolding is_waiting has_failure
  Stands-ended s (waits same some_left written results) idle quiet =
      absurd (omega (arith, some_left, ap (λ l. length l) idle, ap (λ l. length l) quiet))
  Stands-ended s (saved same over written) idle quiet =
      inl (same, λ f. written f (ap (is_waiting f) idle) (ap has_failure quiet))
  Stands-ended s (fails e reported same) idle quiet = inr (e, reported, same)

  next_step : (s : Saving F G) → 0 < measure s → (s' : Saving F G) × SaveStep F G sn s s'
  unfolding measure
  next_step s busy = elim (head_or_none s.due) [
    | inl (p, ps, at) ↦ (call_back F G p ps s, calls_back p [] ps at refl)
    | inr quiet ↦ elim (head_or_none s.waiting) [
      | inl (f, fs, at) ↦ (perform_one F G sn f fs s, performs f [] fs at refl)
      | inr idle ↦ absurd (omega (arith, busy, ap (λ l. length l) quiet, ap (λ l. length l) idle))
    ]
  ]

  -- Over reliable files, on a task that has not failed and is not in use, a save ends after six
  -- steps, the three operations and their callbacks in any order: no more are possible, and from
  -- fewer the next is; then nothing is pending, and the task has returned true and every file
  -- holds what the save gives it, or is gone where the save deletes it, or the task has returned
  -- an error that one of its operations gave.
  pub SaveSteps-start_save :
      (reliable : IsReliable F) (no_error : G.had_error h0 ≡ false)
      → (s : F.State) (t : MultiTask G) (n : ℕ) (s' : Saving F G) → t.handle ≡ h0
      → t.pending ≡ 0
      → SaveSteps F G sn (start_save F G s t) n s'
      → (n ≤ 6)
        × (n < 6 → (s2 : Saving F G) × SaveStep F G sn s' s2)
        × (n ≡ 6 → (s'.task.pending ≡ 0) × (IsSaved s' ⊎ IsUnsaved s'))
  unfolding measure
  SaveSteps-start_save reliable no_error s t n s' same unattached steps =
      let (counted0, stands0, six) = start_save-Stands s t same unattached in
      let (counted, stands, size) =
        SaveSteps-moves reliable no_error (start_save F G s t) n s' steps counted0 stands0 in
      (
        omega (arith, six, size),
        λ early. next_step s' (omega (arith, six, size, early)),
        λ late. (
          omega (arith, six, size, late, counted),
          Stands-ended s' stands (none_left s'.waiting (omega (arith, six, size, late)))
              (none_left s'.due (omega (arith, six, size, late))),
        ),
      )
