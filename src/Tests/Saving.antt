-- ===== src/Tests/Saving.antt =====
-- A save of a manager that has seen no code, whose operations end in another order than they start.
use eos_payg.Base.{
  ℕ, ◌≤◌, ◌<◌, ◌≡◌, ◌⊎◌, refl, false, Option, none, some, List, [], ◌∷◌, if◌then◌else◌,
}
use eos_payg.Manager.{Snapshot}
use eos_payg.Manager.Save.{save_state_async}
use eos_payg.Manager.Save.Task.{
  StateFile, wallclock_time, expiry_seconds, used_codes, is_same, Deletion, deleted, missing,
  StateFiles, IsReliable, replaced, removed, contents_to_write, perform, Saving, start_save,
  perform_one, call_back, SaveStep, performs, calls_back, SaveSteps, started, after_step,
}
use eos_payg.Manager.Save.Task.Saved.{IsSaved, IsUnsaved, SaveSteps-start_save}
use eos_payg.Tests.Samples.{clock_at, gtask, fresh}

abbrev Contents : Type 0
Contents = StateFile → Option (List ℕ)

abbrev put : StateFile → Option (List ℕ) → Contents → Contents
put f c s g = if is_same f g then c else s g

abbrev removal : Option (List ℕ) → Deletion
removal none = missing
removal (some bs) = deleted

abbrev state_files : StateFiles
state_files = record {
  State = Contents;
  contents = λ s f. s f;
  replace = λ f bs s. (none, put f (some bs) s);
  delete = λ f s. (removal (s f), put f none s);
}

put_same : (f : StateFile) (c : Option (List ℕ)) (s : Contents) → put f c s f ≡ c
unfolding is_same
put_same wallclock_time c s = refl
put_same expiry_seconds c s = refl
put_same used_codes c s = refl

put_other :
    (f g : StateFile) (c : Option (List ℕ)) (s : Contents) → is_same f g ≡ false → put f c s g ≡ s g
put_other f g c s differ = simp differ refl

abbrev state_files-IsReliable : IsReliable state_files
state_files-IsReliable = record {
  contents-replace = λ f bs s done. put_same f (some bs) s;
  replace-other = λ f g bs s differ. put_other f g (some bs) s differ;
  contents-delete = λ f s done. put_same f none s;
  contents-missing = λ f s done. put_same f none s;
  delete-other = λ f g s differ. put_other f g none s differ;
}

abbrev snapshot : Snapshot
snapshot = save_state_async (clock_at 10) fresh

abbrev empty : Contents
empty f = none

abbrev t0 : Saving state_files gtask
t0 = start_save state_files gtask empty (record { pending = 0; handle = [] })

abbrev t1 : Saving state_files gtask
t1 = perform_one state_files gtask snapshot used_codes (wallclock_time ∷ expiry_seconds ∷ []) t0

abbrev t2 : Saving state_files gtask
t2 = perform_one state_files gtask snapshot wallclock_time (expiry_seconds ∷ []) t1

abbrev t3 : Saving state_files gtask
t3 = call_back state_files gtask (removed missing) (replaced none ∷ []) t2

abbrev t4 : Saving state_files gtask
t4 = perform_one state_files gtask snapshot expiry_seconds [] t3

abbrev t5 : Saving state_files gtask
t5 = call_back state_files gtask (replaced none) (replaced none ∷ []) t4

abbrev t6 : Saving state_files gtask
t6 = call_back state_files gtask (replaced none) [] t5

steps_to_t6 : SaveSteps state_files gtask snapshot t0 6 t6
unfolding start_save perform_one perform call_back contents_to_write save_state_async
steps_to_t6 =
    let at1 : SaveSteps state_files gtask snapshot t0 1 t1 =
      after_step started
        (performs used_codes (wallclock_time ∷ expiry_seconds ∷ []) [] refl refl) in
    let at2 : SaveSteps state_files gtask snapshot t0 2 t2 =
      after_step at1 (performs wallclock_time [] (expiry_seconds ∷ []) refl refl) in
    let at3 : SaveSteps state_files gtask snapshot t0 3 t3 =
      after_step at2 (calls_back (removed missing) (replaced none ∷ []) [] refl refl) in
    let at4 : SaveSteps state_files gtask snapshot t0 4 t4 =
      after_step at3 (performs expiry_seconds [] [] refl refl) in
    let at5 : SaveSteps state_files gtask snapshot t0 5 t5 =
      after_step at4 (calls_back (replaced none) (replaced none ∷ []) [] refl refl) in
    after_step at5 (calls_back (replaced none) [] [] refl refl)

abbrev every : ℕ
every = 6

SaveSteps-start_save_example :
    (every ≤ 6)
    × (every < 6 → (s2 : Saving state_files gtask) × SaveStep state_files gtask snapshot t6 s2)
    × (every ≡ 6
        → (t6.task.pending ≡ 0)
          × (IsSaved state_files gtask snapshot [] t6 ⊎ IsUnsaved state_files gtask snapshot [] t6))
SaveSteps-start_save_example =
    SaveSteps-start_save state_files gtask snapshot [] state_files-IsReliable refl empty
      (record { pending = 0; handle = [] }) every t6 refl refl steps_to_t6
