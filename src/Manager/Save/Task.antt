-- ===== src/Manager/Save/Task.antt =====
-- The task of `epg_manager_save_state_async`: two files that are replaced, and one that is replaced
-- or deleted. GIO performs the operations in any order, and calls back in any order; the three files
-- over it are the record `StateFiles`, whose laws are its documentation.
pub mod Callbacks
pub mod Saved
use eos_payg.Base.{ℕ, suc, ◌≡◌, Bool, true, false, Option, none, some, List, [], ◌∷◌, ◌++◌}
use eos_payg.MultiTask.{GTask, MultiTask, attach, multi_return_boolean, multi_return_error}
use eos_payg.Manager.{Snapshot}

-- The files that a save writes.
pub data StateFile : Type 0 where
  wallclock_time : StateFile
  expiry_seconds : StateFile
  used_codes : StateFile

unfoldable pub is_same : StateFile → StateFile → Bool
is_same wallclock_time wallclock_time = true
is_same expiry_seconds expiry_seconds = true
is_same used_codes used_codes = true
is_same _ _ = false

-- How `g_file_delete_finish` ends.
pub data Deletion : Type 0 where
  deleted : Deletion
  missing : Deletion
  undeleted : ℕ → Deletion

-- The files, with what performs `g_file_replace_contents_bytes_async` (with its error, where it
-- fails) and `g_file_delete_async`.
pub record StateFiles : Type 1 where
  pub State : Type 0
  pub contents : State → StateFile → Option (List ℕ)
  pub replace : StateFile → List ℕ → State → Option ℕ × State
  pub delete : StateFile → State → Deletion × State

-- A replacement or a deletion that succeeds does it; a deletion that finds no file leaves none; and
-- neither touches another file.
pub record IsReliable (F : StateFiles) : Type 0 where
  pub contents-replace :
      (f : StateFile) (bs : List ℕ) (s : F.State)
      → (F.replace f bs s).0 ≡ none
      → F.contents (F.replace f bs s).1 f ≡ some bs
  pub replace-other :
      (f g : StateFile) (bs : List ℕ) (s : F.State)
      → is_same f g ≡ false
      → F.contents (F.replace f bs s).1 g ≡ F.contents s g
  pub contents-delete :
      (f : StateFile) (s : F.State)
      → (F.delete f s).0 ≡ deleted
      → F.contents (F.delete f s).1 f ≡ none
  pub contents-missing :
      (f : StateFile) (s : F.State)
      → (F.delete f s).0 ≡ missing
      → F.contents (F.delete f s).1 f ≡ none
  pub delete-other :
      (f g : StateFile) (s : F.State)
      → is_same f g ≡ false
      → F.contents (F.delete f s).1 g ≡ F.contents s g

-- What a callback finds: its operation with the result.
pub data Performed : Type 0 where
  replaced : Option ℕ → Performed
  removed : Deletion → Performed

-- The contents that a save gives to a file, or none where it deletes it.
unfoldable pub contents_to_write : Snapshot → StateFile → Option (List ℕ)
contents_to_write sn wallclock_time = some sn.clock_time
contents_to_write sn expiry_seconds = some sn.expiry_seconds
contents_to_write sn used_codes = sn.used_codes

module _ (G : GTask) where
  unfoldable pub file_replace_cb : Option ℕ → MultiTask G → MultiTask G
  file_replace_cb (some e) t = multi_return_error G e t
  file_replace_cb none t = multi_return_boolean G true t

  unfoldable pub file_save_delete_cb : Deletion → MultiTask G → MultiTask G
  file_save_delete_cb (undeleted e) t = multi_return_error G e t
  file_save_delete_cb deleted t = multi_return_boolean G true t
  file_save_delete_cb missing t = multi_return_boolean G true t

  unfoldable pub file_saved_cb : Performed → MultiTask G → MultiTask G
  unfolding file_replace_cb file_save_delete_cb
  file_saved_cb (replaced failed) t = file_replace_cb failed t
  file_saved_cb (removed d) t = file_save_delete_cb d t

module _ (F : StateFiles) where
  -- What GIO does for an operation.
  unfoldable pub perform : StateFile → Option (List ℕ) → F.State → Performed × F.State
  perform f (some bs) s = let (failed, s') = F.replace f bs s in (replaced failed, s')
  perform f none s = let (d, s') = F.delete f s in (removed d, s')

-- A save under way: the files, the operations to perform, those whose callback is due, and the task.
pub record Saving (F : StateFiles) (G : GTask) : Type 0 where
  pub files : F.State
  pub waiting : List StateFile
  pub due : List Performed
  pub task : MultiTask G

module _ (F : StateFiles) (G : GTask) where
  -- What `epg_manager_save_state_async` leaves when it returns: three operations under way, and the
  -- fourth of the task is its own.
  unfoldable pub start_save : F.State → MultiTask G → Saving F G
  start_save s t = record {
    files = s;
    waiting = wallclock_time ∷ expiry_seconds ∷ used_codes ∷ [];
    due = [];
    task = multi_return_boolean G true (attach G 4 t);
  }

  unfoldable pub perform_one : Snapshot → StateFile → List StateFile → Saving F G → Saving F G
  unfolding perform
  perform_one sn f others s =
      let (p, s') = perform F f (contents_to_write sn f) s.files in
      record s { files = s'; waiting = others; due = p ∷ s.due }

  unfoldable pub call_back : Performed → List Performed → Saving F G → Saving F G
  call_back p others s = record s { due = others; task = file_saved_cb G p s.task }

  pub data SaveStep (sn : Snapshot) (s s' : Saving F G) : Type 0 where
    performs :
        (f : StateFile) (before after : List StateFile)
        → s.waiting ≡ before ++ (f ∷ after)
        → s' ≡ perform_one sn f (before ++ after) s
        → SaveStep sn s s'
    calls_back :
        (p : Performed) (before after : List Performed)
        → s.due ≡ before ++ (p ∷ after)
        → s' ≡ call_back p (before ++ after) s
        → SaveStep sn s s'

  pub data SaveSteps (sn : Snapshot) (s : Saving F G) : ℕ → Saving F G → Type 0 where
    started : SaveSteps sn s 0 s
    after_step :
        {n : ℕ} {s1 s2 : Saving F G}
        → SaveSteps sn s n s1
        → SaveStep sn s1 s2
        → SaveSteps sn s (suc n) s2
