-- ===== src/Manager/Load/Start.antt =====
-- The start as a sequence of callbacks: each answers a request or a save that is under way; and the
-- cancellation of the start.
pub mod Counts
pub mod Waiting
pub mod Loading
pub mod Answers
pub mod Moves
pub mod Finished
pub mod Rejected
use eos_payg.Base.{ℕ, suc, ◌+◌, ◌≤◌, ◌<◌, ◌≡◌, Option, none, some, List, ◌∷◌, ◌++◌}
use eos_payg.MultiTask.{GTask}
use eos_payg.Manager.{Runtime, Clock, max_uint64}
use eos_payg.Manager.Load.{
  LoadState, File, Request, load_contents, delete_file, Loaded, file_load_cb, file_load_delete_cb,
  load_save_state_cb,
}

abbrev pub with_cancel : (G : GTask) → LoadState G → LoadState G
with_cancel G st = record st { task = record st.task { handle = G.cancel st.task.handle } }

-- The requests of a state are those under way; the saves under way are those that the manager counts.
pub data Step (G : GTask) (R : Runtime) (st st' : LoadState G) : Type 1 where
  load_cb :
      (c : Clock) (f : File) (l : Loaded) (before after : List Request)
      → c.time ≤ max_uint64
      → st.requests ≡ before ++ (load_contents f ∷ after)
      → file_load_cb G R c f l (record st { requests = before ++ after }) ≡ some st'
      → Step G R st st'
  delete_cb :
      (f : File) (failed : Option ℕ) (before after : List Request)
      → st.requests ≡ before ++ (delete_file f ∷ after)
      → st' ≡ file_load_delete_cb G failed (record st { requests = before ++ after })
      → Step G R st st'
  save_cb :
      (failed : Option ℕ)
      → 0 < st.manager.pending_internal_save_state_calls
      → st' ≡ load_save_state_cb G failed st
      → Step G R st st'

-- A number of callbacks, and at most one cancellation of the task's `GCancellable` between them,
-- with the task as it was then. The callbacks come all the same, with
-- any results.
pub data Steps (G : GTask) (R : Runtime) (st : LoadState G)
    : Option G.Handle → ℕ → LoadState G → Type 1 where
  here : Steps G R st none 0 st
  next :
      {o : Option G.Handle} {n : ℕ} {st1 st2 : LoadState G}
      → Steps G R st o n st1
      → Step G R st1 st2
      → Steps G R st o (suc n) st2
  cancels :
      {n : ℕ} {st1 : LoadState G}
      → Steps G R st none n st1
      → Steps G R st (some st1.task.handle) n (with_cancel G st1)
