-- ===== src/MultiTask.antt =====
-- libeos-payg/multi-task.c: a `GTask` that returns when several pending operations have returned.
-- `GTask` itself is GLib's: its three return functions, the cancellation of its `GCancellable` and
-- `g_task_had_error` are the record `GTask`, whose laws are their documentation: `g_task_had_error`
-- also holds of a task that was cancelled, unless `g_task_set_check_cancellable` is called, which
-- this code does not.
pub mod Calls
pub mod Once
use eos_payg.Base.{
  ℕ, ◌+◌, ◌-◌, ◌^◌, ◌≡◌, Bool, true, false, not, ◌&&◌, List, [], ◌∷◌, ltb, ◌==◌, if◌then◌else◌,
}

-- `Handle` is the state of a `GTask` and its `GCancellable`; errors and pointers are numbered.
pub record GTask : Type 1 where
  pub Handle : Type 0
  pub had_error : Handle → Bool
  pub return_boolean : Handle → Bool → Handle
  pub return_pointer : Handle → ℕ → Handle
  pub return_error : Handle → ℕ → Handle
  pub cancel : Handle → Handle
  pub had_error-return_error : (t : Handle) (e : ℕ) → had_error (return_error t e) ≡ true
  pub had_error-cancel : (t : Handle) → had_error (cancel t) ≡ true

module _ (G : GTask) where
  open G use {Handle, had_error, return_boolean, return_pointer, return_error}

  -- The task with the count of pending operations that is attached to it, a `guint`.
  pub record MultiTask : Type 0 where
    pub pending : ℕ
    pub handle : Handle

  unfoldable pub attach : ℕ → MultiTask → MultiTask
  attach n t = if t.pending == 0 && ltb 0 n then record t { pending = n } else t

  unfoldable pub increment : MultiTask → MultiTask
  increment t =
      if ltb 0 t.pending && ltb t.pending (2 ^ 32 - 1)
      then record t { pending = t.pending + 1 }
      else t

  -- `--operation_count`, behind the check that it is positive.
  abbrev pub decremented : MultiTask → MultiTask
  decremented t = record t { pending = t.pending - 1 }

  unfoldable pub multi_return_boolean : Bool → MultiTask → MultiTask
  multi_return_boolean b t =
      if t.pending == 0
      then t
      else if t.pending - 1 == 0 && not (had_error t.handle)
      then record { pending = t.pending - 1; handle = return_boolean t.handle b }
      else decremented t

  -- A pointer that is not returned is destroyed.
  unfoldable pub multi_return_pointer : ℕ → MultiTask → MultiTask
  multi_return_pointer p t =
      if t.pending == 0
      then t
      else if t.pending - 1 == 0 && not (had_error t.handle)
      then record { pending = t.pending - 1; handle = return_pointer t.handle p }
      else decremented t

  unfoldable pub multi_return_error : ℕ → MultiTask → MultiTask
  multi_return_error e t =
      if t.pending == 0
      then t
      else if had_error t.handle
      then decremented t
      else record { pending = t.pending - 1; handle = return_error t.handle e }

-- How one pending operation ends.
pub data Return : Type 0 where
  boolean : Bool → Return
  pointer : ℕ → Return
  error : ℕ → Return

module _ (G : GTask) where
  unfoldable pub multi_return : Return → MultiTask G → MultiTask G
  unfolding multi_return_boolean multi_return_pointer multi_return_error
  multi_return (boolean b) t = multi_return_boolean G b t
  multi_return (pointer p) t = multi_return_pointer G p t
  multi_return (error e) t = multi_return_error G e t

  unfoldable pub multi_returns : List Return → MultiTask G → MultiTask G
  multi_returns [] t = t
  multi_returns (r ∷ rs) t = multi_returns rs (multi_return r t)
