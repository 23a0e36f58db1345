-- ===== src/MultiTask/Calls.antt =====
-- What one return of a pending operation does to the task.
use eos_payg.Base.{ℕ, ◌-◌, ◌<◌, ◌≡◌, true, false, arith}
use eos_payg.MultiTask.{GTask, MultiTask, multi_return_boolean, multi_return_error}

module _ (G : GTask) where
  -- One operation of several returns, or the last one does.
  pub return_waits :
      (t : MultiTask G)
      → 1 < t.pending
      → multi_return_boolean G true t ≡ record t { pending = t.pending - 1 }
  unfolding multi_return_boolean
  return_waits t more = ground arith

  pub return_last :
      (t : MultiTask G)
      → t.pending ≡ 1
      → G.had_error t.handle ≡ false
      → (multi_return_boolean G true t).handle ≡ G.return_boolean t.handle true
  unfolding multi_return_boolean
  return_last t last fine = ground arith

  pub return_error_first :
      (e : ℕ) (t : MultiTask G)
      → 0 < t.pending
      → G.had_error t.handle ≡ false
      → (multi_return_error G e t).handle ≡ G.return_error t.handle e
  unfolding multi_return_error
  return_error_first e t some_left fine = ground arith

  -- A task that has its error keeps it.
  pub return_boolean_late :
      (t : MultiTask G)
      → G.had_error t.handle ≡ true
      → (multi_return_boolean G true t).handle ≡ t.handle
  unfolding multi_return_boolean
  return_boolean_late t failed = ground arith

  pub return_error_late :
      (e : ℕ) (t : MultiTask G)
      → G.had_error t.handle ≡ true
      → (multi_return_error G e t).handle ≡ t.handle
  unfolding multi_return_error
  return_error_late e t failed = ground arith
