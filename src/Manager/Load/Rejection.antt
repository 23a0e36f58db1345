-- ===== src/Manager/Load/Rejection.antt =====
-- A state file of the wrong length.
use eos_payg.Base.{ℕ, ◌≤◌, ◌≡◌, ◌≢◌, refl, Bool, true, false, some, List, ◌∷◌, ◌==◌, length, arith}
use eos_payg.MultiTask.{GTask, increment}
use eos_payg.Manager.{Runtime, Clock}
use eos_payg.Manager.Load.{
  LoadState, File, wallclock_time_file, expiry_seconds_file, expiry_time_file, used_codes_file,
  key_file, account_id_file, contents, Request, load_contents, delete_file, invalid_data_error,
  reject_file, load_wallclock_time, load_expiry_time, load_expiry_seconds, load_file, file_loaded,
  file_load, file_load_cb,
}

-- The files that hold one 64-bit number.
abbrev pub is_number_file : File → Bool
is_number_file wallclock_time_file = true
is_number_file expiry_seconds_file = true
is_number_file expiry_time_file = true
is_number_file _ = false

module _ (G : GTask) where
  -- The state behind a rejection: only the task has changed, and the deletion of the file is asked
  -- for.
  pub record Rejected (f : File) (st st' : LoadState G) : Type 0 where
    pub manager_kept : st'.manager ≡ st.manager
    pub error_kept : st'.task_data ≡ some invalid_data_error
    pub deletes : (rest : List Request) × (st'.requests ≡ delete_file f ∷ rest)
    pub handle_kept : st'.task.handle ≡ st.task.handle
    pub waits : st.task.pending ≤ st'.task.pending

  length_test : (bs : List ℕ) (n : ℕ) → length bs ≢ n → (length bs == n) ≡ false
  length_test bs n h = ground arith

  rejects :
      (R : Runtime) (c : Clock) (f : File) (bs : List ℕ) (st : LoadState G)
      → is_number_file f ≡ true
      → (length bs == 0) ≡ false
      → (length bs == 8) ≡ false
      → (st' : LoadState G) × (load_file G R c f (contents bs) st ≡ some (st', false))
        × Rejected f st st'
  unfolding load_file load_wallclock_time load_expiry_time load_expiry_seconds reject_file increment
  rejects R c wallclock_time_file bs st number filled wrong = (
    reject_file G wallclock_time_file (record st {
      task = increment G st.task;
      requests = load_contents expiry_seconds_file ∷ st.requests;
    }),
    simp (filled, wrong),
    record {
      manager_kept = refl;
      error_kept = refl;
      deletes = (_, refl);
      handle_kept = ground arith;
      waits = ground arith;
    },
  )
  rejects R c expiry_seconds_file bs st number filled wrong = (
    reject_file G expiry_seconds_file st,
    simp (filled, wrong),
    record {
      manager_kept = refl;
      error_kept = refl;
      deletes = (_, refl);
      handle_kept = ground arith;
      waits = ground arith;
    },
  )
  rejects R c expiry_time_file bs st number filled wrong = (
    reject_file G expiry_time_file st,
    simp (filled, wrong),
    record {
      manager_kept = refl;
      error_kept = refl;
      deletes = (_, refl);
      handle_kept = ground arith;
      waits = ground arith;
    },
  )
  rejects R c used_codes_file bs st number filled wrong = absurd (ground arith)
  rejects R c key_file bs st number filled wrong = absurd (ground arith)
  rejects R c account_id_file bs st number filled wrong = absurd (ground arith)

  -- A file of one 64-bit number that is neither empty nor eight bytes long is rejected.
  pub wrong_length :
      (R : Runtime) (c : Clock) (f : File) (bs : List ℕ) (st : LoadState G)
      → is_number_file f ≡ true
      → G.had_error st.task.handle ≡ false
      → length bs ≢ 0
      → length bs ≢ 8
      → (st' : LoadState G) × (load_file G R c f (contents bs) st ≡ some (st', false))
        × (file_load_cb G R c f (contents bs) st ≡ some st')
        × Rejected f st st'
  unfolding file_load_cb file_load file_loaded
  wrong_length R c f bs st number fine filled wrong =
      let (st', done, r) =
        rejects R c f bs st number (length_test bs 0 filled) (length_test bs 8 wrong) in
      (st', done, simp (fine, done) refl, r)
