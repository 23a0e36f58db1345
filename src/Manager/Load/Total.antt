-- ===== src/Manager/Load/Total.antt =====
-- Whether the callbacks of the start return.
use eos_payg.Base.{
  ℕ, ◌+◌, ◌-◌, ◌≤◌, ◌<◌, ◌≡◌, refl, Bool, true, false, ◌&&◌, some, List, ◌∷◌, ◌==◌, length, arith,
  Bool-cases, inl, inr,
}
use eos_payg.MultiTask.{GTask, increment, multi_return_boolean}
use eos_payg.Manager.{Runtime, Clock, max_uint64}
use eos_payg.Manager.Save.{get_guint64_from_bytes}
use eos_payg.Manager.Load.{
  LoadState, File, wallclock_time_file, expiry_seconds_file, expiry_time_file, used_codes_file,
  key_file, account_id_file, Loaded, contents, not_found, load_failed, is_missing, is_clock_file,
  with_error, failed_task_error, delete_file, bytes_of, remaining_credit, reject_file,
  load_wallclock_time, load_expiry_time, load_expiry_seconds, load_used_codes, load_key,
  load_account_id, deduce_expiry, load_file, file_finished, file_loaded, file_load, file_load_cb,
}
use eos_payg.Manager.Load.Restart.{load_expiry_lem}

-- What the assertions of the callbacks need: the time fits, and two more saves can be counted.
module _ (G : GTask) (R : Runtime) (c : Clock) where
  finishes :
      (f : File) (st : LoadState G)
      → c.time ≤ max_uint64
      → st.manager.pending_internal_save_state_calls < max_uint64
      → (st' : LoadState G) × (file_finished G R c f st ≡ some st')
  unfolding file_finished deduce_expiry
  finishes f st fits few = elim (Bool-cases (is_clock_file G f)) [
    | inr other ↦ (record st { task = multi_return_boolean G true st.task }, simp other refl)
    | inl clock ↦
        elim (Bool-cases
          (st.manager.last_save_time_secs_set && st.manager.last_save_expiry_secs_set)) [
            | inr unset ↦
                (record st { task = multi_return_boolean G true st.task }, simp (clock, unset) refl)
            | inl set ↦
                let credit =
                  remaining_credit st.manager.last_save_time_secs st.manager.last_save_expiry_secs
                    c.wallclock in
                let (st', done, _, _, _, _) = load_expiry_lem G R c credit st fits few in
                (
                  record st' { task = multi_return_boolean G true st'.task },
                  simp (clock, set, done) refl,
                )
          ]
  ]

  -- What one file's branch gives, and that it starts one save at most.
  Loads : File → Loaded → LoadState G → Type 0
  Loads f l st =
      (r : LoadState G × Bool) × (load_file G R c f l st ≡ some r)
      × (r.0.manager.pending_internal_save_state_calls
          ≤ st.manager.pending_internal_save_state_calls + 1)

  loads_expiry_time :
      (bs : List ℕ) (st : LoadState G)
      → c.time ≤ max_uint64
      → st.manager.pending_internal_save_state_calls < max_uint64
      → (r : LoadState G × Bool) × (load_expiry_time G R c bs st ≡ some r)
        × (r.0.manager.pending_internal_save_state_calls
            ≤ st.manager.pending_internal_save_state_calls + 1)
  unfolding load_expiry_time reject_file
  loads_expiry_time bs st fits few = elim (Bool-cases (length bs == 0)) [
    | inl empty ↦
        let (st', done, _, _, saves, _) = load_expiry_lem G R c 0 st fits few in
        ((st', true), simp (empty, done) refl, saves)
    | inr filled ↦ elim (Bool-cases (length bs == 8)) [
      | inr wrong ↦
          ((reject_file G expiry_time_file st, false), simp (filled, wrong) refl, omega arith)
      | inl right ↦
          let (st', done, _, _, saves, _) =
            load_expiry_lem G R c (get_guint64_from_bytes bs - c.wallclock) st fits few in
          (
            (
              record st' {
                task = increment G st'.task;
                requests = delete_file expiry_time_file ∷ st'.requests;
              },
              true,
            ),
            simp (filled, right, done) refl,
            saves,
          )
    ]
  ]

  loads_expiry_seconds :
      (bs : List ℕ) (st : LoadState G)
      → c.time ≤ max_uint64
      → st.manager.pending_internal_save_state_calls < max_uint64
      → (r : LoadState G × Bool) × (load_expiry_seconds G R c bs st ≡ some r)
        × (r.0.manager.pending_internal_save_state_calls
            ≤ st.manager.pending_internal_save_state_calls + 1)
  unfolding load_expiry_seconds reject_file
  loads_expiry_seconds bs st fits few = elim (Bool-cases (length bs == 0)) [
    | inl empty ↦
        let (st', done, _, _, saves, _) = load_expiry_lem G R c 0 st fits few in
        ((st', true), simp (empty, done) refl, saves)
    | inr filled ↦ elim (Bool-cases (length bs == 8)) [
      | inr wrong ↦
          ((reject_file G expiry_seconds_file st, false), simp (filled, wrong) refl, omega arith)
      | inl right ↦ (
        (
          record st {
            manager = record st.manager {
              last_save_expiry_secs = get_guint64_from_bytes bs;
              last_save_expiry_secs_set = true;
            };
          },
          true,
        ),
        simp (filled, right) refl,
        omega arith,
      )
    ]
  ]

  loads :
      (f : File) (l : Loaded) (st : LoadState G)
      → c.time ≤ max_uint64
      → st.manager.pending_internal_save_state_calls < max_uint64
      → Loads f l st
  unfolding Loads load_file load_wallclock_time load_used_codes load_key load_account_id reject_file
  loads wallclock_time_file l st fits few =
      (load_wallclock_time G (is_missing G l) (bytes_of l) st, refl, ground arith)
  loads expiry_seconds_file l st fits few = loads_expiry_seconds (bytes_of l) st fits few
  loads expiry_time_file l st fits few = loads_expiry_time (bytes_of l) st fits few
  loads used_codes_file l st fits few = (load_used_codes G R (bytes_of l) st, refl, ground arith)
  loads key_file (contents bs) st fits few = (_, refl, omega arith)
  loads key_file not_found st fits few = (_, refl, omega arith)
  loads key_file (load_failed e) st fits few = (_, refl, omega arith)
  loads account_id_file (contents bs) st fits few = (_, refl, omega arith)
  loads account_id_file not_found st fits few = (_, refl, omega arith)
  loads account_id_file (load_failed e) st fits few = (_, refl, omega arith)

  ends :
      (f : File) (r : LoadState G × Bool)
      → c.time ≤ max_uint64
      → r.0.manager.pending_internal_save_state_calls < max_uint64
      → (st' : LoadState G) × (file_loaded G R c f (some r) ≡ some st')
  unfolding file_loaded
  ends f (st, false) fits few = (st, refl)
  ends f (st, true) fits few = finishes f st fits few

  goes :
      (f : File) (l : Loaded) (st : LoadState G)
      → c.time ≤ max_uint64
      → st.manager.pending_internal_save_state_calls + 1 < max_uint64
      → (st' : LoadState G) × (file_loaded G R c f (load_file G R c f l st) ≡ some st')
  unfolding Loads
  goes f l st fits few =
      let (r, done, saves) = loads f l st fits (omega arith) in
      let (st', ended) = ends f r fits (omega arith) in (st', rw done ended)

  reads :
      (f : File) (l : Loaded) (st : LoadState G)
      → c.time ≤ max_uint64
      → st.manager.pending_internal_save_state_calls + 1 < max_uint64
      → (st' : LoadState G) × (file_load G R c f l st ≡ some st')
  unfolding file_load
  reads f (contents bs) st fits few = goes f (contents bs) st fits few
  reads f not_found st fits few = goes f not_found st fits few
  reads f (load_failed e) st fits few = (with_error G e st, refl)

  -- Whatever a state file holds, or if it is missing or cannot be read, the callback of its load
  -- fails no assertion, while the time fits in 64 bits and two more saves can be counted.
  pub file_load_cb_lem :
      (f : File) (l : Loaded) (st : LoadState G)
      → c.time ≤ max_uint64
      → st.manager.pending_internal_save_state_calls + 1 < max_uint64
      → (st' : LoadState G) × (file_load_cb G R c f l st ≡ some st')
  unfolding file_load_cb file_load
  file_load_cb_lem f l st fits few = elim (Bool-cases (G.had_error st.task.handle)) [
    | inl failed ↦ (with_error G failed_task_error st, simp failed refl)
    | inr fine ↦ let (st', done) = reads f l st fits few in (st', rw fine done)
  ]
