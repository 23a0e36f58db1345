-- ===== src/Manager/Load.antt =====
-- `epg_manager_init_async`, `file_load_cb` and `file_load_delete_cb`: the state files at start.
-- A `GError` is a number, as in `MultiTask`; requests for I/O are kept in `requests`, newest first,
-- and their results come back as arguments of the callbacks.
pub mod Credit
pub mod Restart
pub mod Rejection
pub mod Growth
pub mod Branches
pub mod Outcomes
pub mod Start
pub mod Total
use eos_payg.Base.{
  ℕ, ◌+◌, ◌-◌, ◌*◌, ◌%◌, ◌^◌, Bool, true, false, not, ◌&&◌, ◌||◌, Option, none, some, List, [], ◌∷◌,
  ltb, ◌==◌, if◌then◌else◌, length, replicate,
}
use eos_payg.Codes.{key_minimum_length_bytes}
use eos_payg.MultiTask.{
  GTask, MultiTask, attach, increment, multi_return_boolean, multi_return_error,
}
use eos_payg.Manager.{Manager, Runtime, Clock, emit, notify_enabled, assert, ◌>>=◌, ◌>>◌}
use eos_payg.Manager.UsedCodes.{decode_used_codes, all_periods_valid}
use eos_payg.Manager.Shutdown.{internal_save_state_cb}
use eos_payg.Manager.Save.{get_guint64_from_bytes}
use eos_payg.Manager.Expiry.{set_expiry_time}

pub data File : Type 0 where
  wallclock_time_file expiry_seconds_file expiry_time_file used_codes_file key_file
        account_id_file :
      File

pub data Request : Type 0 where
  load_contents : File → Request
  delete_file : File → Request

-- What `g_file_load_contents_finish` gives. `G_IO_ERROR_CANCELLED` comes only to a task that was
-- cancelled, of which `g_task_had_error` holds, so that `file_load_cb` does not look at it.
pub data Loaded : Type 0 where
  contents : List ℕ → Loaded
  not_found : Loaded
  load_failed : ℕ → Loaded

-- "State file was the wrong length", and "Refusing to execute callback on already failed task".
abbrev pub invalid_data_error : ℕ
invalid_data_error = 0

abbrev pub failed_task_error : ℕ
failed_task_error = 1

-- The credit that is left of the saved seconds, from the wall clock at the save and now.
abbrev pub year_secs : ℕ
year_secs = 365 * 24 * 60 * 60

unfoldable pub without_bogus_credit : ℕ → ℕ
without_bogus_credit credit =
    if ltb (5 * year_secs) credit && ltb credit (100 * year_secs) then 31 * 24 * 60 * 60 else credit

unfoldable pub remaining_credit : ℕ → ℕ → ℕ → ℕ
unfolding without_bogus_credit
remaining_credit saved_at saved_credit wallclock_now =
    if ltb wallclock_now saved_at
    then saved_credit
    else let unaccounted = wallclock_now - saved_at in
      if ltb saved_credit unaccounted then 0 else without_bogus_credit (saved_credit - unaccounted)

-- `data` and `data_len`; a file that is not there has no data and length 0.
abbrev pub bytes_of : Loaded → List ℕ
bytes_of (contents bs) = bs
bytes_of not_found = []
bytes_of (load_failed e) = []

-- `g_strndup`, which ends at a NUL byte.
unfoldable pub strndup : List ℕ → List ℕ
strndup [] = []
strndup (b ∷ bs) = let rest = strndup bs in if b == 0 then [] else b ∷ rest

module _ (G : GTask) where
  pub record LoadState : Type 0 where
    pub manager : Manager
    pub task : MultiTask G
    pub task_data : Option ℕ
    pub requests : List Request

  abbrev pub request : Request → LoadState → LoadState
  request q st = record st { requests = q ∷ st.requests }

  abbrev pub with_increment : LoadState → LoadState
  with_increment st = record st { task = increment G st.task }

  unfoldable pub init_async : LoadState → LoadState
  init_async st = record st {
    task = multi_return_boolean G true (attach G 5 st.task);
    requests =
        load_contents account_id_file
        ∷ load_contents key_file
        ∷ load_contents used_codes_file
        ∷ load_contents wallclock_time_file
        ∷ st.requests;
  }

  -- A file of the wrong form: it is deleted, and its callback returns the error.
  unfoldable pub reject_file : File → LoadState → LoadState
  reject_file f st =
      request (delete_file f) (record (with_increment st) { task_data = some invalid_data_error })

  -- `set_expiry_time (self, task, TRUE, now_secs, span)`.
  unfoldable pub load_expiry : Runtime → Clock → ℕ → LoadState → Option LoadState
  load_expiry R c span st = do
    r ← set_expiry_time R c true c.time span st.manager
    some (record st { manager = r.0; task = (if r.1 then increment G st.task else st.task) })

  -- The branches of `file_load_cb`; the flag says whether it goes on behind them.
  unfoldable pub load_wallclock_time : Bool → List ℕ → LoadState → LoadState × Bool
  load_wallclock_time missing bs st =
      let st' =
        request (load_contents (if missing then expiry_time_file else expiry_seconds_file))
          (with_increment st) in
      if length bs == 0
      then (st', true)
      else if length bs == 8
      then (
        record st' {
          manager = record st.manager {
            last_save_time_secs = get_guint64_from_bytes bs;
            last_save_time_secs_set = true;
          };
        },
        true,
      )
      else (reject_file wallclock_time_file st', false)

  unfoldable pub load_expiry_time : Runtime → Clock → List ℕ → LoadState → Option (LoadState × Bool)
  load_expiry_time R c bs st =
      if length bs == 0
      then (do st' ← load_expiry R c 0 st; some (st', true))
      else if length bs == 8
      then (do
        st' ← load_expiry R c (get_guint64_from_bytes bs - c.wallclock) st
        some (request (delete_file expiry_time_file) (with_increment st'), true))
      else some (reject_file expiry_time_file st, false)

  unfoldable pub load_expiry_seconds :
      Runtime → Clock → List ℕ → LoadState → Option (LoadState × Bool)
  load_expiry_seconds R c bs st =
      if length bs == 0
      then (do st' ← load_expiry R c 0 st; some (st', true))
      else if length bs == 8
      then some (
        record st {
          manager = record st.manager {
            last_save_expiry_secs = get_guint64_from_bytes bs;
            last_save_expiry_secs_set = true;
          };
        },
        true,
      )
      else some (reject_file expiry_seconds_file st, false)

  unfoldable pub load_used_codes : Runtime → List ℕ → LoadState → LoadState × Bool
  load_used_codes R bs st =
      if length bs == 0
      then (record st { manager = record st.manager { used_codes = [] } }, true)
      else if length bs % 2 == 0 && all_periods_valid (decode_used_codes bs)
      then (
        record st {
          manager = record st.manager { used_codes = R.array_sort (decode_used_codes bs) };
        },
        true,
      )
      else (reject_file used_codes_file st, false)

  unfoldable pub load_key : Loaded → LoadState → LoadState
  load_key (contents bs) st = record st { manager = record st.manager { key_bytes = bs } }
  load_key not_found st = record st {
    manager =
        emit notify_enabled
          (record st.manager { enabled = false; key_bytes = replicate key_minimum_length_bytes 0 });
  }
  load_key (load_failed e) st = st

  unfoldable pub load_account_id : Loaded → LoadState → LoadState
  load_account_id (contents bs) st = record st {
    manager = record st.manager { account_id = strndup bs };
  }
  load_account_id _ st = st

  -- "Once both the wallclock time and expiry seconds have been loaded, deduce the expiry time".
  unfoldable pub deduce_expiry : Runtime → Clock → LoadState → Option LoadState
  deduce_expiry R c st =
      if st.manager.last_save_time_secs_set && st.manager.last_save_expiry_secs_set
      then load_expiry R c
          (remaining_credit st.manager.last_save_time_secs st.manager.last_save_expiry_secs
            c.wallclock)
          st
      else some st

  abbrev pub is_missing : Loaded → Bool
  is_missing not_found = true
  is_missing _ = false

  unfoldable pub load_file : Runtime → Clock → File → Loaded → LoadState → Option (LoadState × Bool)
  unfolding load_key load_account_id load_wallclock_time load_expiry_time load_expiry_seconds
      load_used_codes
  load_file R c wallclock_time_file l st = some (load_wallclock_time (is_missing l) (bytes_of l) st)
  load_file R c expiry_time_file l st = load_expiry_time R c (bytes_of l) st
  load_file R c expiry_seconds_file l st = load_expiry_seconds R c (bytes_of l) st
  load_file R c used_codes_file l st = some (load_used_codes R (bytes_of l) st)
  load_file R c key_file l st = some (load_key l st, true)
  load_file R c account_id_file l st = some (load_account_id l st, true)

  abbrev pub is_clock_file : File → Bool
  is_clock_file wallclock_time_file = true
  is_clock_file expiry_seconds_file = true
  is_clock_file _ = false

  -- Behind the branches: the expiry time, and the end of this operation of the task.
  unfoldable pub file_finished : Runtime → Clock → File → LoadState → Option LoadState
  unfolding deduce_expiry
  file_finished R c f st = do
    st' ← (if is_clock_file f then deduce_expiry R c st else some st)
    some (record st' { task = multi_return_boolean G true st'.task })

  -- What `load_file` gives decides whether it goes on.
  unfoldable pub file_loaded : Runtime → Clock → File → Option (LoadState × Bool) → Option LoadState
  unfolding file_finished
  file_loaded R c f none = none
  file_loaded R c f (some (st, false)) = some st
  file_loaded R c f (some (st, true)) = file_finished R c f st

  abbrev pub with_error : ℕ → LoadState → LoadState
  with_error e st = record st { task = multi_return_error G e st.task }

  unfoldable pub file_load : Runtime → Clock → File → Loaded → LoadState → Option LoadState
  unfolding file_loaded load_file
  file_load R c f (load_failed e) st = some (with_error e st)
  file_load R c f l st = file_loaded R c f (load_file R c f l st)

  unfoldable pub file_load_cb : Runtime → Clock → File → Loaded → LoadState → Option LoadState
  unfolding file_load
  file_load_cb R c f l st =
      if G.had_error st.task.handle
      then some (with_error failed_task_error st)
      else file_load R c f l st

  -- The option is the error of the deletion, where it is not that the file is missing.
  unfoldable pub file_load_delete_cb : Option ℕ → LoadState → LoadState
  file_load_delete_cb failed st = elim st.task_data [
    | some e ↦ with_error e st
    | none ↦ elim failed [
      | some e ↦ with_error e st
      | none ↦ record st { task = multi_return_boolean G true st.task }
    ]
  ]

  -- `internal_save_state_cb` for a save that `set_expiry_time` started during the load.
  unfoldable pub load_save_state_cb : Option ℕ → LoadState → LoadState
  unfolding internal_save_state_cb
  load_save_state_cb failed st = elim failed [
    | some e ↦ record (with_error e st) { manager = internal_save_state_cb false st.manager }
    | none ↦ record st {
      task = multi_return_boolean G true st.task;
      manager = internal_save_state_cb true st.manager;
    }
  ]
