-- ===== src/Manager/Load/Restart.antt =====
-- What a manager has after a restart, in terms of what it had at the save.
use eos_payg.Base.{
  ℕ, ◌+◌, ◌-◌, ◌%◌, ◌^◌, ◌≤◌, ◌<◌, ◌≡◌, refl, true, false, Option, none, some, List, [], ◌∷◌, ltb,
  ◌==◌, if◌then◌else◌, length, lt→ltb, arith,
}
use eos_payg.MultiTask.{GTask, increment, multi_return_boolean}
use eos_payg.Manager.{Manager, UsedCode, Runtime, Clock, max_uint64}
use eos_payg.Manager.Keeps.{Keeps}
use eos_payg.Manager.Expiry.Time.{add_clamped, set_expiry_time_lem}
use eos_payg.Manager.UsedCodes.{is_used, encode_used_codes, all_periods_valid}
use eos_payg.Manager.UsedCodes.Replay.{
  is_used-array_sort, decode_used_codes-encode_used_codes, length-encode_used_codes,
}
use eos_payg.Manager.Save.{bytes_of_uint64, get_guint64_from_bytes, save_state_async}
use eos_payg.Manager.Save.Files.{get_guint64_from_bytes-bytes_of_uint64}
use eos_payg.Manager.Load.{
  LoadState, wallclock_time_file, expiry_seconds_file, used_codes_file, Loaded, contents,
  load_contents, remaining_credit, load_expiry, load_wallclock_time, load_expiry_seconds,
  load_used_codes, deduce_expiry, load_file, file_finished, file_loaded, file_load, file_load_cb,
}

module _ (G : GTask) (R : Runtime) (c : Clock) where
  pub load_expiry_lem :
      (span : ℕ) (st : LoadState G)
      → c.time ≤ max_uint64
      → st.manager.pending_internal_save_state_calls < max_uint64
      → (st' : LoadState G) × (load_expiry G R c span st ≡ some st')
        × (st'.manager.expiry_time_secs ≤ add_clamped c.time span)
        × (c.source_ok ≡ true → st'.manager.expiry_time_secs ≡ add_clamped c.time span)
        × (st'.manager.pending_internal_save_state_calls
            ≤ st.manager.pending_internal_save_state_calls + 1)
        × Keeps st.manager st'.manager
  unfolding load_expiry
  load_expiry_lem span st fits few =
      let (r, done, set) = set_expiry_time_lem R c true c.time span st.manager fits few in
      (
        record st { manager = r.0; task = (if r.1 then increment G st.task else st.task) },
        rw done refl,
        set.at_most,
        set.time_set,
        ground (arith, set.counted),
        set.keeps,
      )

  -- The wall clock's file, before the other is loaded.
  wallclock_time_loaded :
      (bs : List ℕ) (st : LoadState G)
      → length bs ≡ 8
      → G.had_error st.task.handle ≡ false
      → 0 < st.task.pending
      → st.task.pending < 2 ^ 32 - 1
      → st.manager.last_save_expiry_secs_set ≡ false
      → file_load_cb G R c wallclock_time_file (contents bs) st
        ≡ some (record st {
          manager = record st.manager {
            last_save_time_secs = get_guint64_from_bytes bs;
            last_save_time_secs_set = true;
          };
          requests = load_contents expiry_seconds_file ∷ st.requests;
        })
  unfolding file_load_cb file_load file_loaded load_file load_wallclock_time file_finished
      deduce_expiry increment multi_return_boolean
  wallclock_time_loaded bs st len fine some_left few unset = ground arith

  -- The seconds' file, after the wall clock's.
  expiry_seconds_loaded :
      (bs : List ℕ) (st st1 : LoadState G)
      → length bs ≡ 8
      → G.had_error st.task.handle ≡ false
      → st.manager.last_save_time_secs_set ≡ true
      → load_expiry G R c
          (remaining_credit st.manager.last_save_time_secs (get_guint64_from_bytes bs) c.wallclock)
          (record st {
            manager = record st.manager {
              last_save_expiry_secs = get_guint64_from_bytes bs;
              last_save_expiry_secs_set = true;
            };
          })
        ≡ some st1
      → file_load_cb G R c expiry_seconds_file (contents bs) st
        ≡ some (record st1 { task = multi_return_boolean G true st1.task })
  unfolding file_load_cb file_load file_loaded load_file load_expiry_seconds file_finished
      deduce_expiry
  expiry_seconds_loaded bs st st1 len fine set done = ground arith

-- The two callbacks, and the expiry time also where there is no clock source.
pub restart_lem :
    (G : GTask) (R : Runtime) (before c : Clock) (m : Manager) (st : LoadState G)
    → before.save_wallclock < 2 ^ 64
    → m.expiry_time_secs < 2 ^ 64
    → c.time ≤ max_uint64
    → st.manager.pending_internal_save_state_calls < max_uint64
    → G.had_error st.task.handle ≡ false
    → 0 < st.task.pending
    → st.task.pending < 2 ^ 32 - 1
    → st.manager.last_save_expiry_secs_set ≡ false
    → (st1 : LoadState G) × (st2 : LoadState G) × (file_load_cb G R c wallclock_time_file
          (contents (save_state_async before m).clock_time)
          st
        ≡ some st1)
      × (file_load_cb G R c expiry_seconds_file
            (contents (save_state_async before m).expiry_seconds)
            st1
          ≡ some st2)
      × (st2.manager.expiry_time_secs
          ≤ add_clamped c.time (
              remaining_credit before.save_wallclock
                (m.expiry_time_secs - before.save_time)
                c.wallclock))
      × (c.source_ok ≡ true
          → (st2.manager.expiry_time_secs
              ≡ add_clamped c.time (
                  remaining_credit before.save_wallclock
                    (m.expiry_time_secs - before.save_time)
                    c.wallclock)))
unfolding save_state_async
restart_lem G R before c m st fits_wall fits_expiry fits few fine some_left pending unset =
    let at = bytes_of_uint64 before.save_wallclock in
    let left : ℕ =
      (if ltb m.expiry_time_secs before.save_time
        then 0
        else m.expiry_time_secs - before.save_time) in
    let read_at = get_guint64_from_bytes-bytes_of_uint64 before.save_wallclock fits_wall in
    let read_left = get_guint64_from_bytes-bytes_of_uint64 left (ground arith) in
    let st1 : LoadState G = record st {
      manager = record st.manager {
        last_save_time_secs = get_guint64_from_bytes at;
        last_save_time_secs_set = true;
      };
      requests = load_contents expiry_seconds_file ∷ st.requests;
    } in
    let credit =
      remaining_credit (get_guint64_from_bytes at) (get_guint64_from_bytes (bytes_of_uint64 left))
        c.wallclock in
    let (st2, done, at_most, time, _, _) =
      load_expiry_lem G R c credit
        (record st1 {
          manager = record st1.manager {
            last_save_expiry_secs = get_guint64_from_bytes (bytes_of_uint64 left);
            last_save_expiry_secs_set = true;
          };
        })
        fits few in
    let same : left ≡ m.expiry_time_secs - before.save_time = ground arith in
    (
      st1,
      record st2 { task = multi_return_boolean G true st2.task },
      wallclock_time_loaded G R c at st read_at.0 fine some_left pending unset,
      expiry_seconds_loaded G R c (bytes_of_uint64 left) st1 st2 read_left.0 fine refl done,
      ground (arith, at_most, read_at.1, read_left.1, same),
      λ works. ground (arith, time works, read_at.1, read_left.1, same),
    )

-- A manager with a 64-bit expiry time saves at a 64-bit wall clock time, and a start reads the two
-- clock files of the save, that of the wall clock first; the start's task has not failed and has
-- between 1 and 2 ^ 32 - 2 operations pending, no saved seconds have been read before, the clock
-- fits in 64 bits, and another save can be counted. Then both callbacks return, and with a working
-- clock source the new expiry time is the clock plus what remaining_credit leaves of the seconds
-- that were left at the save, clamped to 64 bits.
pub restart_credit_lem :
    (G : GTask) (R : Runtime) (before c : Clock) (m : Manager) (st : LoadState G)
    → before.save_wallclock < 2 ^ 64
    → m.expiry_time_secs < 2 ^ 64
    → c.time ≤ max_uint64
    → st.manager.pending_internal_save_state_calls < max_uint64
    → G.had_error st.task.handle ≡ false
    → 0 < st.task.pending
    → st.task.pending < 2 ^ 32 - 1
    → st.manager.last_save_expiry_secs_set ≡ false
    → (st1 : LoadState G) × (st2 : LoadState G) × (file_load_cb G R c wallclock_time_file
          (contents (save_state_async before m).clock_time)
          st
        ≡ some st1)
      × (file_load_cb G R c expiry_seconds_file
            (contents (save_state_async before m).expiry_seconds)
            st1
          ≡ some st2)
      × (c.source_ok ≡ true
          → (st2.manager.expiry_time_secs
              ≡ add_clamped c.time (
                  remaining_credit before.save_wallclock
                    (m.expiry_time_secs - before.save_time)
                    c.wallclock)))
restart_credit_lem G R before c m st fits_wall fits_expiry fits few fine some_left pending unset =
    let (st1, st2, first, second, _, time) =
      restart_lem G R before c m st fits_wall fits_expiry fits few fine some_left pending unset in
    (st1, st2, first, second, time)

-- What a start finds of the used-codes file that a save wrote or deleted.
abbrev pub found_file : Option (List ℕ) → Loaded
found_file none = Loaded.not_found
found_file (some bs) = contents bs

used_codes_read :
    (G : GTask) (R : Runtime) (c : Clock) (u : UsedCode) (us : List UsedCode) (st : LoadState G)
    → all_periods_valid (u ∷ us) ≡ true
    → G.had_error st.task.handle ≡ false
    → file_load_cb G R c used_codes_file (contents (encode_used_codes (u ∷ us))) st
      ≡ some (record st {
        manager = record st.manager { used_codes = R.array_sort (u ∷ us) };
        task = multi_return_boolean G true st.task;
      })
unfolding file_load_cb file_load file_loaded load_file load_used_codes file_finished
used_codes_read G R c u us st valid fine =
    let even : (length (encode_used_codes (u ∷ us)) == 0) ≡ false =
      ground (arith, length-encode_used_codes (u ∷ us)) in
    let pairs : (length (encode_used_codes (u ∷ us)) % 2 == 0) ≡ true =
      ground (arith, length-encode_used_codes (u ∷ us)) in
    simp (fine, even, pairs, decode_used_codes-encode_used_codes (u ∷ us), valid)

used_codes_missing :
    (G : GTask) (R : Runtime) (c : Clock) (st : LoadState G)
    → G.had_error st.task.handle ≡ false
    → file_load_cb G R c used_codes_file Loaded.not_found st
      ≡ some (record st {
        manager = record st.manager { used_codes = [] };
        task = multi_return_boolean G true st.task;
      })
unfolding file_load_cb file_load file_loaded load_file load_used_codes file_finished
used_codes_missing G R c st fine = simp fine

-- If all used codes have valid periods and the start's task has not failed, the start's callback
-- for the used-codes file that a save wrote or deleted returns, and leaves exactly the codes used
-- that were used before.
pub restart_used_codes_lem :
    (G : GTask) (R : Runtime) (before c : Clock) (m : Manager) (st : LoadState G)
    → all_periods_valid m.used_codes ≡ true
    → G.had_error st.task.handle ≡ false
    → (st' : LoadState G) × (file_load_cb G R c used_codes_file
          (found_file (save_state_async before m).used_codes)
          st
        ≡ some st')
      × ((p n : ℕ) → is_used p n st'.manager.used_codes ≡ is_used p n m.used_codes)
unfolding save_state_async
restart_used_codes_lem G R before c m st valid fine = go m.used_codes refl
  where
    go :
        (us : List UsedCode)
        → m.used_codes ≡ us
        → (st' : LoadState G) × (file_load_cb G R c used_codes_file
              (found_file (save_state_async before m).used_codes)
              st
            ≡ some st')
          × ((p n : ℕ) → is_used p n st'.manager.used_codes ≡ is_used p n m.used_codes)
    go [] same = (
      record st {
        manager = record st.manager { used_codes = [] };
        task = multi_return_boolean G true st.task;
      },
      rw same (used_codes_missing G R c st fine),
      λ p n. rw same refl,
    )
    go (u ∷ us) same = (
      record st {
        manager = record st.manager { used_codes = R.array_sort (u ∷ us) };
        task = multi_return_boolean G true st.task;
      },
      rw (same, lt→ltb 0 (length (u ∷ us)) (omega arith))
          (used_codes_read G R c u us st (rw same at valid) fine),
      λ p n. rw same (is_used-array_sort R p n (u ∷ us)),
    )
