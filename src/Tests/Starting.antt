-- ===== src/Tests/Starting.antt =====
-- A start that finds the key, then a file of used codes of the wrong length, which it deletes.
use eos_payg.Base.{ℕ, ◌≤◌, ◌≡◌, ◌⊎◌, refl, false, none, some, List, [], ◌∷◌, ◌++◌, arith}
use eos_payg.MultiTask.{attach, increment, multi_return_boolean, multi_return_error}
use eos_payg.Manager.{Clock, max_uint64}
use eos_payg.Manager.Load.{
  LoadState, File, used_codes_file, account_id_file, key_file, expiry_seconds_file,
  wallclock_time_file, Request, load_contents, delete_file, Loaded, contents, init_async,
  reject_file, load_wallclock_time, load_used_codes, load_key, load_file, file_finished,
  file_loaded, file_load, file_load_cb, file_load_delete_cb,
}
use eos_payg.Manager.Load.Start.{Steps, here, next, cancels, load_cb, delete_cb}
use eos_payg.Manager.Load.Start.Moves.{Answers}
use eos_payg.Manager.Load.Start.Finished.{Steps-init_async}
use eos_payg.Manager.Load.Rejection.{Rejected}
use eos_payg.Manager.Load.Start.Rejected.{Fails, rejected_lem}
use eos_payg.Tests.Samples.{runtime, clock_at, gtask, fresh}

abbrev unattached : LoadState gtask
unattached = record {
  manager = fresh;
  task = record { pending = 0; handle = [] };
  task_data = none;
  requests = [];
}

abbrev key : List ℕ
key = 1 ∷ 2 ∷ 3 ∷ []

abbrev with_key : LoadState gtask
with_key = record {
  manager = record fresh { key_bytes = key };
  task = record { pending = 3; handle = [] };
  task_data = none;
  requests =
      load_contents account_id_file
      ∷ load_contents used_codes_file
      ∷ load_contents wallclock_time_file
      ∷ [];
}

abbrev rejecting : LoadState gtask
rejecting = record with_key {
  task = record { pending = 4; handle = [] };
  task_data = some 0;
  requests =
      delete_file used_codes_file
      ∷ load_contents account_id_file
      ∷ load_contents wallclock_time_file
      ∷ [];
}

-- The deletion ends after the start was cancelled: its error is dropped.
abbrev rejected : LoadState gtask
rejected = record rejecting {
  task = record { pending = 3; handle = some 19 ∷ [] };
  requests = load_contents account_id_file ∷ load_contents wallclock_time_file ∷ [];
}

steps : Steps gtask runtime (init_async gtask unattached) (some []) 3 rejected
unfolding init_async attach increment multi_return_boolean multi_return_error file_load_cb file_load
    file_loaded load_file load_key load_used_codes reject_file file_finished file_load_delete_cb
steps =
    let one : Steps gtask runtime (init_async gtask unattached) none 1 with_key = next here (
      load_cb (clock_at 10) key_file (contents key) (load_contents account_id_file ∷ [])
        (load_contents used_codes_file ∷ load_contents wallclock_time_file ∷ []) (omega arith) refl
        refl) in
    let two : Steps gtask runtime (init_async gtask unattached) none 2 rejecting = next one (
      load_cb (clock_at 10) used_codes_file (contents (1 ∷ [])) (load_contents account_id_file ∷ [])
        (load_contents wallclock_time_file ∷ []) (omega arith) refl refl) in
    next (cancels two) (
      delete_cb used_codes_file none []
        (load_contents account_id_file ∷ load_contents wallclock_time_file ∷ []) refl refl)

Steps-init_async_example :
    (3 ≤ 10)
    × ((rejected.task.handle ≡ some 19 ∷ [])
        × ((◌≡◌ {A = gtask.Handle} [] []) ⊎ Answers gtask [] []))
    × ((c : Clock) (f : File) (l : Loaded) (before after : List Request)
        → c.time ≤ max_uint64
        → rejected.requests ≡ before ++ (load_contents f ∷ after)
        → (st2 : LoadState gtask) × (file_load_cb gtask runtime c f l
              (record rejected { requests = before ++ after })
            ≡ some st2))
Steps-init_async_example =
    Steps-init_async gtask runtime [] refl unattached rejected (some []) 3 refl refl refl refl steps

-- A start whose first callback finds a wall clock's file of two bytes, and whose second one is that
-- of the deletion.
abbrev two_bytes : List ℕ
two_bytes = 1 ∷ 2 ∷ []

abbrev loads_left : List Request
loads_left =
    load_contents account_id_file ∷ load_contents key_file ∷ load_contents used_codes_file ∷ []

abbrev refused : LoadState gtask
refused = record {
  manager = fresh;
  task = record { pending = 6; handle = [] };
  task_data = some 0;
  requests = delete_file wallclock_time_file ∷ load_contents expiry_seconds_file ∷ loads_left;
}

abbrev told : LoadState gtask
told = record refused {
  task = record { pending = 5; handle = some 0 ∷ [] };
  requests = load_contents expiry_seconds_file ∷ loads_left;
}

refuses :
    file_load_cb gtask runtime
      (clock_at 10)
      wallclock_time_file
      (contents two_bytes)
      (record (init_async gtask unattached) { requests = loads_left ++ [] })
    ≡ some refused
unfolding init_async attach increment multi_return_boolean file_load_cb file_load file_loaded
    load_file load_wallclock_time reject_file
refuses = refl

tells : Steps gtask runtime refused none 1 told
unfolding multi_return_error file_load_delete_cb
tells = next here (
    delete_cb wallclock_time_file none [] (load_contents expiry_seconds_file ∷ loads_left) refl
      refl)

first_requests :
    (init_async gtask unattached).requests ≡ loads_left ++ (load_contents wallclock_time_file ∷ [])
unfolding init_async
first_requests = refl

not_failed : gtask.had_error (init_async gtask unattached).task.handle ≡ false
unfolding init_async attach multi_return_boolean
not_failed = refl

rejected_lem_example :
    Rejected gtask wallclock_time_file
      (record (init_async gtask unattached) { requests = loads_left ++ [] })
      refused
    × Fails gtask runtime [] refl none told
rejected_lem_example =
    rejected_lem gtask runtime [] refl unattached (init_async gtask unattached) refused told none 0
      1 (clock_at 10) wallclock_time_file two_bytes loads_left [] refl refl refl refl here
      (omega arith) first_requests not_failed refl (omega arith) (omega arith) refuses tells
