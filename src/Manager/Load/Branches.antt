-- ===== src/Manager/Load/Branches.antt =====
-- What one callback of a load of the start leaves.
use eos_payg.Base.{
  ℕ, ◌-◌, ◌%◌, ◌≤◌, ◌<◌, ◌≡◌, inl, inr, refl, Bool, true, false, ◌&&◌, Option, some, List, [], ◌∷◌,
  ◌==◌, length, if◌then◌else◌, Bool-cases, arith,
}
use eos_payg.MultiTask.{GTask, increment}
use eos_payg.Manager.{Runtime, Clock, max_uint64}
use eos_payg.Manager.Save.{get_guint64_from_bytes}
use eos_payg.Manager.Expiry.Time.{set_expiry_time_lem}
use eos_payg.Manager.UsedCodes.{decode_used_codes, all_periods_valid}
use eos_payg.Manager.Load.Growth.{
  weight, has_delete, increments_save, Grows, Grows-trans, Grows-le, Grows-manager, asking,
  asking-Grows, still-Grows,
}
use eos_payg.Manager.Load.{
  LoadState, File, wallclock_time_file, expiry_seconds_file, expiry_time_file, used_codes_file,
  key_file, account_id_file, load_contents, delete_file, Loaded, contents, not_found, load_failed,
  is_missing, invalid_data_error, bytes_of, reject_file, load_expiry, load_wallclock_time,
  load_expiry_time, load_expiry_seconds, load_used_codes, load_key, load_account_id, load_file,
}

-- The share of it that comes from the branch of the file.
abbrev pub branch_weight : File → ℕ
branch_weight wallclock_time_file = 4
branch_weight expiry_time_file = 2
branch_weight expiry_seconds_file = 1
branch_weight used_codes_file = 1
branch_weight key_file = 0
branch_weight account_id_file = 0

module _ (G : GTask) (R : Runtime) (c : Clock) (fits : c.time ≤ max_uint64) where
  -- The expiry time is set, which starts a save or does not.
  pub load_expiry-Grows :
      (span : ℕ) (st : LoadState G)
      → st.manager.pending_internal_save_state_calls < max_uint64
      → (st' : LoadState G) × (load_expiry G R c span st ≡ some st')
        × Grows G 1 st st'
        × (st'.task_data ≡ st.task_data)
  unfolding load_expiry
  load_expiry-Grows span st few =
      let (r, done, set) = set_expiry_time_lem R c true c.time span st.manager fits few in
      (
        record st { manager = r.0; task = (if r.1 then increment G st.task else st.task) },
        rw done refl,
        record {
          news = [];
          saves = if r.1 then 1 else 0;
          asked = refl;
          started = ground (arith, set.counted);
          counted = increments_save G r.1 st.task;
          within = ground arith;
        },
        refl,
      )

  -- What a branch of `file_load_cb` leaves: it goes on, or it has rejected its file.
  abbrev pub Branch : ℕ → LoadState G → LoadState G × Bool → Type 0
  Branch limit st (st', true) = Grows G limit st st' × (st'.task_data ≡ st.task_data)
  Branch limit st (st', false) =
      Grows G limit st st' × (has_delete st'.requests ≡ true) × ((e : ℕ) × (st'.task_data ≡ some e))

  abbrev pub Leaves : ℕ → LoadState G → Option (LoadState G × Bool) → Type 0
  Leaves limit st o = (r : LoadState G × Bool) × (o ≡ some r) × Branch limit st r

  rejects :
      (limit : ℕ) (f : File) (st : LoadState G)
      → 1 ≤ limit
      → Branch limit st (reject_file G f st, false)
  unfolding reject_file
  rejects limit f st some_room = (
    record {
      news = delete_file f ∷ [];
      saves = 0;
      asked = refl;
      started = omega arith;
      counted = refl;
      within = omega (arith, some_room);
    },
    refl,
    (invalid_data_error, refl),
  )

  loads_expiry_time :
      (bs : List ℕ) (st : LoadState G)
      → st.manager.pending_internal_save_state_calls < max_uint64
      → Leaves 2 st (load_expiry_time G R c bs st)
  unfolding load_expiry_time
  loads_expiry_time bs st few = elim (Bool-cases (length bs == 0)) [
    | inl empty ↦
        let (st', done, grows, same) = load_expiry-Grows 0 st few in
        ((st', true), simp (empty, done) refl, (Grows-le G 1 2 st st' grows (omega arith), same))
    | inr filled ↦ elim (Bool-cases (length bs == 8)) [
      | inr wrong ↦ (
        (reject_file G expiry_time_file st, false),
        simp (filled, wrong) refl,
        rejects 2 expiry_time_file st (omega arith),
      )
      | inl right ↦
          let (st', done, grows, same) =
            load_expiry-Grows (get_guint64_from_bytes bs - c.wallclock) st few in
          (
            (
              record st' {
                task = increment G st'.task;
                requests = delete_file expiry_time_file ∷ st'.requests;
              },
              true,
            ),
            simp (filled, right, done) refl,
            (
              Grows-trans G 1 1 2 st st' (asking G (delete_file expiry_time_file) st') grows
                  (asking-Grows G (delete_file expiry_time_file) st') (omega arith),
              same,
            ),
          )
    ]
  ]

  loads_expiry_seconds :
      (bs : List ℕ) (st : LoadState G)
      → st.manager.pending_internal_save_state_calls < max_uint64
      → Leaves 1 st (load_expiry_seconds G R c bs st)
  unfolding load_expiry_seconds
  loads_expiry_seconds bs st few = elim (Bool-cases (length bs == 0)) [
    | inl empty ↦
        let (st', done, grows, same) = load_expiry-Grows 0 st few in
        ((st', true), simp (empty, done) refl, (grows, same))
    | inr filled ↦ elim (Bool-cases (length bs == 8)) [
      | inr wrong ↦ (
        (reject_file G expiry_seconds_file st, false),
        simp (filled, wrong) refl,
        rejects 1 expiry_seconds_file st (omega arith),
      )
      | inl right ↦
          let st' : LoadState G = record st {
            manager = record st.manager {
              last_save_expiry_secs = get_guint64_from_bytes bs;
              last_save_expiry_secs_set = true;
            };
          } in
          (
            (st', true),
            simp (filled, right) refl,
            (Grows-le G 0 1 st st' (still-Grows G st st' refl refl refl) (omega arith), refl),
          )
    ]
  ]

  next_weight :
      (missing : Bool)
      → weight (load_contents (if missing then expiry_time_file else expiry_seconds_file)) ≤ 3
  next_weight true = omega arith
  next_weight false = omega arith

  loads_wallclock_time :
      (missing : Bool) (bs : List ℕ) (st : LoadState G)
      → Branch 4 st (load_wallclock_time G missing bs st)
  unfolding load_wallclock_time
  loads_wallclock_time missing bs st =
      let next = load_contents (if missing then expiry_time_file else expiry_seconds_file) in
      let st' = asking G next st in
      let grows : Grows G 3 st st' =
        Grows-le G (weight next) 3 st st' (asking-Grows G next st) (next_weight missing) in
      elim (Bool-cases (length bs == 0)) [
        | inl empty ↦ simp empty (Grows-le G 3 4 st st' grows (omega arith), refl)
        | inr filled ↦ elim (Bool-cases (length bs == 8)) [
          | inl right ↦
              simp (filled, right)
                (
                  Grows-le G 3 4 st _
                      (Grows-manager G 3 st st'
                        (record st'.manager {
                          last_save_time_secs = get_guint64_from_bytes bs;
                          last_save_time_secs_set = true;
                        })
                        grows refl)
                      (omega arith),
                  refl,
                )
          | inr wrong ↦
              let (rejected, there, error) = rejects 1 wallclock_time_file st' (omega arith) in
              simp (filled, wrong)
                (
                  Grows-trans G 3 1 4 st st' (reject_file G wallclock_time_file st') grows rejected
                      (omega arith),
                  there,
                  error,
                )
        ]
      ]

  loads_used_codes : (bs : List ℕ) (st : LoadState G) → Branch 1 st (load_used_codes G R bs st)
  unfolding load_used_codes
  loads_used_codes bs st = elim (Bool-cases (length bs == 0)) [
    | inl empty ↦
        simp empty (Grows-le G 0 1 st _ (still-Grows G st _ refl refl refl) (omega arith), refl)
    | inr filled ↦
        elim (Bool-cases (length bs % 2 == 0 && all_periods_valid (decode_used_codes bs))) [
          | inl right ↦
              simp (filled, right)
                (Grows-le G 0 1 st _ (still-Grows G st _ refl refl refl) (omega arith), refl)
          | inr wrong ↦ simp (filled, wrong) (rejects 1 used_codes_file st (omega arith))
        ]
  ]

  -- Each file's branch adds no more than its share.
  pub loads :
      (f : File) (l : Loaded) (st : LoadState G)
      → st.manager.pending_internal_save_state_calls < max_uint64
      → Leaves (branch_weight f) st (load_file G R c f l st)
  unfolding load_file load_key load_account_id
  loads wallclock_time_file l st few = (
    load_wallclock_time G (is_missing G l) (bytes_of l) st,
    refl,
    loads_wallclock_time (is_missing G l) (bytes_of l) st,
  )
  loads expiry_time_file l st few = loads_expiry_time (bytes_of l) st few
  loads expiry_seconds_file l st few = loads_expiry_seconds (bytes_of l) st few
  loads used_codes_file l st few =
      (load_used_codes G R (bytes_of l) st, refl, loads_used_codes (bytes_of l) st)
  loads key_file (contents bs) st few = (_, refl, (still-Grows G st _ refl refl refl, refl))
  loads key_file not_found st few = (_, refl, (still-Grows G st _ refl refl refl, refl))
  loads key_file (load_failed e) st few = (_, refl, (still-Grows G st _ refl refl refl, refl))
  loads account_id_file (contents bs) st few = (_, refl, (still-Grows G st _ refl refl refl, refl))
  loads account_id_file not_found st few = (_, refl, (still-Grows G st _ refl refl refl, refl))
  loads account_id_file (load_failed e) st few =
      (_, refl, (still-Grows G st _ refl refl refl, refl))
