-- ===== src/Manager/Load/Start/Waiting.antt =====
-- What holds of the start between its callbacks.
use eos_payg.Base.{
  ℕ, suc, ◌+◌, ◌*◌, ◌≤◌, ◌<◌, ◌≡◌, ◌⊎◌, inl, inr, ap, ◌∙◌, true, false, some, ◌==◌, length,
  Bool-cases, arith,
}
use eos_payg.MultiTask.{GTask, multi_return_boolean}
use eos_payg.Manager.{Runtime}
use eos_payg.Manager.Load.{LoadState, with_error}
use eos_payg.Manager.Load.Growth.{weigh, has_delete}
use eos_payg.MultiTask.Calls.{return_waits, return_last, return_error_first}
use eos_payg.Manager.Load.Start.Counts.{weigh_none}

module _ (G : GTask) (R : Runtime) (h0 : G.Handle) (fine : G.had_error h0 ≡ false) where
  abbrev pub saves_of : LoadState G → ℕ
  saves_of st = st.manager.pending_internal_save_state_calls

  -- A bound on the callbacks to come.
  abbrev pub measure : LoadState G → ℕ
  measure st = weigh st.requests + saves_of st

  -- Each operation that no callback will return has left an error for a deletion to return.
  abbrev pub Leaks : ℕ → LoadState G → Type 0
  Leaks leaks st =
      (leaks ≡ 0) ⊎ ((has_delete st.requests ≡ true) × ((e : ℕ) × (st.task_data ≡ some e)))

module _ (G : GTask) (R : Runtime) (h0 : G.Handle) (fine : G.had_error h0 ≡ false) (k : ℕ) where
  -- The task waits, and counts what is under way, with at least `k` operations that are left; or it
  -- has returned, and nothing is under way, which needs that `k` is 0; or it has returned an error.
  pub data Progress (st : LoadState G) : Type 0 where
    waits :
        (leaks : ℕ)
        → k ≤ leaks
        → st.task.handle ≡ h0
        → 0 < st.task.pending
        → st.task.pending ≡ length st.requests + saves_of G R h0 fine st + leaks
        → st.task.pending + 6 * measure G R h0 fine st ≤ 64
        → Leaks G R h0 fine leaks st
        → Progress st
    succeeded :
        k ≡ 0 → st.task.handle ≡ G.return_boolean h0 true → measure G R h0 fine st ≡ 0 → Progress st
    failed :
        (e : ℕ) → st.task.handle ≡ G.return_error h0 e → measure G R h0 fine st ≤ 10 → Progress st

  pub unfailed : (st : LoadState G) → st.task.handle ≡ h0 → G.had_error st.task.handle ≡ false
  unfailed st same = ap G.had_error same ∙ fine

  pub had_failed :
      (st : LoadState G) (e : ℕ)
      → st.task.handle ≡ G.return_error h0 e
      → G.had_error st.task.handle ≡ true
  had_failed st e same = ap G.had_error same ∙ G.had_error-return_error h0 e

  pub fail_one :
      (e : ℕ) (st : LoadState G)
      → st.task.handle ≡ h0
      → 0 < st.task.pending
      → measure G R h0 fine st ≤ 10
      → Progress (with_error G e st)
  fail_one e st same some_left small =
      failed e
        (return_error_first G e st.task some_left (unfailed st same)
          ∙ ap (λ h. G.return_error h e) same)
        small

  pub finish_one :
      (leaks : ℕ) (st : LoadState G)
      → k ≤ leaks
      → st.task.handle ≡ h0
      → st.task.pending ≡ suc (length st.requests + saves_of G R h0 fine st + leaks)
      → st.task.pending + 6 * measure G R h0 fine st ≤ 65
      → Leaks G R h0 fine leaks st
      → Progress (record st { task = multi_return_boolean G true st.task })
  finish_one leaks st least same counted bounded left =
      elim (Bool-cases (length st.requests + saves_of G R h0 fine st + leaks == 0)) [
        | inl over ↦
            let last : length st.requests + saves_of G R h0 fine st + leaks ≡ 0 =
              ground (arith, over) in
            succeeded (omega (arith, least, last))
              (return_last G st.task (omega (arith, counted, last)) (unfailed st same)
                ∙ ap (λ h. G.return_boolean h true) same)
              (omega (arith, last, weigh_none st.requests (omega (arith, last))))
        | inr more ↦
            let several : 0 < length st.requests + saves_of G R h0 fine st + leaks =
              ground (arith, more) in
            let t' = return_waits G st.task (omega (arith, counted, several)) in
            waits leaks least (ap (λ t. t.handle) t' ∙ same)
              (omega (arith, counted, several, ap (λ t. t.pending) t'))
              (omega (arith, counted, several, ap (λ t. t.pending) t'))
              (omega (arith, bounded, counted, several, ap (λ t. t.pending) t')) left
      ]
