-- ===== src/Manager/Load/Start/Loading.antt =====
-- What the callback of a load does to the start.
use eos_payg.Base.{
  ℕ, suc, ◌+◌, ◌-◌, ◌*◌, ◌≤◌, ◌<◌, ◌≡◌, inl, inr, sym, ap, subst, ◌∙◌, true, false, some, length,
  length-append, arith,
}
use eos_payg.MultiTask.{GTask}
use eos_payg.Manager.{Runtime, Clock, max_uint64}
use eos_payg.Manager.Load.{LoadState, File}
use eos_payg.Manager.Load.Growth.{
  load_weight-le, weigh-append, weigh, load_weight, has_delete, load_weight-pos, Grows,
}
use eos_payg.Manager.Load.Outcomes.{Outcome, errs, rejected, returned}
use eos_payg.Manager.Load.Start.Waiting.{
  saves_of, measure, Leaks, Progress, waits, fail_one, finish_one,
}
use eos_payg.Manager.Load.Start.Counts.{
  increments_handle, increments_pending, length-le-weigh, has_delete-append,
}

module _ (G : GTask) (R : Runtime) (h0 : G.Handle) (fine : G.had_error h0 ≡ false) (k : ℕ) where
  -- The numbers of a state that has grown.
  record Grown (f : File) (st st' : LoadState G) : Type 0 where
    more : ℕ
    heavier : ℕ
    saved : ℕ
    same_handle : st'.task.handle ≡ st.task.handle
    pending_more : st'.task.pending ≡ st.task.pending + (more + saved)
    longer : length st'.requests ≡ length st.requests + more
    weighed : weigh st'.requests ≡ weigh st.requests + heavier
    saves_more :
        st'.manager.pending_internal_save_state_calls
        ≡ st.manager.pending_internal_save_state_calls + saved
    light : more ≤ heavier
    limited : heavier + saved + 1 ≤ load_weight f
    low : load_weight f ≤ 6

  grown :
      (f : File) (st st' : LoadState G)
      → Grows G (load_weight f - 1) st st'
      → 0 < st.task.pending
      → st.task.pending ≤ 64
      → Grown f st st'
  grown f st st' g some_left few =
      let n = length g.news + g.saves in
      let lengths = length-append g.news st.requests in
      let weights = weigh-append G g.news st.requests in
      record {
        more = length g.news;
        heavier = weigh g.news;
        saved = g.saves;
        same_handle = ap (λ t. t.handle) g.counted ∙ increments_handle G n st.task;
        pending_more =
            ap (λ t. t.pending) g.counted
            ∙ increments_pending G n st.task some_left
                (omega (arith, g.within, few, length-le-weigh g.news, load_weight-le f));
        longer = ap (λ l. length l) g.asked ∙ omega (arith, lengths);
        weighed = ap weigh g.asked ∙ omega (arith, weights);
        saves_more = g.started;
        light = length-le-weigh g.news;
        limited = omega (arith, g.within, load_weight-pos f);
        low = load_weight-le f;
      }

  -- A deletion that is under way stays so.
  Leaks-Grows :
      (limit leaks : ℕ) (st st' : LoadState G)
      → Grows G limit st st'
      → st'.task_data ≡ st.task_data
      → Leaks G R h0 fine leaks st
      → Leaks G R h0 fine leaks st'
  Leaks-Grows limit leaks st st' g same (inl leakless) = inl leakless
  Leaks-Grows limit leaks st st' g same (inr (there, (e, at))) =
      inr (ap has_delete g.asked ∙ has_delete-append g.news st.requests there, (e, same ∙ at))

  -- A rejection leaves one operation more.
  pub loaded_rejected :
      (f : File) (st st' : LoadState G) (leaks : ℕ)
      → k ≤ suc leaks
      → st.task.handle ≡ h0
      → st.task.pending ≡ suc (length st.requests + saves_of G R h0 fine st + leaks)
      → st.task.pending + 6 * (measure G R h0 fine st + load_weight f) ≤ 64
      → Grows G (load_weight f - 1) st st'
      → has_delete st'.requests ≡ true
      → (e : ℕ) → st'.task_data ≡ some e
      → Progress G R h0 fine k st'
        × (measure G R h0 fine st' < measure G R h0 fine st + load_weight f)
  loaded_rejected f st st' leaks least same counted bounded g there e at =
      let n = grown f st st' g (omega (arith, counted)) (omega (arith, bounded)) in
      (
        waits (suc leaks) least (n.same_handle ∙ same) (omega (arith, n, counted))
            (omega (arith, n, counted)) (omega (arith, n, bounded)) (inr (there, (e, at))),
        omega (arith, n),
      )

  -- The request that is answered was already taken out.
  pub loaded :
      (c : Clock) (fits : c.time ≤ max_uint64) (f : File) (st st' : LoadState G) (leaks : ℕ)
      → k ≤ leaks
      → st.task.handle ≡ h0
      → st.task.pending ≡ suc (length st.requests + saves_of G R h0 fine st + leaks)
      → st.task.pending + 6 * (measure G R h0 fine st + load_weight f) ≤ 64
      → Leaks G R h0 fine leaks st
      → Outcome G R c fits f st st'
      → Progress G R h0 fine k st'
        × (measure G R h0 fine st' < measure G R h0 fine st + load_weight f)
  loaded c fits f st st' leaks least same counted bounded left (errs e eq) = (
    subst (Progress G R h0 fine k) (sym eq)
        (fail_one G R h0 fine k e st same (omega (arith, counted)) (omega (arith, bounded))),
    omega (arith, ap (measure G R h0 fine) eq, load_weight-pos f),
  )
  loaded c fits f st st' leaks least same counted bounded left (rejected g there e at) =
      loaded_rejected f st st' leaks (omega (arith, least)) same counted bounded g there e at
  loaded c fits f st st' leaks least same counted bounded left (returned st1 g same_data eq) =
      let n = grown f st st1 g (omega (arith, counted)) (omega (arith, bounded)) in
      (
        subst (Progress G R h0 fine k) (sym eq) (
            finish_one G R h0 fine k leaks st1 least (n.same_handle ∙ same)
              (omega (arith, n, counted)) (omega (arith, n, bounded))
              (Leaks-Grows (load_weight f - 1) leaks st st1 g same_data left)),
        omega (arith, n, ap (measure G R h0 fine) eq),
      )
