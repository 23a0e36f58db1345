-- ===== src/Manager/Load/Growth.antt =====
-- What the callbacks of the start add to what is under way.
use eos_payg.Base.{
  ℕ, zero, suc, ◌+◌, ◌≤◌, ◌≡◌, refl, ap, ◌∙◌, Bool, true, false, List, [], ◌∷◌, ◌++◌, length,
  length-append, if◌then◌else◌, arith,
}
use eos_payg.MultiTask.{GTask, MultiTask, increment}
use eos_payg.Manager.{Manager}
use eos_payg.Manager.Load.{
  LoadState, File, wallclock_time_file, expiry_seconds_file, expiry_time_file, used_codes_file,
  key_file, account_id_file, Request, load_contents, delete_file,
}

-- How many callbacks a request leads to at most, with those that follow from it.
abbrev pub load_weight : File → ℕ
load_weight wallclock_time_file = 6
load_weight expiry_time_file = 3
load_weight expiry_seconds_file = 3
load_weight used_codes_file = 2
load_weight key_file = 1
load_weight account_id_file = 1

pub load_weight-pos : (f : File) → 1 ≤ load_weight f
load_weight-pos wallclock_time_file = omega arith
load_weight-pos expiry_time_file = omega arith
load_weight-pos expiry_seconds_file = omega arith
load_weight-pos used_codes_file = omega arith
load_weight-pos key_file = omega arith
load_weight-pos account_id_file = omega arith

pub load_weight-le : (f : File) → load_weight f ≤ 6
load_weight-le wallclock_time_file = omega arith
load_weight-le expiry_time_file = omega arith
load_weight-le expiry_seconds_file = omega arith
load_weight-le used_codes_file = omega arith
load_weight-le key_file = omega arith
load_weight-le account_id_file = omega arith

abbrev pub weight : Request → ℕ
weight (load_contents f) = load_weight f
weight (delete_file f) = 1

abbrev pub weigh : List Request → ℕ
weigh [] = 0
weigh (q ∷ qs) = weight q + weigh qs

-- Whether a deletion is under way.
abbrev pub has_delete : List Request → Bool
has_delete [] = false
has_delete (delete_file f ∷ qs) = true
has_delete (load_contents f ∷ qs) = has_delete qs

module _ (G : GTask) where
  abbrev pub increments : ℕ → MultiTask G → MultiTask G
  increments zero t = t
  increments (suc n) t = increment G (increments n t)

  increments_add :
      (a b : ℕ) (t : MultiTask G) → increments a (increments b t) ≡ increments (a + b) t
  increments_add zero b t = ap (λ n. increments n t) (omega arith)
  increments_add (suc a) b t =
      let same : suc (a + b) ≡ suc a + b = omega arith in
      ap (increment G) (increments_add a b t) ∙ ap (λ n. increments n t) same

  pub increments_save :
      (saved : Bool) (t : MultiTask G)
      → (if saved then increment G t else t) ≡ increments (0 + (if saved then 1 else 0)) t
  increments_save true t = refl
  increments_save false t = refl

  -- Requests and saves were added, each counted on the task, of no more than a weight.
  pub record Grows (limit : ℕ) (st st' : LoadState G) : Type 0 where
    pub news : List Request
    pub saves : ℕ
    pub asked : st'.requests ≡ news ++ st.requests
    pub started :
        st'.manager.pending_internal_save_state_calls
        ≡ st.manager.pending_internal_save_state_calls + saves
    pub counted : st'.task ≡ increments (length news + saves) st.task
    pub within : weigh news + saves ≤ limit

  pub weigh-append : (as' bs : List Request) → weigh (as' ++ bs) ≡ weigh as' + weigh bs
  weigh-append [] bs = omega arith
  weigh-append (q ∷ qs) bs = omega (arith, weigh-append qs bs)

  append_assoc_requests : (as' bs cs : List Request) → as' ++ (bs ++ cs) ≡ (as' ++ bs) ++ cs
  append_assoc_requests [] bs cs = refl
  append_assoc_requests (q ∷ qs) bs cs = ap (λ l. q ∷ l) (append_assoc_requests qs bs cs)

  pub Grows-trans :
      (a b limit : ℕ) (st st1 st2 : LoadState G)
      → Grows a st st1
      → Grows b st1 st2
      → a + b ≤ limit
      → Grows limit st st2
  Grows-trans a b limit st st1 st2 g h small = record {
    news = h.news ++ g.news;
    saves = h.saves + g.saves;
    asked =
        h.asked ∙ ap (λ l. h.news ++ l) g.asked ∙ append_assoc_requests h.news g.news st.requests;
    started = omega (arith, g.started, h.started);
    counted =
        h.counted
        ∙ ap (increments (length h.news + h.saves)) g.counted
        ∙ increments_add (length h.news + h.saves) (length g.news + g.saves) st.task
        ∙ ap (λ n. increments n st.task) (omega (arith, length-append h.news g.news));
    within = omega (arith, g.within, h.within, weigh-append h.news g.news, small);
  }

  pub Grows-le :
      (a limit : ℕ) (st st' : LoadState G) → Grows a st st' → a ≤ limit → Grows limit st st'
  Grows-le a limit st st' g small = record {
    news = g.news;
    saves = g.saves;
    asked = g.asked;
    started = g.started;
    counted = g.counted;
    within = omega (arith, g.within);
  }

  -- What else the manager holds does not matter.
  pub Grows-manager :
      (limit : ℕ) (st st' : LoadState G) (m : Manager)
      → Grows limit st st'
      → m.pending_internal_save_state_calls ≡ st'.manager.pending_internal_save_state_calls
      → Grows limit st (record st' { manager = m })
  Grows-manager limit st st' m g same = record {
    news = g.news;
    saves = g.saves;
    asked = g.asked;
    started = same ∙ g.started;
    counted = g.counted;
    within = g.within;
  }

  -- One request.
  abbrev pub asking : Request → LoadState G → LoadState G
  asking q st = record st { task = increment G st.task; requests = q ∷ st.requests }

  pub asking-Grows : (q : Request) (st : LoadState G) → Grows (weight q) st (asking q st)
  asking-Grows q st = record {
    news = q ∷ [];
    saves = 0;
    asked = refl;
    started = omega arith;
    counted = refl;
    within = omega arith;
  }

  -- A step that adds nothing.
  pub still-Grows :
      (st st' : LoadState G)
      → st'.requests ≡ st.requests
      → st'.manager.pending_internal_save_state_calls ≡ st.manager.pending_internal_save_state_calls
      → st'.task ≡ st.task
      → Grows 0 st st'
  still-Grows st st' asked started counted = record {
    news = [];
    saves = 0;
    asked = asked;
    started = omega (arith, started);
    counted = counted;
    within = omega arith;
  }
