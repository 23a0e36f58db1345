-- ===== src/Manager/Trace.antt =====
-- Sequences of operations on a manager between two restarts.
pub mod Attempts
pub mod Guessing
use eos_payg.Base.Int.{ℤ, pos, negsuc}
use eos_payg.Base.{
  ℕ, zero, suc, ◌+◌, ◌-◌, ◌*◌, ◌%◌, ◌^◌, ◌≤◌, ◌<◌, min, max, ◌≡◌, ◌↔◌, ◌≢◌, ◌⊎◌, inl, inr, refl, ap,
  ◌∙◌, Bool, true, false, Option, none, some, List, [], ◌∷◌, ◌++◌, ◌==◌, ◌&&◌, ◌||◌, not,
  if◌then◌else◌, ltb, leb, length, replicate, arith, Bool-cases, Option-cases,
}
use eos_payg.Codes.{
  EpcCodeError, Result, ok, err, abort, periods, has_case, value, parse_code, verify_code,
  calculate_code,
}
use eos_payg.Codes.Verify.{verify_code_lem, calculate_code-verify_code}
use eos_payg.Codes.Text.{parse_code_lem}
use eos_payg.Manager.{
  Manager, Runtime, Clock, ManagerError, max_uint64, max_int64, disabled, too_many_attempts,
  cancelled, invalid_code, code_already_used,
}
use eos_payg.Manager.Keeps.{Keeps}
use eos_payg.Manager.RateLimit.{check_rate_limiting, clear_rate_limiting, push_attempt}
use eos_payg.Manager.RateLimit.Window.{check_rate_limiting_state}
use eos_payg.Manager.UsedCodes.{is_used, check_is_counter_unused, mark_used}
use eos_payg.Manager.UsedCodes.Replay.{is_used-mark_used}
use eos_payg.Manager.Expiry.{period_spans, find_span, extend_expiry_time}
use eos_payg.Manager.Expiry.Time.{add_clamped, extend_expiry_time_lem}
use eos_payg.Manager.Save.{begin_save}
use eos_payg.Manager.Save.Begin.{begin_save_lem}
use eos_payg.Manager.AddCode.{
  AddResult, added, refused, add_verified, add_checked, add_parsed, add_limited, add_code,
}
use eos_payg.Base.{sym, subst, take, All}
use eos_payg.Manager.Expiry.{check_expired_cb}
use eos_payg.Manager.Shutdown.{internal_save_state_cb, shutdown_async, shutdown_save_state_cb}
use eos_payg.Manager.AddCode.{clear_code, wallclock_time_changed}
use eos_payg.Manager.AddCode.Branches.{IsReady, Added}
use eos_payg.Codes.Period.{has_case-periods-lt}
use eos_payg.Manager.AddCode.Outcome.{Outcome, add_code_lem}
use eos_payg.Manager.AddCode.Jump.{
  clear_code_lem, wallclock_time_changed_lem, wallclock_time_changed_back,
}

-- One operation that a client, the main loop or the clock makes. The numbers fit their types.
pub data Step (R : Runtime) : Manager → Manager → Type 0 where
  enter :
      (c : Clock) (s : List ℕ) (m m' : Manager) (r : AddResult)
      → IsReady c m
      → add_code R c s m ≡ some (m', r)
      → Step R m m'
  clear :
      (c : Clock) (m m' : Manager) (e : Option ManagerError)
      → IsReady c m
      → clear_code c m ≡ some (m', e)
      → Step R m m'
  jump :
      (c : Clock) (delta : ℤ) (m m' : Manager)
      → IsReady c m
      → wallclock_time_changed R c delta m ≡ some m'
      → Step R m m'
  fire : (c : Clock) (m : Manager) → Step R m (check_expired_cb c m).0
  saved : (success : Bool) (m : Manager) → Step R m (internal_save_state_cb success m)
  shut : (c : Clock) (m : Manager) → Step R m (shutdown_async c m)
  shut_saved : (success : Bool) (m : Manager) → Step R m (shutdown_save_state_cb success m)

pub data Steps (R : Runtime) : Manager → Manager → Type 0 where
  done : (m : Manager) → Steps R m m
  more : {a b c : Manager} → Steps R a b → Step R b c → Steps R a c

-- No operation forgets a used code or changes the key.
pub record Remembers (m m' : Manager) : Type 0 where
  pub same_key : m'.key_bytes ≡ m.key_bytes
  pub still_used : (p n : ℕ) → is_used p n m.used_codes ≡ true → is_used p n m'.used_codes ≡ true

Remembers-same :
    (m m' : Manager) → m'.key_bytes ≡ m.key_bytes → m'.used_codes ≡ m.used_codes → Remembers m m'
Remembers-same m m' k u = record { same_key = k; still_used = λ p n h. rw u h }

Remembers-Keeps : (m m' : Manager) → Keeps m m' → Remembers m m'
Remembers-Keeps m m' k = Remembers-same m m' k.key_bytes_kept k.used_codes_kept

Remembers-check :
    (c : Clock) (m m' : Manager) → m' ≡ (check_rate_limiting m c.time).0 → Remembers m m'
Remembers-check c m m' e =
    let same = check_rate_limiting_state m c.time in
    rw e (Remembers-same m (check_rate_limiting m c.time).0 same.4 same.3)

Remembers-Added :
    (R : Runtime) (c : Clock) (p n code : ℕ) (m m' : Manager) (time : ℕ)
    → verify_code R.glib code m.key_bytes ≡ ok (p, n)
    → Added R c p n (check_rate_limiting m c.time).0 m' time
    → Remembers m m'
Remembers-Added R c p n code m m' time verifies a =
    let same = check_rate_limiting_state m c.time in
    let (_, valid, fits) = calculate_code-verify_code R.glib code m.key_bytes verifies in
    record {
      same_key = a.same_key ∙ same.4;
      still_used = λ q d h. rw a.marked (
          ground (
            arith,
            same.3,
            has_case-periods-lt p valid,
            is_used-mark_used R p n q d (check_rate_limiting m c.time).0,
            h,
          ));
    }

enter-Remembers :
    (R : Runtime) (c : Clock) (s : List ℕ) (m m' : Manager) (r : AddResult)
    → IsReady c m
    → add_code R c s m ≡ some (m', r)
    → Remembers m m'
enter-Remembers R c s m m' r ready h = go (add_code_lem R c s m ready)
  where
    go : Outcome R c s m (add_code R c s m) → Remembers m m'
    go (Outcome.is_disabled _ e) = let same : m' ≡ m = cc in rw same (Remembers-same m m refl refl)
    go (Outcome.is_limited _ _ e) = Remembers-check c m m' (cc)
    go (Outcome.was_cancelled _ _ _ e) = Remembers-check c m m' (cc)
    go (Outcome.is_invalid _ _ _ _ e) = Remembers-check c m m' (cc)
    go (Outcome.was_used _ _ _ _ _ _ _ _ _ e) = Remembers-check c m m' (cc)
    go (Outcome.is_added code p n m2 t _ _ _ _ verifies _ e a) =
        let same : m' ≡ m2 = cc in rw same (Remembers-Added R c p n code m m2 t verifies a)

clear-Remembers :
    (c : Clock) (m m' : Manager) (x : Option ManagerError)
    → IsReady c m
    → clear_code c m ≡ some (m', x)
    → Remembers m m'
clear-Remembers c m m' x ready h = elim (clear_code_lem c m ready) [
  | inl (_, e) ↦ Remembers-same m m' (ground arith) (ground arith)
  | inr (inl (_, _, e)) ↦ Remembers-same m m' (ground arith) (ground arith)
  | inr (inr (m2, e, _, _, _, k)) ↦
      let same : m' ≡ m2 = ground arith in rw same (Remembers-Keeps m m2 k)
]

jump-Remembers :
    (R : Runtime) (c : Clock) (delta : ℤ) (m m' : Manager)
    → IsReady c m
    → wallclock_time_changed R c delta m ≡ some m'
    → Remembers m m'
unfolding wallclock_time_changed
jump-Remembers R c (negsuc n) m m' ready h =
    let (m2, e, _, _, k) = wallclock_time_changed_back R c n m ready in
    let same : m' ≡ m2 = ground (arith, e, h) in rw same (Remembers-Keeps m m2 k)
jump-Remembers R c (pos zero) m m' ready h =
    let same : m' ≡ m = ground arith in rw same (Remembers-same m m refl refl)
jump-Remembers R c (pos (suc n)) m m' ready h =
    let (m2, e, _, _, _, k) = wallclock_time_changed_lem R c (suc n) m ready (omega arith) in
    let same : m' ≡ m2 = ground (arith, e, h) in rw same (Remembers-Keeps m m2 k)

pub Step-Remembers : (R : Runtime) {m m' : Manager} → Step R m m' → Remembers m m'
unfolding check_expired_cb internal_save_state_cb shutdown_async shutdown_save_state_cb
Step-Remembers R (Step.enter c s m m' r ready h) = enter-Remembers R c s m m' r ready h
Step-Remembers R (Step.clear c m m' e ready h) = clear-Remembers c m m' e ready h
Step-Remembers R (Step.jump c delta m m' ready h) = jump-Remembers R c delta m m' ready h
Step-Remembers R (Step.fire c m) = Remembers-same m _ (ground arith) (ground arith)
Step-Remembers R (Step.saved success m) = Remembers-same m _ (ground arith) (ground arith)
Step-Remembers R (Step.shut c m) = Remembers-same m _ (ground arith) (ground arith)
Step-Remembers R (Step.shut_saved success m) = Remembers-same m _ refl refl

-- No sequence of operations of a running manager, each made while the clock and the expiry time
-- fit in 64 bits and another save can be counted, changes the key or forgets a used code.
pub Steps-Remembers : (R : Runtime) {m m' : Manager} → Steps R m m' → Remembers m m'
Steps-Remembers R (Steps.done m) = Remembers-same m m refl refl
Steps-Remembers R (Steps.more steps step) =
    let first = Steps-Remembers R steps in
    let second = Step-Remembers R step in
    record {
      same_key = second.same_key ∙ first.same_key;
      still_used = λ p n h. second.still_used p n (first.still_used p n h);
    }
