-- ===== src/Manager/Trace/Attempts.antt =====
-- What attempts leave behind, and what a code that was used does later.
use eos_payg.Base.{ℕ, ◌≡◌, ap, ◌∙◌, true, some, List, [], ◌∷◌, arith}
use eos_payg.Codes.{ok, parse_code, verify_code}
use eos_payg.Codes.Verify.{calculate_code-verify_code}
use eos_payg.Manager.{
  Manager, Runtime, Clock, ManagerError, disabled, too_many_attempts, cancelled, invalid_code,
  code_already_used,
}
use eos_payg.Manager.RateLimit.{check_rate_limiting, push_attempt}
use eos_payg.Manager.RateLimit.Window.{check_rate_limiting_state}
use eos_payg.Manager.UsedCodes.{is_used, mark_used}
use eos_payg.Manager.UsedCodes.Replay.{is_used-mark_used}
use eos_payg.Manager.AddCode.{AddResult, added, refused, add_code}
use eos_payg.Manager.AddCode.Branches.{IsReady}
use eos_payg.Codes.Period.{has_case-periods-lt}
use eos_payg.Manager.AddCode.Outcome.{Outcome, add_code_lem}
use eos_payg.Manager.Trace.{Steps, Steps-Remembers}

-- What a success leaves behind.
added_is_used :
    (R : Runtime) (c : Clock) (s : List ℕ) (m m1 : Manager) (time : ℕ)
    → IsReady c m
    → add_code R c s m ≡ some (m1, added time)
    → (code : ℕ) × (period : ℕ) × (counter : ℕ) × (parse_code R.glib s ≡ ok code)
      × (verify_code R.glib code m1.key_bytes ≡ ok (period, counter))
      × (is_used period counter m1.used_codes ≡ true)
added_is_used R c s m m1 time ready h = go (add_code_lem R c s m ready)
  where
    go :
        Outcome R c s m (add_code R c s m)
        → (code : ℕ) × (period : ℕ) × (counter : ℕ) × (parse_code R.glib s ≡ ok code)
          × (verify_code R.glib code m1.key_bytes ≡ ok (period, counter))
          × (is_used period counter m1.used_codes ≡ true)
    go (Outcome.is_disabled _ e) = absurd (ground (arith, e, h))
    go (Outcome.is_limited _ _ e) = absurd (ground (arith, e, h))
    go (Outcome.was_cancelled _ _ _ e) = absurd (ground (arith, e, h))
    go (Outcome.is_invalid _ _ _ _ e) = absurd (ground (arith, e, h))
    go (Outcome.was_used _ _ _ _ _ _ _ _ _ e) = absurd (ground (arith, e, h))
    go (Outcome.is_added code p n m2 t _ _ _ parses verifies _ e a) =
        let same : m1 ≡ m2 = ground (arith, e, h) in
        let key : m1.key_bytes ≡ m.key_bytes =
          ap (λ (x : Manager). x.key_bytes) same
          ∙ a.same_key
          ∙ (check_rate_limiting_state m c.time).4 in
        let (_, valid, fits) = calculate_code-verify_code R.glib code m.key_bytes verifies in
        let marked : m1.used_codes ≡ (mark_used R p n (check_rate_limiting m c.time).0).used_codes =
          ap (λ (x : Manager). x.used_codes) same ∙ a.marked in
        (
          code,
          p,
          n,
          parses,
          rw key verifies,
          rw marked (
              ground (
                arith,
                has_case-periods-lt p valid,
                is_used-mark_used R p n p n (check_rate_limiting m c.time).0,
              )),
        )

-- While the clock and the expiry time fit in 64 bits and another save can be counted, at both
-- attempts: after epg_manager_add_code has taken a text, and any sequence of operations of the
-- running manager since, each made while these numbers fit, entering the same text again gives an
-- error and leaves the expiry time as it was.
pub single_use :
    (R : Runtime) (c c' : Clock) (s : List ℕ) (m m1 m2 m3 : Manager) (time : ℕ) (r : AddResult)
    → IsReady c m
    → add_code R c s m ≡ some (m1, added time)
    → Steps R m1 m2
    → IsReady c' m2
    → add_code R c' s m2 ≡ some (m3, r)
    → ((e : ManagerError) × (r ≡ refused e)) × (m3.expiry_time_secs ≡ m2.expiry_time_secs)
single_use R c c' s m m1 m2 m3 time r ready took steps ready' again =
    go (add_code_lem R c' s m2 ready')
  where
    limited : m3 ≡ (check_rate_limiting m2 c'.time).0 → m3.expiry_time_secs ≡ m2.expiry_time_secs
    limited e =
        ap (λ (x : Manager). x.expiry_time_secs) e ∙ (check_rate_limiting_state m2 c'.time).5

    go :
        Outcome R c' s m2 (add_code R c' s m2)
        → ((e : ManagerError) × (r ≡ refused e)) × (m3.expiry_time_secs ≡ m2.expiry_time_secs)
    go (Outcome.is_disabled _ e) = ((disabled, ground (arith, e, again)), ground (arith, e, again))
    go (Outcome.is_limited _ _ e) =
        ((too_many_attempts, ground (arith, e, again)), limited (ground (arith, e, again)))
    go (Outcome.was_cancelled _ _ _ e) =
        ((cancelled, ground (arith, e, again)), limited (ground (arith, e, again)))
    go (Outcome.is_invalid _ _ _ _ e) =
        ((invalid_code, ground (arith, e, again)), limited (ground (arith, e, again)))
    go (Outcome.was_used _ _ _ _ _ _ _ _ _ e) =
        ((code_already_used, ground (arith, e, again)), limited (ground (arith, e, again)))
    go (Outcome.is_added code p n m4 t _ _ _ parses verifies unused e a) =
        let (code1, p1, n1, parses1, verifies1, used1) = added_is_used R c s m m1 time ready took in
        let kept = Steps-Remembers R steps in
        let used : is_used p1 n1 m2.used_codes ≡ true = kept.still_used p1 n1 used1 in
        let key = kept.same_key in
        absurd (ground (arith, parses, parses1, verifies, verifies1, used, unused, key))

-- A run of attempts that were all refused, with their times, newest first.
pub data Refusals (R : Runtime) : List ℕ → Manager → Manager → Type 0 where
  none_yet : (m : Manager) → Refusals R [] m m
  again :
      {ts : List ℕ} {a : Manager} (c : Clock) (s : List ℕ) (b b' : Manager) (e : ManagerError)
      → Refusals R ts a b
      → IsReady c b
      → add_code R c s b ≡ some (b', refused e)
      → Refusals R (c.time ∷ ts) a b'

pub refusal_counts :
    (R : Runtime) (c : Clock) (s : List ℕ) (m m' : Manager) (x : ManagerError)
    → m.enabled ≡ true
    → IsReady c m
    → add_code R c s m ≡ some (m', refused x)
    → (m'.enabled ≡ true) × (m'.rate_limiting_history ≡ push_attempt c.time m.rate_limiting_history)
refusal_counts R c s m m' x on ready h = go (add_code_lem R c s m ready)
  where
    counted :
        m' ≡ (check_rate_limiting m c.time).0
        → (m'.enabled ≡ true)
          × (m'.rate_limiting_history ≡ push_attempt c.time m.rate_limiting_history)
    counted e = let same = check_rate_limiting_state m c.time in rw e (same.1 ∙ on, same.0)

    go :
        Outcome R c s m (add_code R c s m)
        → (m'.enabled ≡ true)
          × (m'.rate_limiting_history ≡ push_attempt c.time m.rate_limiting_history)
    go (Outcome.is_disabled off e) = absurd (ground (arith, off, on))
    go (Outcome.is_limited _ _ e) = counted (ground (arith, e, h))
    go (Outcome.was_cancelled _ _ _ e) = counted (ground (arith, e, h))
    go (Outcome.is_invalid _ _ _ _ e) = counted (ground (arith, e, h))
    go (Outcome.was_used _ _ _ _ _ _ _ _ _ e) = counted (ground (arith, e, h))
    go (Outcome.is_added _ _ _ _ _ _ _ _ _ _ _ e a) = absurd (ground (arith, e, h))
