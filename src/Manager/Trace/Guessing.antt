-- ===== src/Manager/Trace/Guessing.antt =====
-- The rate limit over runs of refused attempts.
use eos_payg.Base.{ℕ, zero, suc, ◌+◌, ◌≤◌, ◌≡◌, true, some, List, length, arith}
use eos_payg.Manager.{Manager, Runtime, Clock, too_many_attempts}
use eos_payg.Manager.RateLimit.{check_rate_limiting}
use eos_payg.Manager.AddCode.{refused, add_code}
use eos_payg.Base.{take, All}
use eos_payg.Manager.AddCode.Branches.{IsReady}
use eos_payg.Manager.AddCode.Outcome.{add_code_limited}
use eos_payg.Manager.RateLimit.Window.{length-push_attempt, All-push_attempt, refused_of_recent}
use eos_payg.Manager.Trace.Attempts.{Refusals, none_yet, again, refusal_counts}

-- The newest `k` times of a run of refusals stand in the history.
Refusals-history {ℓ} :
    (R : Runtime) (P : ℕ → Type ℓ) (k : ℕ) {ts : List ℕ} {a b : Manager}
    → k ≤ 10
    → k ≤ length ts
    → a.enabled ≡ true
    → length a.rate_limiting_history ≡ 10
    → All P (take k ts)
    → Refusals R ts a b
    → (b.enabled ≡ true)
      × (length b.rate_limiting_history ≡ 10)
      × All P (take k b.rate_limiting_history)
Refusals-history R P zero h l on len recent (none_yet m) = (on, len, tt)
Refusals-history R P (suc k) h l on len recent (none_yet m) = absurd (omega arith)
Refusals-history R P zero h l on len recent (again c s b b' e rs ready r) =
    let (on', len', _) = Refusals-history R P zero (omega arith) (omega arith) on len tt rs in
    let (on2, history) = refusal_counts R c s b b' e on' ready r in
    (on2, rw history (length-push_attempt c.time b.rate_limiting_history len'), tt)
Refusals-history R P (suc k) h l on len recent (again c s b b' e rs ready r) =
    let (on', len', old) = Refusals-history R P k (omega arith) (omega arith) on len recent.1 rs in
    let (on2, history) = refusal_counts R c s b b' e on' ready r in
    (
      on2,
      rw history (length-push_attempt c.time b.rate_limiting_history len'),
      rw history (All-push_attempt P k c.time b.rate_limiting_history (omega arith) recent.0 old),
    )

-- On an enabled manager with a history of ten entries, after at least ten attempts in a row that
-- were all refused, the last ten of them at most 30 minutes ago, any further text is refused as
-- one attempt too many, without being read; the clock shows 30 minutes or more, it and the expiry
-- time fit in 64 bits, and another save can be counted.
pub eleventh_attempt_refused :
    (R : Runtime) (c : Clock) (s : List ℕ) (ts : List ℕ) (a b : Manager)
    → a.enabled ≡ true
    → length a.rate_limiting_history ≡ 10
    → Refusals R ts a b
    → 10 ≤ length ts
    → All (λ t. c.time ≤ t + 1800) (take 10 ts)
    → 1800 ≤ c.time
    → IsReady c b
    → add_code R c s b ≡ some ((check_rate_limiting b c.time).0, refused too_many_attempts)
eleventh_attempt_refused R c s ts a b on len run ten recent late ready =
    let (on', len', newest) =
      Refusals-history R (λ t. c.time ≤ t + 1800) 10 (omega arith) ten on len recent run in
    let limit = refused_of_recent b c.time len' late (omega (arith, ready.now_fits)) newest in
    add_code_limited R c s b on' limit
