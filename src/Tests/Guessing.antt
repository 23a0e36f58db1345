-- ===== src/Tests/Guessing.antt =====
-- Ten refused attempts, and the eleventh.
use eos_payg.Base.{ℕ, zero, suc, ◌+◌, ◌<◌, ◌≡◌, refl, some, List, [], ◌∷◌, arith}
use eos_payg.Codes.{parse_code}
use eos_payg.Manager.{Manager, invalid_code, too_many_attempts}
use eos_payg.Manager.RateLimit.{
  check_rate_limiting, window_start, n_attempts, push_attempt, end_time,
}
use eos_payg.Manager.AddCode.{refused, add_parsed, add_limited, add_code}
use eos_payg.Manager.AddCode.Branches.{IsReady}
use eos_payg.Manager.Trace.Attempts.{Refusals}
use eos_payg.Manager.Trace.Guessing.{eleventh_attempt_refused}
use eos_payg.Tests.Samples.{runtime, clock_at, fresh}

-- The state after `n` attempts with an empty text, one a second from an hour after boot on.
abbrev tried : ℕ → Manager
unfolding check_rate_limiting window_start n_attempts push_attempt end_time
tried zero = fresh
tried (suc n) = (check_rate_limiting (tried n) (3600 + n)).0

attempt :
    (n : ℕ) {ts : List ℕ}
    → Refusals runtime ts fresh (tried n)
    → IsReady (clock_at (3600 + n)) (tried n)
    → add_code runtime (clock_at (3600 + n)) [] (tried n)
      ≡ some (tried (suc n), refused invalid_code)
    → Refusals runtime ((3600 + n) ∷ ts) fresh (tried (suc n))
attempt n run ready refuses =
    Refusals.again (clock_at (3600 + n)) [] (tried n) (tried (suc n)) invalid_code run ready refuses

abbrev times : List ℕ
times = 3609 ∷ 3608 ∷ 3607 ∷ 3606 ∷ 3605 ∷ 3604 ∷ 3603 ∷ 3602 ∷ 3601 ∷ 3600 ∷ []

ready :
    (n : ℕ)
    → n < 100
    → (tried n).expiry_time_secs ≡ 0
    → (tried n).pending_internal_save_state_calls ≡ 0
    → IsReady (clock_at (3600 + n)) (tried n)
ready n h e p = record {
  now_fits = omega arith;
  expiry_fits = omega arith;
  few_saves = omega arith;
}

-- One after the other.
run : Refusals runtime times fresh (tried 10)
unfolding add_code add_limited add_parsed check_rate_limiting window_start n_attempts push_attempt
    end_time parse_code
run =
    attempt 9
      (attempt 8
        (attempt 7
          (attempt 6
            (attempt 5
              (attempt 4
                (attempt 3
                  (attempt 2
                    (attempt 1
                      (attempt 0 (Refusals.none_yet fresh) (ready 0 (omega arith) refl refl) refl)
                      (ready 1 (omega arith) refl refl) refl)
                    (ready 2 (omega arith) refl refl) refl)
                  (ready 3 (omega arith) refl refl) refl)
                (ready 4 (omega arith) refl refl) refl)
              (ready 5 (omega arith) refl refl) refl)
            (ready 6 (omega arith) refl refl) refl)
          (ready 7 (omega arith) refl refl) refl)
        (ready 8 (omega arith) refl refl) refl)
      (ready 9 (omega arith) refl refl) refl

eleventh-IsReady : IsReady (clock_at 3660) (tried 10)
unfolding tried
eleventh-IsReady = record {
  now_fits = omega arith;
  expiry_fits = omega arith;
  few_saves = omega arith;
}

eleventh_attempt_refused_example :
    add_code runtime (clock_at 3660) (b'1' ∷ []) (tried 10)
    ≡ some ((check_rate_limiting (tried 10) 3660).0, refused too_many_attempts)
unfolding tried
eleventh_attempt_refused_example =
    eleventh_attempt_refused runtime (clock_at 3660) (b'1' ∷ []) times fresh (tried 10) refl refl
      run (omega arith) (omega arith) (omega arith) eleventh-IsReady
