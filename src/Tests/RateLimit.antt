-- ===== src/Tests/RateLimit.antt =====
-- The rate limit on concrete histories.
use eos_payg.Base.{◌<◌, ◌≡◌, ◌↔◌, refl, true, [], ◌∷◌, replicate, arith}
use eos_payg.Manager.{Manager}
use eos_payg.Manager.RateLimit.{check_rate_limiting}
use eos_payg.Manager.RateLimit.Window.{rate_limit_end_time_lem, check_rate_limiting_early}
use eos_payg.Tests.Samples.{fresh}

-- Ten attempts, one a minute, the last an hour and nine minutes after boot.
abbrev busy : Manager
busy = record fresh {
  rate_limiting_history = 4140 ∷ 4080 ∷ 4020 ∷ 3960 ∷ 3900 ∷ 3840 ∷ 3780 ∷ 3720 ∷ 3660 ∷ 3600 ∷ [];
}

rate_limit_end_time_lem_example :
    ((check_rate_limiting (check_rate_limiting busy 4200).0 5460).1 ≡ true)
    ↔ ((check_rate_limiting busy 4200).0.rate_limit_end_time_secs < 5460)
rate_limit_end_time_lem_example =
    rate_limit_end_time_lem busy 4200 5460 refl (omega arith) (omega arith) (omega arith)
      (omega arith)

-- Ten attempts in the same second, a minute after boot.
abbrev early : Manager
early = record fresh { rate_limiting_history = replicate 10 60 }

check_rate_limiting_early_example : (check_rate_limiting early 60).1 ≡ true
check_rate_limiting_early_example =
    check_rate_limiting_early early 60 refl (omega arith) (omega arith)
