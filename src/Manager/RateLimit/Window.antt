-- ===== src/Manager/RateLimit/Window.antt =====
-- What the rate limit of `check_rate_limiting` allows and refuses.
use eos_payg.Base.{
  ℕ, zero, suc, ◌+◌, ◌-◌, ◌^◌, ◌≤◌, ◌<◌, ◌≡◌, ◌↔◌, ◌≢◌, inl, inr, refl, subst, true, false, List,
  [], ◌∷◌, length, get_or, take, All, arith, Bool-cases,
}
use eos_payg.Manager.{Manager}
use eos_payg.Manager.RateLimit.{
  window_start, n_attempts, push_attempt, end_time, check_rate_limiting, clear_rate_limiting,
}

window_start_late : (now : ℕ) → 1800 ≤ now → now < 2 ^ 64 → window_start now ≡ now - 1800
unfolding window_start
window_start_late now h k = omega arith

window_start_early : (now : ℕ) → now < 1800 → 2 ^ 63 ≤ window_start now
unfolding window_start
window_start_early now h = omega arith

n_attempts-le-length : (start : ℕ) (ts : List ℕ) → n_attempts start ts ≤ length ts
unfolding n_attempts
n_attempts-le-length start [] = omega arith
n_attempts-le-length start (t ∷ ts) = ground (arith, n_attempts-le-length start ts)

n_attempts-All :
    (start : ℕ) (ts : List ℕ) → All (λ t. start ≤ t) ts → n_attempts start ts ≡ length ts
unfolding n_attempts
n_attempts-All start [] a = refl
n_attempts-All start (t ∷ ts) (h, a) = ground (arith, n_attempts-All start ts a)

All-n_attempts :
    (start : ℕ) (ts : List ℕ) → length ts ≤ n_attempts start ts → All (λ t. start ≤ t) ts
unfolding n_attempts
All-n_attempts start [] h = tt
All-n_attempts start (t ∷ ts) h = (
  ground (arith, n_attempts-le-length start ts),
  All-n_attempts start ts (ground (arith, n_attempts-le-length start ts)),
)

-- With a history of ten entries an attempt is refused exactly if all of them are at or after the
-- start of the window.
pub refused_iff :
    (m : Manager) (now : ℕ)
    → length m.rate_limiting_history ≡ 10
    → ((check_rate_limiting m now).1 ≡ false)
      ↔ All (λ t. window_start now ≤ t) m.rate_limiting_history
unfolding check_rate_limiting
refused_iff m now len = (
  λ h. All-n_attempts (window_start now) m.rate_limiting_history (ground arith),
  λ a. ground (arith, n_attempts-All (window_start now) m.rate_limiting_history a),
)

length-take_10 : (k : ℕ) (ts : List ℕ) → k ≤ length ts → length (take k ts) ≡ k
length-take_10 zero ts h = refl
length-take_10 (suc k) [] h = absurd (omega arith)
length-take_10 (suc k) (t ∷ ts) h = omega (arith, length-take_10 k ts (omega arith))

pub length-push_attempt :
    (now : ℕ) (ts : List ℕ) → length ts ≡ 10 → length (push_attempt now ts) ≡ 10
unfolding push_attempt
length-push_attempt now ts h = omega (arith, length-take_10 9 ts (omega arith))

-- A call, allowed or not, puts its time into the history and changes nothing else that another
-- operation reads.
pub check_rate_limiting_state :
    (m : Manager) (now : ℕ)
    → ((check_rate_limiting m now).0.rate_limiting_history
        ≡ push_attempt now m.rate_limiting_history)
      × ((check_rate_limiting m now).0.enabled ≡ m.enabled)
      × ((check_rate_limiting m now).0.is_cancelled ≡ m.is_cancelled)
      × ((check_rate_limiting m now).0.used_codes ≡ m.used_codes)
      × ((check_rate_limiting m now).0.key_bytes ≡ m.key_bytes)
      × ((check_rate_limiting m now).0.expiry_time_secs ≡ m.expiry_time_secs)
      × ((check_rate_limiting m now).0.expiry ≡ m.expiry)
      × ((check_rate_limiting m now).0.pending_internal_save_state_calls
          ≡ m.pending_internal_save_state_calls)
unfolding check_rate_limiting
check_rate_limiting_state m now = ground arith

-- The newest `k` entries after one more call.
All-take-take {ℓ} :
    (P : ℕ → Type ℓ) (k n : ℕ) (ts : List ℕ)
    → k ≤ n
    → All P (take k ts)
    → All P (take k (take n ts))
All-take-take P zero n ts h a = tt
All-take-take P (suc k) zero ts h a = absurd (omega arith)
All-take-take P (suc k) (suc n) [] h a = tt
All-take-take P (suc k) (suc n) (t ∷ ts) h (p, a) = (p, All-take-take P k n ts (omega arith) a)

pub All-push_attempt {ℓ} :
    (P : ℕ → Type ℓ) (k now : ℕ) (ts : List ℕ)
    → k ≤ 9
    → P now
    → All P (take k ts)
    → All P (take (suc k) (push_attempt now ts))
unfolding push_attempt
All-push_attempt P k now ts h p a = (p, All-take-take P k 9 ts h a)

All-of_take {ℓ} :
    (P : ℕ → Type ℓ) (k : ℕ) (ts : List ℕ) → length ts ≤ k → All P (take k ts) → All P ts
All-of_take P k [] h a = tt
All-of_take P zero (t ∷ ts) h a = absurd (omega arith)
All-of_take P (suc k) (t ∷ ts) h (p, a) = (p, All-of_take P k ts (omega arith) a)

-- Ten entries of the last 30 minutes refuse the call.
pub refused_of_recent :
    (m : Manager) (now : ℕ)
    → length m.rate_limiting_history ≡ 10
    → 1800 ≤ now
    → now < 2 ^ 64
    → All (λ t. now ≤ t + 1800) (take 10 m.rate_limiting_history)
    → (check_rate_limiting m now).1 ≡ false
refused_of_recent m now len late fits recent =
    (refused_iff m now len).1 (
      weaken m.rate_limiting_history
        (All-of_take _ 10 m.rate_limiting_history (omega arith) recent))
  where
    weaken : (ts : List ℕ) → All (λ t. now ≤ t + 1800) ts → All (λ t. window_start now ≤ t) ts
    weaken [] a = tt
    weaken (t ∷ ts) (h, a) = (omega (arith, window_start_late now late fits), weaken ts a)

abbrev pub IsNewestFirst : List ℕ → Type 0
IsNewestFirst [] = Unit {0}
IsNewestFirst (t ∷ []) = Unit {0}
IsNewestFirst (t ∷ u ∷ ts) = (u ≤ t) × IsNewestFirst (u ∷ ts)

-- In a history that is newest first, the last entry decides.
All-of_oldest :
    (start : ℕ) (ts : List ℕ) (k : ℕ)
    → length ts ≡ suc k
    → IsNewestFirst ts
    → start ≤ get_or ts k 0
    → All (λ t. start ≤ t) ts
All-of_oldest start [] k len sorted h = tt
All-of_oldest start (t ∷ []) zero len sorted h = (h, tt)
All-of_oldest start (t ∷ []) (suc k) len sorted h = absurd (omega arith)
All-of_oldest start (t ∷ u ∷ ts) zero len sorted h = absurd (omega arith)
All-of_oldest start (t ∷ u ∷ ts) (suc k) len (le, sorted) h =
    let rest : All (λ t. start ≤ t) (u ∷ ts) =
      All-of_oldest start (u ∷ ts) k (omega arith) sorted h in
    (omega (arith, rest.0), rest)

oldest_of_All :
    (start : ℕ) (ts : List ℕ) (k : ℕ)
    → length ts ≡ suc k
    → All (λ t. start ≤ t) ts
    → start ≤ get_or ts k 0
oldest_of_All start [] k len a = absurd (omega arith)
oldest_of_All start (t ∷ ts) zero len (h, a) = h
oldest_of_All start (t ∷ ts) (suc k) len (h, a) = oldest_of_All start ts k (omega arith) a

IsNewestFirst-take : (k : ℕ) (ts : List ℕ) → IsNewestFirst ts → IsNewestFirst (take k ts)
IsNewestFirst-take zero ts s = tt
IsNewestFirst-take (suc k) [] s = tt
IsNewestFirst-take (suc zero) (t ∷ ts) s = tt
IsNewestFirst-take (suc (suc k)) (t ∷ []) s = tt
IsNewestFirst-take (suc (suc k)) (t ∷ u ∷ ts) (le, s) = (le, IsNewestFirst-take (suc k) (u ∷ ts) s)

IsNewestFirst-push_attempt :
    (now : ℕ) (ts : List ℕ) → IsNewestFirst (now ∷ ts) → IsNewestFirst (push_attempt now ts)
unfolding push_attempt
IsNewestFirst-push_attempt now ts s = IsNewestFirst-take 10 (now ∷ ts) s

oldest-le : (t : ℕ) (ts : List ℕ) (k : ℕ) → IsNewestFirst (t ∷ ts) → get_or (t ∷ ts) k 0 ≤ t
oldest-le t ts zero s = omega arith
oldest-le t [] (suc k) s = omega arith
oldest-le t (u ∷ ts) (suc k) (le, s) = omega (arith, oldest-le u ts k s)

oldest-push_attempt :
    (now : ℕ) (ts : List ℕ) → IsNewestFirst (now ∷ ts) → get_or (push_attempt now ts) 9 0 ≤ now
unfolding push_attempt
oldest-push_attempt now ts s = oldest-le now (take 9 ts) 9 (IsNewestFirst-take 10 (now ∷ ts) s)

-- Refusal in terms of the oldest entry.
refused_oldest :
    (m : Manager) (now : ℕ)
    → length m.rate_limiting_history ≡ 10
    → IsNewestFirst m.rate_limiting_history
    → 1800 ≤ now
    → now < 2 ^ 64
    → ((check_rate_limiting m now).1 ≡ false) ↔ (now - 1800 ≤ get_or m.rate_limiting_history 9 0)
refused_oldest m now len sorted late fits =
    let start = window_start_late now late fits in
    (
      λ h. omega (
        arith,
        start,
        oldest_of_All (window_start now) m.rate_limiting_history 9 len
            ((refused_iff m now len).0 h),
      ),
      λ h. (refused_iff m now len).1 (
          All-of_oldest (window_start now) m.rate_limiting_history 9 len sorted
            (omega (arith, start))),
    )

check_rate_limiting_end :
    (m : Manager) (now : ℕ)
    → (check_rate_limiting m now).0.rate_limit_end_time_secs
      ≡ end_time (get_or (push_attempt now m.rate_limiting_history) 9 0)
unfolding check_rate_limiting
check_rate_limiting_end m now = ground arith

end_time_lem :
    (oldest t : ℕ) → oldest < 2 ^ 63 → 1800 < t → (oldest < t - 1800) ↔ (end_time oldest < t)
unfolding end_time
end_time_lem oldest t h late = (λ p. ground arith, λ p. ground arith)

-- With a history of ten entries that are newest first and not later than now, and times below 2 ^
-- 63, an attempt at a time above 30 minutes that follows one made now is allowed exactly if it is
-- later than the end time of the limit that the first one published.
pub rate_limit_end_time_lem :
    (m : Manager) (now t : ℕ)
    → length m.rate_limiting_history ≡ 10
    → IsNewestFirst (now ∷ m.rate_limiting_history)
    → now < 2 ^ 63
    → t < 2 ^ 63
    → 1800 < t
    → let m' = (check_rate_limiting m now).0 in
      ((check_rate_limiting m' t).1 ≡ true) ↔ (m'.rate_limit_end_time_secs < t)
rate_limit_end_time_lem m now t len sorted hn ht late = (
  λ h. rw ends ((end_time_lem oldest t small late).0 (ground (arith, refused.1))),
  λ h. ground (arith, refused.0, (end_time_lem oldest t small late).1 (rw ends at h)),
)
  where
    m' : Manager
    m' = (check_rate_limiting m now).0

    oldest : ℕ
    oldest = get_or (push_attempt now m.rate_limiting_history) 9 0

    history : m'.rate_limiting_history ≡ push_attempt now m.rate_limiting_history
    history = (check_rate_limiting_state m now).0

    ends : m'.rate_limit_end_time_secs ≡ end_time oldest
    ends = check_rate_limiting_end m now

    small : oldest < 2 ^ 63
    small = omega (arith, oldest-push_attempt now m.rate_limiting_history sorted)

    refused : ((check_rate_limiting m' t).1 ≡ false) ↔ (t - 1800 ≤ oldest)
    refused =
        subst (λ h. ((check_rate_limiting m' t).1 ≡ false) ↔ (t - 1800 ≤ get_or h 9 0)) history
          (refused_oldest m' t (rw history (length-push_attempt now m.rate_limiting_history len))
            (rw history (IsNewestFirst-push_attempt now m.rate_limiting_history sorted))
            (omega arith) (omega arith))

-- After clear_rate_limiting the next attempt is allowed at every 64-bit time but 1800, exactly 30
-- minutes after the clock's zero.
pub check_rate_limiting-clear_rate_limiting :
    (m : Manager) (now : ℕ)
    → now < 2 ^ 64
    → ((check_rate_limiting (clear_rate_limiting m) now).1 ≡ true) ↔ (now ≢ 1800)
unfolding check_rate_limiting clear_rate_limiting n_attempts window_start
check_rate_limiting-clear_rate_limiting m now fits = (λ h. ground arith, λ h. ground arith)

-- While the clock shows less than 30 minutes, no history of ten entries below 2 ^ 63 makes
-- check_rate_limiting refuse.
pub check_rate_limiting_early :
    (m : Manager) (now : ℕ)
    → length m.rate_limiting_history ≡ 10
    → now < 1800
    → All (λ t. t < 2 ^ 63) m.rate_limiting_history
    → (check_rate_limiting m now).1 ≡ true
check_rate_limiting_early m now len early small = elim (Bool-cases (check_rate_limiting m now).1) [
  | inl p ↦ p
  | inr p ↦ absurd (late_start m.rate_limiting_history len small ((refused_iff m now len).0 p))
]
  where
    late_start :
        (ts : List ℕ)
        → length ts ≡ 10
        → All (λ t. t < 2 ^ 63) ts
        → All (λ t. window_start now ≤ t) ts
        → ⊥
    late_start [] l a b = omega arith
    late_start (t ∷ ts) l (a, as') (b, bs) = omega (arith, window_start_early now early)
