-- ===== src/Manager/AddCode/Outcome.antt =====
-- The six outcomes of `epg_manager_add_code`.
use eos_payg.Base.{
  ℕ, ◌<◌, ◌≡◌, ◌≢◌, ◌⊎◌, inl, inr, refl, ◌∙◌, true, false, Option, some, List, arith, Bool-cases,
}
use eos_payg.Codes.{
  EpcCodeError, Result, ok, err, abort, periods, has_case, value, parse_code, verify_code,
}
use eos_payg.Codes.Verify.{verify_code_lem, calculate_code-verify_code}
use eos_payg.Codes.Text.{parse_code_lem}
use eos_payg.Manager.{
  Manager, Runtime, Clock, disabled, too_many_attempts, cancelled, invalid_code, code_already_used,
}
use eos_payg.Manager.RateLimit.{check_rate_limiting}
use eos_payg.Manager.RateLimit.Window.{check_rate_limiting_state}
use eos_payg.Manager.UsedCodes.{is_used, check_is_counter_unused}
use eos_payg.Manager.AddCode.{
  AddResult, added, refused, add_verified, add_checked, add_parsed, add_limited, add_code,
}
use eos_payg.Manager.AddCode.Branches.{IsReady, Added, add_verified_lem}

-- The ways in which `epg_manager_add_code` returns, told apart by its guards in their order. From
-- the third on the attempt has been counted by `check_rate_limiting` and allowed.
pub data Outcome (R : Runtime) (c : Clock) (s : List ℕ) (m : Manager)
    (out : Option (Manager × AddResult)) : Type 0 where
  is_disabled : m.enabled ≡ false → out ≡ some (m, refused disabled) → Outcome R c s m out
  is_limited :
      m.enabled ≡ true
      → (check_rate_limiting m c.time).1 ≡ false
      → out ≡ some ((check_rate_limiting m c.time).0, refused too_many_attempts)
      → Outcome R c s m out
  was_cancelled :
      m.enabled ≡ true
      → (check_rate_limiting m c.time).1 ≡ true
      → m.is_cancelled ≡ true
      → out ≡ some ((check_rate_limiting m c.time).0, refused cancelled)
      → Outcome R c s m out
  is_invalid :
      m.enabled ≡ true
      → (check_rate_limiting m c.time).1 ≡ true
      → m.is_cancelled ≡ false
      → ((code period counter : ℕ)
          → parse_code R.glib s ≡ ok code
          → verify_code R.glib code m.key_bytes ≢ ok (period, counter))
      → out ≡ some ((check_rate_limiting m c.time).0, refused invalid_code)
      → Outcome R c s m out
  was_used :
      (code period counter : ℕ)
      → m.enabled ≡ true
      → (check_rate_limiting m c.time).1 ≡ true
      → m.is_cancelled ≡ false
      → parse_code R.glib s ≡ ok code
      → verify_code R.glib code m.key_bytes ≡ ok (period, counter)
      → is_used period counter m.used_codes ≡ true
      → out ≡ some ((check_rate_limiting m c.time).0, refused code_already_used)
      → Outcome R c s m out
  is_added :
      (code period counter : ℕ) (m' : Manager) (time : ℕ)
      → m.enabled ≡ true
      → (check_rate_limiting m c.time).1 ≡ true
      → m.is_cancelled ≡ false
      → parse_code R.glib s ≡ ok code
      → verify_code R.glib code m.key_bytes ≡ ok (period, counter)
      → is_used period counter m.used_codes ≡ false
      → out ≡ some (m', added time)
      → Added R c period counter (check_rate_limiting m c.time).0 m' time
      → Outcome R c s m out

-- What `epc_verify_code` can return.
pub verify_code_cases :
    (R : Runtime) (code : ℕ) (key : List ℕ)
    → ((period : ℕ) × (counter : ℕ) × (verify_code R.glib code key ≡ ok (period, counter))
        × (has_case period periods ≡ true)
        × (counter < 256))
      ⊎ ((e : EpcCodeError) × (verify_code R.glib code key ≡ err e))
verify_code_cases R code key = go (verify_code R.glib code key) refl
  where
    go :
        (v : Result (ℕ × ℕ))
        → verify_code R.glib code key ≡ v
        → ((period : ℕ) × (counter : ℕ) × (verify_code R.glib code key ≡ ok (period, counter))
            × (has_case period periods ≡ true)
            × (counter < 256))
          ⊎ ((e : EpcCodeError) × (verify_code R.glib code key ≡ err e))
    go (ok (p, n)) h =
        let (_, valid, fits) = calculate_code-verify_code R.glib code key h in
        inl (p, n, h, valid, fits)
    go (err e) h = inr (e, h)
    go abort h = absurd (ground (arith, verify_code_lem R.glib code key))

-- The guards of `add_code` before the text is parsed.
add_code_allowed :
    (R : Runtime) (c : Clock) (s : List ℕ) (m : Manager)
    → m.enabled ≡ true
    → (check_rate_limiting m c.time).1 ≡ true
    → m.is_cancelled ≡ false
    → add_code R c s m ≡ add_parsed R c (parse_code R.glib s) (check_rate_limiting m c.time).0
unfolding add_code add_limited
add_code_allowed R c s m on more here =
    simp (on, more, (check_rate_limiting_state m c.time).2 ∙ here)

add_code_cancelled :
    (R : Runtime) (c : Clock) (s : List ℕ) (m : Manager)
    → m.enabled ≡ true
    → (check_rate_limiting m c.time).1 ≡ true
    → m.is_cancelled ≡ true
    → add_code R c s m ≡ some ((check_rate_limiting m c.time).0, refused cancelled)
unfolding add_code add_limited
add_code_cancelled R c s m on more gone =
    simp (on, more, (check_rate_limiting_state m c.time).2 ∙ gone)

pub add_code_limited :
    (R : Runtime) (c : Clock) (s : List ℕ) (m : Manager)
    → m.enabled ≡ true
    → (check_rate_limiting m c.time).1 ≡ false
    → add_code R c s m ≡ some ((check_rate_limiting m c.time).0, refused too_many_attempts)
unfolding add_code add_limited
add_code_limited R c s m on none_left = simp (on, none_left)

add_code_disabled :
    (R : Runtime) (c : Clock) (s : List ℕ) (m : Manager)
    → m.enabled ≡ false
    → add_code R c s m ≡ some (m, refused disabled)
unfolding add_code
add_code_disabled R c s m off = simp off

add_verified_used :
    (R : Runtime) (c : Clock) (period counter : ℕ) (m : Manager)
    → is_used period counter m.used_codes ≡ true
    → add_verified R c period counter m ≡ some (m, refused code_already_used)
unfolding add_verified check_is_counter_unused
add_verified_used R c period counter m used = simp used

-- From the parsed code on.
module _ (R : Runtime) (c : Clock) (s : List ℕ) (m : Manager) where
  allowed_lem :
      IsReady c m
      → m.enabled ≡ true
      → (check_rate_limiting m c.time).1 ≡ true
      → m.is_cancelled ≡ false
      → Outcome R c s m (add_code R c s m)
  unfolding add_parsed add_checked
  allowed_lem ready on more here =
      let m1 = (check_rate_limiting m c.time).0 in
      let same = check_rate_limiting_state m c.time in
      let start = add_code_allowed R c s m on more here in
      elim (parse_code_lem R.glib s) [
        | inr (bad, refuses) ↦ is_invalid on more here (λ code p n h. cc) (start ∙ rw refuses)
        | inl (text, parses) ↦ elim (verify_code_cases R (value s) m.key_bytes) [
          | inr (e, refuses) ↦
              is_invalid on more here (λ code p n h k. ground (arith, parses, h, k, refuses))
                (start ∙ rw (parses, same.4, refuses))
          | inl (p, n, verifies, valid, fits) ↦ elim (Bool-cases (is_used p n m.used_codes)) [
            | inl used ↦ was_used (value s) p n on more here parses verifies used (
                start
                ∙ rw (parses, same.4, verifies) (add_verified_used R c p n m1 (rw same.3 used)))
            | inr unused ↦
                let (m', time, done, changes) =
                  add_verified_lem R c p n m1 valid (omega (arith, same)) (rw same.3 unused) in
                is_added (value s) p n m' time on more here parses verifies unused
                  (start ∙ rw (parses, same.4, verifies) done) changes
          ]
        ]
      ]

-- While the clock and the expiry time fit in 64 bits and another save can be counted,
-- epg_manager_add_code fails no assertion and ends in one of six ways, told apart by its guards in
-- their order, with the state that each leaves.
pub add_code_lem :
    (R : Runtime) (c : Clock) (s : List ℕ) (m : Manager)
    → IsReady c m
    → Outcome R c s m (add_code R c s m)
add_code_lem R c s m ready = elim (Bool-cases m.enabled) [
  | inr off ↦ is_disabled off (add_code_disabled R c s m off)
  | inl on ↦ elim (Bool-cases (check_rate_limiting m c.time).1) [
    | inr refuses ↦ is_limited on refuses (add_code_limited R c s m on refuses)
    | inl more ↦ elim (Bool-cases m.is_cancelled) [
      | inl gone ↦ was_cancelled on more gone (add_code_cancelled R c s m on more gone)
      | inr here ↦ allowed_lem R c s m ready on more here
    ]
  ]
]
