-- ===== src/Service/Jumps.antt =====
-- Jumps of the wall clock against the boot-time clock.
use eos_payg.Base.{
  ℕ, ◌+◌, ◌≡◌, refl, sym, ◌∙◌, ap, subst, ◌⊎◌, inl, inr, true, Option, some, List, [], ◌∷◌,
  Bool-cases, Option-cases, arith,
}
use eos_payg.Base.Int.{ℤ, pos, negsuc, sub_ℕ}
use eos_payg.Manager.{Clock, ◌>>=◌}
use eos_payg.Provider.{Provider, provider_wallclock_time_changed}
use eos_payg.Service.{Service, Reading, jump_delta, is_zero, jumped, clock_jump_cb}

-- What is added forward, and back.
abbrev pub forward : List (Clock × ℤ) → ℕ
forward [] = 0
forward ((c, pos n) ∷ ds) = n + forward ds
forward ((c, negsuc n) ∷ ds) = forward ds

abbrev pub back : List (Clock × ℤ) → ℕ
back [] = 0
back ((c, pos n) ∷ ds) = back ds
back ((c, negsuc n) ∷ ds) = n + 1 + back ds

module _ {S : Type 0} (P : Provider S) where
  -- The callbacks of the clock-jump source, each with what it reads.
  unfoldable pub clock_jumps : List (Clock × Reading) → Service S → Option (Service S)
  clock_jumps [] s = some s
  clock_jumps ((c, v1) ∷ rest) s = do s' ← clock_jump_cb P c v1 s; clock_jumps rest s'

  -- The provider is told of changes of the wall clock, one after the other.
  unfoldable pub told : List (Clock × ℤ) → S → Option S
  told [] p = some p
  told ((c, delta) ∷ ds) p = do p' ← provider_wallclock_time_changed P c delta p; told ds p'

  sub_ℕ-sums :
      (c : Clock) (a b : ℕ) (ds : List (Clock × ℤ))
      → forward ((c, sub_ℕ a b) ∷ ds) + b + back ds ≡ back ((c, sub_ℕ a b) ∷ ds) + a + forward ds
  sub_ℕ-sums c a b ds = ground arith

  is_zero_lem : (d : ℤ) → is_zero P d ≡ true → d ≡ pos 0
  is_zero_lem (pos n) zero_delta = ground arith
  is_zero_lem (negsuc n) zero_delta = absurd cc

  -- One callback: either there was no jump, or the provider is told of it.
  clock_jump_cb-cases :
      (c : Clock) (v1 : Reading) (s : Service S) {s' : Service S}
      → clock_jump_cb P c v1 s ≡ some s'
      → (p p' : S) × (s.provider ≡ some p)
        × (s'.provider ≡ some p')
        × (s'.clock_realtime_secs_v0 ≡ v1.realtime)
        × (s'.clock_boottime_secs_v0 ≡ v1.boottime)
        × (((jump_delta P v1 s ≡ pos 0) × (p' ≡ p))
            ⊎ (provider_wallclock_time_changed P c (jump_delta P v1 s) p ≡ some p'))
  unfolding clock_jump_cb
  clock_jump_cb-cases c v1 s {s'} h = elim (Option-cases s.provider) [
    | inl missing ↦ absurd (ground arith)
    | inr (p, own) ↦ elim (Bool-cases (is_zero P (jump_delta P v1 s))) [
      | inl still ↦
          let same : s' ≡ jumped P v1 p s = ground arith in
          (
            p,
            p,
            own,
            ap (λ u. u.provider) same,
            ap (λ u. u.clock_realtime_secs_v0) same,
            ap (λ u. u.clock_boottime_secs_v0) same,
            inl (is_zero_lem (jump_delta P v1 s) still, refl),
          )
      | inr moves ↦
          elim (Option-cases (provider_wallclock_time_changed P c (jump_delta P v1 s) p)) [
            | inl failed ↦ absurd (ground arith)
            | inr (p', changed) ↦
                let same : s' ≡ jumped P v1 p' s = ground arith in
                (
                  p,
                  p',
                  own,
                  ap (λ u. u.provider) same,
                  ap (λ u. u.clock_realtime_secs_v0) same,
                  ap (λ u. u.clock_boottime_secs_v0) same,
                  inr changed,
                )
          ]
    ]
  ]

  sub_ℕ-zero : (a b : ℕ) → sub_ℕ a b ≡ pos 0 → a ≡ b
  sub_ℕ-zero a b h = ground arith

  no_jump_sums :
      (r0 b0 r1 b1 rn bn f k : ℕ) {r b : ℕ}
      → r1 + b0 ≡ r0 + b1
      → r ≡ r1
      → b ≡ b1
      → f + r + bn ≡ k + rn + b
      → f + r0 + bn ≡ k + rn + b0
  no_jump_sums r0 b0 r1 b1 rn bn f k zero_delta real boot sums = omega arith

  jump_sums :
      (r0 b0 r1 b1 rn bn f k f' k' : ℕ) {r b : ℕ}
      → f' + (r0 + b1) + k ≡ k' + (r1 + b0) + f
      → r ≡ r1
      → b ≡ b1
      → f + r + bn ≡ k + rn + b
      → f' + r0 + bn ≡ k' + rn + b0
  jump_sums r0 b0 r1 b1 rn bn f k f' k' delta real boot sums = omega arith

  told_more :
      (c : Clock) (delta : ℤ) (ds : List (Clock × ℤ)) (p : S) {p1 p' : S}
      → provider_wallclock_time_changed P c delta p ≡ some p1
      → told ds p1 ≡ some p'
      → told ((c, delta) ∷ ds) p ≡ some p'
  unfolding told
  told_more c delta ds p first rest = rw (first) rest

  -- Over any sequence of clock-jump callbacks that returns, the provider is told of a sequence of
  -- changes and nothing else, and the changes add up to what the wall clock has moved on more than
  -- the boot-time clock since the first reading.
  pub clock_jumps_lem :
      (rs : List (Clock × Reading)) (p : S) (s : Service S) {s' : Service S}
      → s.provider ≡ some p
      → clock_jumps rs s ≡ some s'
      → (ds : List (Clock × ℤ)) × (p' : S) × (told ds p ≡ some p')
        × (s'.provider ≡ some p')
        × (forward ds + s.clock_realtime_secs_v0 + s'.clock_boottime_secs_v0
            ≡ back ds + s'.clock_realtime_secs_v0 + s.clock_boottime_secs_v0)
  unfolding clock_jumps told
  clock_jumps_lem [] p s {s'} own h =
      let same : s ≡ s' = ground arith in
      (
        [],
        p,
        refl,
        ap (λ u. u.provider) (sym same) ∙ own,
        omega (
          arith,
          ap (λ u. u.clock_realtime_secs_v0) same,
          ap (λ u. u.clock_boottime_secs_v0) same,
        ),
      )
  clock_jumps_lem ((c, v1) ∷ rs) p s {s'} own h = elim (Option-cases (clock_jump_cb P c v1 s)) [
    | inl failed ↦ absurd (ground arith)
    | inr (s1, done) ↦
        let (q, p1, own', next, real, boot, change) = clock_jump_cb-cases c v1 s done in
        let same : q ≡ p = ground arith in
        let (ds, p', tells, ends, sums) = clock_jumps_lem rs p1 s1 {s' = s'} next (ground arith) in
        let all =
          sub_ℕ-sums c (v1.realtime + s.clock_boottime_secs_v0)
            (s.clock_realtime_secs_v0 + v1.boottime) ds in
        elim change [
          | inl (still, kept) ↦ (
            ds,
            p',
            subst (λ u. told ds u ≡ some p') (kept ∙ same) tells,
            ends,
            no_jump_sums _ _ _ _ _ _ _ _
                (sub_ℕ-zero (v1.realtime + s.clock_boottime_secs_v0)
                  (s.clock_realtime_secs_v0 + v1.boottime) still)
                real boot sums,
          )
          | inr changed ↦ (
            (c, jump_delta P v1 s) ∷ ds,
            p',
            told_more c (jump_delta P v1 s) ds p
                (subst (λ u. provider_wallclock_time_changed P c (jump_delta P v1 s) u ≡ some p1)
                  same changed)
                tells,
            ends,
            jump_sums _ _ _ _ _ _ _ _ _ _ all real boot sums,
          )
        ]
  ]
