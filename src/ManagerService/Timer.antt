-- ===== src/ManagerService/Timer.antt =====
-- The shutdown timer.
use eos_payg.Base.{
  ℕ, ◌+◌, ◌≤◌, ◌<◌, ◌≡◌, ◌≢◌, ◌⊎◌, inl, inr, refl, ◌∙◌, true, false, none, some, List, [], ◌∷◌,
  arith, ◌==◌, ltb, leb, ◌||◌, Bool-cases, Option-cases,
}
use eos_payg.Base.Int.{negsuc}
use eos_payg.Manager.{Clock}
use eos_payg.Provider.{Provider}
use eos_payg.ManagerService.{
  emit_signal, payg_interface, seconds_and_reason, no_parameters, ManagerService, new_service,
  source_remove, expired_cb, shutdown_timer_fires, times, notify_expiry_time_cb, set_provider,
}

-- No timer was started, or it was cancelled; one runs, and the object knows its id; it has powered
-- off, and the object still has its id.
abbrev pub IsIdle : ManagerService → Type 0
IsIdle s = (s.shutdown_timer_id ≡ 0) × (s.timers ≡ [])

abbrev pub IsRunning : ManagerService → Type 0
IsRunning s = (s.shutdown_timer_id ≢ 0) × (s.timers ≡ s.shutdown_timer_id ∷ [])

abbrev pub IsOver : ManagerService → Type 0
IsOver s = (s.shutdown_timer_id ≢ 0) × (s.timers ≡ []) × (0 < s.poweroffs)

abbrev pub IsTimed : ManagerService → Type 0
IsTimed s = IsIdle s ⊎ (IsRunning s ⊎ IsOver s)

-- What happens to the object: the provider's signals, with any provider behind them, and the end of
-- a timer that runs.
pub data Step {S : Type 0} (P : Provider S) : ManagerService → ManagerService → Type 0 where
  is_expired : (new_id : ℕ) {s s' : ManagerService} → expired_cb new_id s ≡ some s' → Step P s s'
  is_notified :
      (c : Clock) (p : S) {s s' : ManagerService}
      → notify_expiry_time_cb P c p s ≡ some s'
      → Step P s s'
  fires :
      (id : ℕ) (rest : List ℕ) {s : ManagerService}
      → s.timers ≡ id ∷ rest
      → Step P s (shutdown_timer_fires id s)

pub data Steps {S : Type 0} (P : Provider S) : ManagerService → ManagerService → Type 0 where
  done : {s : ManagerService} → Steps P s s
  more : {s s' s'' : ManagerService} → Steps P s s' → Step P s' s'' → Steps P s s''

-- The provider's time is extended: it is 0, or later than now.
abbrev pub IsExtended : ℕ × ℕ → Type 0
IsExtended t = (t.0 ≡ 0) ⊎ (t.1 < t.0)

expired_cb-idle :
    (new_id : ℕ) (s : ManagerService) {s' : ManagerService}
    → IsIdle s
    → expired_cb new_id s ≡ some s'
    → IsRunning s' × (s'.shutdown_timer_id ≡ new_id)
unfolding expired_cb
expired_cb-idle new_id s {s'} (unset, empty) h = ground arith

expired_cb-set :
    (new_id : ℕ) (s : ManagerService) {s' : ManagerService}
    → s.shutdown_timer_id ≢ 0
    → expired_cb new_id s ≡ some s'
    → (s'.shutdown_timer_id ≡ s.shutdown_timer_id)
      × (s'.timers ≡ s.timers)
      × (s'.poweroffs ≡ s.poweroffs)
unfolding expired_cb
expired_cb-set new_id s {s'} set h = ground arith

module _ {S : Type 0} (P : Provider S) (c : Clock) (p : S) (s : ManagerService) where
  notified_idle :
      {s' : ManagerService}
      → s.shutdown_timer_id ≡ 0
      → notify_expiry_time_cb P c p s ≡ some s'
      → s' ≡ s
  unfolding notify_expiry_time_cb
  notified_idle {s'} unset h = ground arith

  notified_set :
      {s' : ManagerService}
      → s.shutdown_timer_id ≢ 0
      → notify_expiry_time_cb P c p s ≡ some s'
      → (t : ℕ × ℕ) × (times P c p ≡ some t)
        × ((s' ≡ s)
            ⊎ (IsExtended t
                × (s'.shutdown_timer_id ≡ 0)
                × (s'.timers ≡ source_remove s.shutdown_timer_id s.timers)
                × (s'.poweroffs ≡ s.poweroffs)))
  unfolding notify_expiry_time_cb
  notified_set {s'} set h = elim (Option-cases (times P c p)) [
    | inl failed ↦ ground arith
    | inr (t, ok_times) ↦ (
      t,
      ok_times,
      elim (Bool-cases (t.0 == 0 || ltb t.1 t.0)) [
        | inl extended ↦ inr (ground arith)
        | inr not_yet ↦ inl (ground arith)
      ],
    )
  ]

source_remove_lem : (id : ℕ) → source_remove id (id ∷ []) ≡ []
source_remove_lem id = ground arith

-- The only running timer ends.
fires_one :
    (id : ℕ) (rest : List ℕ) (s : ManagerService)
    → s.timers ≡ id ∷ rest
    → s.timers ≡ s.shutdown_timer_id ∷ []
    → source_remove id s.timers ≡ []
fires_one id rest s h one =
    let same : id ≡ s.shutdown_timer_id = cc in
    rw (one, same) (source_remove_lem s.shutdown_timer_id)

-- A new object starts its timer.
expired_cb-new_service : (new_id : ℕ) → 0 < new_id → expired_cb new_id new_service ≢ none
unfolding expired_cb
expired_cb-new_service new_id positive failed = ground arith

-- The object behind a notification that cancels the timer.
abbrev timer_cancelled : ManagerService → ManagerService
timer_cancelled s =
    emit_signal payg_interface "ImpendingShutdown"
      (seconds_and_reason (negsuc 0) "PAYG credit extended")
      (record s { timers = source_remove s.shutdown_timer_id s.timers; shutdown_timer_id = 0 })

module _ {S : Type 0} (P : Provider S) where
  -- What a notification shows to a timer that it cancels.
  abbrev pub WasExtended : Type 0
  WasExtended = (c : Clock) × (p : S) × (t : ℕ × ℕ) × (times P c p ≡ some t) × IsExtended t

  -- While a shutdown timer runs, it goes on, is over, or is cancelled; no second one is started.
  Step-IsRunning :
      {s s' : ManagerService}
      → Step P s s'
      → IsRunning s
      → (IsRunning s' × (s'.shutdown_timer_id ≡ s.shutdown_timer_id) × (s'.poweroffs ≡ s.poweroffs))
        ⊎ ((IsOver s' × (s'.poweroffs ≡ s.poweroffs + 1)) ⊎ (IsIdle s' × WasExtended))
  unfolding shutdown_timer_fires
  Step-IsRunning {s} {s'} (is_expired new_id h) (set, one) =
      let (a, b, d) = expired_cb-set new_id s set h in inl ((omega (arith, a), cc), a, d)
  Step-IsRunning {s} {s'} (is_notified c p h) (set, one) =
      let (t, read, change) = notified_set P c p s set h in
      elim change [
        | inl same ↦ inl (rw same ((set, one), refl, refl))
        | inr (extended, unset, removed, off) ↦ inr (
            inr (
              (unset, removed ∙ rw one (source_remove_lem s.shutdown_timer_id)),
              (c, p, t, read, extended),
            ))
      ]
  Step-IsRunning {s} {s'} (fires id rest h) (set, one) =
      inr (inl ((set, fires_one id rest s h one, omega arith), refl))

  -- Once a shutdown timer has powered off, no signal of the provider starts another one before a
  -- notification at a time when the expiry time is 0 or later than now, because the object still
  -- has the id of the timer.
  pub Step-IsOver :
      {s s' : ManagerService}
      → Step P s s'
      → IsOver s
      → (IsOver s' × (s'.poweroffs ≡ s.poweroffs)) ⊎ (IsIdle s' × WasExtended)
  unfolding shutdown_timer_fires
  Step-IsOver {s} {s'} (is_expired new_id h) (set, empty, off) =
      let (a, b, d) = expired_cb-set new_id s set h in
      inl ((omega (arith, a), b ∙ empty, omega (arith, d)), d)
  Step-IsOver {s} {s'} (is_notified c p h) (set, empty, off) =
      let (t, read, change) = notified_set P c p s set h in
      elim change [
        | inl same ↦ inl (rw same ((set, empty, off), refl))
        | inr (extended, unset, removed, same) ↦
            inr ((unset, removed ∙ rw empty refl), (c, p, t, read, extended))
      ]
  Step-IsOver {s} {s'} (fires id rest h) (set, empty, off) = absurd cc

  Step-IsIdle : {s s' : ManagerService} → Step P s s' → IsIdle s → IsTimed s'
  Step-IsIdle {s} {s'} (is_expired new_id h) idle = inr (inl (expired_cb-idle new_id s idle h).0)
  Step-IsIdle {s} {s'} (is_notified c p h) (unset, empty) =
      let same = notified_idle P c p s unset h in inl (cc, cc)
  Step-IsIdle {s} {s'} (fires id rest h) (unset, empty) = absurd cc

  Step-IsTimed : {s s' : ManagerService} → Step P s s' → IsTimed s → IsTimed s'
  Step-IsTimed x (inl idle) = Step-IsIdle x idle
  Step-IsTimed x (inr (inl running)) = elim (Step-IsRunning x running) [
    | inl (on, same, none_off) ↦ inr (inl on)
    | inr (inl (over, _)) ↦ inr (inr over)
    | inr (inr (idle, _)) ↦ inl idle
  ]
  Step-IsTimed x (inr (inr over)) = elim (Step-IsOver x over) [
    | inl (still, _) ↦ inr (inr still)
    | inr (idle, _) ↦ inl idle
  ]

  Steps-IsTimed : {s s' : ManagerService} → Steps P s s' → IsTimed s → IsTimed s'
  Steps-IsTimed done t = t
  Steps-IsTimed (more xs x) t = Step-IsTimed x (Steps-IsTimed xs t)

  -- A new object starts a shutdown timer exactly if the provider's expiry time is not later than
  -- now, and after any sequence of the provider's signals and timers' ends at most one timer runs,
  -- whose id the object has.
  pub set_provider_lem :
      (c : Clock) (p : S) (new_id : ℕ) {expiry now : ℕ}
      → 0 < new_id
      → times P c p ≡ some (expiry, now)
      → (s : ManagerService) × (set_provider P c new_id p new_service ≡ some s)
        × (((expiry ≤ now) × IsRunning s × (s.shutdown_timer_id ≡ new_id))
            ⊎ ((now < expiry) × (s ≡ new_service)))
        × ((s' : ManagerService) → Steps P s s' → IsTimed s')
  unfolding set_provider
  set_provider_lem c p new_id {expiry} {now} positive read = elim (Bool-cases (leb expiry now)) [
    | inl late ↦ elim (Option-cases (expired_cb new_id new_service)) [
      | inl failed ↦ absurd (expired_cb-new_service new_id positive failed)
      | inr (s, started) ↦
          let (running, id) = expired_cb-idle new_id new_service (refl, refl) started in
          (
            s,
            ground arith,
            inl (ground arith, running, id),
            λ s' xs. Steps-IsTimed xs (inr (inl running)),
          )
    ]
    | inr early ↦ (
      new_service,
      ground arith,
      inr (ground arith, refl),
      λ s' xs. Steps-IsTimed xs (inl (refl, refl)),
    )
  ]

  -- A notification of an extended time cancels a running timer.
  pub notified-IsIdle :
      (c : Clock) (p : S) (s : ManagerService) {t : ℕ × ℕ}
      → times P c p ≡ some t
      → IsExtended t
      → IsRunning s
      → (s' : ManagerService) × (notify_expiry_time_cb P c p s ≡ some s') × IsIdle s'
  unfolding notify_expiry_time_cb
  notified-IsIdle c p s {t} read extended (set, one) =
      let unset : (s.shutdown_timer_id == 0) ≡ false = ground arith in
      let goes : (t.0 == 0 || ltb t.1 t.0) ≡ true = ground arith in
      (
        timer_cancelled s,
        rw (unset, read, goes) refl,
        (refl, rw one (source_remove_lem s.shutdown_timer_id)),
      )

  expired_cb-IsRunning :
      (s : ManagerService)
      → IsRunning s
      → (new_id : ℕ)
      → (s' : ManagerService) × (expired_cb new_id s ≡ some s')
        × IsRunning s'
        × (s'.shutdown_timer_id ≡ s.shutdown_timer_id)
        × (s'.poweroffs ≡ s.poweroffs)
  unfolding expired_cb
  expired_cb-IsRunning s (set, one) new_id =
      let unset : (s.shutdown_timer_id == 0) ≡ false = ground arith in
      (
        emit_signal payg_interface "Expired" no_parameters s,
        rw (unset) refl,
        (set, one),
        refl,
        refl,
      )

  notified_while :
      (s : ManagerService)
      → IsRunning s
      → (c : Clock) (p : S) {expiry now : ℕ} → times P c p ≡ some (expiry, now)
      → (s' : ManagerService) × (notify_expiry_time_cb P c p s ≡ some s')
        × (s'.poweroffs ≡ s.poweroffs)
        × ((((expiry ≡ 0) ⊎ (now < expiry)) × IsIdle s')
            ⊎ ((expiry ≢ 0) × (expiry ≤ now) × (s' ≡ s)))
  unfolding notify_expiry_time_cb
  notified_while s (set, one) c p {expiry} {now} read =
      let unset : (s.shutdown_timer_id == 0) ≡ false = ground arith in
      elim (Bool-cases (expiry == 0 || ltb now expiry)) [
        | inl goes ↦ (
          timer_cancelled s,
          rw (unset, read, goes) refl,
          refl,
          inl (ground (arith, goes), (refl, rw one (source_remove_lem s.shutdown_timer_id))),
        )
        | inr stays ↦ (
          s,
          rw (unset, read, stays) refl,
          refl,
          inr (ground (arith, stays), ground (arith, stays), refl),
        )
      ]

  -- While a shutdown timer runs, a signal that the provider has expired starts no second one and
  -- leaves it running; a notification of the expiry time leaves everything as it is if that is not
  -- 0 and not later than now, and cancels the timer if it is 0 or later than now; and the end of
  -- the timer powers off once and removes it, with the object keeping its id.
  pub shutdown_timer_lem :
      (s : ManagerService) (new_id : ℕ) (c : Clock) (p : S) {expiry now : ℕ}
      → IsRunning s
      → times P c p ≡ some (expiry, now)
      → ((s' : ManagerService) × (expired_cb new_id s ≡ some s')
          × IsRunning s'
          × (s'.shutdown_timer_id ≡ s.shutdown_timer_id)
          × (s'.poweroffs ≡ s.poweroffs))
        × ((s' : ManagerService) × (notify_expiry_time_cb P c p s ≡ some s')
            × (s'.poweroffs ≡ s.poweroffs)
            × ((((expiry ≡ 0) ⊎ (now < expiry)) × IsIdle s')
                ⊎ ((expiry ≢ 0) × (expiry ≤ now) × (s' ≡ s))))
        × ((shutdown_timer_fires s.shutdown_timer_id s).timers ≡ [])
        × ((shutdown_timer_fires s.shutdown_timer_id s).poweroffs ≡ s.poweroffs + 1)
        × ((shutdown_timer_fires s.shutdown_timer_id s).shutdown_timer_id ≡ s.shutdown_timer_id)
  unfolding shutdown_timer_fires
  shutdown_timer_lem s new_id c p running read = (
    expired_cb-IsRunning s running new_id,
    notified_while s running c p read,
    rw running.1 (source_remove_lem s.shutdown_timer_id),
    refl,
    refl,
  )
