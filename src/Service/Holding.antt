-- ===== src/Service/Holding.antt =====
-- The hold on the service, which keeps it running while PAYG is enabled.
use eos_payg.Base.{
  ◌≡◌, ◌∙◌, ap, subst, inl, inr, Bool, Option, some, List, [], ◌∷◌, if◌then◌else◌, Option-cases,
  arith,
}
use eos_payg.Manager.{◌>>=◌}
use eos_payg.Provider.{Provider, provider_get_enabled}
use eos_payg.ManagerService.{new_service, set_provider, register}
use eos_payg.Service.{
  Start, StartResult, startup_complete, Service, held, provider_notify_enabled_cb,
}

-- One hold if the service holds itself, and none otherwise.
abbrev pub IsBalanced : {S : Type 0} → Service S → Type 0
IsBalanced s = s.holds ≡ (if s.holding then 1 else 0)

module _ {S : Type 0} (P : Provider S) where
  held-holds :
      (enabled : Bool) (s : Service S)
      → IsBalanced s
      → (held P enabled s).holds ≡ (if enabled then 1 else 0)
  held-holds enabled s balanced = ground arith

  -- The holds behind a notification are those of the provider that it shows.
  abbrev IsHeldFor : S → Service S → Type 0
  IsHeldFor p s =
      (enabled : Bool) × (provider_get_enabled P p ≡ some enabled)
      × (s.holding ≡ enabled)
      × (s.holds ≡ (if enabled then 1 else 0))

  IsHeldFor-IsBalanced : (p : S) (s : Service S) → IsHeldFor p s → IsBalanced s
  IsHeldFor-IsBalanced p s (enabled, _, holding, holds) = ground arith

  notified :
      (p : S) (s : Service S) {s' : Service S}
      → IsBalanced s
      → provider_notify_enabled_cb P p s ≡ some s'
      → IsHeldFor p s'
  unfolding provider_notify_enabled_cb
  notified p s {s'} balanced h = elim (Option-cases (provider_get_enabled P p)) [
    | inl failed ↦ absurd (ground arith)
    | inr (enabled, read) ↦
        let count = held-holds enabled s balanced in
        let same : s' ≡ record (held P enabled s) { holding = enabled } = ground arith in
        (enabled, read, ap (λ u. u.holding) same, ap (λ u. u.holds) same ∙ count)
  ]

  -- The notifications of a provider whose states they show.
  unfoldable pub notifications : List S → Service S → Option (Service S)
  notifications [] s = some s
  notifications (p ∷ ps) s = do s' ← provider_notify_enabled_cb P p s; notifications ps s'

  abbrev pub last_of : S → List S → S
  last_of p [] = p
  last_of p (q ∷ qs) = last_of q qs

  notifications-IsHeldFor :
      (p : S) (ps : List S) (s : Service S) {s' : Service S}
      → IsHeldFor p s
      → notifications ps s ≡ some s'
      → IsHeldFor (last_of p ps) s'
  unfolding notifications
  notifications-IsHeldFor p [] s {s'} held_for h =
      let same : s ≡ s' = ground arith in subst (IsHeldFor p) same held_for
  notifications-IsHeldFor p (q ∷ qs) s {s'} held_for h =
      elim (Option-cases (provider_notify_enabled_cb P q s)) [
        | inl failed ↦ absurd (ground arith)
        | inr (s1, done) ↦
            notifications-IsHeldFor q qs s1 {s' = s'}
              (notified q s (IsHeldFor-IsBalanced p s held_for) done) (ground arith)
      ]

  -- The service of a start that completes is held for its provider.
  completed_lem :
      (x : Start S) (s : Service S) (p : S) {s1 : Service S} {r : StartResult}
      → s.provider ≡ some p
      → IsBalanced s
      → startup_complete P x s ≡ some (s1, r)
      → IsHeldFor p s1
  unfolding startup_complete
  completed_lem x s p {s1} {r} own balanced completed =
      elim (Option-cases (set_provider P x.clock x.timer_id p new_service)) [
        | inl failed ↦ absurd (ground arith)
        | inr (m, made) ↦
            let s0 : Service S = record s { manager_service = some (register x.subtree_id m).0 } in
            elim (Option-cases (provider_notify_enabled_cb P p s0)) [
              | inl failed ↦ absurd (ground arith)
              | inr (s', done) ↦
                  let same : s' ≡ s1 = ground arith in
                  subst (IsHeldFor p) same (notified p s0 balanced done)
            ]
      ]

  -- After a start that completes with a provider, on a service whose holds are balanced, and any
  -- sequence of notifications of the provider's enabled property, the service is held exactly once
  -- if the last state of the provider is enabled, and not at all otherwise.
  pub startup_complete-notifications :
      (x : Start S) (s : Service S) (p : S) (ps : List S) {s1 s2 : Service S} {r : StartResult}
      → s.provider ≡ some p
      → IsBalanced s
      → startup_complete P x s ≡ some (s1, r)
      → notifications ps s1 ≡ some s2
      → (enabled : Bool) × (provider_get_enabled P (last_of p ps) ≡ some enabled)
        × (s2.holds ≡ (if enabled then 1 else 0))
  startup_complete-notifications x s p ps {s1} {s2} {r} own balanced completed later =
      let (enabled, read, _, holds) =
        notifications-IsHeldFor p ps s1 {s' = s2} (completed_lem x s p own balanced completed)
          later in
      (enabled, read, holds)
