-- ===== src/Service/Startup.antt =====
-- How a start ends.
use eos_payg.Base.{◌≡◌, refl, ◌∙◌, ap, true, false, none, some}
use eos_payg.Debug.{EfiVariables, get_eospayg_active_set}
use eos_payg.Provider.{Provider}
use eos_payg.Service.{
  Service, Start, start_failed, no_provider, Found, found, not_found, load_failed, secure_init_sync,
  startup_async, provider_get_first_enabled_cb, start_with,
}

-- The loader gave no provider.
abbrev pub IsWithout : {S : Type 0} → Found S → Type 0
IsWithout (found p) = ⊥
IsWithout not_found = Unit
IsWithout load_failed = Unit

module _ {S : Type 0} (P : Provider S) where
  abbrev activated : Service S → Service S
  activated s = record s { eospayg_active_efivar = true }

  secure_init_sync-without :
      (v : EfiVariables) (x : Start S) (r : Found S) (s : Service S)
      → get_eospayg_active_set v ≡ true
      → IsWithout r
      → secure_init_sync P false v x r s ≡ activated s
  unfolding secure_init_sync
  secure_init_sync-without v x (found p) s active without = absurd without
  secure_init_sync-without v x not_found s active without =
      ap (λ b. record s { eospayg_active_efivar = b }) active
  secure_init_sync-without v x load_failed s active without =
      ap (λ b. record s { eospayg_active_efivar = b }) active

  startup_async-without :
      (x : Start S) (r : Found S) (s : Service S)
      → s.provider ≡ none
      → IsWithout r
      → startup_async P x r (activated s) ≡ some (activated s, start_failed no_provider)
  unfolding startup_async provider_get_first_enabled_cb
  startup_async-without x (found p) s empty without = absurd without
  startup_async-without x not_found s empty without =
      ap (λ o. start_with P o x not_found (activated s)) empty
  startup_async-without x load_failed s empty without =
      ap (λ o. start_with P o x load_failed (activated s)) empty

  -- In a daemon that is not in legacy mode and in which EOSPAYG_active counts as set, with no
  -- provider before, if the loader gives none before the root pivot and none at the start, the
  -- start returns the error that there is no provider, whatever the configuration says, and no
  -- provider or D-Bus object is set up.
  pub startup_async-active :
      (v : EfiVariables) (x1 x2 : Start S) (r1 r2 : Found S) (s : Service S)
      → get_eospayg_active_set v ≡ true
      → s.provider ≡ none
      → IsWithout r1
      → IsWithout r2
      → (s' : Service S) × (startup_async P x2 r2 (secure_init_sync P false v x1 r1 s)
          ≡ some (s', start_failed no_provider))
        × (s'.provider ≡ none)
        × (s'.manager_service ≡ s.manager_service)
  startup_async-active v x1 x2 r1 r2 s active empty without1 without2 = (
    activated s,
    ap (startup_async P x2 r2) (secure_init_sync-without v x1 r1 s active without1)
        ∙ startup_async-without x2 r2 s empty without2,
    empty,
    refl,
  )
