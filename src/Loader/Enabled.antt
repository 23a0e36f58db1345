-- ===== src/Loader/Enabled.antt =====
-- The end of the choice: the providers that were not chosen are shut down.
use eos_payg.Base.{
  ℕ, ◌+◌, ◌%◌, ◌<◌, ◌^◌, ◌≡◌, refl, ◌∙◌, ap, Bool, true, false, List, [], ◌∷◌, length, ltb, arith,
  All, none, some, ◌++◌, ◌⊎◌, inl, inr,
}
use eos_payg.Loader.Choice.{count, choose_lem}
use eos_payg.MultiTask.{GTask, MultiTask, Return, boolean, attach, multi_return, multi_returns}
use eos_payg.MultiTask.Once.{overall, deliver, returns_once}
use eos_payg.Loader.{
  ShutdownTask, shutdown_providers_async, shutdown_one_cb, array_of, shuts_down,
  get_first_enabled_load_cb,
}

-- The returns of the shutdowns: success, whatever came of them.
abbrev successes : List Bool → List Return
successes [] = []
successes (ok ∷ acks) = boolean true ∷ successes acks

length-successes : (acks : List Bool) → length (successes acks) ≡ length acks
length-successes [] = refl
length-successes (ok ∷ acks) = omega (arith, length-successes acks)

overall-successes : (acks : List Bool) → overall (boolean true) (successes acks) ≡ boolean true
unfolding overall
overall-successes [] = refl
overall-successes (ok ∷ acks) = overall-successes acks

module _ (G : GTask) where
  unfoldable pub shutdown_ones : List Bool → ShutdownTask G → ShutdownTask G
  shutdown_ones [] t = t
  shutdown_ones (ok ∷ acks) t = shutdown_ones acks (shutdown_one_cb G ok t)

  shutdown_ones-task :
      (acks : List Bool) (t : ShutdownTask G)
      → (shutdown_ones acks t).task ≡ multi_returns G (successes acks) t.task
  unfolding shutdown_ones shutdown_one_cb multi_returns multi_return
  shutdown_ones-task [] t = refl
  shutdown_ones-task (ok ∷ acks) t = shutdown_ones-task acks (shutdown_one_cb G ok t)

  requested : (ps : List ℕ) (other : G.Handle) → (shutdown_providers_async G ps other).requests ≡ ps
  unfolding shutdown_providers_async
  requested ps other = refl

  started :
      (ps : List ℕ) (other : G.Handle)
      → length ps + 1 < 2 ^ 32
      → (shutdown_providers_async G ps other).task
        ≡ multi_return G (boolean true) (record { pending = length ps + 1; handle = other })
  unfolding shutdown_providers_async attach multi_return
  started ps other few =
      let fits : (length ps + 1) % 2 ^ 32 ≡ length ps + 1 = omega arith in
      let positive : ltb 0 (length ps + 1) ≡ true = ground arith in rw (fits, positive) refl

  -- The shutdowns' task returns when all of them have been answered.
  answered_lem :
      (ps : List ℕ) (other : G.Handle) (acks : List Bool)
      → G.had_error other ≡ false
      → length ps + 1 < 2 ^ 32
      → length acks ≡ length ps
      → multi_returns G (successes acks) (shutdown_providers_async G ps other).task
        ≡ record { pending = 0; handle = G.return_boolean other true }
  unfolding multi_returns deliver
  answered_lem ps other acks fine few answered =
      let start : MultiTask G = record { pending = length ps + 1; handle = other } in
      ap (multi_returns G (successes acks)) (started ps other few)
      ∙ returns_once G (boolean true) (successes acks) start fine
          (omega (arith, length-successes acks))
      ∙ ap (λ r. record { pending = 0; handle = deliver G r other }) (overall-successes acks)

  -- What comes of the array `others` of the providers to shut down, when each has answered.
  shuts_down_lem :
      (others : List ℕ) (other : G.Handle) (acks : List Bool)
      → G.had_error other ≡ false
      → length others + 1 < 2 ^ 32
      → length acks ≡ length others
      → (shutdown_ones acks (shutdown_providers_async G others other)).task
        ≡ record { pending = 0; handle = G.return_boolean other true }
  shuts_down_lem others other acks fine few answered =
      shutdown_ones-task acks _ ∙ answered_lem others other acks fine few answered

  -- When each of the providers that were asked to shut down has answered, with success or not, the
  -- task has returned true once.
  abbrev pub AllAnswer : G.Handle → ShutdownTask G → Type 0
  AllAnswer other t =
      (acks : List Bool)
      → length acks ≡ length t.requests
      → (shutdown_ones acks t).task ≡ record { pending = 0; handle = G.return_boolean other true }

  -- For a task of the shutdowns that has not failed and is not cancelled, and fewer than 2 ^ 32 -
  -- 1 providers, either none is enabled, none is chosen and all are asked to shut down; or the
  -- first enabled one of the array is chosen, and those asked to shut down are with it each
  -- provider as often as the array has it; and when each of them has answered, with success or
  -- not, the task has returned true once and nothing is pending.
  pub first_enabled_lem :
      (enabled : ℕ → Bool) (providers : List ℕ) (own other : G.Handle)
      → G.had_error other ≡ false
      → length providers + 1 < 2 ^ 32
      → (All (λ p. enabled p ≡ false) providers
          × (t : ShutdownTask G) × (get_first_enabled_load_cb G enabled
                (array_of providers)
                own
                other
              ≡ shuts_down none t)
          × (t.requests ≡ providers)
          × AllAnswer other t)
        ⊎ ((before : List ℕ) × (p : ℕ) × (after : List ℕ) × (providers ≡ before ++ (p ∷ after))
            × All (λ q. enabled q ≡ false) before
            × (enabled p ≡ true)
            × (t : ShutdownTask G) × (get_first_enabled_load_cb G enabled
                  (array_of providers)
                  own
                  other
                ≡ shuts_down (some p) t)
            × ((q : ℕ) → count q (p ∷ t.requests) ≡ count q providers)
            × AllAnswer other t)
  unfolding get_first_enabled_load_cb
  first_enabled_lem enabled providers own other fine few = elim (choose_lem enabled providers) [
    | inl (offs, chose) ↦ inl (
      offs,
      shutdown_providers_async G providers other,
      rw (chose) refl,
      requested providers other,
      λ acks answered.
          shuts_down_lem providers other acks fine few
            (answered ∙ ap (λ l. length l) (requested providers other)),
    )
    | inr (before, p, after, rest, split, offs, on, chose, counts, shorter) ↦ inr (
      before,
      p,
      after,
      split,
      offs,
      on,
      shutdown_providers_async G rest other,
      rw (chose) refl,
      λ q. ap (λ l. count q (p ∷ l)) (requested rest other) ∙ counts q,
      λ acks answered.
          shuts_down_lem rest other acks fine (omega (arith, shorter, few))
            (answered ∙ ap (λ l. length l) (requested rest other)),
    )
  ]
