-- ===== src/Tests/Loader.antt =====
-- The loader on three plugins.
use eos_payg.Base.{
  All, ◌++◌, ◌⊎◌, ℕ, ◌≡◌, refl, Bool, true, false, none, some, List, [], ◌∷◌, ◌==◌, arith,
}
use eos_payg.Loader.{
  Plugin, ShutdownTask, choose, remove_index_fast, find_enabled, array_of, shuts_down,
  get_first_enabled_load_cb,
}
use eos_payg.Loader.Enabled.{AllAnswer, first_enabled_lem}
use eos_payg.Loader.Choice.{count}
use eos_payg.Tests.Samples.{gtask}

abbrev plugin : Bool → ℕ → Plugin
plugin provides p = record {
  loads = true;
  provides = provides;
  is_made = true;
  is_async_initable = true;
  provider = p;
}

abbrev plugins : List Plugin
plugins = plugin true 5 ∷ plugin false 6 ∷ plugin true 7 ∷ []

abbrev is_seven : ℕ → Bool
is_seven p = p == 7

chosen : choose is_seven (5 ∷ 7 ∷ 8 ∷ 9 ∷ []) ≡ (some 7, 5 ∷ 9 ∷ 8 ∷ [])
unfolding choose find_enabled remove_index_fast
chosen = refl

abbrev providers : List ℕ
providers = 5 ∷ 7 ∷ 8 ∷ []

first_enabled_lem_example :
    (All (λ p. is_seven p ≡ false) providers
      × (t : ShutdownTask gtask) × (get_first_enabled_load_cb gtask is_seven
            (array_of providers)
            []
            []
          ≡ shuts_down none t)
      × (t.requests ≡ providers)
      × AllAnswer gtask [] t)
    ⊎ ((before : List ℕ) × (p : ℕ) × (after : List ℕ) × (providers ≡ before ++ (p ∷ after))
        × All (λ q. is_seven q ≡ false) before
        × (is_seven p ≡ true)
        × (t : ShutdownTask gtask) × (get_first_enabled_load_cb gtask is_seven
              (array_of providers)
              []
              []
            ≡ shuts_down (some p) t)
        × ((q : ℕ) → count q (p ∷ t.requests) ≡ count q providers)
        × AllAnswer gtask [] t)
first_enabled_lem_example = first_enabled_lem gtask is_seven providers [] [] refl (omega arith)
