-- ===== src/Loader.antt =====
-- libeos-payg/provider-loader.c: loading the plugins, and the choice of the first enabled provider.
-- A provider is the number of its `GObject`, and `NULL` is 0. What libpeas says of a plugin is the
-- record `Plugin`; that a provider was asked to start or to shut down is kept in a list, and what
-- comes of it is an argument of the callback.
pub mod Load
pub mod Choice
pub mod Enabled
use eos_payg.Base.{
  ℕ, zero, suc, ◌+◌, ◌%◌, ◌^◌, Bool, true, false, not, ◌&&◌, Option, none, some, List, [], ◌∷◌,
  ◌++◌, length, if◌then◌else◌,
}
use eos_payg.MultiTask.{
  GTask, MultiTask, attach, increment, multi_return_boolean, multi_return_pointer,
}

-- Whether the engine loads it, it provides an `EpgProvider`, that can be made, and can be initialised;
-- and the provider.
pub record Plugin : Type 0 where
  pub loads : Bool
  pub provides : Bool
  pub is_made : Bool
  pub is_async_initable : Bool
  pub provider : ℕ

-- `epg_provider_loader_constructed`: the directory of the plugins, from the property, the variable
-- EPG_MODULE_DIR and the default.
unfoldable pub module_dir : Option (List ℕ) → Option (List ℕ) → List ℕ → List ℕ
module_dir (some (c ∷ dir)) env default = c ∷ dir
module_dir (some []) env default = default
module_dir none (some (c ∷ dir)) default = c ∷ dir
module_dir none env default = default

-- `g_ptr_array_remove_index_fast`: the last element moves into the place.
abbrev pub last_or : ℕ → List ℕ → ℕ
last_or a [] = a
last_or a (b ∷ bs) = last_or b bs

abbrev pub but_last : ℕ → List ℕ → List ℕ
but_last a [] = []
but_last a (b ∷ bs) = a ∷ but_last b bs

unfoldable pub remove_index_fast : ℕ → List ℕ → List ℕ
remove_index_fast i [] = []
remove_index_fast zero (a ∷ []) = []
remove_index_fast zero (a ∷ b ∷ bs) = last_or b bs ∷ but_last b bs
remove_index_fast (suc i) (a ∷ rest) = a ∷ remove_index_fast i rest

-- The index of the first provider that is enabled, and that provider.
unfoldable pub find_enabled : (ℕ → Bool) → ℕ → List ℕ → Option (ℕ × ℕ)
find_enabled enabled i [] = none
find_enabled enabled i (p ∷ ps) =
    let rest = find_enabled enabled (i + 1) ps in if enabled p then some (i, p) else rest

-- The provider that is chosen, and the array without it.
abbrev pub chosen_at : Option (ℕ × ℕ) → List ℕ → Option ℕ × List ℕ
chosen_at none providers = (none, providers)
chosen_at (some (i, p)) providers = (some p, remove_index_fast i providers)

unfoldable pub choose : (ℕ → Bool) → List ℕ → Option ℕ × List ℕ
choose enabled providers = chosen_at (find_enabled enabled 0 providers) providers

module _ (G : GTask) where
  -- The task of `epg_provider_loader_load_async`, with its array, and the providers that were asked
  -- to start, the last one first.
  pub record LoadTask : Type 0 where
    pub task : MultiTask G
    pub providers : List ℕ
    pub started : List ℕ

  abbrev add_provider : Option ℕ → List ℕ → List ℕ
  add_provider none providers = providers
  add_provider (some p) providers = providers ++ (p ∷ [])

  -- `array` is the array's address, which the task returns.
  unfoldable pub maybe_return : ℕ → Option ℕ → LoadTask → LoadTask
  maybe_return array provider t = record t {
    providers = add_provider provider t.providers;
    task = multi_return_pointer G array t.task;
  }

  unfoldable pub try_load : Plugin → LoadTask → LoadTask
  try_load plugin t =
      if plugin.loads && plugin.provides && plugin.is_made && plugin.is_async_initable
      then record t { task = increment G t.task; started = plugin.provider ∷ t.started }
      else t

  unfoldable pub try_loads : List Plugin → LoadTask → LoadTask
  try_loads [] t = t
  try_loads (p ∷ ps) t = try_loads ps (try_load p t)

  unfoldable pub load_async : ℕ → List Plugin → G.Handle → LoadTask
  load_async array plugins handle = maybe_return array none (
      try_loads plugins (record {
        task = attach G 1 (record { pending = 0; handle = handle });
        providers = [];
        started = [];
      }))

  -- The flag says whether the provider was initialised.
  unfoldable pub provider_init_cb : ℕ → ℕ → Bool → LoadTask → LoadTask
  provider_init_cb array provider true t = maybe_return array (some provider) t
  provider_init_cb array provider false t = maybe_return array none t

  -- The task of `shutdown_providers_async`, and the providers that were asked to shut down.
  pub record ShutdownTask : Type 0 where
    pub task : MultiTask G
    pub requests : List ℕ

  unfoldable pub shutdown_providers_async : List ℕ → G.Handle → ShutdownTask
  shutdown_providers_async providers handle = record {
    task =
        multi_return_boolean G true
          (attach G ((length providers + 1) % 2 ^ 32) (record { pending = 0; handle = handle }));
    requests = providers;
  }

  -- A failure is only warned of.
  unfoldable pub shutdown_one_cb : Bool → ShutdownTask → ShutdownTask
  shutdown_one_cb ok t = record t { task = multi_return_boolean G true t.task }

  -- `loaded` is what `epg_provider_loader_load_finish` gives: the array, or the number of an error.
  pub data Loaded : Type 0 where
    array_of : List ℕ → Loaded
    load_error : ℕ → Loaded

  -- The task either returns the error, or waits for the end of the shutdowns, with the choice as its
  -- data.
  pub data Choosing : Type 0 where
    has_returned : G.Handle → Choosing
    shuts_down : Option ℕ → ShutdownTask → Choosing

  -- `own` is the task of `epg_provider_loader_get_first_enabled_async`, `other` the new one.
  unfoldable pub get_first_enabled_load_cb : (ℕ → Bool) → Loaded → G.Handle → G.Handle → Choosing
  get_first_enabled_load_cb enabled (load_error e) own other = has_returned (G.return_error own e)
  get_first_enabled_load_cb enabled (array_of providers) own other =
      let r = choose enabled providers in shuts_down r.0 (shutdown_providers_async r.1 other)

  unfoldable pub get_first_enabled_shutdown_cb : Option ℕ → G.Handle → G.Handle
  get_first_enabled_shutdown_cb none own = G.return_pointer own 0
  get_first_enabled_shutdown_cb (some provider) own = G.return_pointer own provider
