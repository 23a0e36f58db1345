-- ===== src/Loader/Load.antt =====
-- Loading the plugins: when the task returns, and with which providers.
use eos_payg.Base.{
  ℕ, suc, ◌+◌, ◌-◌, ◌≤◌, ◌<◌, ◌^◌, ◌≡◌, refl, sym, subst, ◌∙◌, ap, ◌⊎◌, inl, inr, Bool, true, false,
  ◌&&◌, List, [], ◌∷◌, ◌++◌, length, ◌==◌, if◌then◌else◌, ltb, Bool-cases, arith,
}
use eos_payg.MultiTask.{GTask, MultiTask, attach, increment, multi_return_pointer}
use eos_payg.Loader.{
  Plugin, LoadTask, maybe_return, try_load, try_loads, load_async, provider_init_cb,
}

-- The providers that are asked to start.
abbrev pub is_started : Plugin → Bool
is_started p = p.loads && p.provides && p.is_made && p.is_async_initable

abbrev pub n_started : List Plugin → ℕ
n_started [] = 0
n_started (p ∷ ps) = let rest = n_started ps in if is_started p then suc rest else rest

-- The providers whose initialisation succeeded, in the order of the callbacks.
abbrev pub initialised : List (ℕ × Bool) → List ℕ
initialised [] = []
initialised ((p, ok) ∷ rs) = let rest = initialised rs in if ok then p ∷ rest else rest

module _ (G : GTask) (array : ℕ) where
  pub callbacks : List (ℕ × Bool) → LoadTask G → LoadTask G
  callbacks [] t = t
  callbacks ((p, ok) ∷ rs) t = callbacks rs (provider_init_cb G array p ok t)

  try_load-started :
      (p : Plugin) (t : LoadTask G)
      → is_started p ≡ true
      → 0 < t.task.pending
      → t.task.pending + 1 < 2 ^ 32
      → ((try_load G p t).task.pending ≡ t.task.pending + 1)
        × ((try_load G p t).task.handle ≡ t.task.handle)
        × ((try_load G p t).providers ≡ t.providers)
        × ((try_load G p t).started ≡ p.provider ∷ t.started)
  unfolding try_load increment
  try_load-started p t starts some_left few =
      let goes : (ltb 0 t.task.pending && ltb t.task.pending (2 ^ 32 - 1)) ≡ true = ground arith in
      simp (starts, goes) (refl, refl, refl, refl)

  try_load-skipped : (p : Plugin) (t : LoadTask G) → is_started p ≡ false → try_load G p t ≡ t
  unfolding try_load
  try_load-skipped p t fails = simp (fails)

  -- The loop over the plugins leaves one operation pending for each provider that was started.
  abbrev IsLoading : LoadTask G → ℕ → LoadTask G → Type 0
  IsLoading t n t' =
      (t'.task.pending ≡ t.task.pending + n)
      × (t'.task.handle ≡ t.task.handle)
      × (t'.providers ≡ t.providers)
      × (length t'.started ≡ length t.started + n)

  try_loads_lem :
      (ps : List Plugin) (t : LoadTask G)
      → 0 < t.task.pending
      → t.task.pending + length ps < 2 ^ 32
      → IsLoading t (n_started ps) (try_loads G ps t)
  unfolding try_loads
  try_loads_lem [] t some_left few = (omega arith, refl, refl, omega arith)
  try_loads_lem (p ∷ ps) t some_left few = elim (Bool-cases (is_started p)) [
    | inl starts ↦
        let (one, same, kept, asked) = try_load-started p t starts some_left (omega arith) in
        let (rest, same', kept', asked') =
          try_loads_lem ps (try_load G p t) (omega (arith, one)) (omega (arith, one)) in
        (ground (arith, one, rest), same' ∙ same, kept' ∙ kept, asked' ∙ ground (arith, asked))
    | inr skips ↦
        let (rest, same', kept', asked') = try_loads_lem ps t some_left (omega arith) in
        let stays = try_load-skipped p t skips in
        let total : n_started (p ∷ ps) ≡ n_started ps = ground arith in
        subst (λ u. IsLoading t (n_started (p ∷ ps)) (try_loads G ps u)) (sym stays)
          (
            rest ∙ ap (λ n. t.task.pending + n) (sym total),
            same',
            kept',
            asked' ∙ ap (λ n. length t.started + n) (sym total),
          )
  ]

  pointer-waits :
      (n : ℕ) (t : MultiTask G)
      → t.pending ≡ suc (suc n)
      → multi_return_pointer G array t ≡ record { pending = suc n; handle = t.handle }
  unfolding multi_return_pointer
  pointer-waits n t left = ground arith

  pointer-ends :
      (t : MultiTask G)
      → G.had_error t.handle ≡ false
      → t.pending ≡ 1
      → multi_return_pointer G array t
        ≡ record { pending = 0; handle = G.return_pointer t.handle array }
  unfolding multi_return_pointer
  pointer-ends t fine left = ground arith

  append_none : (xs : List ℕ) → xs ≡ xs ++ []
  append_none [] = refl
  append_none (x ∷ xs) = ap (λ l. x ∷ l) (append_none xs)

  append_assoc : (xs : List ℕ) (y : ℕ) (zs : List ℕ) → (xs ++ (y ∷ [])) ++ zs ≡ xs ++ (y ∷ zs)
  append_assoc [] y zs = refl
  append_assoc (x ∷ xs) y zs = ap (λ l. x ∷ l) (append_assoc xs y zs)

  -- What a callback does, whether or not it brings a provider.
  provider_init_cb-task :
      (p : ℕ) (ok : Bool) (t : LoadTask G)
      → (provider_init_cb G array p ok t).task ≡ multi_return_pointer G array t.task
  unfolding provider_init_cb maybe_return
  provider_init_cb-task p true t = refl
  provider_init_cb-task p false t = refl

  provider_init_cb-providers :
      (p : ℕ) (ok : Bool) (t : LoadTask G) (rs : List (ℕ × Bool))
      → (provider_init_cb G array p ok t).providers ++ initialised rs
        ≡ t.providers ++ initialised ((p, ok) ∷ rs)
  unfolding provider_init_cb maybe_return
  provider_init_cb-providers p true t rs = append_assoc t.providers p (initialised rs)
  provider_init_cb-providers p false t rs = refl

  callbacks-providers :
      (rs : List (ℕ × Bool)) (t : LoadTask G)
      → (callbacks rs t).providers ≡ t.providers ++ initialised rs
  unfolding callbacks
  callbacks-providers [] t = append_none t.providers
  callbacks-providers ((p, ok) ∷ rs) t =
      callbacks-providers rs (provider_init_cb G array p ok t)
      ∙ provider_init_cb-providers p ok t rs

  callbacks-wait :
      (rs : List (ℕ × Bool)) (t : LoadTask G) (n : ℕ)
      → t.task.pending ≡ suc (n + length rs)
      → (callbacks rs t).task ≡ record { pending = suc n; handle = t.task.handle }
  unfolding callbacks
  callbacks-wait [] t n left = ground arith
  callbacks-wait ((p, ok) ∷ rs) t n left =
      let next : LoadTask G = provider_init_cb G array p ok t in
      let same : next.task ≡ record { pending = suc (n + length rs); handle = t.task.handle } =
        provider_init_cb-task p ok t ∙ pointer-waits (n + length rs) t.task (omega arith) in
      let rest = callbacks-wait rs next n (ap (λ u. u.pending) same) in
      rest ∙ ap (λ u. record { pending = suc n; handle = u.handle }) same

  callbacks-end :
      (rs : List (ℕ × Bool)) (t : LoadTask G)
      → G.had_error t.task.handle ≡ false
      → t.task.pending ≡ length rs
      → 0 < length rs
      → (callbacks rs t).task
        ≡ record { pending = 0; handle = G.return_pointer t.task.handle array }
  unfolding callbacks
  callbacks-end [] t fine left some_left = absurd (omega arith)
  callbacks-end ((p, ok) ∷ []) t fine left some_left =
      provider_init_cb-task p ok t ∙ pointer-ends t.task fine left
  callbacks-end ((p, ok) ∷ r ∷ rs) t fine left some_left =
      let next : LoadTask G = provider_init_cb G array p ok t in
      let same : next.task ≡ record { pending = suc (length rs); handle = t.task.handle } =
        provider_init_cb-task p ok t ∙ pointer-waits (length rs) t.task left in
      let rest =
        callbacks-end (r ∷ rs) next (ap (λ u. G.had_error u.handle) same ∙ fine)
          (ap (λ u. u.pending) same) (omega arith) in
      rest ∙ ap (λ u. record { pending = 0; handle = G.return_pointer u.handle array }) same

  -- The task at the return of `epg_provider_loader_load_async`.
  load_async-task :
      (plugins : List Plugin) (h : G.Handle) (n : ℕ)
      → n_started plugins ≡ suc n
      → length plugins + 1 < 2 ^ 32
      → ((load_async G array plugins h).task ≡ record { pending = suc n; handle = h })
        × ((load_async G array plugins h).providers ≡ [])
  unfolding load_async maybe_return attach
  load_async-task plugins h n some_started few =
      let start : LoadTask G = record {
        task = attach G 1 (record { pending = 0; handle = h });
        providers = [];
        started = [];
      } in
      let (pending, handle, providers, _) =
        try_loads_lem plugins start (omega arith) (omega arith) in
      (
        pointer-waits n (try_loads G plugins start).task (pending ∙ omega (arith, some_started))
            ∙ ap (λ k. record { pending = suc n; handle = k }) handle,
        providers,
      )

  load_async-none :
      (plugins : List Plugin) (h : G.Handle)
      → G.had_error h ≡ false
      → n_started plugins ≡ 0
      → length plugins + 1 < 2 ^ 32
      → ((load_async G array plugins h).task
          ≡ record { pending = 0; handle = G.return_pointer h array })
        × ((load_async G array plugins h).providers ≡ [])
  unfolding load_async maybe_return attach
  load_async-none plugins h fine none_started few =
      let start : LoadTask G = record {
        task = attach G 1 (record { pending = 0; handle = h });
        providers = [];
        started = [];
      } in
      let (pending, handle, providers, _) =
        try_loads_lem plugins start (omega arith) (omega arith) in
      (
        pointer-ends (try_loads G plugins start).task (ap G.had_error handle ∙ fine)
              (pending ∙ omega (arith, none_started))
            ∙ ap (λ k. record { pending = 0; handle = G.return_pointer k array }) handle,
        providers,
      )

  pending_at :
      (h : G.Handle) {m n : ℕ}
      → m ≡ n
      → ◌≡◌ {A = MultiTask G}
          (record { pending = m; handle = h })
          (record { pending = n; handle = h })
  pending_at h same = ap (λ k. record { pending = k; handle = h }) same

  -- For a task that has not failed and fewer than 2 ^ 32 - 1 plugins, after the callbacks of some
  -- or all of the providers that epg_provider_loader_load_async started, in any order, the array
  -- holds those that were initialised, in the order of the callbacks, and the task has returned
  -- the array if all have answered, and nothing before.
  pub load_async_lem :
      (plugins : List Plugin) (h : G.Handle) (rs : List (ℕ × Bool))
      → G.had_error h ≡ false
      → length plugins + 1 < 2 ^ 32
      → length rs ≤ n_started plugins
      → let t = callbacks rs (load_async G array plugins h) in
        (t.providers ≡ initialised rs)
        × (((length rs ≡ n_started plugins)
              × (t.task ≡ record { pending = 0; handle = G.return_pointer h array }))
            ⊎ ((length rs < n_started plugins)
                × (t.task ≡ record { pending = n_started plugins - length rs; handle = h })))
  unfolding callbacks
  load_async_lem plugins h [] fine few within = elim (Bool-cases (n_started plugins == 0)) [
    | inl none_started ↦
        let (task, providers) = load_async-none plugins h fine (ground arith) few in
        (providers, inl (ground arith, task))
    | inr some_started ↦
        let n : ℕ = n_started plugins - 1 in
        let (task, providers) = load_async-task plugins h n (ground arith) few in
        (providers, inr (ground arith, task ∙ pending_at h (ground arith)))
  ]
  load_async_lem plugins h (r ∷ rs) fine few within =
      let n : ℕ = n_started plugins - 1 in
      let t : LoadTask G = load_async G array plugins h in
      let (task, providers) = load_async-task plugins h n (omega arith) few in
      let left : t.task.pending ≡ n_started plugins = ap (λ u. u.pending) task ∙ omega arith in
      let own : t.task.handle ≡ h = ap (λ u. u.handle) task in
      (
        callbacks-providers (r ∷ rs) t ∙ ap (λ l. l ++ initialised (r ∷ rs)) providers,
        elim (Bool-cases (length (r ∷ rs) == n_started plugins)) [
          | inl all ↦ inl (
            ground arith,
            callbacks-end (r ∷ rs) t (ap G.had_error own ∙ fine) (ground (arith, left))
                  (omega arith)
                ∙ ap (λ k. record { pending = 0; handle = G.return_pointer k array }) own,
          )
          | inr fewer ↦
              let rest : ℕ = n_started plugins - length (r ∷ rs) - 1 in
              inr (
                ground arith,
                callbacks-wait (r ∷ rs) t rest (ground (arith, left))
                    ∙ ap (λ k. record { pending = suc rest; handle = k }) own
                    ∙ pending_at h (ground arith),
              )
        ],
      )
