-- ===== src/MultiTask/Once.antt =====
-- What a task with several pending operations returns.
use eos_payg.Base.{ℕ, suc, ◌+◌, ◌≡◌, refl, Bool, true, false, List, [], ◌∷◌, length, arith}
use eos_payg.MultiTask.{
  GTask, MultiTask, Return, boolean, pointer, error, multi_return, multi_returns,
}

-- The result of the whole: the first error, or else what the last operation returned.
unfoldable pub overall : Return → List Return → Return
overall (error e) rs = error e
overall r [] = r
overall (boolean b) (r ∷ rs) = overall r rs
overall (pointer p) (r ∷ rs) = overall r rs

module _ (G : GTask) where
  -- One call of the `g_task_return_` functions.
  unfoldable pub deliver : Return → G.Handle → G.Handle
  deliver (boolean b) t = G.return_boolean t b
  deliver (pointer p) t = G.return_pointer t p
  deliver (error e) t = G.return_error t e

  -- After an error only the count changes.
  after_error :
      (rs : List Return) (t : MultiTask G) (n : ℕ)
      → G.had_error t.handle ≡ true
      → t.pending ≡ length rs + n
      → multi_returns G rs t ≡ record { pending = n; handle = t.handle }
  unfolding multi_returns multi_return
  after_error [] t n h p = ground arith
  after_error (boolean b ∷ rs) t n h p =
      ground (arith, after_error rs (record t { pending = length rs + n }) n h refl)
  after_error (pointer b ∷ rs) t n h p =
      ground (arith, after_error rs (record t { pending = length rs + n }) n h refl)
  after_error (error b ∷ rs) t n h p =
      ground (arith, after_error rs (record t { pending = length rs + n }) n h refl)

  fails :
      (e n : ℕ) (t : MultiTask G)
      → G.had_error t.handle ≡ false
      → t.pending ≡ suc n
      → multi_return G (error e) t ≡ record { pending = n; handle = G.return_error t.handle e }
  unfolding multi_return
  fails e n t h p = ground arith

  waits_boolean :
      (b : Bool) (n : ℕ) (t : MultiTask G)
      → t.pending ≡ suc (suc n)
      → multi_return G (boolean b) t ≡ record { pending = suc n; handle = t.handle }
  unfolding multi_return
  waits_boolean b n t p = ground arith

  waits_pointer :
      (q n : ℕ) (t : MultiTask G)
      → t.pending ≡ suc (suc n)
      → multi_return G (pointer q) t ≡ record { pending = suc n; handle = t.handle }
  unfolding multi_return
  waits_pointer q n t p = ground arith

  ends_boolean :
      (b : Bool) (t : MultiTask G)
      → G.had_error t.handle ≡ false
      → t.pending ≡ 1
      → multi_return G (boolean b) t ≡ record { pending = 0; handle = G.return_boolean t.handle b }
  unfolding multi_return
  ends_boolean b t h p = ground arith

  ends_pointer :
      (q : ℕ) (t : MultiTask G)
      → G.had_error t.handle ≡ false
      → t.pending ≡ 1
      → multi_return G (pointer q) t ≡ record { pending = 0; handle = G.return_pointer t.handle q }
  unfolding multi_return
  ends_pointer q t h p = ground arith

  -- A task that has not failed and waits for as many operations as there are returns makes exactly
  -- one return call: that of the first error, or else that of the last operation; afterwards
  -- nothing is pending.
  pub returns_once :
      (r : Return) (rs : List Return) (t : MultiTask G)
      → G.had_error t.handle ≡ false
      → t.pending ≡ suc (length rs)
      → multi_returns G (r ∷ rs) t
        ≡ record { pending = 0; handle = deliver (overall r rs) t.handle }
  unfolding multi_returns overall deliver
  returns_once (error e) rs t h p = rw (fails e (length rs) t h p) (
      after_error rs (record { pending = length rs; handle = G.return_error t.handle e }) 0
        (G.had_error-return_error t.handle e) (omega arith))
  returns_once (boolean b) [] t h p = ends_boolean b t h p
  returns_once (pointer q) [] t h p = ends_pointer q t h p
  returns_once (boolean b) (r ∷ rs) t h p =
      rw (waits_boolean b (length rs) t p)
        (returns_once r rs (record t { pending = suc (length rs) }) h refl)
  returns_once (pointer q) (r ∷ rs) t h p =
      rw (waits_pointer q (length rs) t p)
        (returns_once r rs (record t { pending = suc (length rs) }) h refl)
