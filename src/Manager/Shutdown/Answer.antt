-- ===== src/Manager/Shutdown/Answer.antt =====
-- What a shutdown during saves returns, and when.
use eos_payg.Base.{ℕ, suc, ◌≡◌, refl, Bool, true, false, List, [], ◌∷◌, ◌++◌, length, arith}
use eos_payg.Manager.{Manager, Clock, emit, shutdown_returned}
use eos_payg.Manager.Shutdown.{internal_save_state_cb, shutdown_async}

-- The callbacks of the saves in flight, in the order in which they finish.
pub finish_saves : List Bool → Manager → Manager
finish_saves [] m = m
finish_saves (s ∷ ss) m = finish_saves ss (internal_save_state_cb s m)

finish_saves-append :
    (rs ss : List Bool) (m : Manager)
    → finish_saves (rs ++ ss) m ≡ finish_saves ss (finish_saves rs m)
unfolding finish_saves
finish_saves-append [] ss m = refl
finish_saves-append (r ∷ rs) ss m = finish_saves-append rs ss (internal_save_state_cb r m)

internal_save_state_cb_more :
    (s : Bool) (m : Manager) (n : ℕ)
    → m.pending_internal_save_state_calls ≡ suc (suc n)
    → internal_save_state_cb s m ≡ record m { pending_internal_save_state_calls = suc n }
unfolding internal_save_state_cb
internal_save_state_cb_more s m n h = ground arith

internal_save_state_cb_last :
    (s : Bool) (m : Manager)
    → m.pending_internal_save_state_calls ≡ 1
    → m.pending_shutdown ≡ true
    → internal_save_state_cb s m
      ≡ emit
          (shutdown_returned s)
          (record m { pending_internal_save_state_calls = 0; pending_shutdown = false })
unfolding internal_save_state_cb
internal_save_state_cb_last s m h w = ground arith

-- All saves in flight but one.
finish_saves_waiting :
    (rs : List Bool) (m : Manager)
    → m.pending_internal_save_state_calls ≡ suc (length rs)
    → finish_saves rs m ≡ record m { pending_internal_save_state_calls = 1 }
unfolding finish_saves
finish_saves_waiting [] m h = ground arith
finish_saves_waiting (r ∷ rs) m h = rw (internal_save_state_cb_more r m (length rs) h) (
    finish_saves_waiting rs (record m { pending_internal_save_state_calls = suc (length rs) }) refl)

shutdown_async_waits :
    (c : Clock) (m : Manager) (n : ℕ)
    → m.is_cancelled ≡ false
    → m.pending_internal_save_state_calls ≡ suc n
    → shutdown_async c m ≡ record m { is_cancelled = true; pending_shutdown = true }
unfolding shutdown_async
shutdown_async_waits c m n r h = ground arith

-- On a manager that has not been shut down, with one save or more in flight, a shutdown returns
-- nothing before the callback of the last save has run, and has then returned exactly once, with
-- the result of that save; no save is in flight then, and the manager counts as shut down.
pub shutdown_answered :
    (c : Clock) (m : Manager) (results : List Bool) (last : Bool)
    → m.is_cancelled ≡ false
    → m.pending_internal_save_state_calls ≡ suc (length results)
    → let m' = finish_saves (results ++ (last ∷ [])) (shutdown_async c m) in
      ((finish_saves results (shutdown_async c m)).events ≡ m.events)
      × (m'.events ≡ shutdown_returned last ∷ m.events)
      × (m'.pending_shutdown ≡ false)
      × (m'.is_cancelled ≡ true)
      × (m'.pending_internal_save_state_calls ≡ 0)
unfolding finish_saves
shutdown_answered c m results last running count =
    let m1 : Manager = record m { is_cancelled = true; pending_shutdown = true } in
    let waits : shutdown_async c m ≡ m1 = shutdown_async_waits c m (length results) running count in
    let one : finish_saves results m1 ≡ record m1 { pending_internal_save_state_calls = 1 } =
      finish_saves_waiting results m1 count in
    let done =
      internal_save_state_cb_last last (record m1 { pending_internal_save_state_calls = 1 }) refl
        refl in
    rw (waits, finish_saves-append results (last ∷ []) m1, one, done) (refl, refl, refl, refl, refl)
