-- ===== src/Manager/Shutdown.antt =====
-- `internal_save_state_cb`, `epg_manager_shutdown_async` and `shutdown_save_state_cb`.
pub mod Answer
use eos_payg.Base.{ℕ, ◌-◌, ◌≡◌, Bool, true, false, List, [], ◌∷◌, ◌==◌, ◌&&◌, if◌then◌else◌}
use eos_payg.Manager.{Manager, Clock, emit, save_started, shutdown_returned}
use eos_payg.Manager.Save.{save_state_async}

-- The callback of a save that `begin_save` started; the flag says whether the save succeeded. The
-- task of `epg_manager_init_async`, which it may also answer, is in `Load`.
unfoldable pub internal_save_state_cb : Bool → Manager → Manager
internal_save_state_cb success m =
    if m.pending_internal_save_state_calls == 0
    then m
    else let m' = record m {
      pending_internal_save_state_calls = m.pending_internal_save_state_calls - 1;
    } in
      if m'.pending_internal_save_state_calls == 0 && m'.pending_shutdown
      then emit (shutdown_returned success) (record m' { pending_shutdown = false })
      else m'

unfoldable pub shutdown_async : Clock → Manager → Manager
shutdown_async c m =
    if m.is_cancelled
    then emit (shutdown_returned false) m
    else let m' = record m { is_cancelled = true } in
      if m'.pending_internal_save_state_calls == 0
      then emit (save_started (save_state_async c m')) m'
      else record m' { pending_shutdown = true }

-- The callback of the save that `shutdown_async` itself started.
unfoldable pub shutdown_save_state_cb : Bool → Manager → Manager
shutdown_save_state_cb success m = emit (shutdown_returned success) m
