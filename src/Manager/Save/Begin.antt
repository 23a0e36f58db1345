-- ===== src/Manager/Save/Begin.antt =====
-- What the start of a save changes.
use eos_payg.Base.{◌+◌, ◌<◌, ◌≡◌, some, arith}
use eos_payg.Manager.{Manager, Clock, max_uint64, emit, save_started}
use eos_payg.Manager.Keeps.{Keeps}
use eos_payg.Manager.Save.{save_state_async, begin_save}

pub begin_save_lem :
    (c : Clock) (m : Manager)
    → m.pending_internal_save_state_calls < max_uint64
    → (m' : Manager) × (begin_save c m ≡ some m')
      × Keeps m m'
      × (m'.expiry_time_secs ≡ m.expiry_time_secs)
      × (m'.expiry ≡ m.expiry)
      × (m'.pending_internal_save_state_calls ≡ m.pending_internal_save_state_calls + 1)
unfolding begin_save
begin_save_lem c m h = (
  emit (save_started (save_state_async c m))
      (record m { pending_internal_save_state_calls = m.pending_internal_save_state_calls + 1 }),
  ground arith,
  ground arith,
  ground arith,
  ground arith,
  ground arith,
)
