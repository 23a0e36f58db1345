-- ===== src/Manager/Save.antt =====
-- `epg_manager_save_state_async`: the contents that it writes, and the count of saves in flight.
pub mod Begin
pub mod Files
pub mod Task
use eos_payg.Base.{
  ℕ, zero, suc, ◌+◌, ◌-◌, ◌*◌, ◌/◌, ◌%◌, ◌^◌, Bool, true, false, Option, none, some, List, [], ◌∷◌,
  ltb, ◌==◌, if◌then◌else◌, length,
}
use eos_payg.Manager.{
  Manager, Clock, Snapshot, Event, save_started, max_uint64, emit, assert, ◌>>=◌, ◌>>◌,
}
use eos_payg.Manager.UsedCodes.{encode_used_codes}

-- The bytes of a `guint64`, on a little-endian host, and the `guint64` of eight bytes.
unfoldable pub bytes_of_uint64 : ℕ → List ℕ
bytes_of_uint64 n =
    n % 256
    ∷ (n / 2 ^ 8 % 256)
    ∷ (n / 2 ^ 16 % 256)
    ∷ (n / 2 ^ 24 % 256)
    ∷ (n / 2 ^ 32 % 256)
    ∷ (n / 2 ^ 40 % 256)
    ∷ (n / 2 ^ 48 % 256)
    ∷ (n / 2 ^ 56 % 256)
    ∷ []

unfoldable pub get_guint64_from_bytes : List ℕ → ℕ
get_guint64_from_bytes [] = 0
get_guint64_from_bytes (b ∷ bs) = b + 256 * get_guint64_from_bytes bs

unfoldable pub save_state_async : Clock → Manager → Snapshot
save_state_async c m = record {
  clock_time = bytes_of_uint64 c.save_wallclock;
  expiry_seconds =
      bytes_of_uint64
        (if ltb m.expiry_time_secs c.save_time then 0 else m.expiry_time_secs - c.save_time);
  used_codes = if ltb 0 (length m.used_codes) then some (encode_used_codes m.used_codes) else none;
}

-- "Kick off an asynchronous save", whose callback is `internal_save_state_cb`.
unfoldable pub begin_save : Clock → Manager → Option Manager
begin_save c m = do
  assert (ltb m.pending_internal_save_state_calls max_uint64)
  some (
      emit (save_started (save_state_async c m))
        (record m { pending_internal_save_state_calls = m.pending_internal_save_state_calls + 1 }))
