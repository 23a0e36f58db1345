-- ===== src/Manager/Keeps.antt =====
-- What the operations on the expiry time and the saves leave alone.
use eos_payg.Base.{◌≡◌, arith}
use eos_payg.Manager.{Manager}

pub record Keeps (m m' : Manager) : Type 0 where
  pub used_codes_kept : m'.used_codes ≡ m.used_codes
  pub enabled_kept : m'.enabled ≡ m.enabled
  pub key_bytes_kept : m'.key_bytes ≡ m.key_bytes
  pub account_id_kept : m'.account_id ≡ m.account_id
  pub history_kept : m'.rate_limiting_history ≡ m.rate_limiting_history
  pub end_time_kept : m'.rate_limit_end_time_secs ≡ m.rate_limit_end_time_secs
  pub shutdown_kept : m'.pending_shutdown ≡ m.pending_shutdown
  pub cancelled_kept : m'.is_cancelled ≡ m.is_cancelled

pub Keeps-trans : (a b c : Manager) → Keeps a b → Keeps b c → Keeps a c
Keeps-trans a b c h k = ground arith
