-- ===== src/Manager/Save/Files.antt =====
-- The bytes of the state files.
use eos_payg.Base.{ℕ, ◌^◌, ◌<◌, ◌≡◌, length, refl, arith}
use eos_payg.Manager.Save.{bytes_of_uint64, get_guint64_from_bytes}

-- A 64-bit number is written as eight bytes that read back as it.
pub get_guint64_from_bytes-bytes_of_uint64 :
    (n : ℕ)
    → n < 2 ^ 64
    → (length (bytes_of_uint64 n) ≡ 8) × (get_guint64_from_bytes (bytes_of_uint64 n) ≡ n)
unfolding bytes_of_uint64 get_guint64_from_bytes
get_guint64_from_bytes-bytes_of_uint64 n h = (refl, omega arith)
