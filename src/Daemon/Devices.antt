-- ===== src/Daemon/Devices.antt =====
-- eos-paygd/main.c: what the daemon writes to the watchdog, to the boot partitions' `force_ro` files,
-- to the socket of systemd and to its log. The answers of the kernel are arguments.
pub mod Retries
use eos_payg.Base.{
  ℕ, zero, suc, ◌+◌, ◌≡◌, Bool, true, false, not, Option, none, some, List, [], ◌∷◌, ◌++◌, ltb, leb,
  ◌==◌, if◌then◌else◌, length,
}
use eos_payg.Base.Int.{ℤ, pos, negsuc}
use eos_payg.Base.Strings.{bytes}
use eos_payg.Manager.{◌>>=◌}

-- What `write` answers: a number of bytes, or -1 with an `errno`.
pub data Written : Type 0 where
  bytes_written : ℕ → Written
  write_failed : ℕ → Written

-- How the loop around `write` ends: with the byte written, or with one of its two warnings.
pub data WriteEnd : Type 0 where
  written : WriteEnd
  warned_error : ℕ → WriteEnd
  warned_zero : WriteEnd

abbrev pub write_end : Written → WriteEnd
write_end (bytes_written zero) = warned_zero
write_end (bytes_written (suc n)) = written
write_end (write_failed e) = warned_error e

abbrev pub is_interrupted : ℕ → Written → Bool
is_interrupted eintr (bytes_written n) = false
is_interrupted eintr (write_failed e) = e == eintr

-- "We need the loop to deal with EINTR": over the answers of `write` in their order; `none` where it
-- has not ended with them.
unfoldable pub write_byte : ℕ → List Written → Option WriteEnd
write_byte eintr [] = none
write_byte eintr (w ∷ ws) =
    let rest = write_byte eintr ws in if is_interrupted eintr w then rest else some (write_end w)

-- A `watchdog_fd` below 0 fails the assertion; the flag is `G_SOURCE_CONTINUE`.
unfoldable pub ping_watchdog : ℕ → ℤ → List Written → Option (WriteEnd × Bool)
ping_watchdog eintr (negsuc n) ws = none
ping_watchdog eintr (pos fd) ws = do end ← write_byte eintr ws; some (end, true)

-- A match of `/dev/mmcblk*boot0`: the content of its `force_ro` file, whether that opens, and what
-- `write` answers.
pub record Partition : Type 0 where
  pub force_ro : List ℕ
  pub opens : Bool
  pub answers : List Written

abbrev pub force_ro_byte : Bool → List ℕ
force_ro_byte allow_write = if allow_write then bytes "0" else bytes "1"

abbrev pub after_write : List ℕ → WriteEnd → Partition → Partition
after_write content written p = record p { force_ro = content }
after_write content (warned_error e) p = p
after_write content warned_zero p = p

unfoldable pub allow_writing_one : ℕ → Bool → Partition → Option Partition
allow_writing_one eintr allow_write p =
    if p.opens
    then (do end ← write_byte eintr p.answers; some (after_write (force_ro_byte allow_write) end p))
    else some p

-- The matches, in their order; there are none where `glob` fails or finds nothing.
unfoldable pub allow_writing_to_boot_partition : ℕ → Bool → List Partition → Option (List Partition)
allow_writing_to_boot_partition eintr allow_write [] = some []
allow_writing_to_boot_partition eintr allow_write (p ∷ ps) = do
  p' ← allow_writing_one eintr allow_write p
  ps' ← allow_writing_to_boot_partition eintr allow_write ps
  some (p' ∷ ps')

-- 1, or the `errno` of `socket` or `sendmsg`, negated. `none` is a path that does not fit in the 108
-- bytes of `sun_path`, which `memcpy` writes behind.
unfoldable pub payg_relative_sd_notify : List ℕ → Option ℕ → Option ℕ → Option ℤ
payg_relative_sd_notify path socket_errno sendmsg_errno =
    if ltb 108 (length path + 1) then none else elim socket_errno [
      | some zero ↦ some (pos 0)
      | some (suc e) ↦ some (negsuc e)
      | none ↦ elim sendmsg_errno [
        | some zero ↦ some (pos 0)
        | some (suc e) ↦ some (negsuc e)
        | none ↦ some (pos 1)
      ]
    ]

pub data LogWriterOutput : Type 0 where
  handled unhandled : LogWriterOutput

-- Given the number of fields, whether the default writer would drop the message, the file of the day
-- if it opens, the text, and what the default writer gives; the file after it comes back.
unfoldable pub log_writer :
    ℕ → Bool → Option (List ℕ) → List ℕ → LogWriterOutput → LogWriterOutput × Option (List ℕ)
log_writer n_fields drops log_io out default =
    if n_fields == 0
    then (unhandled, log_io)
    else if drops
    then (handled, log_io)
    else elim log_io [
      | none ↦ (default, none)
      | some text ↦ (default, some (text ++ (out ++ bytes "\n")))
    ]
