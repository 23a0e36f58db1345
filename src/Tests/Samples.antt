-- ===== src/Tests/Samples.antt =====
-- Functions that do what the model asks of GLib, for evaluating it on concrete inputs.
mod Digits
mod Sorting
use eos_payg.Base.{
  ℕ, suc, ◌+◌, ◌%◌, ◌^◌, ◌≤◌, ◌<◌, ◌≡◌, refl, Bool, true, false, Option, none, some, List, [], ◌∷◌,
  ltb, if◌then◌else◌, length, get_or, replicate, All, arith,
}
use eos_payg.Codes.{Glib}
use eos_payg.Manager.{Runtime, Clock, Manager}
use eos_payg.MultiTask.{GTask}
use Digits.{string_to_unsigned, string_to_unsigned_lem}
use Sorting.{array_sort, count-array_sort, array_sort-IsSorted}

-- Eighteen zeros and the message.
abbrev pub digest : List ℕ → List ℕ → List ℕ
digest key message =
    0
    ∷ 0
    ∷ 0
    ∷ 0
    ∷ 0
    ∷ 0
    ∷ 0
    ∷ 0
    ∷ 0
    ∷ 0
    ∷ 0
    ∷ 0
    ∷ 0
    ∷ 0
    ∷ 0
    ∷ 0
    ∷ 0
    ∷ 0
    ∷ (get_or message 0 0 % 256)
    ∷ (get_or message 1 0 % 256)
    ∷ []

pub digest-bytes : (key message : List ℕ) → All (λ b. b < 256) (digest key message)
digest-bytes key message = omega arith

abbrev pub glib : Glib
glib = record {
  hmac_sha1 = digest;
  string_to_unsigned = string_to_unsigned;
  length-hmac_sha1 = λ key message. refl;
  hmac_sha1-bytes = digest-bytes;
  string_to_unsigned_iff = string_to_unsigned_lem;
}

abbrev pub checked_add : ℕ → ℕ → Option ℕ
checked_add a b = if ltb (a + b) (2 ^ 64) then some (a + b) else none

abbrev pub runtime : Runtime
runtime = record {
  glib = glib;
  uint64_checked_add = checked_add;
  array_sort = array_sort;
  uint64_checked_add_fits = λ a b h. ground arith;
  uint64_checked_add_overflow = λ a b h. ground arith;
  count-array_sort = count-array_sort;
  array_sort-IsSorted = array_sort-IsSorted;
}

-- A task as the calls that it has seen: `some` of an error, or `none` for a plain return. A
-- cancellation stands as the error 19, `G_IO_ERROR_CANCELLED`.
abbrev pub gtask : GTask
gtask = record {
  Handle = List (Option ℕ);
  had_error = failed;
  return_boolean = λ t b. none ∷ t;
  return_pointer = λ t p. none ∷ t;
  return_error = λ t e. some e ∷ t;
  cancel = λ t. some 19 ∷ t;
  had_error-return_error = λ t e. refl;
  had_error-cancel = λ t. refl;
}
  where
    failed : List (Option ℕ) → Bool
    failed [] = false
    failed (some e ∷ t) = true
    failed (none ∷ t) = failed t

-- A working clock that shows `t` seconds.
abbrev pub clock_at : ℕ → Clock
clock_at t = record {
  time = t;
  wallclock = 1500000000 + t;
  save_time = t;
  save_wallclock = 1500000000 + t;
  source_ok = true;
}

-- An enabled manager with a key of 64 bytes that has seen no code.
abbrev pub fresh : Manager
fresh = record {
  used_codes = [];
  expiry_time_secs = 0;
  enabled = true;
  key_bytes = replicate 64 7;
  account_id = [];
  expiry = none;
  last_save_time_secs = 0;
  last_save_expiry_secs = 0;
  last_save_time_secs_set = false;
  last_save_expiry_secs_set = false;
  rate_limiting_history = replicate 10 0;
  rate_limit_end_time_secs = 0;
  pending_internal_save_state_calls = 0;
  pending_shutdown = false;
  is_cancelled = false;
  events = [];
}
