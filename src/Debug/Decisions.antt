-- ===== src/Debug/Decisions.antt =====
-- Which bit of EOSPAYG_debug each decision follows.
use eos_payg.Base.{
  ℕ, ◌/◌, ◌%◌, ◌^◌, ◌<◌, ◌⊎◌, ◌≡◌, refl, Bool, true, false, not, Option, none, some, List, ◌∷◌,
  ◌==◌, if◌then◌else◌, check_below, check_below_lem, ==_iff, arith,
}
use eos_payg.Debug.{
  EfiVariables, has_flag, flags_of, read_eospayg_debug, set_debug_env_vars, get_secure_boot_enabled,
  get_eospayg_active_set, should_use_watchdog, should_use_lsm, should_check_securitylevel,
}

-- The flags are the byte.
flags_table : check_below (λ b. flags_of b == b) 256 ≡ true
unfolding check_below flags_of
flags_table = refl

flags_of_lem : (b : ℕ) → b < 256 → flags_of b ≡ b
flags_of_lem b h =
    (==_iff (flags_of b) b).0 (check_below_lem (λ b. flags_of b == b) 256 b h flags_table)

-- Bit `k` of a number.
abbrev pub bit : ℕ → ℕ → Bool
bit k b = b / 2 ^ k % 2 == 1

abbrev agree : Bool → Bool → Bool
agree true c = c
agree false c = not c

agree_lem : (b c : Bool) → agree b c ≡ true → b ≡ c
agree_lem true c h = ground arith
agree_lem false c h = ground arith

bits_table : check_below (λ b. check_below (λ k. agree (has_flag b (2 ^ k)) (bit k b)) 8) 256 ≡ true
unfolding check_below
bits_table = refl

has_flag-bit : (k b : ℕ) → k < 8 → b < 256 → has_flag b (2 ^ k) ≡ bit k b
has_flag-bit k b hk hb = agree_lem (has_flag b (2 ^ k)) (bit k b) (
    check_below_lem (λ k. agree (has_flag b (2 ^ k)) (bit k b)) 8 k hk
      (check_below_lem (λ b. check_below (λ k. agree (has_flag b (2 ^ k)) (bit k b)) 8) 256 b hb
        bits_table))

-- The flag of EOSPAYG_debug with content `b ∷ rest`.
flag_read :
    (v : EfiVariables) (b : ℕ) (rest : List ℕ) (k : ℕ)
    → v.debug_exists ≡ true
    → v.debug_content ≡ some (b ∷ rest)
    → b < 256
    → k < 8
    → has_flag (read_eospayg_debug v) (2 ^ k) ≡ bit k b
unfolding read_eospayg_debug
flag_read v b rest k there content fits low =
    let flags : read_eospayg_debug v ≡ b = simp (there, content) (flags_of_lem b fits) in
    rw flags (has_flag-bit k b low fits)

-- If EOSPAYG_debug can be read and its first byte is below 256, each of its bits decides its own
-- question: debug messages, secure boot, whether PAYG is active, watchdog, LSM and security level;
-- off wins over on.
pub decisions_lem :
    (v : EfiVariables) (b : ℕ) (rest : List ℕ)
    → v.debug_exists ≡ true
    → v.debug_content ≡ some (b ∷ rest)
    → b < 256
    → (set_debug_env_vars v none ≡ (if bit 0 b then some true else none))
      × (get_secure_boot_enabled v
          ≡ (if bit 1 b then false else if bit 2 b then true else v.secureboot_active))
      × (get_eospayg_active_set v
          ≡ (if bit 3 b then false else if bit 4 b then true else v.active_exists))
      × (should_use_watchdog v ≡ not (bit 5 b))
      × (should_use_lsm v ≡ not (bit 6 b))
      × (should_check_securitylevel v ≡ not (bit 7 b))
unfolding set_debug_env_vars get_secure_boot_enabled get_eospayg_active_set should_use_watchdog
    should_use_lsm should_check_securitylevel
decisions_lem v b rest there content fits =
    let flag : (k : ℕ) → k < 8 → has_flag (read_eospayg_debug v) (2 ^ k) ≡ bit k b =
      λ k. flag_read v b rest k there content fits in
    (
      rw (flag 0 (omega arith)) refl,
      rw (flag 1 (omega arith), flag 2 (omega arith)) refl,
      rw (flag 3 (omega arith), flag 4 (omega arith)) refl,
      rw (flag 5 (omega arith)) refl,
      rw (flag 6 (omega arith)) refl,
      rw (flag 7 (omega arith)) refl,
    )

none_read :
    (v : EfiVariables)
    → (v.debug_exists ≡ false) ⊎ (v.debug_content ≡ none)
    → read_eospayg_debug v ≡ 0
unfolding read_eospayg_debug
none_read v unread = ground arith

-- If EOSPAYG_debug is missing or cannot be read, no decision is overridden.
pub default_decisions_lem :
    (v : EfiVariables) (env : Option Bool)
    → (v.debug_exists ≡ false) ⊎ (v.debug_content ≡ none)
    → (set_debug_env_vars v env ≡ env)
      × (get_secure_boot_enabled v ≡ v.secureboot_active)
      × (get_eospayg_active_set v ≡ v.active_exists)
      × (should_use_watchdog v ≡ true)
      × (should_use_lsm v ≡ true)
      × (should_check_securitylevel v ≡ true)
unfolding set_debug_env_vars get_secure_boot_enabled get_eospayg_active_set should_use_watchdog
    should_use_lsm should_check_securitylevel
default_decisions_lem v env unread =
    let flags : read_eospayg_debug v ≡ 0 = none_read v unread in
    (rw flags refl, rw flags refl, rw flags refl, rw flags refl, rw flags refl, rw flags refl)
