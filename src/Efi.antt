-- ===== src/Efi.antt =====
-- libeos-payg/efi.c: the guarded access to EFI variables, over an interface with the operations of
-- `struct efi_ops`. `test_ops`, the store in memory, is in `Efi/Store`; `efivarfs_ops` is the kernel's.
--
-- Names and contents are lists of bytes; the size of a content is its length. `efi` is set, which
-- the guards of every function ask for.
pub mod Names
pub mod Store
pub mod Guards
pub mod Efivarfs
pub mod Init
pub mod Boot
use eos_payg.Base.{
  ℕ, Bool, true, false, not, Option, none, some, List, [], ◌∷◌, ◌++◌, ◌==◌, ◌&&◌, if◌then◌else◌,
  length,
}

abbrev pub Name : Type 0
Name = List ℕ

-- `strcmp (a, b) == 0`.
abbrev pub same_name : Name → Name → Bool
same_name [] [] = true
same_name (a ∷ s) (b ∷ t) = a == b && same_name s t
same_name _ _ = false

-- `strncmp (name, prefix, strlen (prefix)) == 0`.
abbrev pub has_prefix : Name → Name → Bool
has_prefix [] name = true
has_prefix (p ∷ prefix) (c ∷ name) = p == c && has_prefix prefix name
has_prefix (p ∷ prefix) [] = false

-- "EOSPAYG_".
abbrev pub eospayg_prefix : Name
eospayg_prefix = b'E' ∷ b'O' ∷ b'S' ∷ b'P' ∷ b'A' ∷ b'Y' ∷ b'G' ∷ b'_' ∷ []

-- "d89c3871-ae0c-4fc5-a409-dc717aee61e7".
abbrev pub eospayg_guid : Name
eospayg_guid =
    b'd' ∷ b'8' ∷ b'9' ∷ b'c' ∷ b'3' ∷ b'8' ∷ b'7' ∷ b'1' ∷ b'-' ∷ b'a' ∷ b'e' ∷ b'0' ∷ b'c' ∷ b'-'
    ∷ b'4' ∷ b'f' ∷ b'c' ∷ b'5' ∷ b'-' ∷ b'a' ∷ b'4' ∷ b'0' ∷ b'9' ∷ b'-' ∷ b'd' ∷ b'c' ∷ b'7'
    ∷ b'1' ∷ b'7' ∷ b'a' ∷ b'e' ∷ b'e' ∷ b'6' ∷ b'1' ∷ b'e' ∷ b'7' ∷ []

unfoldable pub full_efi_name : Name → Name → Name
full_efi_name guid name = name ++ (b'-' ∷ guid)

unfoldable pub eospayg_efi_name : Name → Name
eospayg_efi_name name = full_efi_name eospayg_guid (eospayg_prefix ++ name)

-- The operations of `struct efi_ops` that the functions below call, on a store.
pub record EfiOps (Store : Type 0) : Type 0 where
  pub exists : Name → Store → Bool
  pub read : Name → Store → Option (List ℕ)
  pub write : Name → List ℕ → Bool → Store → Store × Bool
  pub delete : Name → Store → Store × Bool

module _ {Store : Type 0} (efi : EfiOps Store) where
  -- A store, and whether the root pivot has been crossed.
  pub record Efi : Type 0 where
    pub store : Store
    pub post_pivot : Bool

  unfoldable pub root_pivot : Efi → Efi
  root_pivot e = record e { post_pivot = true }

  -- The flags of the following functions say whether they succeeded.
  abbrev pub with_store : Efi → Store × Bool → Efi × Bool
  with_store e (store, done) = (record e { store = store }, done)

  unfoldable pub var_write : Name → List ℕ → Efi → Efi × Bool
  var_write name content e =
      with_store e (efi.write (eospayg_efi_name name) content (not e.post_pivot) e.store)

  unfoldable pub var_overwrite : Name → List ℕ → Efi → Efi × Bool
  var_overwrite name content e =
      if e.post_pivot
      then (e, false)
      else with_store e (efi.write (eospayg_efi_name name) content true e.store)

  unfoldable pub var_delete_fullname : Name → Efi → Efi × Bool
  var_delete_fullname name e =
      if not (has_prefix eospayg_prefix name)
      then (e, false)
      else with_store e (efi.delete name e.store)

  unfoldable pub var_delete : Name → Efi → Efi × Bool
  var_delete name e = var_delete_fullname (eospayg_efi_name name) e

  unfoldable pub var_exists : Name → Efi → Bool
  var_exists name e = efi.exists name e.store

  -- `expected_size` of `none` is -1.
  abbrev pub is_expected : Option ℕ → ℕ → Bool
  is_expected none size = true
  is_expected (some expected) size = expected == size

  unfoldable pub var_read_fullname : Name → Option ℕ → Efi → Option (List ℕ)
  var_read_fullname name expected_size e =
      if e.post_pivot then none else elim (efi.read name e.store) [
        | none ↦ none
        | some content ↦ if is_expected expected_size (length content) then some content else none
      ]

  unfoldable pub var_read : Name → Option ℕ → Efi → Option (List ℕ)
  var_read name expected_size e = var_read_fullname (eospayg_efi_name name) expected_size e
