-- ===== src/Efi/Efivarfs.antt =====
-- `efivarfs_ops` of libeos-payg/efi.c: the variables of the firmware, as files of the directory that
-- `efi_fd` is open on. What the kernel does is the record `Kernel`, whose states have type `F`; if
-- `efi_fd` is -1, every call of it fails.
pub mod Contents
pub mod Writes
pub mod Variables
pub mod Flags
pub mod Sizes
use eos_payg.Base.{
  ℕ, ◌+◌, ◌-◌, Bool, true, false, not, Option, none, some, List, [], ◌∷◌, ◌==◌, ltb, length,
  if◌then◌else◌,
}
use eos_payg.Efi.{Name, has_prefix, eospayg_prefix, eospayg_efi_name, EfiOps}

-- What `openat` gives: a descriptor, the error `ENOENT`, or another one.
pub data Opened : Type 0 where
  opened missing refused : Opened

-- The system calls, on the file of a name. A `read` is given its offset and its count.
pub record Kernel (F : Type 0) : Type 0 where
  pub openat_read : Name → F → Opened
  pub openat_write : Name → Bool → F → F × Bool
  pub getflags : Name → F → Bool
  pub setflags : Name → F → F × Bool
  pub read : Name → ℕ → ℕ → F → Option (List ℕ)
  pub fstat : Name → F → Option ℕ
  pub write : Name → List ℕ → F → F × Option ℕ
  pub unlinkat : Name → F → F × Bool
  pub faccessat : Name → F → Bool

-- What `efivarfs_read` returns and sets: the content, or whether the error is that the file is not
-- there, and `*size`, where `none` is -1.
pub record Reading : Type 0 where
  pub content : Option (List ℕ)
  pub is_not_found : Bool
  pub size : Option ℕ

abbrev pub read_error : Bool → Option ℕ → Reading
read_error is_not_found size = record { content = none; is_not_found = is_not_found; size = size }

-- `{ 7, 0, 0, 0 }`.
abbrev pub attr : List ℕ
attr = 7 ∷ 0 ∷ 0 ∷ 0 ∷ []

module _ {F : Type 0} (K : Kernel F) where
  abbrev is_opened : Opened → Bool
  is_opened opened = true
  is_opened _ = false

  unfoldable pub clear_immutable : Name → F → F × Bool
  clear_immutable name f =
      if not (is_opened (K.openat_read name f))
      then (f, false)
      else if not (K.getflags name f)
      then (f, false)
      else K.setflags name f

  -- The number of bytes written, against the size of the buffer.
  abbrev pub is_whole : Option ℕ → ℕ → Bool
  is_whole none tsize = false
  is_whole (some ret) tsize = not (ltb ret tsize)

  abbrev pub write_opened : Name → List ℕ → F × Bool → F × Bool
  write_opened name tbuf (f, false) = (f, false)
  write_opened name tbuf (f, true) =
      let (f', ret) = K.write name tbuf f in (f', is_whole ret (length tbuf))

  unfoldable pub efivarfs_write : Name → List ℕ → Bool → F → F × Bool
  unfolding clear_immutable
  efivarfs_write name content allow_overwrite f =
      let f' = if allow_overwrite then (clear_immutable name f).0 else f in
      write_opened name (7 ∷ 0 ∷ 0 ∷ 0 ∷ content) (K.openat_write name (not allow_overwrite) f')

  unfoldable pub efivarfs_delete : Name → F → F × Bool
  unfolding clear_immutable
  efivarfs_delete name f = K.unlinkat name (clear_immutable name f).0

  unfoldable pub efivarfs_exists : Name → F → Bool
  efivarfs_exists name f = K.faccessat (eospayg_efi_name name) f

  -- The end of `efivarfs_read`: the bytes behind the attributes.
  abbrev pub read_content : ℕ → Option (List ℕ) → Reading
  read_content fsize none = read_error false none
  read_content fsize (some tout) =
      if length tout == fsize
      then record { content = some tout; is_not_found = false; size = some fsize }
      else read_error false none

  abbrev pub read_sized : Name → F → Option ℕ → Reading
  read_sized name f none = read_error false none
  read_sized name f (some fsize) =
      if ltb fsize 5
      then read_error false (some 0)
      else read_content (fsize - 4) (K.read name 4 (fsize - 4) f)

  abbrev pub read_attr : Name → F → Option (List ℕ) → Reading
  read_attr name f none = read_error false none
  read_attr name f (some bytes_read) =
      if length bytes_read == 4 then read_sized name f (K.fstat name f) else read_error false none

  abbrev pub read_opened : Name → F → Opened → Reading
  read_opened name f missing = read_error true none
  read_opened name f refused = read_error false none
  read_opened name f opened = read_attr name f (K.read name 0 4 f)

  unfoldable pub efivarfs_read : Name → F → Reading
  efivarfs_read name f = read_opened name f (K.openat_read name f)

  -- `eospayg_efi_PK_size`, given the full name of the variable PK; `none` is -1.
  unfoldable pub pk_size : Bool → Name → F → Option ℕ
  pk_size test_mode tname f = if test_mode then none else (efivarfs_read tname f).size

  abbrev pub efivarfs_ops : EfiOps F
  efivarfs_ops = record {
    exists = efivarfs_exists;
    read = λ name f. (efivarfs_read name f).content;
    write = efivarfs_write;
    delete = efivarfs_delete;
  }

-- `efivarfs_list_next`, over the names that `readdir` has yet to give.
unfoldable pub efivarfs_list_next : List Name → List Name × Option Name
efivarfs_list_next [] = ([], none)
efivarfs_list_next (d_name ∷ rest) =
    let next = efivarfs_list_next rest in
    if has_prefix eospayg_prefix d_name then (rest, some d_name) else next
