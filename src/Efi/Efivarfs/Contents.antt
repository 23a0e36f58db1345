-- ===== src/Efi/Efivarfs/Contents.antt =====
-- What the files of efivarfs contain, over the documented behaviour of the kernel.
use eos_payg.Base.{
  ℕ, ◌-◌, ◌≤◌, ◌≡◌, ◌≢◌, inl, inr, refl, ap, ◌∙◌, Bool, true, false, Option, none, some, List, [],
  ◌∷◌, ltb, length, take, drop, Bool-cases, arith,
}
use eos_payg.Efi.{Name}
use eos_payg.Efi.Efivarfs.{
  Kernel, Opened, opened, missing, refused, read_sized, read_content, read_attr, read_opened,
  efivarfs_read,
}

-- The documented behaviour of the calls, where `contents` are the bytes of the file of a name, if
-- there is one. A call may fail at any time. As efivarfs has it, a `read` gives all that it is asked
-- for and that is there, and a `write` replaces the file.
pub record Documented {F : Type 0} (K : Kernel F) : Type 0 where
  pub contents : Name → F → Option (List ℕ)
  pub openat_read_opened :
      (name : Name) (f : F)
      → K.openat_read name f ≡ opened
      → (bytes : List ℕ) × (contents name f ≡ some bytes)
  pub openat_read_missing :
      (name : Name) (f : F) → K.openat_read name f ≡ missing → contents name f ≡ none
  pub read_bytes :
      (name : Name) (offset count : ℕ) (f : F) (bytes bs : List ℕ)
      → contents name f ≡ some bytes
      → K.read name offset count f ≡ some bs
      → bs ≡ take count (drop offset bytes)
  pub fstat_size :
      (name : Name) (f : F) (bytes : List ℕ) (size : ℕ)
      → contents name f ≡ some bytes
      → K.fstat name f ≡ some size
      → size ≡ length bytes
  pub setflags_keeps :
      (name other : Name) (f : F) → contents other (K.setflags name f).0 ≡ contents other f
  pub openat_write_excl :
      (name : Name) (f : F) → (K.openat_write name true f).1 ≡ true → contents name f ≡ none
  pub openat_write_others :
      (name other : Name) (excl : Bool) (f : F)
      → name ≢ other
      → contents other (K.openat_write name excl f).0 ≡ contents other f
  pub openat_write_refused :
      (name : Name) (excl : Bool) (f : F)
      → (K.openat_write name excl f).1 ≡ false
      → contents name (K.openat_write name excl f).0 ≡ contents name f
  pub write_whole :
      (name : Name) (buffer : List ℕ) (f : F) (ret : ℕ)
      → (K.write name buffer f).1 ≡ some ret
      → length buffer ≤ ret
      → contents name (K.write name buffer f).0 ≡ some buffer
  pub write_others :
      (name other : Name) (buffer : List ℕ) (f : F)
      → name ≢ other
      → contents other (K.write name buffer f).0 ≡ contents other f
  pub unlinkat_done :
      (name : Name) (f : F)
      → (K.unlinkat name f).1 ≡ true
      → contents name (K.unlinkat name f).0 ≡ none
  pub unlinkat_others :
      (name other : Name) (f : F)
      → name ≢ other
      → contents other (K.unlinkat name f).0 ≡ contents other f
  pub faccessat_exists :
      (name : Name) (f : F)
      → K.faccessat name f ≡ true
      → (bytes : List ℕ) × (contents name f ≡ some bytes)

-- No call on a file that is there fails.
pub record IsReliable {F : Type 0} (K : Kernel F) (D : Documented K) : Type 0 where
  pub opens :
      (name : Name) (f : F) (bytes : List ℕ)
      → D.contents name f ≡ some bytes
      → K.openat_read name f ≡ opened
  pub reads :
      (name : Name) (offset count : ℕ) (f : F) (bytes : List ℕ)
      → D.contents name f ≡ some bytes
      → K.read name offset count f ≡ some (take count (drop offset bytes))
  pub sizes :
      (name : Name) (f : F) (bytes : List ℕ)
      → D.contents name f ≡ some bytes
      → K.fstat name f ≡ some (length bytes)
  pub accesses :
      (name : Name) (f : F) (bytes : List ℕ)
      → D.contents name f ≡ some bytes
      → K.faccessat name f ≡ true

take_all : (bs : List ℕ) → take (length bs) bs ≡ bs
take_all [] = refl
take_all (b ∷ bs) = ap (λ rest. b ∷ rest) (take_all bs)

module _ {F : Type 0} (K : Kernel F) (D : Documented K) where
  -- The calls of a reading that succeeds.
  pub record Reads (name : Name) (f : F) (c : List ℕ) : Type 0 where
    pub was_opened : K.openat_read name f ≡ opened
    pub fsize : ℕ
    pub sized : K.fstat name f ≡ some fsize
    pub not_short : 5 ≤ fsize
    pub rest_read : K.read name 4 (fsize - 4) f ≡ some c

  content_read :
      (n : ℕ) (rest : Option (List ℕ)) (c : List ℕ)
      → (read_content K n rest).content ≡ some c
      → rest ≡ some c
  content_read n rest c h = ground arith

  module _ (name : Name) (f : F) (c : List ℕ) (was_opened : K.openat_read name f ≡ opened) where
    size_read :
        (s : Option ℕ)
        → K.fstat name f ≡ s
        → (read_sized K name f s).content ≡ some c
        → Reads name f c
    size_read none sized h = absurd (ground arith)
    size_read (some fsize) sized h = elim (Bool-cases (ltb fsize 5)) [
      | inl short ↦ absurd (ground (arith, short, h))
      | inr long ↦ record {
        was_opened = was_opened;
        fsize = fsize;
        sized = sized;
        not_short = ground (arith, long);
        rest_read =
            content_read (fsize - 4) (K.read name 4 (fsize - 4) f) c (ground (arith, long, h));
      }
    ]

    attr_read : (r : Option (List ℕ)) → (read_attr K name f r).content ≡ some c → Reads name f c
    attr_read none h = absurd (ground arith)
    attr_read (some bytes_read) h = size_read (K.fstat name f) refl (ground (arith, h))

  Reads-read :
      (name : Name) (f : F) (c : List ℕ) (o : Opened)
      → K.openat_read name f ≡ o
      → (read_opened K name f o).content ≡ some c
      → Reads name f c
  Reads-read name f c opened was_opened h = attr_read name f c was_opened (K.read name 0 4 f) h
  Reads-read name f c missing was h = absurd (ground arith)
  Reads-read name f c refused was h = absurd (ground arith)

  -- What is behind the four bytes of attributes.
  behind :
      (bytes : List ℕ) → 5 ≤ length bytes → take (length bytes - 4) (drop 4 bytes) ≡ drop 4 bytes
  behind (a ∷ b ∷ c ∷ d ∷ rest) h = ap (λ n. take n rest) (omega arith) ∙ take_all rest
  behind [] h = absurd (omega arith)
  behind (a ∷ []) h = absurd (omega arith)
  behind (a ∷ b ∷ []) h = absurd (omega arith)
  behind (a ∷ b ∷ c ∷ []) h = absurd (omega arith)

  -- A content that was read is the file's, without its attributes.
  pub efivarfs_read-contents :
      (name : Name) (f : F) (c : List ℕ)
      → (efivarfs_read K name f).content ≡ some c
      → (bytes : List ℕ) × (D.contents name f ≡ some bytes)
        × (5 ≤ length bytes)
        × (c ≡ drop 4 bytes)
  unfolding efivarfs_read
  efivarfs_read-contents name f c h =
      let reads = Reads-read name f c (K.openat_read name f) refl h in
      let (bytes, there) = D.openat_read_opened name f reads.was_opened in
      let size = D.fstat_size name f bytes reads.fsize there reads.sized in
      let long : 5 ≤ length bytes = omega (arith, size, reads.not_short) in
      (
        bytes,
        there,
        long,
        D.read_bytes name 4 (reads.fsize - 4) f bytes c there reads.rest_read
            ∙ ap (λ n. take (n - 4) (drop 4 bytes)) size
            ∙ behind bytes long,
      )

  -- A file that is there, with a content behind its attributes, is read if no call fails.
  pub efivarfs_read_reliable :
      (name : Name) (f : F) (a b c d e : ℕ) (rest : List ℕ)
      → IsReliable K D
      → D.contents name f ≡ some (a ∷ b ∷ c ∷ d ∷ e ∷ rest)
      → (efivarfs_read K name f).content ≡ some (e ∷ rest)
  unfolding efivarfs_read
  efivarfs_read_reliable name f a b c d e rest works there =
      let bytes = a ∷ b ∷ c ∷ d ∷ e ∷ rest in
      let all : take (length bytes - 4) (e ∷ rest) ≡ e ∷ rest = behind bytes (omega arith) in
      rw
        (
          efivarfs_read,
          works.opens name f bytes there,
          works.reads name 0 4 f bytes there,
          works.sizes name f bytes there,
          works.reads name 4 (length bytes - 4) f bytes there,
        )
        (ground (arith, all))
