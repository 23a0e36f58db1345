-- ===== src/Efi/Efivarfs/Variables.antt =====
-- The guarded access to variables, over efivarfs.
use eos_payg.Base.{
  ℕ, ◌≡◌, ◌≢◌, ◌⊎◌, inl, inr, refl, ap, ◌∙◌, Bool, true, false, not, Option, none, some, List, [],
  ◌∷◌, length, if◌then◌else◌, Bool-cases, arith,
}
use eos_payg.Efi.{
  Name, has_prefix, eospayg_prefix, eospayg_efi_name, Efi, root_pivot, var_write, var_overwrite,
  var_delete_fullname, var_delete, var_exists, var_read_fullname, var_read, is_expected,
}
use eos_payg.Efi.Names.{eospayg_efi_name-prefix}
use eos_payg.Efi.Guards.{
  Access, write, overwrite, delete, delete_fullname, pivot, access, accesses, access-post_pivot,
}
use eos_payg.Efi.Efivarfs.{Kernel, efivarfs_read, efivarfs_exists, efivarfs_write, efivarfs_ops}
use eos_payg.Efi.Efivarfs.Contents.{Documented, IsReliable, efivarfs_read_reliable}
use eos_payg.Efi.Efivarfs.Writes.{efivarfs_write_lem, efivarfs_write_there, efivarfs_delete_lem}

module _ {F : Type 0} (K : Kernel F) (D : Documented K) where
  -- A name without the prefix is none of the program's.
  foreign :
      (name other : Name)
      → has_prefix eospayg_prefix name ≡ true
      → has_prefix eospayg_prefix other ≡ false
      → name ≢ other
  foreign name other ours theirs same = cc (ap (has_prefix eospayg_prefix) same)

  delete-foreign :
      (name : Name) (e : Efi (efivarfs_ops K)) (other : Name)
      → has_prefix eospayg_prefix other ≡ false
      → D.contents other (var_delete_fullname (efivarfs_ops K) name e).0.store
        ≡ D.contents other e.store
  unfolding var_delete_fullname
  delete-foreign name e other theirs = elim (Bool-cases (has_prefix eospayg_prefix name)) [
    | inr stranger ↦ simp stranger refl
    | inl ours ↦
        simp ours ((efivarfs_delete_lem K D name e.store).0 other (foreign name other ours theirs))
  ]

  overwrite-late :
      (name : Name) (content : List ℕ) (e : Efi (efivarfs_ops K))
      → e.post_pivot ≡ true
      → (var_overwrite (efivarfs_ops K) name content e).0 ≡ e
  unfolding var_overwrite
  overwrite-late name content e late = simp late refl

  overwrite-early :
      (name : Name) (content : List ℕ) (e : Efi (efivarfs_ops K))
      → e.post_pivot ≡ false
      → (var_overwrite (efivarfs_ops K) name content e).0.store
        ≡ (efivarfs_write K (eospayg_efi_name name) content true e.store).0
  unfolding var_overwrite
  overwrite-early name content e early = simp early refl

  overwrite-foreign :
      (name : Name) (content : List ℕ) (e : Efi (efivarfs_ops K)) (other : Name)
      → has_prefix eospayg_prefix other ≡ false
      → (e.post_pivot ≡ true) ⊎ (e.post_pivot ≡ false)
      → D.contents other (var_overwrite (efivarfs_ops K) name content e).0.store
        ≡ D.contents other e.store
  overwrite-foreign name content e other theirs (inl late) =
      ap (λ e'. D.contents other e'.store) (overwrite-late name content e late)
  overwrite-foreign name content e other theirs (inr early) =
      ap (D.contents other) (overwrite-early name content e early)
      ∙ (efivarfs_write_lem K D (eospayg_efi_name name) content true e.store).0 other
          (foreign (eospayg_efi_name name) other (eospayg_efi_name-prefix name) theirs)

  access-foreign :
      (a : Access) (e : Efi (efivarfs_ops K)) (other : Name)
      → has_prefix eospayg_prefix other ≡ false
      → D.contents other (access (efivarfs_ops K) a e).store ≡ D.contents other e.store
  unfolding access var_write var_delete root_pivot
  access-foreign (write name content) e other theirs =
      (efivarfs_write_lem K D (eospayg_efi_name name) content (not e.post_pivot) e.store).0 other
        (foreign (eospayg_efi_name name) other (eospayg_efi_name-prefix name) theirs)
  access-foreign (overwrite name content) e other theirs =
      overwrite-foreign name content e other theirs (Bool-cases e.post_pivot)
  access-foreign (delete name) e other theirs =
      delete-foreign (eospayg_efi_name name) e other theirs
  access-foreign (delete_fullname name) e other theirs = delete-foreign name e other theirs
  access-foreign pivot e other theirs = refl

  -- Over efivarfs, on any kernel that does what is documented, however its calls fail, no sequence
  -- of writes, overwritings, deletions and pivots changes a file whose name does not begin with
  -- EOSPAYG_.
  pub accesses-foreign :
      (as' : List Access) (e : Efi (efivarfs_ops K)) (other : Name)
      → has_prefix eospayg_prefix other ≡ false
      → D.contents other (accesses (efivarfs_ops K) as' e).store ≡ D.contents other e.store
  unfolding accesses
  accesses-foreign [] e other theirs = refl
  accesses-foreign (a ∷ as') e other theirs =
      accesses-foreign as' (access (efivarfs_ops K) a e) other theirs
      ∙ access-foreign a e other theirs

  -- Whether no access of a sequence deletes a variable.
  abbrev pub keeps_all : List Access → Bool
  keeps_all [] = true
  keeps_all (delete name ∷ as') = false
  keeps_all (delete_fullname name ∷ as') = false
  keeps_all (write name content ∷ as') = keeps_all as'
  keeps_all (overwrite name content ∷ as') = keeps_all as'
  keeps_all (pivot ∷ as') = keeps_all as'

  write-late :
      (name other : Name) (content bytes : List ℕ) (e : Efi (efivarfs_ops K))
      → e.post_pivot ≡ true
      → D.contents other e.store ≡ some bytes
      → D.contents other (var_write (efivarfs_ops K) name content e).0.store ≡ some bytes
  unfolding var_write
  write-late name other content bytes e late there =
      simp late (efivarfs_write_there K D (eospayg_efi_name name) other content bytes e.store there)

  -- Over efivarfs, on any kernel that does what is documented, however its calls fail, after the
  -- root pivot no sequence of writes and overwritings changes a file that is there.
  pub accesses-late :
      (as' : List Access) (e : Efi (efivarfs_ops K)) (name : Name) (bytes : List ℕ)
      → e.post_pivot ≡ true
      → keeps_all as' ≡ true
      → D.contents name e.store ≡ some bytes
      → D.contents name (accesses (efivarfs_ops K) as' e).store ≡ some bytes
  unfolding accesses access root_pivot
  accesses-late [] e name bytes late keeps there = there
  accesses-late (write n content ∷ as') e name bytes late keeps there =
      accesses-late as' (var_write (efivarfs_ops K) n content e).0 name bytes
        (access-post_pivot (efivarfs_ops K) (write n content) e late) keeps
        (write-late n name content bytes e late there)
  accesses-late (overwrite n content ∷ as') e name bytes late keeps there =
      let same = overwrite-late n content e late in
      accesses-late as' (var_overwrite (efivarfs_ops K) n content e).0 name bytes
        (access-post_pivot (efivarfs_ops K) (overwrite n content) e late) keeps
        (ap (λ e'. D.contents name e'.store) same ∙ there)
  accesses-late (delete n ∷ as') e name bytes late keeps there = absurd (ground arith)
  accesses-late (delete_fullname n ∷ as') e name bytes late keeps there = absurd (ground arith)
  accesses-late (pivot ∷ as') e name bytes late keeps there =
      accesses-late as' (root_pivot (efivarfs_ops K) e) name bytes
        (access-post_pivot (efivarfs_ops K) pivot e late) keeps there

  module _ (works : IsReliable K D) where
    -- A content that is not empty and was written is read back.
    pub efivarfs_read-efivarfs_write :
        (name : Name) (b : ℕ) (rest : List ℕ) (allow_overwrite : Bool) (f : F)
        → (efivarfs_write K name (b ∷ rest) allow_overwrite f).1 ≡ true
        → (efivarfs_read K name (efivarfs_write K name (b ∷ rest) allow_overwrite f).0).content
          ≡ some (b ∷ rest)
    efivarfs_read-efivarfs_write name b rest allow_overwrite f wrote =
        efivarfs_read_reliable K D name (efivarfs_write K name (b ∷ rest) allow_overwrite f).0 7 0 0
          0 b rest works ((efivarfs_write_lem K D name (b ∷ rest) allow_overwrite f).1 wrote).0

    -- Over efivarfs, if no call on a file that is there fails, a variable that was written before
    -- the pivot with a content that is not empty exists under its short name and reads back with
    -- that content, unless another size is expected, which gives an error.
    pub var_exists-var_read-var_write :
        (name : Name) (b : ℕ) (rest : List ℕ) (size : Option ℕ) (e : Efi (efivarfs_ops K))
        → e.post_pivot ≡ false
        → (var_write (efivarfs_ops K) name (b ∷ rest) e).1 ≡ true
        → let e' = (var_write (efivarfs_ops K) name (b ∷ rest) e).0 in
          (var_exists (efivarfs_ops K) name e' ≡ true)
          × (var_read (efivarfs_ops K) name size e' ≡ (
              if is_expected (efivarfs_ops K) size (length (b ∷ rest))
              then some (b ∷ rest)
              else none))
    unfolding var_write var_exists var_read var_read_fullname efivarfs_exists
    var_exists-var_read-var_write name b rest size e early wrote =
        let full = eospayg_efi_name name in
        let f' = (efivarfs_write K full (b ∷ rest) (not e.post_pivot) e.store).0 in
        let written = (efivarfs_write_lem K D full (b ∷ rest) (not e.post_pivot) e.store).1 wrote in
        (
          works.accesses full f' (7 ∷ 0 ∷ 0 ∷ 0 ∷ b ∷ rest) written.0,
          simp
              (
                early,
                simp early at
                    (efivarfs_read-efivarfs_write full b rest (not e.post_pivot) e.store wrote),
              )
              refl,
        )
