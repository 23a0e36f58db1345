-- ===== src/Efi/Efivarfs/Writes.antt =====
-- What the writes and the deletions of efivarfs do to the files.
use eos_payg.Base.{
  ℕ, ◌≡◌, ◌≢◌, inl, inr, refl, ap, ◌∙◌, Bool, true, false, none, some, List, ◌∷◌, Bool-cases,
  Option-cases, arith,
}
use eos_payg.Efi.{Name}
use eos_payg.Efi.Names.{Name-cases}
use eos_payg.Efi.Efivarfs.{Kernel, write_opened, clear_immutable, efivarfs_write, efivarfs_delete}
use eos_payg.Efi.Efivarfs.Contents.{Documented}

module _ {F : Type 0} (K : Kernel F) (D : Documented K) where
  clear_immutable_keeps :
      (name other : Name) (f : F)
      → D.contents other (clear_immutable K name f).0 ≡ D.contents other f
  unfolding clear_immutable
  clear_immutable_keeps name other f = ground (arith, D.setflags_keeps name other f)

  -- A write opens the file, which is not there before if it may not be overwritten, and puts the
  -- attributes and the content into it.
  write_opened_lem :
      (name : Name) (tbuf : List ℕ) (f : F) (ok : Bool)
      → (write_opened K name tbuf (f, ok)).1 ≡ true
      → (ok ≡ true) × (D.contents name (write_opened K name tbuf (f, ok)).0 ≡ some tbuf)
  write_opened_lem name tbuf f false h = absurd (ground arith)
  write_opened_lem name tbuf f true h = elim (Option-cases (K.write name tbuf f).1) [
    | inl lost ↦ absurd (ground (arith, lost, h))
    | inr (ret, wrote) ↦ (refl, D.write_whole name tbuf f ret wrote (ground (arith, wrote, h)))
  ]

  write_opened_others :
      (name other : Name) (tbuf : List ℕ) (f : F) (ok : Bool)
      → name ≢ other
      → D.contents other (write_opened K name tbuf (f, ok)).0 ≡ D.contents other f
  write_opened_others name other tbuf f false differs = refl
  write_opened_others name other tbuf f true differs = D.write_others name other tbuf f differs

  write_opened_shut :
      (name : Name) (tbuf : List ℕ) (f : F) (ok : Bool)
      → ok ≡ false
      → (write_opened K name tbuf (f, ok)).0 ≡ f
  write_opened_shut name tbuf f false shut = refl
  write_opened_shut name tbuf f true shut = absurd (ground arith)

  -- Whatever comes of a write, the other files are as before; if it succeeds, its own file holds the
  -- attributes and the content, and was not there before unless it may be overwritten.
  pub efivarfs_write_lem :
      (name : Name) (content : List ℕ) (allow_overwrite : Bool) (f : F)
      → let r = efivarfs_write K name content allow_overwrite f in
        ((other : Name) → name ≢ other → D.contents other r.0 ≡ D.contents other f)
        × (r.1 ≡ true
            → (D.contents name r.0 ≡ some (7 ∷ 0 ∷ 0 ∷ 0 ∷ content))
              × (allow_overwrite ≡ false → D.contents name f ≡ none))
  unfolding efivarfs_write
  efivarfs_write_lem name content true f =
      let f' = (clear_immutable K name f).0 in
      let o = K.openat_write name false f' in
      (
        λ other differs.
            write_opened_others name other (7 ∷ 0 ∷ 0 ∷ 0 ∷ content) o.0 o.1 differs
            ∙ D.openat_write_others name other false f' differs
            ∙ clear_immutable_keeps name other f,
        λ done. ((write_opened_lem name (7 ∷ 0 ∷ 0 ∷ 0 ∷ content) o.0 o.1 done).1, λ no. cc),
      )
  efivarfs_write_lem name content false f =
      let o = K.openat_write name true f in
      (
        λ other differs.
            write_opened_others name other (7 ∷ 0 ∷ 0 ∷ 0 ∷ content) o.0 o.1 differs
            ∙ D.openat_write_others name other true f differs,
        λ done.
            let r = write_opened_lem name (7 ∷ 0 ∷ 0 ∷ 0 ∷ content) o.0 o.1 done in
            (r.1, λ _. D.openat_write_excl name f r.0),
      )

  pub efivarfs_delete_lem :
      (name : Name) (f : F)
      → let r = efivarfs_delete K name f in
        ((other : Name) → name ≢ other → D.contents other r.0 ≡ D.contents other f)
        × (r.1 ≡ true → D.contents name r.0 ≡ none)
  unfolding efivarfs_delete
  efivarfs_delete_lem name f =
      let f' = (clear_immutable K name f).0 in
      (
        λ other differs.
            D.unlinkat_others name other f' differs ∙ clear_immutable_keeps name other f,
        λ done. D.unlinkat_done name f' done,
      )

  missing_there :
      (name other : Name) (bytes : List ℕ) (f : F)
      → name ≡ other
      → (K.openat_write name true f).1 ≡ true
      → D.contents other f ≡ some bytes
      → ⊥
  missing_there name other bytes f same created there =
      cc (D.openat_write_excl name f created, ap (λ n. D.contents n f) same)

  -- Without leave to overwrite, a file that is there stays as it is.
  pub efivarfs_write_there :
      (name other : Name) (content bytes : List ℕ) (f : F)
      → D.contents other f ≡ some bytes
      → D.contents other (efivarfs_write K name content false f).0 ≡ some bytes
  unfolding efivarfs_write
  efivarfs_write_there name other content bytes f there =
      let tbuf = 7 ∷ 0 ∷ 0 ∷ 0 ∷ content in
      elim (Name-cases name other) [
        | inr differs ↦
            write_opened_others name other tbuf (K.openat_write name true f).0
              (K.openat_write name true f).1 differs
            ∙ D.openat_write_others name other true f differs
            ∙ there
        | inl same ↦ elim (Bool-cases (K.openat_write name true f).1) [
          | inl created ↦ absurd (missing_there name other bytes f same created there)
          | inr excluded ↦ cc (
            write_opened_shut name tbuf (K.openat_write name true f).0
                (K.openat_write name true f).1 excluded,
            D.openat_write_refused name true f excluded,
          )
        ]
      ]
