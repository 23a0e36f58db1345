-- ===== src/Efi/Efivarfs/Sizes.antt =====
-- The size of the variable PK, and the listing of efivarfs.
use eos_payg.Base.{
  ℕ, zero, suc, ◌-◌, ◌≡◌, inl, inr, refl, ap, false, Option, none, some, List, [], ◌∷◌, ltb, length,
  drop, length-take, length-drop, if◌then◌else◌, Bool-cases, arith,
}
use eos_payg.Efi.{Name, has_prefix, eospayg_prefix}
use eos_payg.Efi.Store.Listing.{first_names}
use eos_payg.Efi.Efivarfs.{
  Kernel, Opened, opened, missing, refused, efivarfs_read, read_opened, pk_size, efivarfs_list_next,
}
use eos_payg.Efi.Efivarfs.Contents.{Documented, IsReliable}

module _ {F : Type 0} (K : Kernel F) (D : Documented K) (works : IsReliable K D) where
  missing_size :
      (name : Name) (f : F) (o : Opened)
      → K.openat_read name f ≡ o
      → D.contents name f ≡ none
      → (read_opened K name f o).size ≡ none
  missing_size name f missing at gone = refl
  missing_size name f refused at gone = refl
  missing_size name f opened at gone =
      let (bytes, there) = D.openat_read_opened name f at in absurd (ground (arith, gone, there))

  -- Over efivarfs, if no call on a file that is there fails, eospayg_efi_PK_size gives -1 if the
  -- file is missing, and also if it has fewer than 4 bytes, and otherwise its length without the 4
  -- bytes of attributes.
  pub pk_size_lem :
      (name : Name) (f : F)
      → (D.contents name f ≡ none → pk_size K false name f ≡ none)
        × ((bytes : List ℕ)
            → D.contents name f ≡ some bytes
            → pk_size K false name f
              ≡ (if ltb (length bytes) 4 then none else some (length bytes - 4)))
  unfolding pk_size efivarfs_read
  pk_size_lem name f = (
    missing_size name f (K.openat_read name f) refl,
    λ bytes there.
        rw
          (
            efivarfs_read,
            works.opens name f bytes there,
            works.reads name 0 4 f bytes there,
            works.sizes name f bytes there,
            works.reads name 4 (length bytes - 4) f bytes there,
          )
          (ground (
            arith,
            length-take 4 bytes,
            length-take (length bytes - 4) (drop 4 bytes),
            length-drop 4 bytes,
          )),
  )

-- The names of the program's variables among the entries of the directory.
ours : List Name → List Name
ours [] = []
ours (d_name ∷ rest) =
    let others = ours rest in if has_prefix eospayg_prefix d_name then d_name ∷ others else others

-- What `n` calls of `efivarfs_list_next` return.
list_times : ℕ → List Name → List (Option Name)
list_times zero entries = []
list_times (suc n) entries =
    let (rest, name) = efivarfs_list_next entries in name ∷ list_times n rest

-- The calls show the entries with the prefix, in their order, and then the end of the list.
list_times-efivarfs_list_next :
    (n : ℕ) (entries : List Name) → list_times n entries ≡ first_names n (ours entries)
unfolding list_times efivarfs_list_next first_names ours
list_times-efivarfs_list_next zero entries = refl
list_times-efivarfs_list_next (suc n) [] = ap (λ l. none ∷ l) (list_times-efivarfs_list_next n [])
list_times-efivarfs_list_next (suc n) (d_name ∷ rest) =
    elim (Bool-cases (has_prefix eospayg_prefix d_name)) [
      | inl our ↦ simp our (ap (λ l. some d_name ∷ l) (list_times-efivarfs_list_next n rest))
      | inr other ↦ simp other (list_times-efivarfs_list_next (suc n) rest)
    ]
