-- ===== src/Efi/Efivarfs/Flags.antt =====
-- The Boolean variables as files of efivarfs.
use eos_payg.Base.{
  ℕ, ◌≤◌, ◌<◌, ◌≡◌, inl, inr, refl, sym, ap, ◌∙◌, Bool, true, false, not, Option, none, some, List,
  [], ◌∷◌, ◌==◌, length, Bool-cases, Option-cases, arith,
}
use eos_payg.Efi.{Name, eospayg_efi_name, Efi, var_exists, var_read_fullname}
use eos_payg.Efi.Boot.{first_byte, var_read_fullname_boolean}
use eos_payg.Efi.Efivarfs.{Kernel, efivarfs_exists, efivarfs_read, efivarfs_ops}
use eos_payg.Efi.Efivarfs.Contents.{
  Documented, IsReliable, efivarfs_read-contents, efivarfs_read_reliable,
}

-- Whether the byte behind the attributes is there and is not 0.
abbrev pub is_flag_set : Option (List ℕ) → Bool
is_flag_set (some (a ∷ b ∷ c ∷ d ∷ e ∷ rest)) = not (e == 0)
is_flag_set (some (a ∷ b ∷ c ∷ d ∷ [])) = false
is_flag_set (some (a ∷ b ∷ c ∷ [])) = false
is_flag_set (some (a ∷ b ∷ [])) = false
is_flag_set (some (a ∷ [])) = false
is_flag_set (some []) = false
is_flag_set none = false

abbrev pub is_there : Option (List ℕ) → Bool
is_there none = false
is_there (some bytes) = true

module _ {F : Type 0} (K : Kernel F) (D : Documented K) (works : IsReliable K D) where
  abbrev byte : ℕ → Option (List ℕ) → Bool
  byte = first_byte (efivarfs_ops K)

  short_read :
      (name : Name) (f : F) (stray : ℕ)
      → ((bytes : List ℕ) → D.contents name f ≡ some bytes → 5 ≤ length bytes → ⊥)
      → byte stray (efivarfs_read K name f).content ≡ false
  short_read name f stray short = elim (Option-cases (efivarfs_read K name f).content) [
    | inl lost ↦ simp lost refl
    | inr (c, done) ↦
        let (bytes, there, long, _) = efivarfs_read-contents K D name f c done in
        absurd (short bytes there long)
  ]

  abbrev size_of : Option (List ℕ) → ℕ
  size_of none = 0
  size_of (some bytes) = length bytes

  short_at :
      (name : Name) (f : F) (stray : ℕ) (k : List ℕ)
      → D.contents name f ≡ some k
      → length k < 5
      → byte stray (efivarfs_read K name f).content ≡ false
  short_at name f stray k at short =
      short_read name f stray (λ bytes there long. omega (arith, ap size_of (sym there ∙ at)))

  flag_read :
      (name : Name) (f : F) (stray : ℕ) (bytes : Option (List ℕ))
      → D.contents name f ≡ bytes
      → byte stray (efivarfs_read K name f).content ≡ is_flag_set bytes
  flag_read name f stray none at = short_read name f stray (λ bytes there long. cc)
  flag_read name f stray (some (a ∷ b ∷ c ∷ d ∷ e ∷ rest)) at =
      simp (efivarfs_read_reliable K D name f a b c d e rest works at) refl
  flag_read name f stray (some (a ∷ b ∷ c ∷ d ∷ [])) at =
      short_at name f stray (a ∷ b ∷ c ∷ d ∷ []) at (omega arith)
  flag_read name f stray (some (a ∷ b ∷ c ∷ [])) at =
      short_at name f stray (a ∷ b ∷ c ∷ []) at (omega arith)
  flag_read name f stray (some (a ∷ b ∷ [])) at =
      short_at name f stray (a ∷ b ∷ []) at (omega arith)
  flag_read name f stray (some (a ∷ [])) at = short_at name f stray (a ∷ []) at (omega arith)
  flag_read name f stray (some []) at = short_at name f stray [] at (omega arith)

  pub var_read_fullname_boolean_lem :
      (name : Name) (e : Efi (efivarfs_ops K)) (stray : ℕ)
      → e.post_pivot ≡ false
      → var_read_fullname_boolean (efivarfs_ops K) stray name e
        ≡ is_flag_set (D.contents name e.store)
  unfolding var_read_fullname_boolean var_read_fullname
  var_read_fullname_boolean_lem name e stray early =
      let read = flag_read name e.store stray (D.contents name e.store) refl in
      elim (Option-cases (efivarfs_read K name e.store).content) [
        | inl lost ↦ simp (early, lost) (simp lost at read)
        | inr (c, done) ↦ simp (early, done) (simp done at read)
      ]

  pub var_exists-is_there :
      (name : Name) (e : Efi (efivarfs_ops K))
      → var_exists (efivarfs_ops K) name e ≡ is_there (D.contents (eospayg_efi_name name) e.store)
  unfolding var_exists efivarfs_exists
  var_exists-is_there name e =
      let full = eospayg_efi_name name in
      elim (Option-cases (D.contents full e.store)) [
        | inr (bytes, there) ↦ simp there (works.accesses full e.store bytes there)
        | inl missing ↦ elim (Bool-cases (K.faccessat full e.store)) [
          | inr absent ↦ simp (missing, absent) refl
          | inl found ↦
              let (bytes, there) = D.faccessat_exists full e.store found in
              absurd (ground (arith, missing, there))
        ]
      ]
