-- ===== src/Efi/Names.antt =====
-- The comparison of names.
use eos_payg.Base.{◌≡◌, ◌≢◌, ◌⊎◌, inl, inr, refl, ap, true, false, [], ◌∷◌, Bool-cases, arith}
use eos_payg.Efi.{Name, same_name, has_prefix, eospayg_prefix, full_efi_name, eospayg_efi_name}

pub same_name_eq : (a b : Name) → same_name a b ≡ true → a ≡ b
same_name_eq [] [] h = refl
same_name_eq [] (c ∷ b) h = absurd (ground arith)
same_name_eq (c ∷ a) [] h = absurd (ground arith)
same_name_eq (c ∷ a) (d ∷ b) h = ground (arith, same_name_eq a b)

pub same_name_refl : (a : Name) → same_name a a ≡ true
same_name_refl [] = refl
same_name_refl (c ∷ a) = ground (arith, same_name_refl a)

pub other_name : (a b : Name) → a ≢ b → same_name a b ≡ false
other_name a b h = elim (Bool-cases (same_name a b)) [
  | inl same ↦ absurd (h (same_name_eq a b same))
  | inr apart ↦ apart
]

pub Name-cases : (a b : Name) → (a ≡ b) ⊎ (a ≢ b)
Name-cases a b = elim (Bool-cases (same_name a b)) [
  | inl same ↦ inl (same_name_eq a b same)
  | inr apart ↦ inr (λ eq. cc (ap (same_name a) eq, same_name_refl a))
]

-- The full names of the program's variables begin with the prefix.
pub eospayg_efi_name-prefix :
    (name : Name) → has_prefix eospayg_prefix (eospayg_efi_name name) ≡ true
unfolding eospayg_efi_name full_efi_name
eospayg_efi_name-prefix name = refl
