-- ===== src/Daemon/SecurityLevel.antt =====
-- `test_and_update_securitylevel`: the check of the stored security level, and its overwriting.
use eos_payg.Base.{
  ℕ, ◌≤◌, ◌<◌, ◌≡◌, refl, ◌⊎◌, inl, inr, Bool, true, false, some, List, [], ◌∷◌, Bool-cases, arith,
}
use eos_payg.Efi.{Name, EfiOps, Efi, eospayg_efi_name, var_read, var_read_fullname, var_overwrite}
use eos_payg.Efi.Store.{test_ops}
use eos_payg.Efi.Store.Slots.{test_write_lem}
use eos_payg.Efi.Efivarfs.{Kernel, efivarfs_ops}
use eos_payg.Efi.Efivarfs.Contents.{Documented, IsReliable}
use eos_payg.Efi.Efivarfs.Variables.{efivarfs_read-efivarfs_write}
use eos_payg.Daemon.{
  char_value, is_above, is_below, epg_security_level, level_name, test_and_update_securitylevel,
}

-- A store reads back what overwrote a variable, unless that is empty.
abbrev pub IsOverwriting : {Store : Type 0} → EfiOps Store → Type 0
IsOverwriting {Store} efi =
    (name : Name) (b : ℕ) (rest : List ℕ) (store : Store)
    → (efi.write name (b ∷ rest) true store).1 ≡ true
    → efi.read name (efi.write name (b ∷ rest) true store).0 ≡ some (b ∷ rest)

-- The store of the tests does, and so does efivarfs if no call on a file that is there fails.
pub test_ops-IsOverwriting : IsOverwriting test_ops
test_ops-IsOverwriting name b rest store took = elim (test_write_lem name (b ∷ rest) true store) [
  | inl (refused, _, _) ↦ absurd (ground (arith, refused, took))
  | inr (vs', done, _, reads, _) ↦ rw done reads
]

pub efivarfs_ops-IsOverwriting :
    {F : Type 0} (K : Kernel F) (D : Documented K) → IsReliable K D → IsOverwriting (efivarfs_ops K)
efivarfs_ops-IsOverwriting K D works name b rest f wrote =
    efivarfs_read-efivarfs_write K D works name b rest true f wrote

module _ {Store : Type 0} (efi : EfiOps Store) (e : Efi efi) where
  -- Whether the store takes the daemon's level.
  abbrev pub took_level : Bool
  took_level =
      (efi.write (eospayg_efi_name (level_name efi)) (epg_security_level ∷ []) true e.store).1

  var_read-var_overwrite :
      IsOverwriting efi
      → e.post_pivot ≡ false
      → took_level ≡ true
      → var_read efi
          (level_name efi)
          (some 1)
          (var_overwrite efi (level_name efi) (epg_security_level ∷ []) e).0
        ≡ some (4 ∷ [])
  unfolding var_read var_read_fullname var_overwrite
  var_read-var_overwrite law early took =
      let back = law (eospayg_efi_name (level_name efi)) epg_security_level [] e.store took in
      rw (early, back) refl

  -- Over a store that reads back what overwrote a variable, before the root pivot, for a stored
  -- security level of one byte: above 4 and below 128 the test fails and changes nothing; at 4 it
  -- succeeds and changes nothing; below 4, and also from 128 on, it succeeds and overwrites the
  -- level, which then reads as 4 unless the store refused.
  pub test_and_update_securitylevel_lem :
      (l : ℕ)
      → IsOverwriting efi
      → e.post_pivot ≡ false
      → l < 256
      → var_read efi (level_name efi) (some 1) e ≡ some (l ∷ [])
      → ((4 < l) × (l < 128) × (test_and_update_securitylevel efi e ≡ (e, false)))
        ⊎ (((l ≡ 4) × (test_and_update_securitylevel efi e ≡ (e, true)))
            ⊎ (((l < 4) ⊎ (128 ≤ l))
                × ((e' : Efi efi) × (test_and_update_securitylevel efi e ≡ (e', true))
                    × ((took_level ≡ false)
                        ⊎ (var_read efi (level_name efi) (some 1) e' ≡ some (4 ∷ []))))))
  unfolding test_and_update_securitylevel
  test_and_update_securitylevel_lem l law early byte read =
      elim (Bool-cases (is_above (char_value l) 4)) [
        | inl up ↦ inl (ground arith, ground arith, rw (read, up) refl)
        | inr not_up ↦ elim (Bool-cases (is_below (char_value l) 4)) [
          | inl down ↦ inr (
              inr (
                ground arith,
                (
                  (var_overwrite efi (level_name efi) (epg_security_level ∷ []) e).0,
                  rw (read, not_up, down) refl,
                  elim (Bool-cases took_level) [
                    | inl took ↦ inr (var_read-var_overwrite law early took)
                    | inr lost ↦ inl lost
                  ],
                ),
              ))
          | inr level ↦ inr (inl (ground arith, rw (read, not_up, level) refl))
        ]
      ]
