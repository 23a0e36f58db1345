-- ===== src/Tests/Efi.antt =====
-- EFI variables in a store of two slots.
use eos_payg.Base.{◌≡◌, refl, true, false, none, [], ◌∷◌}
use eos_payg.Efi.{Name, Efi, root_pivot, var_write, var_overwrite, var_read}
use eos_payg.Efi.Store.{find_target, test_write, test_ops}
use eos_payg.Efi.Guards.{Access, accesses, root_pivot_lem}

abbrev empty : Efi test_ops
empty = record { store = none ∷ none ∷ []; post_pivot = false }

-- "active".
abbrev active : Name
active = b'a' ∷ b'c' ∷ b't' ∷ b'i' ∷ b'v' ∷ b'e' ∷ []

wrote : (var_write test_ops active (1 ∷ []) empty).1 ≡ true
unfolding var_write test_write find_target
wrote = refl

root_pivot_lem_example :
    let e' = accesses test_ops (Access.write active (1 ∷ []) ∷ []) (root_pivot test_ops empty) in
    (var_read test_ops active none e' ≡ none)
    × (var_overwrite test_ops active (2 ∷ []) e' ≡ (e', false))
root_pivot_lem_example =
    root_pivot_lem test_ops (Access.write active (1 ∷ []) ∷ []) active (2 ∷ []) none empty
