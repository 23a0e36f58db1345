-- ===== src/Efi/Guards.antt =====
-- What the guards of efi.c hold back, and what the store of the tests does behind them.
use eos_payg.Base.{
  ℕ, ◌≡◌, ◌≢◌, inl, inr, refl, ap, true, false, not, Option, none, some, List, [], ◌∷◌, ◌++◌,
  if◌then◌else◌, length, length-append, Bool-cases, arith,
}
use eos_payg.Efi.{
  Name, same_name, eospayg_prefix, eospayg_guid, full_efi_name, eospayg_efi_name, EfiOps, Efi,
  root_pivot, var_write, var_overwrite, var_delete_fullname, var_delete, var_exists, is_expected,
  var_read_fullname, var_read,
}
use eos_payg.Efi.Store.{FakeVars, test_exists, test_read, test_ops}
use eos_payg.Efi.Store.Slots.{test_write_lem}

-- An access of the program to its variables.
pub data Access : Type 0 where
  write overwrite : Name → List ℕ → Access
  delete delete_fullname : Name → Access
  pivot : Access

module _ {Store : Type 0} (efi : EfiOps Store) where
  unfoldable pub access : Access → Efi efi → Efi efi
  access (write name content) e = (var_write efi name content e).0
  access (overwrite name content) e = (var_overwrite efi name content e).0
  access (delete name) e = (var_delete efi name e).0
  access (delete_fullname name) e = (var_delete_fullname efi name e).0
  access pivot e = root_pivot efi e

  unfoldable pub accesses : List Access → Efi efi → Efi efi
  accesses [] e = e
  accesses (a ∷ as') e = accesses as' (access a e)

  pub access-post_pivot :
      (a : Access) (e : Efi efi) → e.post_pivot ≡ true → (access a e).post_pivot ≡ true
  unfolding access var_write var_overwrite var_delete var_delete_fullname root_pivot
  access-post_pivot (write name content) e h = h
  access-post_pivot (overwrite name content) e h = ground arith
  access-post_pivot (delete name) e h = ground arith
  access-post_pivot (delete_fullname name) e h = ground arith
  access-post_pivot pivot e h = refl

  accesses-post_pivot :
      (as' : List Access) (e : Efi efi) → e.post_pivot ≡ true → (accesses as' e).post_pivot ≡ true
  unfolding accesses
  accesses-post_pivot [] e h = h
  accesses-post_pivot (a ∷ as') e h = accesses-post_pivot as' (access a e) (access-post_pivot a e h)

  -- After the root pivot, and any sequence of writes, deletions and further pivots, with any store
  -- behind them, every read and every overwriting of a variable fails, and the latter changes
  -- nothing.
  pub root_pivot_lem :
      (as' : List Access) (name : Name) (content : List ℕ) (size : Option ℕ) (e : Efi efi)
      → let e' = accesses as' (root_pivot efi e) in
        (var_read efi name size e' ≡ none) × (var_overwrite efi name content e' ≡ (e', false))
  unfolding var_read var_read_fullname var_overwrite root_pivot
  root_pivot_lem as' name content size e =
      let closed = accesses-post_pivot as' (root_pivot efi e) refl in (simp closed, simp closed)

-- The short name of a variable is not its full name.
short_name : (name : Name) → eospayg_efi_name name ≢ name
unfolding eospayg_efi_name full_efi_name
short_name name h = omega (
  arith,
  ap (λ (s : Name). length s) h,
  length-append (eospayg_prefix ++ name) (b'-' ∷ eospayg_guid),
  length-append eospayg_prefix name,
)

-- In the store of the tests, before the pivot, a variable that was written reads back with its
-- content, unless another size is expected, which gives an error.
pub var_read-var_write :
    (name : Name) (content : List ℕ) (size : Option ℕ) (e : Efi test_ops)
    → e.post_pivot ≡ false
    → (var_write test_ops name content e).1 ≡ true
    → var_read test_ops name size (var_write test_ops name content e).0
      ≡ (if is_expected test_ops size (length content) then some content else none)
unfolding var_write var_read var_read_fullname
var_read-var_write name content size e early wrote =
    elim (test_write_lem (eospayg_efi_name name) content (not e.post_pivot) e.store) [
      | inl (refused, _, _) ↦ absurd (ground (arith, refused, wrote))
      | inr (vs', done, _, reads, _) ↦ simp (early, simp early at done, reads) refl
    ]

test_exists-test_read :
    (name : Name) (vs : FakeVars)
    → test_exists name vs ≡ elim (test_read name vs) [ none ↦ false | some c ↦ true ]
unfolding test_exists test_read
test_exists-test_read name [] = refl
test_exists-test_read name (none ∷ vs) = test_exists-test_read name vs
test_exists-test_read name (some v ∷ vs) = elim (Bool-cases (same_name v.name name)) [
  | inl same ↦ simp same
  | inr apart ↦ simp apart (test_exists-test_read name vs)
]

-- In the store of the tests a write of a variable under a short name does not change whether
-- eospayg_efi_var_exists says that this short name exists.
pub var_exists-var_write :
    (name : Name) (content : List ℕ) (e : Efi test_ops)
    → var_exists test_ops name (var_write test_ops name content e).0 ≡ var_exists test_ops name e
unfolding var_exists var_write
var_exists-var_write name content e =
    elim (test_write_lem (eospayg_efi_name name) content (not e.post_pivot) e.store) [
      | inl (refused, _, _) ↦ rw refused refl
      | inr (vs', done, _, _, others) ↦
          rw
            (
              done,
              test_exists-test_read name vs',
              test_exists-test_read name e.store,
              others name (short_name name),
            )
            refl
    ]
