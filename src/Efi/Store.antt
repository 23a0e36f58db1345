-- ===== src/Efi/Store.antt =====
-- The store of the tests: a fixed number of slots, each free or with a name and a content.
pub mod Slots
pub mod Listing
use eos_payg.Base.{
  ℕ, zero, suc, Bool, true, false, Option, none, some, List, [], ◌∷◌, if◌then◌else◌, replicate,
}
use eos_payg.Efi.{Name, same_name, EfiOps}

abbrev pub fake_var_count : ℕ
fake_var_count = 200

pub record FakeVar : Type 0 where
  pub name : Name
  pub content : List ℕ

-- `fake_vars`; a slot without a name is `none`.
abbrev pub FakeVars : Type 0
FakeVars = List (Option FakeVar)

abbrev pub is_var : Name → Option FakeVar → Bool
is_var name none = false
is_var name (some v) = same_name v.name name

unfoldable pub test_exists : Name → FakeVars → Bool
test_exists name [] = false
test_exists name (v ∷ vs) = let rest = test_exists name vs in if is_var name v then true else rest

unfoldable pub test_read : Name → FakeVars → Option (List ℕ)
test_read name [] = none
test_read name (none ∷ vs) = test_read name vs
test_read name (some v ∷ vs) =
    let rest = test_read name vs in if same_name v.name name then some v.content else rest

-- The loop of `test_write`: the index of the slot of this name, or else that of the first free one
-- that it has seen, which `target` holds.
unfoldable pub find_target : Name → Option ℕ → ℕ → FakeVars → Option ℕ
find_target name target i [] = target
find_target name target i (none ∷ vs) =
    find_target name (elim target [ none ↦ some i | some t ↦ some t ]) (suc i) vs
find_target name target i (some v ∷ vs) =
    let rest = find_target name target (suc i) vs in if same_name v.name name then some i else rest

-- A slot that has a name keeps it.
abbrev pub fill : Name → List ℕ → Option FakeVar → Option FakeVar
fill name content none = some (record { name = name; content = content })
fill name content (some v) = some (record v { content = content })

abbrev pub update : ℕ → (Option FakeVar → Option FakeVar) → FakeVars → FakeVars
update i f [] = []
update zero f (v ∷ vs) = f v ∷ vs
update (suc i) f (v ∷ vs) = v ∷ update i f vs

-- `allow_overwrite` is not read.
unfoldable pub test_write : Name → List ℕ → Bool → FakeVars → FakeVars × Bool
unfolding find_target
test_write name content allow_overwrite vs = elim (find_target name none 0 vs) [
  | none ↦ (vs, false)
  | some i ↦ (update i (fill name content) vs, true)
]

unfoldable pub test_delete : Name → FakeVars → FakeVars × Bool
test_delete name [] = ([], false)
test_delete name (v ∷ vs) =
    let (vs', done) = test_delete name vs in
    if is_var name v then (none ∷ vs, true) else (v ∷ vs', done)

-- The store at the start of the program.
abbrev pub initial_fake_vars : FakeVars
initial_fake_vars = replicate fake_var_count none

abbrev pub test_ops : EfiOps FakeVars
test_ops = record {
  exists = test_exists;
  read = test_read;
  write = test_write;
  delete = test_delete;
}
