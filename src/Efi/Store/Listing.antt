-- ===== src/Efi/Store/Listing.antt =====
-- The listing and the clearing of the store of the tests.
use eos_payg.Base.{
  ℕ, zero, suc, ◌≡◌, inl, inr, ◌⊎◌, refl, sym, ap, ◌∙◌, Bool, true, Option, none, some, List, [],
  ◌∷◌,
}
use eos_payg.Efi.{Name}
use eos_payg.Efi.Store.{FakeVar, FakeVars, test_read}

-- `fake_vars` and `fake_var_ptr`.
pub record Listing : Type 0 where
  pub vars : FakeVars
  pub fake_var_ptr : ℕ

unfoldable pub test_list_rewind : Listing → Listing
test_list_rewind l = record l { fake_var_ptr = 0 }

-- The loop of `test_list_next`, over the slots from `i` on.
unfoldable pub next_name : ℕ → FakeVars → ℕ × Option Name
next_name i [] = (i, none)
next_name i (none ∷ vs) = next_name (suc i) vs
next_name i (some v ∷ vs) = (suc i, some v.name)

abbrev pub drop : ℕ → FakeVars → FakeVars
drop zero vs = vs
drop (suc n) [] = []
drop (suc n) (v ∷ vs) = drop n vs

unfoldable pub test_list_next : Listing → Listing × Option Name
unfolding next_name
test_list_next l =
    let (i, name) = next_name l.fake_var_ptr (drop l.fake_var_ptr l.vars) in
    (record l { fake_var_ptr = i }, name)

-- The loop of `test_clear`, over `test_zap_var`.
abbrev pub zap_all : FakeVars → FakeVars
zap_all [] = []
zap_all (v ∷ vs) = none ∷ zap_all vs

unfoldable pub test_clear : Listing → Listing × Bool
test_clear l = (record l { fake_var_ptr = 0; vars = zap_all l.vars }, true)

-- The names of the slots, in order.
pub names : FakeVars → List Name
names [] = []
names (none ∷ vs) = names vs
names (some v ∷ vs) = v.name ∷ names vs

-- What `n` calls of `test_list_next` return.
pub list_times : ℕ → Listing → List (Option Name)
list_times zero l = []
list_times (suc n) l = let (l', name) = test_list_next l in name ∷ list_times n l'

-- The first `n` of these names, and then the end of the list.
unfoldable pub first_names : ℕ → List Name → List (Option Name)
first_names zero all = []
first_names (suc n) [] = none ∷ first_names n []
first_names (suc n) (name ∷ all) = some name ∷ first_names n all

drop-suc :
    (i : ℕ) (v : Option FakeVar) (vs vs0 : FakeVars) → drop i vs0 ≡ v ∷ vs → drop (suc i) vs0 ≡ vs
drop-suc zero v vs [] at = cc
drop-suc zero v vs (w ∷ ws) at = cc
drop-suc (suc i) v vs [] at = cc
drop-suc (suc i) v vs (w ∷ ws) at = drop-suc i v vs ws at

-- From slot `i` on, the rest of the names is found and the index stays where the rest begins.
next_name_lem :
    (i : ℕ) (vs vs0 : FakeVars)
    → drop i vs0 ≡ vs
    → (((next_name i vs).1 ≡ none) × (names vs ≡ []) × (drop (next_name i vs).0 vs0 ≡ []))
      ⊎ ((name : Name) × ((next_name i vs).1 ≡ some name)
          × (names vs ≡ name ∷ names (drop (next_name i vs).0 vs0)))
unfolding next_name names
next_name_lem i [] vs0 at = inl (refl, refl, at)
next_name_lem i (none ∷ vs) vs0 at = next_name_lem (suc i) vs vs0 (drop-suc i none vs vs0 at)
next_name_lem i (some v ∷ vs) vs0 at =
    inr (v.name, refl, ap (λ rest. v.name ∷ names rest) (sym (drop-suc i (some v) vs vs0 at)))

list_times_lem :
    (n : ℕ) (l : Listing) → list_times n l ≡ first_names n (names (drop l.fake_var_ptr l.vars))
unfolding list_times first_names test_list_next names
list_times_lem zero l = refl
list_times_lem (suc n) l =
    let (l', name) = test_list_next l in
    let next = list_times_lem n l' in
    elim (next_name_lem l.fake_var_ptr (drop l.fake_var_ptr l.vars) l.vars refl) [
      | inl (nothing, empty, ended) ↦ rw (nothing, next, ended, empty) refl
      | inr (name, found, rest) ↦ rw (found, next, rest) refl
    ]

cleared : (vs : FakeVars) → names (zap_all vs) ≡ []
unfolding names
cleared [] = refl
cleared (v ∷ vs) = cleared vs

none_read : (name : Name) (vs : FakeVars) → test_read name (zap_all vs) ≡ none
unfolding test_read
none_read name [] = refl
none_read name (v ∷ vs) = none_read name vs

-- After a rewind the list shows the name of every slot that has one, in the order of the slots, and
-- then stays at its end; after a clearing it shows none, and no variable can be read.
pub list_times-test_list_rewind :
    (n : ℕ) (name : Name) (l : Listing)
    → (list_times n (test_list_rewind l) ≡ first_names n (names l.vars))
      × (list_times n (test_clear l).0 ≡ first_names n [])
      × (test_read name (test_clear l).0.vars ≡ none)
unfolding test_list_rewind test_clear
list_times-test_list_rewind n name l = (
  list_times_lem n (test_list_rewind l),
  list_times_lem n (test_clear l).0 ∙ ap (first_names n) (cleared l.vars),
  none_read name l.vars,
)
