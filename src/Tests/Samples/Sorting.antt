-- ===== src/Tests/Samples/Sorting.antt =====
-- Insertion sort with `used_codes_sort_cb`.
use eos_payg.Base.{
  zero, suc, ◌≡◌, refl, inl, inr, Bool, true, false, List, [], ◌∷◌, if◌then◌else◌, arith,
  Bool-cases,
}
use eos_payg.Base.Int.{ℤ, pos, negsuc}
use eos_payg.Manager.{UsedCode, used_codes_sort_cb, count, IsNotPositive, IsSorted}

abbrev is_not_positive : ℤ → Bool
is_not_positive (pos zero) = true
is_not_positive (pos (suc n)) = false
is_not_positive (negsuc n) = true

abbrev before : UsedCode → UsedCode → Bool
before u v = is_not_positive (used_codes_sort_cb u v)

before-IsNotPositive : (x : ℤ) → is_not_positive x ≡ true → IsNotPositive x
before-IsNotPositive (pos zero) h = refl
before-IsNotPositive (pos (suc n)) h = absurd (ground arith)
before-IsNotPositive (negsuc n) h = tt

before_total : (u v : UsedCode) → before u v ≡ false → before v u ≡ true
unfolding used_codes_sort_cb
before_total u v h = ground arith

abbrev insert : UsedCode → List UsedCode → List UsedCode
insert u [] = u ∷ []
insert u (v ∷ vs) = let rest = insert u vs in if before u v then u ∷ v ∷ vs else v ∷ rest

abbrev pub array_sort : List UsedCode → List UsedCode
array_sort [] = []
array_sort (u ∷ us) = insert u (array_sort us)

count-insert : (u v : UsedCode) (vs : List UsedCode) → count u (insert v vs) ≡ count u (v ∷ vs)
count-insert u v [] = refl
count-insert u v (w ∷ vs) = ground (arith, count-insert u v vs)

pub count-array_sort : (u : UsedCode) (us : List UsedCode) → count u (array_sort us) ≡ count u us
count-array_sort u [] = refl
count-array_sort u (v ∷ us) =
    ground (arith, count-insert u v (array_sort us), count-array_sort u us)

insert_behind :
    (u v : UsedCode) (vs : List UsedCode)
    → before v u ≡ true
    → IsSorted (v ∷ vs)
    → IsSorted (v ∷ insert u vs)
insert_behind u v [] h s = (before-IsNotPositive _ h, tt)
insert_behind u v (w ∷ vs) h (p, s) = elim (Bool-cases (before u w)) [
  | inl here ↦ rw here (before-IsNotPositive _ h, (before-IsNotPositive _ here, s))
  | inr later ↦ rw later (p, insert_behind u w vs (before_total u w later) s)
]

insert-IsSorted : (u : UsedCode) (vs : List UsedCode) → IsSorted vs → IsSorted (insert u vs)
insert-IsSorted u [] s = tt
insert-IsSorted u (v ∷ vs) s = elim (Bool-cases (before u v)) [
  | inl here ↦ rw here (before-IsNotPositive _ here, s)
  | inr later ↦ rw later (insert_behind u v vs (before_total u v later) s)
]

pub array_sort-IsSorted : (us : List UsedCode) → IsSorted (array_sort us)
array_sort-IsSorted [] = tt
array_sort-IsSorted (u ∷ us) = insert-IsSorted u (array_sort us) (array_sort-IsSorted us)
