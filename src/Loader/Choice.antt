-- ===== src/Loader/Choice.antt =====
-- The choice of a provider among those that were loaded.
use eos_payg.Base.{
  ℕ, suc, ◌+◌, ◌≡◌, refl, sym, ◌∙◌, ap, ◌⊎◌, inl, inr, Bool, true, false, Option, none, some, List,
  [], ◌∷◌, ◌++◌, length, All, ◌==◌, if◌then◌else◌, Bool-cases, arith,
}
use eos_payg.Loader.{last_or, but_last, remove_index_fast, find_enabled, choose}

-- How often a provider stands in a list.
abbrev pub count : ℕ → List ℕ → ℕ
count q [] = 0
count q (p ∷ ps) = let rest = count q ps in if q == p then suc rest else rest

-- What takes the place of a removed element.
abbrev pub moved : List ℕ → List ℕ
moved [] = []
moved (b ∷ bs) = last_or b bs ∷ but_last b bs

count-moved : (q : ℕ) (ps : List ℕ) → count q (moved ps) ≡ count q ps
count-moved q [] = refl
count-moved q (a ∷ []) = refl
count-moved q (a ∷ b ∷ bs) = ground (arith, count-moved q (b ∷ bs))

remove_index_fast_lem :
    (before : List ℕ) (p : ℕ) (after : List ℕ)
    → remove_index_fast (length before) (before ++ (p ∷ after)) ≡ before ++ moved after
unfolding remove_index_fast
remove_index_fast_lem [] p [] = refl
remove_index_fast_lem [] p (b ∷ bs) = refl
remove_index_fast_lem (a ∷ before) p after = ap (λ l. a ∷ l) (remove_index_fast_lem before p after)

length-moved : (ps : List ℕ) → length (moved ps) ≡ length ps
length-moved [] = refl
length-moved (a ∷ []) = refl
length-moved (a ∷ b ∷ bs) = omega (arith, length-moved (b ∷ bs))

length-removed :
    (before : List ℕ) (p : ℕ) (after : List ℕ)
    → suc (length (before ++ moved after)) ≡ length (before ++ (p ∷ after))
length-removed [] p after = ap suc (length-moved after)
length-removed (a ∷ before) p after = ap suc (length-removed before p after)

count-append : (q : ℕ) (xs ys : List ℕ) → count q (xs ++ ys) ≡ count q xs + count q ys
count-append q [] ys = omega arith
count-append q (x ∷ xs) ys = ground (arith, count-append q xs ys)

count-removed :
    (q : ℕ) (before : List ℕ) (p : ℕ) (after : List ℕ)
    → count q (p ∷ (before ++ moved after)) ≡ count q (before ++ (p ∷ after))
count-removed q before p after = ground (
  arith,
  count-append q before (moved after),
  count-append q before (p ∷ after),
  count-moved q after,
)

at_index : (p : ℕ) {i j : ℕ} → i ≡ j → ◌≡◌ {A = Option (ℕ × ℕ)} (some (i, p)) (some (j, p))
at_index p same = ap (λ k. some (k, p)) same

find_enabled_lem :
    (enabled : ℕ → Bool) (i : ℕ) (ps : List ℕ)
    → (All (λ p. enabled p ≡ false) ps × (find_enabled enabled i ps ≡ none))
      ⊎ ((before : List ℕ) × (p : ℕ) × (after : List ℕ) × (ps ≡ before ++ (p ∷ after))
          × All (λ q. enabled q ≡ false) before
          × (enabled p ≡ true)
          × (find_enabled enabled i ps ≡ some (i + length before, p)))
unfolding find_enabled
find_enabled_lem enabled i [] = inl (tt, refl)
find_enabled_lem enabled i (p ∷ ps) = elim (Bool-cases (enabled p)) [
  | inl on ↦ inr ([], p, ps, refl, tt, on, rw (on) (at_index p {i = i} {j = i + 0} (omega arith)))
  | inr off ↦ elim (find_enabled_lem enabled (i + 1) ps) [
    | inl (all_off, missing) ↦ inl ((off, all_off), rw (off) missing)
    | inr (before, q, after, split, offs, on, found) ↦ inr (
      p ∷ before,
      q,
      after,
      ap (λ l. p ∷ l) split,
      (off, offs),
      on,
      rw (off) (found ∙ at_index q (omega arith)),
    )
  ]
]

-- The loader chooses the first provider of the array that is enabled, and the array without it
-- holds every other one as often as before and nothing more; if none is enabled it chooses none and keeps the
-- array.
pub choose_lem :
    (enabled : ℕ → Bool) (ps : List ℕ)
    → (All (λ p. enabled p ≡ false) ps × (choose enabled ps ≡ (none, ps)))
      ⊎ ((before : List ℕ) × (p : ℕ) × (after rest : List ℕ) × (ps ≡ before ++ (p ∷ after))
          × All (λ q. enabled q ≡ false) before
          × (enabled p ≡ true)
          × (choose enabled ps ≡ (some p, rest))
          × ((q : ℕ) → count q (p ∷ rest) ≡ count q ps)
          × (suc (length rest) ≡ length ps))
unfolding choose
choose_lem enabled ps = elim (find_enabled_lem enabled 0 ps) [
  | inl (offs, missing) ↦ inl (offs, rw (missing) refl)
  | inr (before, p, after, split, offs, on, found) ↦
      let place : find_enabled enabled 0 ps ≡ some (length before, p) =
        found ∙ at_index p (omega arith) in
      let removed : remove_index_fast (length before) ps ≡ before ++ moved after =
        ap (remove_index_fast (length before)) split ∙ remove_index_fast_lem before p after in
      inr (
        before,
        p,
        after,
        before ++ moved after,
        split,
        offs,
        on,
        rw (place) (ap (λ l. (some p, l)) removed),
        λ q. count-removed q before p after ∙ sym (ap (count q) split),
        length-removed before p after ∙ sym (ap (λ l. length l) split),
      )
]
