-- ===== src/Efi/Store/Slots.antt =====
-- What the store of the tests keeps.
use eos_payg.Base.{
  ℕ, suc, ◌+◌, ◌≡◌, ◌≢◌, ◌⊎◌, inl, inr, refl, ap, ◌∙◌, Bool, true, false, Option, none, some, List,
  [], ◌∷◌, if◌then◌else◌, Bool-cases, arith,
}
use eos_payg.Efi.{Name, same_name}
use eos_payg.Efi.Names.{same_name_eq, same_name_refl, other_name}
use eos_payg.Efi.Store.{
  FakeVar, FakeVars, test_exists, test_read, find_target, fill, update, test_write,
}

-- What writing `name` at slot `k` does to reading.
record Writes (name : Name) (k : ℕ) (vs : FakeVars) : Type 0 where
  reads_back : (c : List ℕ) → test_read name (update k (fill name c) vs) ≡ some c
  keeps_others :
      (c : List ℕ) (other : Name)
      → name ≢ other
      → test_read other (update k (fill name c) vs) ≡ test_read other vs

here-Writes :
    (name : Name) (v : FakeVar) (vs : FakeVars)
    → same_name v.name name ≡ true
    → Writes name 0 (some v ∷ vs)
unfolding test_read
here-Writes name v vs same = record {
  reads_back = λ c. simp same;
  keeps_others = λ c other differs.
      let apart : same_name v.name other ≡ false =
        rw (same_name_eq v.name name same) (other_name name other differs) in
      simp apart;
}

free-Writes : (name : Name) (vs : FakeVars) → Writes name 0 (none ∷ vs)
unfolding test_read
free-Writes name vs = record {
  reads_back = λ c. simp (same_name_refl name);
  keeps_others = λ c other differs. simp (other_name name other differs);
}

later_none-Writes :
    (name : Name) (k : ℕ) (vs : FakeVars) → Writes name k vs → Writes name (suc k) (none ∷ vs)
unfolding test_read
later_none-Writes name k vs w = record { reads_back = w.reads_back; keeps_others = w.keeps_others }

later-Writes :
    (name : Name) (k : ℕ) (v : FakeVar) (vs : FakeVars)
    → same_name v.name name ≡ false
    → Writes name k vs
    → Writes name (suc k) (some v ∷ vs)
unfolding test_read
later-Writes name k v vs apart w = record {
  reads_back = λ c. simp apart (w.reads_back c);
  keeps_others = λ c other differs.
      ap (λ rest. if same_name v.name other then some v.content else rest)
        (w.keeps_others c other differs);
}

-- A slot has the name: it is found, whichever free slots were seen before.
found :
    (name : Name) (target : Option ℕ) (i : ℕ) (vs : FakeVars)
    → test_exists name vs ≡ true
    → (k : ℕ) × (find_target name target i vs ≡ some (i + k)) × Writes name k vs
unfolding find_target test_exists
found name target i [] h = absurd (ground arith)
found name target i (none ∷ vs) h =
    let (k, at, w) = found name (elim target [ none ↦ some i | some t ↦ some t ]) (suc i) vs h in
    (suc k, at ∙ ap some (omega arith), later_none-Writes name k vs w)
found name target i (some v ∷ vs) h = elim (Bool-cases (same_name v.name name)) [
  | inl same ↦ (0, simp same (ap some (omega arith)), here-Writes name v vs same)
  | inr apart ↦
      let (k, at, w) = found name target (suc i) vs (ground (arith, h, apart)) in
      (suc k, simp apart (at ∙ ap some (omega arith)), later-Writes name k v vs apart w)
]

-- No slot has it: the free slot that was seen before is kept.
kept :
    (name : Name) (t i : ℕ) (vs : FakeVars)
    → test_exists name vs ≡ false
    → find_target name (some t) i vs ≡ some t
unfolding find_target test_exists
kept name t i [] h = refl
kept name t i (none ∷ vs) h = kept name t (suc i) vs h
kept name t i (some v ∷ vs) h = elim (Bool-cases (same_name v.name name)) [
  | inl same ↦ absurd (ground (arith, h, same))
  | inr apart ↦ simp apart (kept name t (suc i) vs (ground (arith, h, apart)))
]

-- Whether no slot is free.
abbrev pub is_full : FakeVars → Bool
is_full [] = true
is_full (none ∷ vs) = false
is_full (some v ∷ vs) = is_full vs

-- No slot has it: the first free slot is taken, if there is one.
taken :
    (name : Name) (i : ℕ) (vs : FakeVars)
    → test_exists name vs ≡ false
    → ((find_target name none i vs ≡ none) × (is_full vs ≡ true))
      ⊎ ((k : ℕ) × (find_target name none i vs ≡ some (i + k))
          × (is_full vs ≡ false)
          × Writes name k vs)
unfolding find_target test_exists
taken name i [] h = inl (refl, refl)
taken name i (none ∷ vs) h =
    inr (0, kept name i (suc i) vs h ∙ ap some (omega arith), refl, free-Writes name vs)
taken name i (some v ∷ vs) h = elim (Bool-cases (same_name v.name name)) [
  | inl same ↦ absurd (ground (arith, h, same))
  | inr apart ↦ elim (taken name (suc i) vs (ground (arith, h, apart))) [
    | inl (nowhere, full) ↦ inl (simp apart nowhere, full)
    | inr (k, at, free, w) ↦
        inr (suc k, simp apart (at ∙ ap some (omega arith)), free, later-Writes name k v vs apart w)
  ]
]

-- Test_write fails, and changes nothing, exactly if no slot is free and none has the name;
-- otherwise the name reads as the new content and every other name as before.
pub test_write_lem :
    (name : Name) (content : List ℕ) (allow_overwrite : Bool) (vs : FakeVars)
    → ((test_write name content allow_overwrite vs ≡ (vs, false))
        × (is_full vs ≡ true)
        × (test_exists name vs ≡ false))
      ⊎ ((vs' : FakeVars) × (test_write name content allow_overwrite vs ≡ (vs', true))
          × ((is_full vs ≡ false) ⊎ (test_exists name vs ≡ true))
          × (test_read name vs' ≡ some content)
          × ((other : Name) → name ≢ other → test_read other vs' ≡ test_read other vs))
unfolding test_write
test_write_lem name content allow_overwrite vs = elim (Bool-cases (test_exists name vs)) [
  | inl there ↦
      let (k, at, w) = found name none 0 vs there in
      inr (
        update k (fill name content) vs,
        rw (test_write, at) (at_zero k),
        inr there,
        w.reads_back content,
        w.keeps_others content,
      )
  | inr missing ↦ elim (taken name 0 vs missing) [
    | inl (nowhere, full) ↦ inl (rw (test_write, nowhere) refl, full, missing)
    | inr (k, at, free, w) ↦ inr (
      update k (fill name content) vs,
      rw (test_write, at) (at_zero k),
      inl free,
      w.reads_back content,
      w.keeps_others content,
    )
  ]
]
  where
    at_zero :
        (k : ℕ)
        → ◌≡◌ {A = FakeVars × Bool}
            (update (0 + k) (fill name content) vs, true)
            (update k (fill name content) vs, true)
    at_zero k = ap (λ j. (update j (fill name content) vs, true)) (omega arith)
