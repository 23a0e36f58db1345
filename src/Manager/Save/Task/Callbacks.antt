-- ===== src/Manager/Save/Task/Callbacks.antt =====
-- What the operations of a save give, and what their callbacks do to its task.
use eos_payg.Base.{
  ℕ, zero, suc, ◌-◌, ◌<◌, ◌≡◌, ◌⊎◌, inl, inr, refl, Bool, true, false, ◌||◌, Option, none, some,
  List, [], ◌∷◌, ◌++◌, length, arith,
}
use eos_payg.MultiTask.{GTask, MultiTask, multi_return_boolean, multi_return_error}
use eos_payg.Manager.Save.Task.{
  StateFile, wallclock_time, expiry_seconds, used_codes, is_same, Deletion, deleted, missing,
  undeleted, StateFiles, IsReliable, Performed, replaced, removed, file_saved_cb, perform,
}

unfoldable pub is_failure : Performed → Bool
is_failure (replaced (some e)) = true
is_failure (removed (undeleted e)) = true
is_failure _ = false

-- An operation that ended with an error.
abbrev pub EndsWith : Performed → ℕ → Type 0
EndsWith p e = (p ≡ replaced (some e)) ⊎ (p ≡ removed (undeleted e))

unfoldable pub has_failure : List Performed → Bool
has_failure [] = false
has_failure (p ∷ ps) = is_failure p || has_failure ps

unfoldable pub is_waiting : StateFile → List StateFile → Bool
is_waiting f [] = false
is_waiting f (g ∷ gs) = is_same g f || is_waiting f gs

pub is_same_eq : (f g : StateFile) → is_same f g ≡ true → f ≡ g
unfolding is_same
is_same_eq wallclock_time wallclock_time h = refl
is_same_eq expiry_seconds expiry_seconds h = refl
is_same_eq used_codes used_codes h = refl
is_same_eq wallclock_time expiry_seconds h = absurd (ground arith)
is_same_eq wallclock_time used_codes h = absurd (ground arith)
is_same_eq expiry_seconds wallclock_time h = absurd (ground arith)
is_same_eq expiry_seconds used_codes h = absurd (ground arith)
is_same_eq used_codes wallclock_time h = absurd (ground arith)
is_same_eq used_codes expiry_seconds h = absurd (ground arith)

pub has_failure-remove :
    (before after : List Performed) (p : Performed)
    → has_failure (before ++ (p ∷ after)) ≡ is_failure p || has_failure (before ++ after)
unfolding has_failure
has_failure-remove [] after p = refl
has_failure-remove (q ∷ before) after p = ground (arith, has_failure-remove before after p)

pub is_waiting-remove :
    (before after : List StateFile) (f g : StateFile)
    → is_waiting g (before ++ (f ∷ after)) ≡ is_same f g || is_waiting g (before ++ after)
unfolding is_waiting
is_waiting-remove [] after f g = refl
is_waiting-remove (h ∷ before) after f g = ground (arith, is_waiting-remove before after f g)

module _ (G : GTask) where
  pub file_saved_cb-pending :
      (p : Performed) (t : MultiTask G)
      → 0 < t.pending
      → (file_saved_cb G p t).pending ≡ t.pending - 1
  unfolding file_saved_cb multi_return_boolean multi_return_error
  file_saved_cb-pending (replaced none) t some_left = ground arith
  file_saved_cb-pending (replaced (some e)) t some_left = ground arith
  file_saved_cb-pending (removed deleted) t some_left = ground arith
  file_saved_cb-pending (removed missing) t some_left = ground arith
  file_saved_cb-pending (removed (undeleted e)) t some_left = ground arith

  pub file_saved_cb-late :
      (p : Performed) (t : MultiTask G)
      → G.had_error t.handle ≡ true
      → (file_saved_cb G p t).handle ≡ t.handle
  unfolding file_saved_cb multi_return_boolean multi_return_error
  file_saved_cb-late (replaced none) t late = ground arith
  file_saved_cb-late (replaced (some e)) t late = ground arith
  file_saved_cb-late (removed deleted) t late = ground arith
  file_saved_cb-late (removed missing) t late = ground arith
  file_saved_cb-late (removed (undeleted e)) t late = ground arith

  -- An operation that succeeds returns true.
  pub file_saved_cb-succeeded :
      (p : Performed) (t : MultiTask G)
      → is_failure p ≡ false
      → file_saved_cb G p t ≡ multi_return_boolean G true t
  unfolding file_saved_cb is_failure
  file_saved_cb-succeeded (replaced none) t fine = refl
  file_saved_cb-succeeded (replaced (some e)) t fine = absurd (ground arith)
  file_saved_cb-succeeded (removed deleted) t fine = refl
  file_saved_cb-succeeded (removed missing) t fine = refl
  file_saved_cb-succeeded (removed (undeleted e)) t fine = absurd (ground arith)

  pub file_saved_cb-failed :
      (p : Performed) (t : MultiTask G)
      → is_failure p ≡ true
      → (e : ℕ) × EndsWith p e × (file_saved_cb G p t ≡ multi_return_error G e t)
  unfolding file_saved_cb is_failure
  file_saved_cb-failed (replaced none) t fine = absurd (ground arith)
  file_saved_cb-failed (replaced (some e)) t fine = (e, inl refl, refl)
  file_saved_cb-failed (removed deleted) t fine = absurd (ground arith)
  file_saved_cb-failed (removed missing) t fine = absurd (ground arith)
  file_saved_cb-failed (removed (undeleted e)) t fine = (e, inr refl, refl)

pub succeeded_replacement :
    (failed : Option ℕ) → is_failure (replaced failed) ≡ false → failed ≡ none
unfolding is_failure
succeeded_replacement none fine = refl
succeeded_replacement (some e) fine = absurd (ground arith)

pub succeeded_deletion :
    (d : Deletion) → is_failure (removed d) ≡ false → (d ≡ deleted) ⊎ (d ≡ missing)
unfolding is_failure
succeeded_deletion deleted fine = inl refl
succeeded_deletion missing fine = inr refl
succeeded_deletion (undeleted e) fine = absurd (ground arith)

pub last_or_more : (n : ℕ) → 0 < n → (n ≡ 1) ⊎ (1 < n)
last_or_more (suc zero) h = inl refl
last_or_more (suc (suc n)) h = inr (omega arith)
last_or_more zero h = absurd (omega arith)

pub neither : (a b : Bool) → (a || b) ≡ false → (a ≡ false) × (b ≡ false)
neither true b h = absurd (ground arith)
neither false b h = (refl, h)

module _ (F : StateFiles) (reliable : IsReliable F) where
  pub perform-succeeds :
      (f : StateFile) (c : Option (List ℕ)) (s : F.State)
      → is_failure (perform F f c s).0 ≡ false
      → F.contents (perform F f c s).1 f ≡ c
  unfolding perform is_failure
  perform-succeeds f (some bs) s fine =
      reliable.contents-replace f bs s (succeeded_replacement (F.replace f bs s).0 fine)
  perform-succeeds f none s fine = elim (succeeded_deletion (F.delete f s).0 fine) [
    | inl gone ↦ reliable.contents-delete f s gone
    | inr absent ↦ reliable.contents-missing f s absent
  ]

  pub perform-other :
      (f g : StateFile) (c : Option (List ℕ)) (s : F.State)
      → is_same f g ≡ false
      → F.contents (perform F f c s).1 g ≡ F.contents s g
  unfolding perform
  perform-other f g (some bs) s differ = reliable.replace-other f g bs s differ
  perform-other f g none s differ = reliable.delete-other f g s differ

pub all_wait :
    (f : StateFile) → is_waiting f (wallclock_time ∷ expiry_seconds ∷ used_codes ∷ []) ≡ true
unfolding is_waiting is_same
all_wait wallclock_time = refl
all_wait expiry_seconds = refl
all_wait used_codes = refl

pub head_or_none :
    {A : Type 0} → (xs : List A) → ((x : A) × (rest : List A) × (xs ≡ x ∷ rest)) ⊎ (xs ≡ [])
head_or_none [] = inr refl
head_or_none (x ∷ xs) = inl (x, xs, refl)

pub none_left : {A : Type 0} → (xs : List A) → length xs ≡ 0 → xs ≡ []
none_left [] h = refl
none_left (x ∷ xs) h = absurd (omega arith)
