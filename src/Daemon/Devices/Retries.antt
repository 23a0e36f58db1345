-- ===== src/Daemon/Devices/Retries.antt =====
-- The loops around `write`, against the first answer that is not an interruption.
use eos_payg.Base.{
  ℕ, ◌≡◌, ◌≢◌, refl, ◌∙◌, ◌⊎◌, inl, inr, Bool, true, false, some, List, [], ◌∷◌, ◌++◌, All,
  Bool-cases,
}
use eos_payg.Daemon.Devices.{
  Written, WriteEnd, written, warned_error, warned_zero, write_end, is_interrupted, write_byte,
  Partition, force_ro_byte, after_write, allow_writing_one, allow_writing_to_boot_partition,
}

module _ (eintr : ℕ) where
  -- However often `write` is interrupted, the loop goes on.
  write_byte-interrupted :
      (ws rest : List Written)
      → All (λ w. is_interrupted eintr w ≡ true) ws
      → write_byte eintr (ws ++ rest) ≡ write_byte eintr rest
  unfolding write_byte
  write_byte-interrupted [] rest all = refl
  write_byte-interrupted (w ∷ ws) rest (interrupted, others) =
      simp interrupted (write_byte-interrupted ws rest others)

  -- It ends with the first other answer, and asks no more.
  pub write_byte_lem :
      (ws rest : List Written) (w : Written)
      → All (λ w. is_interrupted eintr w ≡ true) ws
      → is_interrupted eintr w ≡ false
      → write_byte eintr (ws ++ (w ∷ rest)) ≡ some (write_end w)
  unfolding write_byte
  write_byte_lem ws rest w interrupted ends =
      write_byte-interrupted ws (w ∷ rest) interrupted ∙ simp ends refl

  -- The loop for this match ends.
  abbrev pub Ends : Partition → Type 0
  Ends p = (p.opens ≡ true) → (end : WriteEnd) × (write_byte eintr p.answers ≡ some end)

  -- A match that opens and takes the write gets the byte; any other one is left as it was.
  abbrev pub IsAllowed : Bool → Partition → Partition → Type 0
  IsAllowed allow_write p p' =
      ((p.opens ≡ true)
        × (write_byte eintr p.answers ≡ some written)
        × (p'.force_ro ≡ force_ro_byte allow_write))
      ⊎ (((p.opens ≡ false) ⊎ (write_byte eintr p.answers ≢ some written)) × (p' ≡ p))

  pub data AreAllowed (allow_write : Bool) : List Partition → List Partition → Type 0 where
    no_match : AreAllowed allow_write [] []
    a_match :
        {p p' : Partition} {ps ps' : List Partition}
        → IsAllowed allow_write p p'
        → AreAllowed allow_write ps ps'
        → AreAllowed allow_write (p ∷ ps) (p' ∷ ps')

  after_end :
      (allow_write : Bool) (p : Partition)
      → p.opens ≡ true
      → (end : WriteEnd) → write_byte eintr p.answers ≡ some end
      → IsAllowed allow_write p (after_write (force_ro_byte allow_write) end p)
  after_end allow_write p opened written at = inl (opened, at, refl)
  after_end allow_write p opened (warned_error e) at = inr (inr (λ took. absurd cc), refl)
  after_end allow_write p opened warned_zero at = inr (inr (λ took. absurd cc), refl)

  one_opens :
      (allow_write : Bool) (p : Partition) (end : WriteEnd)
      → p.opens ≡ true
      → write_byte eintr p.answers ≡ some end
      → allow_writing_one eintr allow_write p ≡ some (after_write (force_ro_byte allow_write) end p)
  unfolding allow_writing_one
  one_opens allow_write p end opened at = simp (opened, at) refl

  one_match :
      (allow_write : Bool) (p : Partition)
      → Ends p
      → (p' : Partition) × (allow_writing_one eintr allow_write p ≡ some p')
        × IsAllowed allow_write p p'
  unfolding allow_writing_one
  one_match allow_write p ends = elim (Bool-cases p.opens) [
    | inr closed ↦ (p, simp closed refl, inr (inl closed, refl))
    | inl opened ↦
        let (end, at) = ends opened in
        (
          after_write (force_ro_byte allow_write) end p,
          one_opens allow_write p end opened at,
          after_end allow_write p opened end at,
        )
  ]

  both :
      (allow_write : Bool) (p p' : Partition) (ps ps' : List Partition)
      → allow_writing_one eintr allow_write p ≡ some p'
      → allow_writing_to_boot_partition eintr allow_write ps ≡ some ps'
      → allow_writing_to_boot_partition eintr allow_write (p ∷ ps) ≡ some (p' ∷ ps')
  unfolding allow_writing_to_boot_partition
  both allow_write p p' ps ps' one rest = simp (one, rest) refl

  -- Where each loop ends, every match is served, whatever happens to those before it.
  pub allow_writing_to_boot_partition_lem :
      (allow_write : Bool) (ps : List Partition)
      → All Ends ps
      → (ps' : List Partition) × (allow_writing_to_boot_partition eintr allow_write ps ≡ some ps')
        × AreAllowed allow_write ps ps'
  unfolding allow_writing_to_boot_partition
  allow_writing_to_boot_partition_lem allow_write [] all = ([], refl, no_match)
  allow_writing_to_boot_partition_lem allow_write (p ∷ ps) (ends, others) =
      let (p', one, allowed) = one_match allow_write p ends in
      let (ps', rest, are_allowed) = allow_writing_to_boot_partition_lem allow_write ps others in
      (p' ∷ ps', both allow_write p p' ps ps' one rest, a_match allowed are_allowed)
