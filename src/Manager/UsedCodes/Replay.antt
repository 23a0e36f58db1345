-- ===== src/Manager/UsedCodes/Replay.antt =====
-- What the used codes remember, and their form in the file.
use eos_payg.Base.{
  ℕ, ◌+◌, ◌*◌, ◌%◌, ◌<◌, ◌≡◌, ◌↔◌, refl, ap, true, List, [], ◌∷◌, ◌++◌, ◌==◌, ◌&&◌, ◌||◌, length,
  arith,
}
use eos_payg.Manager.{Manager, UsedCode, Runtime, count, IsSorted}
use eos_payg.Manager.UsedCodes.{is_used, mark_used, encode_used_codes, decode_used_codes}

-- An entry of this counter and period.
abbrev pub entry : ℕ → ℕ → UsedCode
entry period counter = record { counter = counter; period = period }

is_used-count :
    (period counter : ℕ) (us : List UsedCode)
    → (is_used period counter us ≡ true) ↔ (0 < count (entry period counter) us)
unfolding is_used
is_used-count period counter [] = (λ h. cc, λ h. absurd (omega arith))
is_used-count period counter (u ∷ us) = (
  λ h. ground (arith, (is_used-count period counter us).0),
  λ h. ground (arith, (is_used-count period counter us).1),
)

count-append : (u : UsedCode) (us vs : List UsedCode) → count u (us ++ vs) ≡ count u us + count u vs
count-append u [] vs = omega arith
count-append u (v ∷ us) vs = ground (arith, count-append u us vs)

-- Sorting forgets no entry and adds none.
pub is_used-array_sort :
    (R : Runtime) (period counter : ℕ) (us : List UsedCode)
    → is_used period counter (R.array_sort us) ≡ is_used period counter us
is_used-array_sort R period counter us = ground (
  arith,
  is_used-count period counter us,
  is_used-count period counter (R.array_sort us),
  R.count-array_sort (entry period counter) us,
)

-- After a code of 8-bit period and counter is marked as used, exactly it is used besides those
-- that were.
pub is_used-mark_used :
    (R : Runtime) (p c q d : ℕ) (m : Manager)
    → p < 256
    → c < 256
    → is_used q d (mark_used R p c m).used_codes ≡ (is_used q d m.used_codes || (q == p && d == c))
unfolding mark_used
is_used-mark_used R p c q d m hp hc = ground (
  arith,
  is_used-count q d m.used_codes,
  is_used-count q d
      (R.array_sort (m.used_codes ++ (record { counter = c % 256; period = p % 256 } ∷ []))),
  R.count-array_sort (entry q d)
      (m.used_codes ++ (record { counter = c % 256; period = p % 256 } ∷ [])),
  count-append (entry q d) m.used_codes (record { counter = c % 256; period = p % 256 } ∷ []),
)

-- The array stays sorted.
pub mark_used-IsSorted :
    (R : Runtime) (p c : ℕ) (m : Manager) → IsSorted (mark_used R p c m).used_codes
unfolding mark_used
mark_used-IsSorted R p c m = R.array_sort-IsSorted _

-- The bytes of the used-codes file read back as the entries that were written.
pub decode_used_codes-encode_used_codes :
    (us : List UsedCode) → decode_used_codes (encode_used_codes us) ≡ us
unfolding encode_used_codes decode_used_codes
decode_used_codes-encode_used_codes [] = refl
decode_used_codes-encode_used_codes (u ∷ us) =
    ap (λ vs. u ∷ vs) (decode_used_codes-encode_used_codes us)

pub length-encode_used_codes : (us : List UsedCode) → length (encode_used_codes us) ≡ 2 * length us
unfolding encode_used_codes
length-encode_used_codes [] = omega arith
length-encode_used_codes (u ∷ us) = omega (arith, length-encode_used_codes us)
