-- ===== src/Manager/Load/Start/Counts.antt =====
-- What the task of the start counts, and the requests under way.
use eos_payg.Base.{
  ℕ, zero, suc, ◌+◌, ◌^◌, ◌≤◌, ◌<◌, ◌≡◌, refl, true, false, List, [], ◌∷◌, ◌++◌, length, arith,
}
use eos_payg.MultiTask.{GTask, MultiTask, increment}
use eos_payg.Manager.Load.{Request, load_contents, delete_file}
use eos_payg.Manager.Load.Growth.{load_weight-pos, increments, weight, weigh, has_delete}

module _ (G : GTask) where
  pub increments_handle : (n : ℕ) (t : MultiTask G) → (increments G n t).handle ≡ t.handle
  unfolding increment
  increments_handle zero t = refl
  increments_handle (suc n) t = ground (arith, increments_handle n t)

  pub increments_pending :
      (n : ℕ) (t : MultiTask G)
      → 0 < t.pending
      → t.pending + n < 2 ^ 32
      → (increments G n t).pending ≡ t.pending + n
  unfolding increment
  increments_pending zero t some_left few = omega arith
  increments_pending (suc n) t some_left few =
      ground (arith, increments_pending n t some_left (omega arith))

-- A request that is answered is taken out of the list.
pub weigh-remove :
    (before after : List Request) (q : Request)
    → weigh (before ++ (q ∷ after)) ≡ weigh (before ++ after) + weight q
weigh-remove [] after q = omega arith
weigh-remove (p ∷ before) after q = omega (arith, weigh-remove before after q)

pub length-le-weigh : (qs : List Request) → length qs ≤ weigh qs
length-le-weigh [] = omega arith
length-le-weigh (load_contents f ∷ qs) = omega (arith, load_weight-pos f, length-le-weigh qs)
length-le-weigh (delete_file f ∷ qs) = omega (arith, length-le-weigh qs)

pub weigh_none : (qs : List Request) → length qs ≡ 0 → weigh qs ≡ 0
weigh_none [] h = refl
weigh_none (q ∷ qs) h = absurd (omega arith)

pub has_delete-remove :
    (before after : List Request) (q : Request)
    → has_delete (q ∷ []) ≡ false
    → has_delete (before ++ (q ∷ after)) ≡ has_delete (before ++ after)
has_delete-remove [] after (load_contents f) h = refl
has_delete-remove [] after (delete_file f) h = absurd (ground arith)
has_delete-remove (load_contents g ∷ before) after q h = has_delete-remove before after q h
has_delete-remove (delete_file g ∷ before) after q h = refl

pub has_delete-append :
    (news qs : List Request) → has_delete qs ≡ true → has_delete (news ++ qs) ≡ true
has_delete-append [] qs h = h
has_delete-append (load_contents f ∷ news) qs h = has_delete-append news qs h
has_delete-append (delete_file f ∷ news) qs h = refl
