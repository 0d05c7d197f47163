-- ===== src/Grant/Expiry.antt =====
-- types.rs, `system_time_opt`, and grant.rs, `check_at`: the expiry of a grant that has gone through
-- the state file.

use clix.Prelude.{
  Bool-cases, IsBefore, Option, ap, arith, inl, inr, leb, negsuc, none, pos, refl, some, subst, sym,
  ℕ, ℤ, ◌*◌, ◌+◌, ◌/◌, ◌<◌, ◌↔◌, ◌≡◌, ◌≤◌, ◌⊎◌,
}
use clix.Types.{deserialize_time, serialize_time}
use clix.Grant.Check.{InTime, some_injective}

-- An expiry that is saved and read again.
abbrev pub reloaded : Option ℤ → Option ℤ
reloaded until = deserialize_time (serialize_time until)

InTime-some : (a b : ℕ) → InTime (some (pos a)) (pos b) ↔ (b ≤ a)
unfolding IsBefore
InTime-some a b = (
  λ i. elim i [
    | inl e ↦ absurd cc
    | inr (t, e, n) ↦
        let later = subst (λ x. ¬ IsBefore x (pos b)) (sym (some_injective e)) n in ground arith
  ],
  λ l. inr (pos a, refl, λ n. absurd (omega arith)),
)

InTime-dec : (a b : ℕ) → (b ≤ a) ⊎ (¬ InTime (some (pos a)) (pos b))
InTime-dec a b = elim (Bool-cases (leb b a)) [
  | inl t ↦ inl (ground arith)
  | inr f ↦ inr (λ i. let l = (InTime-some a b).0 i in ground arith)
]

-- At any time after the epoch, an expiry that has been saved and read again is in time only if the
-- expiry itself is, and is in time if the expiry is still in time 999999999 nanoseconds later; also
-- where the expiry lies before the epoch and is saved as the epoch. Saving and reading it once more
-- changes nothing.
pub reloaded-InTime :
    (until : Option ℤ) (now : ℕ)
    → 0 < now
    → (InTime until (pos now) ⊎ (¬ InTime (reloaded until) (pos now)))
      × (InTime (reloaded until) (pos now) ⊎ (¬ InTime until (pos (now + 999999999))))
      × (reloaded (reloaded until) ≡ reloaded until)
unfolding deserialize_time serialize_time IsBefore
reloaded-InTime none now p = (inl (inl refl), inl (inl refl), refl)
reloaded-InTime (some (pos t)) now p = (
  elim (InTime-dec (t / 1000000000 * 1000000000) now) [
    | inl l ↦ inl ((InTime-some t now).1 (omega arith))
    | inr n ↦ inr n
  ],
  elim (InTime-dec t (now + 999999999)) [
    | inl l ↦ inl ((InTime-some (t / 1000000000 * 1000000000) now).1 (omega arith))
    | inr n ↦ inr n
  ],
  ap (λ n. some (pos n)) (omega arith),
)
reloaded-InTime (some (negsuc t)) now p = (
  inr (λ i. let l = (InTime-some 0 now).0 i in absurd (omega arith)),
  inr (λ i. elim i [
    | inl e ↦ absurd cc
    | inr (x, e, n) ↦
        absurd (subst (λ y. ¬ IsBefore y (pos (now + 999999999))) (sym (some_injective e)) n tt)
  ]),
  refl,
)
