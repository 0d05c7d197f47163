-- ===== src/Job/Dispatch/Order.antt =====
-- job.rs, `dispatch_pending`: in what order a round comes to the work that waits.
use mathlib.Core.List.{Memᴰ}
use clix.Prelude.{
  Bool, Bool-cases, List, Text, Text-discrete, [], all, arith, false, inl, inr, map, not, refl,
  subst, sym, text_lt, text_lt_irrefl, text_lt_total, text_lt_trans, true, ◌&&◌, ◌++◌, ◌↔◌, ◌∷◌,
  ◌≡◌,
}
use clix.State.{Store}
use clix.Job.Dispatch.{
  candidates, from_cursor, insert_sorted, jobs_work, peer_work, requests_work, rotated, sort_by_key,
  up_to_cursor,
}
use clix.Job.Dispatch.Waiting.{Candidate, Waits, mem-append, mem-candidates}

-- Every key is at least `k`.
unfoldable pub at_least : Text → List Candidate → Bool
at_least k cs = all (λ c. not (text_lt c.0 k)) cs

unfoldable pub ascending : List Candidate → Bool
ascending [] = true
ascending (c ∷ cs) = at_least c.0 cs && ascending cs

not_less_trans : (i j k : Text) → text_lt j i ≡ false → text_lt k j ≡ false → text_lt k i ≡ false
not_less_trans i j k p q = elim (Bool-cases (text_lt k i)) [
  | inr f ↦ f
  | inl t ↦ elim (Text-discrete k j) [
    | yes e ↦ absurd (let x = subst (λ y. text_lt y i ≡ true) e t in ground arith)
    | no n ↦
        let y = text_lt_total j k (λ e. n (sym e)) q in
        let z = text_lt_trans j k i y t in absurd (ground arith)
  ]
]

at_least-weaken :
    (i j : Text) (cs : List Candidate)
    → text_lt j i ≡ false
    → at_least j cs ≡ true
    → at_least i cs ≡ true
unfolding at_least
at_least-weaken i j [] p a = refl
at_least-weaken i j (c ∷ cs) p a =
    let here = not_less_trans i j c.0 p (ground arith) in ground (arith, at_least-weaken i j cs)

at_least-insert_sorted :
    (k : Text) (c : Candidate) (cs : List Candidate)
    → text_lt c.0 k ≡ false
    → at_least k cs ≡ true
    → at_least k (insert_sorted c cs) ≡ true
unfolding at_least insert_sorted
at_least-insert_sorted k c [] p a = ground arith
at_least-insert_sorted k c (d ∷ cs) p a = ground (arith, at_least-insert_sorted k c cs)

lt_asymm : (j k : Text) → text_lt j k ≡ true → text_lt k j ≡ false
lt_asymm j k p = elim (Bool-cases (text_lt k j)) [
  | inr f ↦ f
  | inl t ↦ let x = text_lt_trans j k j p t in let y = text_lt_irrefl j in absurd (ground arith)
]

ascending-insert_sorted :
    (c : Candidate) (cs : List Candidate)
    → ascending cs ≡ true
    → ascending (insert_sorted c cs) ≡ true
unfolding ascending insert_sorted at_least
ascending-insert_sorted c [] s = refl
ascending-insert_sorted c (d ∷ cs) s = elim (Bool-cases (text_lt d.0 c.0)) [
  | inl t ↦
      let above_d = at_least-insert_sorted d.0 c cs (lt_asymm d.0 c.0 t) (ground arith) in
      ground (arith, ascending-insert_sorted c cs)
  | inr f ↦ let above_c = at_least-weaken c.0 d.0 cs f (ground arith) in ground arith
]

ascending-sort_by_key : (cs : List Candidate) → ascending (sort_by_key cs) ≡ true
unfolding sort_by_key ascending
ascending-sort_by_key [] = refl
ascending-sort_by_key (c ∷ cs) =
    ascending-insert_sorted c (sort_by_key cs) (ascending-sort_by_key cs)

-- The order of a round: what waits after the last start, in the order of the keys, and then the rest.
pub record Order (s : Store) (cursor : Text) (cs : List Candidate) : Type 0 where
  pub later : List Candidate
  pub earlier : List Candidate
  pub turned : cs ≡ later ++ earlier
  pub after_cursor : all (λ c. text_lt cursor c.0) later ≡ true
  pub up_to : all (λ c. not (text_lt cursor c.0)) earlier ≡ true
  pub later_sorted : ascending later ≡ true
  pub earlier_sorted : ascending earlier ≡ true
  pub complete : (c : Candidate) → Memᴰ c cs ↔ Waits s c

all-at_least :
    (cursor k : Text) (cs : List Candidate)
    → text_lt cursor k ≡ true
    → at_least k cs ≡ true
    → all (λ c. text_lt cursor c.0) cs ≡ true
unfolding at_least
all-at_least cursor k [] p a = refl
all-at_least cursor k (c ∷ cs) p a =
    let here : text_lt cursor c.0 ≡ true = elim (Text-discrete k c.0) [
      | yes e ↦ subst (λ t. text_lt cursor t ≡ true) e p
      | no n ↦ text_lt_trans cursor k c.0 p (text_lt_total k c.0 n (ground arith))
    ] in
    ground (arith, all-at_least cursor k cs)

from_cursor-after :
    (cursor : Text) (cs : List Candidate)
    → ascending cs ≡ true
    → (all (λ c. text_lt cursor c.0) (from_cursor cursor cs) ≡ true)
      × (ascending (from_cursor cursor cs) ≡ true)
unfolding from_cursor ascending
from_cursor-after cursor [] s = (refl, refl)
from_cursor-after cursor (c ∷ cs) s = elim (Bool-cases (text_lt cursor c.0)) [
  | inl t ↦ let rest = all-at_least cursor c.0 cs t (ground arith) in (ground arith, ground arith)
  | inr f ↦ let (a, b) = from_cursor-after cursor cs (ground arith) in (ground arith, ground arith)
]

at_least-up_to_cursor :
    (cursor k : Text) (cs : List Candidate)
    → at_least k cs ≡ true
    → at_least k (up_to_cursor cursor cs) ≡ true
unfolding at_least up_to_cursor
at_least-up_to_cursor cursor k [] a = refl
at_least-up_to_cursor cursor k (c ∷ cs) a = ground (arith, at_least-up_to_cursor cursor k cs)

up_to_cursor-before :
    (cursor : Text) (cs : List Candidate)
    → ascending cs ≡ true
    → (all (λ c. not (text_lt cursor c.0)) (up_to_cursor cursor cs) ≡ true)
      × (ascending (up_to_cursor cursor cs) ≡ true)
unfolding up_to_cursor ascending
up_to_cursor-before cursor [] s = (refl, refl)
up_to_cursor-before cursor (c ∷ cs) s = elim (Bool-cases (text_lt cursor c.0)) [
  | inl t ↦ (ground arith, ground arith)
  | inr f ↦
      let (a, b) = up_to_cursor-before cursor cs (ground arith) in
      let least = at_least-up_to_cursor cursor c.0 cs (ground arith) in (ground arith, ground arith)
]

split_at_cursor :
    (cursor : Text) (cs : List Candidate) → up_to_cursor cursor cs ++ from_cursor cursor cs ≡ cs
unfolding up_to_cursor from_cursor
split_at_cursor cursor [] = refl
split_at_cursor cursor (c ∷ cs) = ground (arith, split_at_cursor cursor cs)

pub mem-rotated :
    (cursor : Text) (cs : List Candidate) (c : Candidate) → Memᴰ c (rotated cursor cs) ↔ Memᴰ c cs
unfolding rotated
mem-rotated cursor cs c =
    let after = from_cursor cursor cs in
    let before = up_to_cursor cursor cs in
    let whole = split_at_cursor cursor cs in
    (
      λ m. subst (Memᴰ c) whole (
          (mem-append c before after).1
            (elim ((mem-append c after before).0 m) [ inl l ↦ inr l | inr r ↦ inl r ])),
      λ m.
          (mem-append c after before).1
            (elim ((mem-append c before after).0 (subst (Memᴰ c) (sym whole) m)) [
              | inl l ↦ inr l
              | inr r ↦ inl r
            ]),
    )

pub rotated-Order : (s : Store) (cursor : Text) → Order s cursor (rotated cursor (candidates s))
unfolding rotated candidates
rotated-Order s cursor =
    let sorted : ascending (candidates s) ≡ true = ascending-sort_by_key (
      jobs_work s.body_name s.jobs
      ++ (requests_work s.outbound_requests ++ map peer_work s.peers)) in
    let (after, after_sorted) = from_cursor-after cursor (candidates s) sorted in
    let (before, before_sorted) = up_to_cursor-before cursor (candidates s) sorted in
    record {
      later = from_cursor cursor (candidates s);
      earlier = up_to_cursor cursor (candidates s);
      turned = refl;
      after_cursor = after;
      up_to = before;
      later_sorted = after_sorted;
      earlier_sorted = before_sorted;
      complete = λ c. (
        λ m. (mem-candidates s c).0 ((mem-rotated cursor (candidates s) c).0 m),
        λ w. (mem-rotated cursor (candidates s) c).1 ((mem-candidates s c).1 w),
      );
    }
