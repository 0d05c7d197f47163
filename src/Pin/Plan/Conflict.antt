-- ===== src/Pin/Plan/Conflict.antt =====
-- pin.rs, `plan`: why a plan is refused.

use clix.Pin.Plan.Paths.{contains-above, contains-extend-inv}
use clix.State.{Fingerprint, contains}
use clix.Error.{>>=-eq-err, >>=-eq-ok, ClixError, Result, err, ok}
use clix.Prelude.{
  Bool-cases, List, Map, Option, Text, Text-discrete, [], above, above-below, arith, false, get,
  inl, inr, is_sorted, none, refl, subst, text_lt, true, ◌++◌, ◌∷◌, ◌≡◌, ◌≢◌, ◌⊎◌,
}
use clix.Pin.{Change, Manifest, Version-discrete, conflict, valid_path}
use clix.Pin.Plan.Merge.{SettledIn, Unlisted, is_sorted-all_paths, plan-Settled, unlisted}
use clix.Pin.Plan.{all_paths, plan, plan_paths, put_selected, select}

module _ (mine theirs base : Manifest) (a b : Text) where
  -- Both sides changed the path, and differently.
  pub record Clash (k : Text) : Type 0 where
    pub differ : get k mine ≢ get k theirs
    pub changed_here : get k mine ≢ get k base
    pub changed_there : get k theirs ≢ get k base

  pub Listed : Text → Type 0
  Listed k = (get k mine ≢ none) ⊎ ((get k theirs ≢ none) ⊎ (get k base ≢ none))

  -- Why one path refuses a plan with this error: it is listed and pin does not accept it, or pin
  -- accepts it and both sides changed it differently.
  pub data Refused (k : Text) (e : ClixError) : Type 0 where
    invalid : Listed k → valid_path k ≡ err e → Refused k e
    clash : valid_path k ≡ ok tt → Clash k → e ≡ conflict k a b → Refused k e

  -- A path that does not stand in the way of a plan.
  abbrev pub Passes : Text → Type 0
  Passes k = Unlisted mine theirs base a b k ⊎ ((valid_path k ≡ ok tt) × (¬ Clash k))

  select-err :
      (k : Text) (e : ClixError)
      → select mine theirs base a b k ≡ err e
      → Clash k × (e ≡ conflict k a b)
  unfolding select
  select-err k e p = elim (Version-discrete (get k mine) (get k theirs)) [
    | yes q ↦ absurd (ground arith)
    | no q ↦ elim (Version-discrete (get k mine) (get k base)) [
      | yes r ↦ absurd (ground arith)
      | no r ↦ elim (Version-discrete (get k theirs) (get k base)) [
        | yes t ↦ absurd (ground arith)
        | no t ↦ (record { differ = q; changed_here = r; changed_there = t }, ground arith)
      ]
    ]
  ]

  select-passes :
      (k : Text) (v : List Change × Option Fingerprint)
      → select mine theirs base a b k ≡ ok v
      → ¬ Clash k
  unfolding select
  select-passes k v p c =
      let x = c.differ in let y = c.changed_here in let z = c.changed_there in ground arith

  listed : (k : Text) → contains k (all_paths mine theirs base) ≡ true → Listed k
  unfolding all_paths Listed contains get
  listed k c = elim (contains-extend-inv k base _ c) [
    | inl n ↦ inr (inr n)
    | inr c' ↦ elim (contains-extend-inv k theirs _ c') [
      | inl n ↦ inr (inl n)
      | inr c'' ↦ elim (contains-extend-inv k mine [] c'') [
        | inl n ↦ inl n
        | inr none_left ↦ absurd (ground arith)
      ]
    ]
  ]

  -- A key before the first of a sorted set is not in it.
  before-first :
      (j k : Text) (u : Unit {0}) (paths : Map (Unit {0}))
      → above k paths ≡ true
      → text_lt j k ≡ true
      → contains j ((k, u) ∷ paths) ≡ false
  unfolding above
  before-first j k u paths a l =
      contains-above j ((k, u) ∷ paths) (ground (arith, above-below j k paths l a))

  -- The loop ends at the first of the paths that does not pass.
  plan_paths-err :
      (paths : Map (Unit {0})) (cs : List Change) (m : Manifest) (e : ClixError)
      → is_sorted paths ≡ true
      → plan_paths mine theirs base a b paths cs m ≡ err e
      → (k : Text) × (contains k paths ≡ true)
        × ((valid_path k ≡ err e) ⊎ ((valid_path k ≡ ok tt) × Clash k × (e ≡ conflict k a b)))
        × ((j : Text)
            → (text_lt j k ≡ false)
              ⊎ ((contains j paths ≡ false) ⊎ ((valid_path j ≡ ok tt) × (¬ Clash j))))
  unfolding plan_paths is_sorted contains get
  plan_paths-err [] cs m e s p = absurd (ground arith)
  plan_paths-err ((k, u) ∷ paths) cs m e s p =
      let first : (j : Text)
          → (text_lt j k ≡ false)
            ⊎ ((contains j ((k, u) ∷ paths) ≡ false) ⊎ ((valid_path j ≡ ok tt) × (¬ Clash j))) =
        λ j. elim (Bool-cases (text_lt j k)) [
          | inl l ↦ inr (inl (before-first j k u paths (ground arith) l))
          | inr l ↦ inl l
        ] in
      elim (>>=-eq-err (valid_path k) _ p) [
        | inl bad ↦ (k, ground arith, inl bad, first)
        | inr (t, accepted, rest) ↦ elim (>>=-eq-err (select mine theirs base a b k) _ rest) [
          | inl bad ↦ (
            k,
            ground arith,
            inr (accepted, (select-err k e bad).0, (select-err k e bad).1),
            first,
          )
          | inr ((planned, v), chosen, rest') ↦
              let (k', in_rest, why, before) =
                plan_paths-err paths (cs ++ planned) (put_selected k v m) e (ground arith) rest' in
              (
                k',
                ground arith,
                why,
                λ j. elim (Text-discrete k j) [
                  | yes e' ↦ inr (
                      inr (
                        subst (λ t. (valid_path t ≡ ok tt) × (¬ Clash t)) e'
                          (accepted, select-passes k (planned, v) chosen)))
                  | no n ↦ elim (before j) [
                    | inl l ↦ inl l
                    | inr (inl c) ↦ inr (inl ground arith)
                    | inr (inr c) ↦ inr (inr c)
                  ]
                ],
              )
        ]
      ]

  plan_paths-Passes :
      (k : Text) (paths : Map (Unit {0})) (cs : List Change) (m : Manifest)
      (made : List Change × Manifest)
      → contains k paths ≡ true
      → plan_paths mine theirs base a b paths cs m ≡ ok made
      → (valid_path k ≡ ok tt) × (¬ Clash k)
  unfolding plan_paths contains get
  plan_paths-Passes k [] cs m made c p = absurd (ground arith)
  plan_paths-Passes k ((i, u) ∷ paths) cs m made c p =
      let (_, accepted, rest) = >>=-eq-ok (valid_path i) _ p in
      let ((planned, v), chosen, rest') = >>=-eq-ok (select mine theirs base a b i) _ rest in
      elim (Text-discrete i k) [
        | yes e ↦
            subst (λ t. (valid_path t ≡ ok tt) × (¬ Clash t)) e
              (accepted, select-passes i (planned, v) chosen)
        | no n ↦
            plan_paths-Passes k paths (cs ++ planned) (put_selected i v m) made (ground arith) rest'
      ]

  -- A plan that is made, or the reason for its refusal, which is the first in the order of paths.
  pub data Merges : Result (List Change × Manifest) → Type 0 where
    merges :
        (changes : List Change) (merged : Manifest)
        → ((k : Text) → SettledIn mine theirs base a b k changes merged × Passes k)
        → Merges (ok (changes, merged))
    refuses :
        (e : ClixError) (k : Text)
        → Refused k e
        → ((j : Text) → (text_lt j k ≡ false) ⊎ Passes j)
        → Merges (err e)

  plan-Passes :
      (k : Text) (made : List Change × Manifest) → plan mine theirs base a b ≡ ok made → Passes k
  unfolding plan
  plan-Passes k made p = elim (Bool-cases (contains k (all_paths mine theirs base))) [
    | inl c ↦ inr (plan_paths-Passes k _ [] [] made c p)
    | inr c ↦ inl (unlisted mine theirs base a b k c)
  ]

  plan-Refused : (e : ClixError) → plan mine theirs base a b ≡ err e → Merges (err e)
  unfolding plan
  plan-Refused e p =
      let (k, held, why, before) =
        plan_paths-err (all_paths mine theirs base) [] [] e
          (is_sorted-all_paths mine theirs base a b) p in
      let refused : Refused k e = elim why [
        | inl bad ↦ invalid (listed k held) bad
        | inr (accepted, both, named) ↦ clash accepted both named
      ] in
      refuses e k refused (λ j. elim (before j) [
        | inl l ↦ inl l
        | inr (inl c) ↦ inr (inl (unlisted mine theirs base a b j c))
        | inr (inr fine) ↦ inr (inr fine)
      ])

  result-Merges : (r : Result (List Change × Manifest)) → plan mine theirs base a b ≡ r → Merges r
  result-Merges (err e) p = plan-Refused e p
  result-Merges (ok (changes, merged)) p =
      merges changes merged
        (λ k. (plan-Settled mine theirs base a b k changes merged p, plan-Passes k _ p))

  -- A plan is a three-way merge. Where one is made, at every path: where the sides agree, nothing
  -- is done; where this side has what was last agreed, exactly one change takes the other's
  -- version, expecting what is here; where only the other side has it, exactly one change sends
  -- this side's version; the merged manifest has the version chosen; and the path is listed
  -- nowhere, or pin accepts it and the sides did not both change it differently. A plan is refused
  -- for a listed path that pin does not accept, with pin's error, or for an accepted one that both
  -- sides changed and differently, which the error names; and every path before that one, in the
  -- order of paths, is listed nowhere or stands in the way of nothing.
  pub plan-Merges : Merges (plan mine theirs base a b)
  plan-Merges = result-Merges (plan mine theirs base a b) refl
