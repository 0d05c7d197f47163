-- ===== src/Prelude/Sorted.antt =====
-- Maps in the order of their keys: what a `BTreeMap` keeps.
use mathlib.Core.Path.{◌≡◌, refl, subst}
use native.Mathlib.Decide.{ℕ_discrete}
use mathlib.Core.Logic.{inl, inr}
use mathlib.Core.Bool.{Bool, true, false, ◌&&◌}
use mathlib.Core.Option.{none}
use mathlib.Core.List.{[], ◌∷◌}
use native.Mathlib.Omega.{arith}
use package.clix.Prelude.Tests.{Bool-cases, ltb}
use package.clix.Prelude.Maps.{Map, Text, Text-discrete, get, insert, text_lt}

pub text_lt_irrefl : (k : Text) → text_lt k k ≡ false
unfolding text_lt
text_lt_irrefl [] = refl
text_lt_irrefl (x ∷ xs) = ground (arith, text_lt_irrefl xs)

pub text_lt_trans : (i j k : Text) → text_lt i j ≡ true → text_lt j k ≡ true → text_lt i k ≡ true
unfolding text_lt
text_lt_trans [] [] k p q = ground arith
text_lt_trans [] (y ∷ ys) [] p q = ground arith
text_lt_trans [] (y ∷ ys) (z ∷ zs) p q = refl
text_lt_trans (x ∷ xs) [] k p q = ground arith
text_lt_trans (x ∷ xs) (y ∷ ys) [] p q = ground arith
text_lt_trans (x ∷ xs) (y ∷ ys) (z ∷ zs) p q = ground (arith, text_lt_trans xs ys zs)

pub text_lt_total : (j k : Text) → ¬ (j ≡ k) → text_lt k j ≡ false → text_lt j k ≡ true
unfolding text_lt
text_lt_total [] [] n p = absurd (n refl)
text_lt_total [] (y ∷ ys) n p = refl
text_lt_total (x ∷ xs) [] n p = ground arith
text_lt_total (x ∷ xs) (y ∷ ys) n p = elim (ℕ_discrete x y) [
  | yes e ↦
      let rest : text_lt ys xs ≡ false = ground arith in
      let tails = text_lt_total xs ys (λ q. n cc) rest in ground (arith, tails)
  | no ne ↦ elim (Bool-cases (ltb x y)) [
    | inl t ↦ ground arith
    | inr t ↦ let same : ltb y x ≡ false = ground arith in absurd (ne (ground arith))
  ]
]

module _ {ℓ} {V : Type ℓ} where
  -- Every key is greater than `k`.
  unfoldable pub above : Text → Map V → Bool
  above k [] = true
  above k ((j, v) ∷ m) = text_lt k j && above k m

  unfoldable pub is_sorted : Map V → Bool
  is_sorted [] = true
  is_sorted ((j, v) ∷ m) = above j m && is_sorted m

  pub above-below :
      (i j : Text) (m : Map V) → text_lt i j ≡ true → above j m ≡ true → above i m ≡ true
  unfolding above
  above-below i j [] p a = refl
  above-below i j ((k, v) ∷ m) p a = ground (arith, above-below i j m, text_lt_trans i j k)

  pub get-above : (k : Text) (m : Map V) → above k m ≡ true → get k m ≡ none
  unfolding get above
  get-above k [] a = refl
  get-above k ((j, v) ∷ m) a = elim (Text-discrete j k) [
    | yes e ↦
        let below : text_lt k j ≡ true = ground arith in let not_below = text_lt_irrefl k in cc
    | no n ↦ ground (arith, get-above k m)
  ]

  above-insert :
      (i k : Text) (v : V) (m : Map V)
      → text_lt i k ≡ true
      → above i m ≡ true
      → above i (insert k v m) ≡ true
  unfolding insert above
  above-insert i k v [] p a = ground arith
  above-insert i k v ((j, w) ∷ m) p a = ground (arith, above-insert i k v m)

  pub is_sorted-insert :
      (k : Text) (v : V) (m : Map V) → is_sorted m ≡ true → is_sorted (insert k v m) ≡ true
  unfolding insert is_sorted above
  is_sorted-insert k v [] s = refl
  is_sorted-insert k v ((j, w) ∷ m) s = elim (Text-discrete j k) [
    | yes e ↦
        let least : above k m ≡ true = subst (λ t. above t m ≡ true) e (ground arith) in
        ground (arith, least)
    | no n ↦ elim (Bool-cases (text_lt k j)) [
      | inl t ↦ ground (arith, above-below k j m)
      | inr t ↦ ground (arith, text_lt_total j k n t, above-insert j k v m, is_sorted-insert k v m)
    ]
  ]
