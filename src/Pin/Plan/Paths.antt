-- ===== src/Pin/Plan/Paths.antt =====
-- pin.rs, `plan`: the set of the paths that the manifests list.

use clix.Prelude.{
  Bool-cases, List, Map, Option-cases, Text, Text-discrete, [], above, arith, false, get, get-above,
  get-insert, inl, inr, insert, is_some, is_sorted, is_sorted-insert, none, refl, true, ◌∷◌, ◌≡◌,
  ◌≢◌, ◌⊎◌,
}
use clix.State.{contains, extend}
use clix.Pin.{Manifest, keys_of}

pub contains-insert : (k j : Text) (s : Map (Unit {0})) → j ≡ k → contains k (insert j tt s) ≡ true
unfolding contains
contains-insert k j s e = ground (arith, get-insert j k tt s)

pub contains-above : (k : Text) (s : Map (Unit {0})) → above k s ≡ true → contains k s ≡ false
unfolding contains
contains-above k s h = ground (arith, get-above k s h)

pub contains-false-∷ :
    (k p : Text) (u : Unit {0}) (s : Map (Unit {0}))
    → contains k ((p, u) ∷ s) ≡ false
    → ¬ (p ≡ k) × (contains k s ≡ false)
unfolding contains get
contains-false-∷ k p u s c = elim (Text-discrete p k) [
  | yes e ↦ absurd (ground arith)
  | no n ↦ (n, ground arith)
]

pub contains-extend :
    (k : Text) (ks : List Text) (s : Map (Unit {0}))
    → contains k s ≡ true
    → contains k (extend ks s) ≡ true
unfolding contains extend
contains-extend k [] s c = c
contains-extend k (j ∷ ks) s c =
    contains-extend k ks (insert j tt s) (ground (arith, get-insert j k tt s))

contains-extend-keys_of :
    (k : Text) (m : Manifest) (s : Map (Unit {0}))
    → is_some (get k m) ≡ true
    → contains k (extend (keys_of m) s) ≡ true
unfolding extend keys_of get
contains-extend-keys_of k [] s c = ground arith
contains-extend-keys_of k ((j, v) ∷ m) s c = elim (Text-discrete j k) [
  | yes e ↦ contains-extend k (keys_of m) (insert j tt s) (contains-insert k j s e)
  | no n ↦ contains-extend-keys_of k m (insert j tt s) (ground arith)
]

pub is_sorted-extend :
    (ks : List Text) (s : Map (Unit {0})) → is_sorted s ≡ true → is_sorted (extend ks s) ≡ true
unfolding extend
is_sorted-extend [] s h = h
is_sorted-extend (k ∷ ks) s h = is_sorted-extend ks (insert k tt s) (is_sorted-insert k tt s h)

-- A path that a set of paths lacks is in none of the manifests whose paths went into it.
pub get-absent :
    (k : Text) (m : Manifest) (s : Map (Unit {0}))
    → contains k (extend (keys_of m) s) ≡ false
    → get k m ≡ none
get-absent k m s c = elim (Option-cases (get k m)) [
  | inl e ↦ e
  | inr (v, e) ↦
      let listed : is_some (get k m) ≡ true = rw e refl in
      let held = contains-extend-keys_of k m s listed in absurd (ground arith)
]

pub contains-extend-false :
    (k : Text) (ks : List Text) (s : Map (Unit {0}))
    → contains k (extend ks s) ≡ false
    → contains k s ≡ false
contains-extend-false k ks s c = elim (Bool-cases (contains k s)) [
  | inl e ↦ let held = contains-extend k ks s e in absurd (ground arith)
  | inr e ↦ e
]

contains-insert-inv :
    (k j : Text) (s : Map (Unit {0}))
    → contains k (insert j tt s) ≡ true
    → (j ≡ k) ⊎ (contains k s ≡ true)
unfolding contains
contains-insert-inv k j s c = elim (Text-discrete j k) [
  | yes e ↦ inl e
  | no n ↦ inr (ground (arith, get-insert j k tt s))
]

-- A path of an extended set is one of the manifest, or was in the set before.
pub contains-extend-inv :
    (k : Text) (m : Manifest) (s : Map (Unit {0}))
    → contains k (extend (keys_of m) s) ≡ true
    → (get k m ≢ none) ⊎ (contains k s ≡ true)
unfolding extend keys_of get
contains-extend-inv k [] s c = inr c
contains-extend-inv k ((j, v) ∷ m) s c = elim (Text-discrete j k) [
  | yes e ↦ inl (λ none_here. absurd (ground arith))
  | no n ↦ elim (contains-extend-inv k m (insert j tt s) c) [
    | inl later ↦ inl (λ none_here. later (ground arith))
    | inr before ↦ elim (contains-insert-inv k j s before) [
      | inl e ↦ absurd (n e)
      | inr held ↦ inr held
    ]
  ]
]
