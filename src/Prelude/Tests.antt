-- ===== src/Prelude/Tests.antt =====
-- Boolean tests: orders on the native numbers, decidable equality, and the conditional.
use Prim.Native.Nat.{ℕ, compare, Ordering}
use mathlib.Core.Path.{◌≡◌, refl}
use mathlib.Core.Logic.{◌⊎◌, inl, inr}
use mathlib.Core.Bool.{Bool, true, false, not}
use mathlib.Core.Option.{Option, none, some}

abbrev pub ltb : ℕ → ℕ → Bool
ltb a b = elim (compare a b) [ Ordering.lt ↦ true | _ ↦ false ]

abbrev pub leb : ℕ → ℕ → Bool
leb a b = elim (compare a b) [ Ordering.gt ↦ false | _ ↦ true ]

infix 1 if◌then◌else◌
abbrev pub if◌then◌else◌ {ℓ} : {A : Type ℓ} → Bool → A → A → A
if true then x else y = x
if false then x else y = y

abbrev pub is_yes {ℓ} : {P : Type ℓ} → Dec P → Bool
is_yes d = elim d [ yes _ ↦ true | no _ ↦ false ]

-- `==` of a type whose equality is decided (`#[derive(PartialEq)]`).
pub record Eq {ℓ} (A : Type ℓ) : Type ℓ where
  pub dec : Discrete A

infix 50 ◌==◌ ◌!=◌
abbrev pub ◌==◌ {ℓ} : {A : Type ℓ} ⦃e : Eq A⦄ → A → A → Bool
◌==◌ ⦃e⦄ a b = is_yes (e.dec a b)

abbrev pub ◌!=◌ {ℓ} : {A : Type ℓ} ⦃e : Eq A⦄ → A → A → Bool
◌!=◌ ⦃e⦄ a b = not (is_yes (e.dec a b))

pub is_yes-true {ℓ} : {P : Type ℓ} (d : Dec P) → is_yes d ≡ true → P
is_yes-true (yes p) h = p
is_yes-true (no n) h = cc

pub is_yes-false {ℓ} : {P : Type ℓ} (d : Dec P) → is_yes d ≡ false → ¬ P
is_yes-false (yes p) h = cc
is_yes-false (no n) h = n

pub yes-is_yes {ℓ} : {P : Type ℓ} (d : Dec P) → P → is_yes d ≡ true
yes-is_yes (yes p) h = refl
yes-is_yes (no n) h = absurd (n h)

-- To split on a computed value and keep the equation.
pub Bool-cases : (b : Bool) → (b ≡ true) ⊎ (b ≡ false)
Bool-cases true = inl refl
Bool-cases false = inr refl

pub Option-cases {ℓ} : {A : Type ℓ} (o : Option A) → (o ≡ none) ⊎ ((a : A) × (o ≡ some a))
Option-cases none = inl refl
Option-cases (some a) = inr (a, refl)

-- A conditional is one of its branches.
pub choose-cases {ℓ} :
    {A : Type ℓ} (b : Bool) (x y z : A)
    → (if b then x else y) ≡ z
    → ((b ≡ true) × (x ≡ z)) ⊎ ((b ≡ false) × (y ≡ z))
choose-cases true x y z e = inl (refl, e)
choose-cases false x y z e = inr (refl, e)
