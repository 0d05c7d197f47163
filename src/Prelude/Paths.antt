-- ===== src/Prelude/Paths.antt =====
-- The parts of a path's text.
use Prim.Native.Nat.{ℕ, ◌-◌}
use mathlib.Core.Bool.{Bool, true, not, ◌&&◌}
use mathlib.Core.Option.{Option, none, some}
use mathlib.Core.Path.{◌≡◌, refl, ap, ◌∙◌}
use native.Mathlib.Omega.{arith}
use mathlib.Core.List.{List, [], ◌∷◌, ◌++◌}
use package.clix.Prelude.Tests.{if◌then◌else◌, yes-is_yes, ◌!=◌, ◌==◌}
use package.clix.Prelude.Maps.{
  Map, Text, Text-discrete, get, get-insert, insert, nat_eq, text_eq, texts_eq,
}
use package.clix.Prelude.Lists.{drop, is_empty, length, length-append, retain}

unfoldable pub cons_first : ℕ → List Text → List Text
cons_first b [] = (b ∷ []) ∷ []
cons_first b (s ∷ ss) = (b ∷ s) ∷ ss

-- `split` at a byte.
unfoldable pub split_on : ℕ → Text → List Text
unfolding cons_first
split_on sep [] = [] ∷ []
split_on sep (b ∷ bs) =
    let rest = split_on sep bs in if b == sep then [] ∷ rest else cons_first b rest

-- The components that `Path` keeps: not the empty ones, nor the current directory.
unfoldable pub is_component : Text → Bool
is_component s = not (is_empty s) && s != b'.' ∷ []

unfoldable pub last {ℓ} : {A : Type ℓ} → List A → Option A
last [] = none
last (x ∷ []) = some x
last (x ∷ y ∷ ys) = last (y ∷ ys)

unfoldable pub ends_with : Text → Text → Bool
ends_with suffix s = drop (length s - length suffix) s == suffix

-- `BTreeMap::remove`.
unfoldable pub remove {ℓ} : {V : Type ℓ} → Text → Map V → Map V
remove k m = retain (λ e. e.0 != k) m

pub get-remove {ℓ} :
    {V : Type ℓ} (k j : Text) (m : Map V) → get j (remove k m) ≡ (if k == j then none else get j m)
unfolding get remove retain
get-remove k j [] = ground arith
get-remove k j ((i, w) ∷ m) = ground (arith, get-remove k j m)

module _ {ℓ} {V : Type ℓ} where
  pub get-insert-other :
      (k j : Text) (v : V) (m : Map V) → ¬ (k ≡ j) → get j (insert k v m) ≡ get j m
  get-insert-other k j v m n = ground (arith, get-insert k j v m)

  pub get-insert-same : (k : Text) (v : V) (m : Map V) → get k (insert k v m) ≡ some v
  get-insert-same k v m = ground (arith, get-insert k k v m)

  pub get-remove-same : (k : Text) (m : Map V) → get k (remove k m) ≡ none
  get-remove-same k m = ground (arith, get-remove k k m)

  pub get-remove-other : (k j : Text) (m : Map V) → ¬ (k ≡ j) → get j (remove k m) ≡ get j m
  get-remove-other k j m n = ground (arith, get-remove k j m)

drop-length-append : (xs ys : Text) → drop (length xs) (xs ++ ys) ≡ ys
drop-length-append [] ys = refl
drop-length-append (x ∷ xs) ys = drop-length-append xs ys

pub ends_with-append : (xs suffix : Text) → ends_with suffix (xs ++ suffix) ≡ true
unfolding ends_with
ends_with-append xs suffix =
    let same : length (xs ++ suffix) - length suffix ≡ length xs =
      omega (arith, length-append xs suffix) in
    yes-is_yes (Text-discrete _ suffix)
      (ap (λ n. drop n (xs ++ suffix)) same ∙ drop-length-append xs suffix)
