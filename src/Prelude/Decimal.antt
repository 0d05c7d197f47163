-- ===== src/Prelude/Decimal.antt =====
-- Integers, and numbers in the program's printed forms.
use mathlib.Core.Bool.{Bool, true, false}
use mathlib.Core.Path.{◌≡◌, refl}
use mathlib.Core.Logic.{◌↔◌}
use native.Mathlib.Omega.{arith}
use Prim.Native.Nat.{ℕ, ◌<◌, zero, suc, ◌+◌, ◌/◌, ◌%◌}
use mathlib.Core.List.{[], ◌∷◌}
use native.Mathlib.Decide.{ℕ_discrete}
use package.clix.Prelude.Tests.{Eq, if◌then◌else◌, ltb}
use package.clix.Prelude.Maps.{Text}

-- `negsuc n` is -(n + 1).
pub data ℤ : Type 0 where
  pos : ℕ → ℤ
  negsuc : ℕ → ℤ

unfoldable pub ℤ-discrete : Discrete ℤ
ℤ-discrete = hlevel ℕ_discrete

instance abbrev pub int_eq : Eq ℤ
int_eq = record { dec = ℤ-discrete }

-- `<` of signed numbers.
abbrev pub int_lt : ℤ → ℤ → Bool
int_lt (pos a) (pos b) = ltb a b
int_lt (pos a) (negsuc b) = false
int_lt (negsuc a) (pos b) = true
int_lt (negsuc a) (negsuc b) = ltb b a

unfoldable pub IsBefore : ℤ → ℤ → Type 0
IsBefore (pos a) (pos b) = a < b
IsBefore (pos a) (negsuc b) = ⊥
IsBefore (negsuc a) (pos b) = Unit
IsBefore (negsuc a) (negsuc b) = b < a

pub int_lt_iff : (a b : ℤ) → (int_lt a b ≡ true) ↔ IsBefore a b
unfolding IsBefore
int_lt_iff (pos a) (pos b) = (λ h. ground arith, λ h. ground arith)
int_lt_iff (pos a) (negsuc b) = (λ h. absurd (ground arith), λ h. absurd h)
int_lt_iff (negsuc a) (pos b) = (λ h. tt, λ h. refl)
int_lt_iff (negsuc a) (negsuc b) = (λ h. ground arith, λ h. ground arith)

-- The fuel is the number itself, which is never less than its count of digits.
decimal_from : ℕ → ℕ → Text → Text
decimal_from zero n rest = (48 + n % 10) ∷ rest
decimal_from (suc f) n rest =
    let more = decimal_from f (n / 10) ((48 + n % 10) ∷ rest) in
    if ltb n 10 then (48 + n) ∷ rest else more

-- `{}` of an unsigned number.
unfoldable pub decimal : ℕ → Text
unfolding decimal_from
decimal n = decimal_from n n []

-- `{}` of a signed number.
unfoldable pub decimal_int : ℤ → Text
unfolding decimal
decimal_int (pos n) = decimal n
decimal_int (negsuc n) = b'-' ∷ decimal (n + 1)

unfoldable pub hex_digit : ℕ → ℕ
hex_digit d = if ltb d 10 then 48 + d else 87 + d

-- `{:02x}` of each byte.
unfoldable pub hex : Text → Text
unfolding hex_digit
hex [] = []
hex (b ∷ bs) = hex_digit (b / 16) ∷ hex_digit (b % 16) ∷ hex bs
