-- ===== src/Error.antt =====
-- error.rs: the errors, their printed forms, and the result of a fallible operation.
use clix.Prelude.{
  Bool, Text, arith, decimal_int, false, inl, inr, refl, text, true, ℤ, ◌++◌, ◌≡◌, ◌⊎◌,
}

pub data ClixError : Type 0 where
  usage io json : Text → ClixError
  grant_busy : Text → ClixError
  tool_exit : ℤ → ClixError
  unreachable no_daemon : ClixError
  capacity protocol : Text → ClixError
  no_such_tool : Text → ClixError
  not_added : (tool body : Text) → ClixError
  not_allowed : (tool from body : Text) → ClixError
  expired not_added_at_time : (tool body : Text) → ClixError
  pin_conflict : (path a b : Text) → ClixError

-- `to_string`.
pub display : ClixError → Text
display (usage s) = s
display (io s) = s
display (json s) = s
display (grant_busy tool) = tool ++ text " already has a reserved single-use run"
display (tool_exit n) = text "command exited " ++ decimal_int n
display unreachable = text "machine is unreachable"
display no_daemon = text "Clix is not running. clix install"
display (capacity s) = s
display (protocol s) = s
display (no_such_tool tool) = text "no such tool: " ++ tool
display (not_added tool body) = tool ++ (text " is not added on " ++ body)
display (not_allowed tool from body) =
    from ++ (text " is not allowed to use " ++ (tool ++ (text " on " ++ body)))
display (expired tool body) = tool ++ (text " grant on " ++ (body ++ text " has expired"))
display (not_added_at_time tool body) =
    tool ++ (text " is not added on " ++ (body ++ text " at this time"))
display (pin_conflict path a b) =
    text "pin conflict: "
    ++ (path ++ (text " (" ++ (a ++ (text " and " ++ (b ++ text " both wrote). Not merging.")))))

-- `std::result::Result` with this error.
pub data Result {ℓ} (T : Type ℓ) : Type ℓ where
  err : (e : ClixError) → Result T
  ok : (value : T) → Result T

abbrev pub is_ok {ℓ} : {T : Type ℓ} → Result T → Bool
is_ok (err _) = false
is_ok (ok _) = true

-- `?`: the rest of the function runs on a value, and an error ends it.
infixl 5 ◌>>=◌ ◌>>◌
abbrev pub ◌>>=◌ {ℓ κ} : {T : Type ℓ} {V : Type κ} → Result T → (T → Result V) → Result V
err e >>= rest = err e
ok value >>= rest = rest value

abbrev pub ◌>>◌ {κ} : {V : Type κ} → Result (Unit {0}) → Result V → Result V
first >> rest = first >>= (λ _. rest)

-- `if bad { return Err(e) }`.
abbrev pub refuse_if : Bool → ClixError → Result (Unit {0})
refuse_if false e = ok tt
refuse_if true e = err e

pub ok-injective {ℓ} : {T : Type ℓ} {x y : T} → ok x ≡ ok y → x ≡ y
ok-injective e = cc

-- A chain that succeeds has succeeded in its first step.
pub >>=-eq-ok {ℓ κ} :
    {T : Type ℓ} {V : Type κ} (first : Result T) (rest : T → Result V) {v : V}
    → (first >>= rest) ≡ ok v
    → (t : T) × (first ≡ ok t) × (rest t ≡ ok v)
>>=-eq-ok (err e) rest p = cc
>>=-eq-ok (ok t) rest p = (t, refl, p)

pub Result-cases {ℓ} :
    {T : Type ℓ} (r : Result T) → ((t : T) × (r ≡ ok t)) ⊎ ((e : ClixError) × (r ≡ err e))
Result-cases (err e) = inr (e, refl)
Result-cases (ok t) = inl (t, refl)

-- A chain that fails has failed in its first step or after it.
pub >>=-eq-err {ℓ κ} :
    {T : Type ℓ} {V : Type κ} (first : Result T) (rest : T → Result V) {e : ClixError}
    → (first >>= rest) ≡ err e
    → (first ≡ err e) ⊎ ((t : T) × (first ≡ ok t) × (rest t ≡ err e))
>>=-eq-err (err e) rest p = inl (ground arith)
>>=-eq-err (ok t) rest p = inr (t, refl, p)

-- A test that refuses nothing has failed.
pub refuse_if-ok : (b : Bool) (e : ClixError) (u : Unit {0}) → refuse_if b e ≡ ok u → b ≡ false
refuse_if-ok true e u p = absurd (ground arith)
refuse_if-ok false e u p = refl
