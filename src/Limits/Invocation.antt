-- ===== src/Limits/Invocation.antt =====
-- limits.rs, `invocation`: what the validator lets through.
use clix.Types.{job_eq, schedule_eq, status_eq, weekday_eq}
use clix.Prelude.{
  List, Text, [], arith, false, int_eq, length, nat_eq, refl, text_eq, ℕ, ◌+◌, ◌↔◌, ◌∷◌, ◌≡◌, ◌≤◌,
}
use clix.Error.{ok}
use clix.Limits.{
  argv_bytes, argv_count, check_args, contains_nul, id_bytes, identifier, invocation, tool,
  tool_bytes,
}

-- No NUL byte, and a length in the given range.
pub record IsPlain (lo hi : ℕ) (s : Text) : Type 0 where
  pub at_least : lo ≤ length s
  pub at_most : length s ≤ hi
  pub no_nul : contains_nul s ≡ false

abbrev pub total_bytes : List Text → ℕ
total_bytes [] = 0
total_bytes (s ∷ ss) = length s + total_bytes ss

abbrev pub NoNul : List Text → Type 0
NoNul [] = Unit {0}
NoNul (s ∷ ss) = (contains_nul s ≡ false) × NoNul ss

-- What limits.rs asks of an argument vector.
abbrev pub IsArgv : List Text → Type 0
IsArgv [] = ⊥
IsArgv (name ∷ args) =
    (length (name ∷ args) ≤ argv_count)
    × IsPlain 1 tool_bytes name
    × (total_bytes (name ∷ args) ≤ argv_bytes)
    × NoNul (name ∷ args)

identifier-IsPlain : (id : Text) → identifier id ≡ ok tt → IsPlain 1 id_bytes id
unfolding identifier
identifier-IsPlain [] h = cc
identifier-IsPlain (b ∷ id) h = ground arith

pub IsPlain-identifier : (id : Text) → IsPlain 1 id_bytes id → identifier id ≡ ok tt
unfolding identifier
IsPlain-identifier [] p = absurd (omega arith)
IsPlain-identifier (b ∷ id) p = ground arith

tool-IsPlain : (name : Text) → tool name ≡ ok tt → IsPlain 1 tool_bytes name
unfolding tool
tool-IsPlain [] h = cc
tool-IsPlain (b ∷ id) h = ground arith

IsPlain-tool : (name : Text) → IsPlain 1 tool_bytes name → tool name ≡ ok tt
unfolding tool
IsPlain-tool [] p = absurd (omega arith)
IsPlain-tool (b ∷ id) p = ground arith

check_args-total :
    (n : ℕ) (args : List Text)
    → n ≤ argv_bytes
    → check_args n args ≡ ok tt
    → (n + total_bytes args ≤ argv_bytes) × NoNul args
unfolding check_args
check_args-total n [] b h = ground arith
check_args-total n (a ∷ args) b h = ground (arith, check_args-total (n + length a) args)

total-check_args :
    (n : ℕ) (args : List Text)
    → n + total_bytes args ≤ argv_bytes
    → NoNul args
    → check_args n args ≡ ok tt
unfolding check_args
total-check_args n [] b h = refl
total-check_args n (a ∷ args) b h = ground (arith, total-check_args (n + length a) args)

invocation-IsArgv :
    (id : Text) (argv : List Text)
    → invocation id argv ≡ ok tt
    → IsPlain 1 id_bytes id × IsArgv argv
unfolding invocation
invocation-IsArgv id [] h = ground arith
invocation-IsArgv id (name ∷ args) h =
    ground (arith, identifier-IsPlain id, tool-IsPlain name, check_args-total 0 (name ∷ args))

IsArgv-invocation :
    (id : Text) (argv : List Text)
    → IsPlain 1 id_bytes id
    → IsArgv argv
    → invocation id argv ≡ ok tt
unfolding invocation
IsArgv-invocation id [] p v = absurd v
IsArgv-invocation id (name ∷ args) p v = rw (IsPlain-identifier id p) (
    ground
      (arith, IsPlain-tool name v.1, total-check_args 0 (name ∷ args) (omega (arith, v.2)) v.3))

-- An invocation is admitted exactly when its identifier has 1 to 128 bytes with no NUL, its
-- argument vector has 1 to 256 entries whose first has 1 to 4096 bytes, no entry holds a NUL, and
-- the entries' bytes together are at most 64 KiB.
pub invocation_iff :
    (id : Text) (argv : List Text)
    → (invocation id argv ≡ ok tt) ↔ (IsPlain 1 id_bytes id × IsArgv argv)
invocation_iff id argv = (invocation-IsArgv id argv, λ v. IsArgv-invocation id argv v.0 v.1)
