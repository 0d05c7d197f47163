-- ===== src/Exec/Confined.antt =====
-- exec.rs, `run_async`: what a process is given, and how much is kept of what it says.
use clix.Prelude.{
  Bool, Bool-cases, List, Option, Text, Text-discrete, [], ap, arith, inl, inr, length, ltb, none,
  refl, some, subst, ℕ, ◌∷◌, ◌≡◌, ◌≤◌, ◌⊎◌,
}
use clix.Types.{Grant}
use clix.Error.{Result, err, ok}
use clix.Limits.{output_stream_bytes}
use clix.Grant.{check_args}
use clix.Exec.Finish.{
  Child, ExitStatus, Stream, attempt_run, capture, ran, read_output, run_child, spawned,
  validate_argv, waited,
}

read_output-bound :
    (s : Stream) (bytes : Text) → read_output s ≡ inl bytes → length bytes ≤ output_stream_bytes
unfolding read_output
read_output-bound s bytes e = elim (Bool-cases (ltb output_stream_bytes (length s.bytes))) [
  | inl t ↦ absurd (cc (rw t at e))
  | inr t ↦ ground arith
]

-- Two streams that are captured, each within a bound, or none.
capture-bound :
    (first : Bool) (a b : Text ⊎ Text) (n : ℕ)
    → ((x : Text) → a ≡ inl x → length x ≤ n)
    → ((x : Text) → b ≡ inl x → length x ≤ n)
    → (length (capture first a b).0 ≤ n) × (length (capture first a b).1 ≤ n)
unfolding capture
capture-bound first (inl x) (inl y) n p q = (p x refl, q y refl)
capture-bound first (inl x) (inr e) n p q = (omega arith, omega arith)
capture-bound first (inr e) (inl y) n p q = (omega arith, omega arith)
capture-bound first (inr e) (inr e') n p q = (omega arith, omega arith)

waited-ran :
    (wait : Result ExitStatus) (c : Text × Text × Option Text) (exit : ExitStatus) (out err' : Text)
    (failure : Option Text)
    → waited wait c ≡ ran exit out err' failure
    → (c.0 ≡ out) × (c.1 ≡ err')
unfolding waited
waited-ran (ok s) c exit out err' failure e = ground arith
waited-ran (err x) c exit out err' failure e = absurd (cc e)

validate_argv-tool :
    (g : Grant) (argv : List Text)
    → validate_argv g argv ≡ ok tt
    → (rest : List Text) × (argv ≡ g.tool ∷ rest) × (check_args g argv ≡ ok tt)
unfolding validate_argv
validate_argv-tool g [] e = absurd (cc e)
validate_argv-tool g (name ∷ args) e = elim (Text-discrete name g.tool) [
  | yes p ↦ (args, ap (λ x. x ∷ args) p, ground arith)
  | no n ↦ absurd (ground arith)
]

spawned-bound :
    (child : Child) (o : Option Text) (exit : ExitStatus) (out err' : Text) (failure : Option Text)
    → spawned child o ≡ ran exit out err' failure
    → (length out ≤ output_stream_bytes) × (length err' ≤ output_stream_bytes)
unfolding spawned
spawned-bound child (some x) exit out err' failure e = absurd (cc e)
spawned-bound child none exit out err' failure e =
    let c = capture child.stderr_first (read_output child.stdout) (read_output child.stderr) in
    let (o, r) = waited-ran child.wait c exit out err' failure e in
    let (p, q) =
      capture-bound child.stderr_first (read_output child.stdout) (read_output child.stderr)
        output_stream_bytes (read_output-bound child.stdout) (read_output-bound child.stderr) in
    (
      subst (λ x. length x ≤ output_stream_bytes) o p,
      subst (λ x. length x ≤ output_stream_bytes) r q,
    )

attempt_run-bound :
    (child : Child) (v : Result (Unit {0})) (exit : ExitStatus) (out err' : Text)
    (failure : Option Text)
    → attempt_run child v ≡ ran exit out err' failure
    → (v ≡ ok tt) × (length out ≤ output_stream_bytes) × (length err' ≤ output_stream_bytes)
unfolding attempt_run
attempt_run-bound child (err x) exit out err' failure e = absurd (cc e)
attempt_run-bound child (ok _) exit out err' failure e =
    let (p, q) = spawned-bound child child.spawn_error exit out err' failure e in (refl, p, q)

-- A process that has run did so under the grant's own tool name with arguments that the grant
-- allows, and at most 4 MiB of each of its streams is kept.
pub run_child-confined :
    (g : Grant) (argv : List Text) (child : Child) (exit : ExitStatus) (out err' : Text)
    (failure : Option Text)
    → run_child g argv child ≡ ran exit out err' failure
    → ((rest : List Text) × (argv ≡ g.tool ∷ rest) × (check_args g argv ≡ ok tt))
      × (length out ≤ output_stream_bytes)
      × (length err' ≤ output_stream_bytes)
unfolding run_child
run_child-confined g argv child exit out err' failure e =
    let (v, p, q) = attempt_run-bound child (validate_argv g argv) exit out err' failure e in
    (validate_argv-tool g argv v, p, q)
