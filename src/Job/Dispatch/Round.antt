-- ===== src/Job/Dispatch/Round.antt =====
-- job.rs, `dispatch_pending`: one round over all the work that waits.
use mathlib.Core.List.Memᴰ
use mathlib.Core.List.{Memᴰ}
use clix.Types.{
  bodies_eq, bool_eq, job_eq, patterns_eq, schedule_eq, status_eq, time_eq, weekday_eq,
}
use clix.State.{Store}
use clix.Prelude.{
  Bool, Bool-cases, List, Map, Text, Text-discrete, [], any, ap, arith, get, if◌then◌else◌, inl,
  inr, int_eq, nat_eq, none, refl, retain, sym, text_eq, texts_eq, true, ℕ, ◌==◌, ◌∙◌, ◌∷◌, ◌≡◌,
  ◌⊎◌,
}
use clix.Job.Dispatch.{Dispatcher, candidates, forget_old, rotated, round}
use clix.Job.Dispatch.Waiting.{Candidate}
use clix.Job.Dispatch.Order.{Order, mem-rotated, rotated-Order}
use clix.Job.Dispatch.Examined.{Examined, try_all-Examined}

-- What a dispatcher keeps when it forgets the times of works that no longer wait.
pub record Forgets (works : List Candidate) (d kept : Dispatcher) : Type 0 where
  pub same_active : kept.active ≡ d.active
  pub same_cursor : kept.cursor ≡ d.cursor
  pub same_times :
      (k : Text)
      → (((c : Candidate) × Memᴰ c works × (c.0 ≡ k))
          × (get k kept.next_attempt ≡ get k d.next_attempt))
        ⊎ ((¬ ((c : Candidate) × Memᴰ c works × (c.0 ≡ k))) × (get k kept.next_attempt ≡ none))

get-retain-key {ℓ} :
    {V : Type ℓ} (p : Text → Bool) (k : Text) (m : Map V)
    → get k (retain (λ e. p e.0) m) ≡ (if p k then get k m else none)
unfolding get retain
get-retain-key p k [] = ground arith
get-retain-key p k ((j, v) ∷ m) = elim (Text-discrete j k) [
  | yes e ↦ let same = ap p e in ground (arith, get-retain-key p k m)
  | no n ↦ ground (arith, get-retain-key p k m)
]

any-key :
    (k : Text) (cs : List Candidate)
    → any (λ c. c.0 == k) cs ≡ true
    → (c : Candidate) × Memᴰ c cs × (c.0 ≡ k)
any-key k [] e = absurd (ground arith)
any-key k (c ∷ cs) e = elim (Text-discrete c.0 k) [
  | yes p ↦ (c, Memᴰ.head refl, p)
  | no n ↦ let (x, m, q) = any-key k cs (ground arith) in (x, Memᴰ.tail m, q)
]

key-any :
    (k : Text) (cs : List Candidate) (c : Candidate)
    → Memᴰ c cs
    → c.0 ≡ k
    → any (λ x. x.0 == k) cs ≡ true
key-any k [] c m e = absurd (Memᴰ.not-nil m)
key-any k (x ∷ cs) c m e = elim (Memᴰ.cases_cons m) [
  | inl same ↦ let here : x.0 ≡ k = ap (λ (y : Candidate). y.0) (sym same) ∙ e in ground arith
  | inr r ↦ let later = key-any k cs c r e in ground arith
]

forget_old-Forgets :
    (s : Store) (d : Dispatcher)
    → Forgets (rotated d.cursor (candidates s)) d (forget_old (candidates s) d)
unfolding forget_old
forget_old-Forgets s d = record {
  same_active = refl;
  same_cursor = refl;
  same_times = λ k.
      let cs = candidates s in
      let found = get-retain-key (λ j. any (λ c. c.0 == j) cs) k d.next_attempt in
      elim (Bool-cases (any (λ c. c.0 == k) cs)) [
        | inl t ↦
            let (c, m, e) = any-key k cs t in
            inl ((c, (mem-rotated d.cursor cs c).1 m, e), ground arith)
        | inr f ↦ inr (
          λ (c, m, e).
              let t = key-any k cs c ((mem-rotated d.cursor cs c).0 m) e in absurd (ground arith),
          ground arith,
        )
      ];
}

-- A round comes to exactly the work that waits: the unfinished jobs for other machines, the jobs of
-- this machine that wait to start, the requests that have not failed and every peer's history;
-- first what is after the last start in the order of the keys, and then the rest in that order. It
-- forgets the times of keys that no longer wait, and keeps the others. It looks at the works up to
-- a place, and starts some of them in their order, none of which was running or waiting for its
-- time; the tasks and the cursor are those of the starts, and each started key waits for the
-- interval. Every work that it looked at runs or waits for its time, and it stops before the end
-- only where as many tasks run as may, which are never more unless there were more before.
pub round-Examined :
    (now interval : ℕ) (s : Store) (d : Dispatcher)
    → (works : List Candidate) × (kept : Dispatcher) × Order s d.cursor works
      × Forgets works d kept
      × Examined now interval works kept (round now interval s d)
unfolding round
round-Examined now interval s d = (
  rotated d.cursor (candidates s),
  forget_old (candidates s) d,
  rotated-Order s d.cursor,
  forget_old-Forgets s d,
  try_all-Examined now interval (rotated d.cursor (candidates s)) (forget_old (candidates s) d),
)
