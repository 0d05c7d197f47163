-- ===== src/Grant/Slots.antt =====
-- grant.rs: one grant for each tool.

use clix.Types.{
  Grant, bodies_eq, bool_eq, job_eq, patterns_eq, schedule_eq, status_eq, time_eq, weekday_eq,
}
use clix.Prelude.{
  Bool, List, Text, Text-discrete, [], arith, find, if◌then◌else◌, int_eq, nat_eq, none, or_else,
  refl, retain, some, subst, sym, text_eq, texts_eq, ◌!=◌, ◌++◌, ◌==◌, ◌∷◌, ◌≡◌, ◌≢◌,
}
use clix.State.{Store}
use clix.Grant.{commit, invalidate_requests}

abbrev pub Absent : Text → List Grant → Type 0
Absent name [] = Unit {0}
Absent name (g ∷ gs) = (g.tool ≢ name) × Absent name gs

-- No tool has two grants.
abbrev pub Unique : List Grant → Type 0
Unique [] = Unit {0}
Unique (g ∷ gs) = Absent g.tool gs × Unique gs

Absent-retain :
    (p : Grant → Bool) (name : Text) (gs : List Grant) → Absent name gs → Absent name (retain p gs)
unfolding retain
Absent-retain p name [] a = tt
Absent-retain p name (g ∷ gs) a = ground (arith, Absent-retain p name gs a.1)

Unique-retain : (p : Grant → Bool) (gs : List Grant) → Unique gs → Unique (retain p gs)
unfolding retain
Unique-retain p [] u = tt
Unique-retain p (g ∷ gs) u = ground (arith, Unique-retain p gs u.1, Absent-retain p g.tool gs u.0)

retain-Absent :
    (name : Text) (gs : List Grant) → Absent name (retain (λ (x : Grant). x.tool != name) gs)
unfolding retain
retain-Absent name [] = tt
retain-Absent name (g ∷ gs) = ground (arith, retain-Absent name gs)

Absent-append :
    (name : Text) (gs : List Grant) (g : Grant)
    → Absent name gs
    → g.tool ≢ name
    → Absent name (gs ++ (g ∷ []))
Absent-append name [] g a n = (n, tt)
Absent-append name (x ∷ gs) g a n = (a.0, Absent-append name gs g a.1 n)

Unique-append :
    (gs : List Grant) (g : Grant) → Unique gs → Absent g.tool gs → Unique (gs ++ (g ∷ []))
Unique-append [] g u a = (tt, tt)
Unique-append (x ∷ gs) g u a =
    (Absent-append x.tool gs g u.0 (λ e. a.0 (sym e)), Unique-append gs g u.1 a.1)

find-retain :
    (name k : Text) (gs : List Grant)
    → name ≢ k
    → find (λ (x : Grant). x.tool == name) (retain (λ (x : Grant). x.tool != k) gs)
      ≡ find (λ (x : Grant). x.tool == name) gs
unfolding find retain
find-retain name k [] n = refl
find-retain name k (g ∷ gs) n = ground (arith, find-retain name k gs)

find-append :
    (name : Text) (gs : List Grant) (g : Grant)
    → find (λ (x : Grant). x.tool == name) (gs ++ (g ∷ []))
      ≡ or_else (find (λ (x : Grant). x.tool == name) gs) (if g.tool == name then some g else none)
unfolding find
find-append name [] g = refl
find-append name (x ∷ gs) g = ground (arith, find-append name gs g)

find-Absent :
    (name : Text) (gs : List Grant)
    → Absent name gs
    → find (λ (x : Grant). x.tool == name) gs ≡ none
unfolding find
find-Absent name [] a = refl
find-Absent name (g ∷ gs) a = ground (arith, find-Absent name gs)

-- Where no tool has two grants, none has after a grant is committed.
pub commit-Unique : (s : Store) (g : Grant) → Unique s.grants → Unique (commit s g).grants
unfolding commit invalidate_requests
commit-Unique s g u = Unique-append _ g (Unique-retain _ s.grants u) (retain-Absent g.tool s.grants)

-- After a grant is committed, its tool is looked up to it, and every other tool to what it was.
pub find-commit :
    (s : Store) (g : Grant) (name : Text)
    → find (λ (x : Grant). x.tool == name) (commit s g).grants
      ≡ (if g.tool == name then some g else find (λ (x : Grant). x.tool == name) s.grants)
unfolding commit invalidate_requests
find-commit s g name =
    let old = retain (λ (x : Grant). x.tool != g.tool) s.grants in
    let added = find-append name old g in
    elim (Text-discrete g.tool name) [
      | yes e ↦
          let gone : find (λ (x : Grant). x.tool == name) old ≡ none =
            find-Absent name old (subst (λ k. Absent k old) e (retain-Absent g.tool s.grants)) in
          ground (arith, added, gone)
      | no n ↦
          let kept = find-retain name g.tool s.grants (λ e. n (sym e)) in
          ground (arith, added, kept)
    ]
