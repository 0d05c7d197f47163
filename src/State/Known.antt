-- ===== src/State/Known.antt =====
-- The job that a state knows under an id, without its output.
use clix.Types.{
  Job, bodies_eq, bool_eq, job_eq, patterns_eq, schedule_eq, status_eq, time_eq, weekday_eq,
}
use clix.Prelude.{
  Bool-cases, List, Option, Text, [], any, ap, arith, false, find, inl, inr, int_eq, map, nat_eq,
  refl, some, sym, text_eq, texts_eq, true, update_first, ◌++◌, ◌==◌, ◌∷◌, ◌≡◌, ◌≢◌,
}
use clix.State.{Store}
use clix.State.Frame.{Kept, bare}

abbrev pub known_in : Text → List Job → Option Job
known_in id js = find (λ j. j.id == id) (map bare js)

abbrev pub known : Text → Store → Option Job
known id s = known_in id s.jobs

-- Bookkeeping does not change it.
pub known-Kept : (id : Text) {a b : Store} → Kept a b → known id b ≡ known id a
known-Kept id k = ap (find (λ j. j.id == id)) (sym k.jobs)

pub known_in-append_some :
    (id : Text) (js ks : List Job) (j : Job)
    → known_in id js ≡ some j
    → known_in id (js ++ ks) ≡ some j
unfolding find
known_in-append_some id [] ks j e = cc
known_in-append_some id (x ∷ js) ks j e = ground (arith, known_in-append_some id js ks j)

-- A write to the job of another id.
pub known_in-update_ne :
    (id k : Text) (f : Job → Job) (js : List Job)
    → ((j : Job) → (f j).id ≡ j.id)
    → k ≢ id
    → known_in id (update_first (λ j. j.id == k) f js) ≡ known_in id js
unfolding find update_first
known_in-update_ne id k f [] keep ne = refl
known_in-update_ne id k f (x ∷ js) keep ne =
    ground (arith, keep x, known_in-update_ne id k f js keep ne)

-- A job that replaces the one of its id.
pub known_in-replace_self :
    (k : Job) (js : List Job)
    → any (λ j. j.id == k.id) js ≡ true
    → known_in k.id (update_first (λ j. j.id == k.id) (λ _. k) js) ≡ some (bare k)
unfolding find update_first
known_in-replace_self k [] e = cc
known_in-replace_self k (x ∷ js) e = ground (arith, known_in-replace_self k js)

pub known_in-replace_ne :
    (id : Text) (k : Job) (js : List Job)
    → k.id ≢ id
    → known_in id (update_first (λ j. j.id == k.id) (λ _. k) js) ≡ known_in id js
unfolding find update_first
known_in-replace_ne id k [] ne = refl
known_in-replace_ne id k (x ∷ js) ne = ground (arith, known_in-replace_ne id k js ne)

pub known_in-append_self :
    (k : Job) (js : List Job)
    → any (λ j. j.id == k.id) js ≡ false
    → known_in k.id (js ++ (k ∷ [])) ≡ some (bare k)
unfolding find
known_in-append_self k [] e = ground arith
known_in-append_self k (x ∷ js) e = ground (arith, known_in-append_self k js)

pub known_in-append_ne :
    (id : Text) (k : Job) (js : List Job)
    → k.id ≢ id
    → known_in id (js ++ (k ∷ [])) ≡ known_in id js
unfolding find
known_in-append_ne id k [] ne = ground arith
known_in-append_ne id k (x ∷ js) ne = ground (arith, known_in-append_ne id k js ne)

-- The job itself, where the state knows it.
pub find-known :
    (id : Text) (js : List Job) (j : Job)
    → find (λ x. x.id == id) js ≡ some j
    → known_in id js ≡ some (bare j)
unfolding find
find-known id [] j e = cc
find-known id (x ∷ js) j e = ground (arith, find-known id js j)

pub known-find :
    (id : Text) (js : List Job) (j : Job)
    → known_in id js ≡ some j
    → (x : Job) × (find (λ x. x.id == id) js ≡ some x) × (bare x ≡ j)
unfolding find
known-find id [] j e = absurd (cc e)
known-find id (x ∷ js) j e = elim (Bool-cases (x.id == id)) [
  | inl t ↦ (x, ground arith, ground arith)
  | inr t ↦ let (y, f, b) = known-find id js j (rw t at e) in (y, rw t f, b)
]

pub find_id : (id : Text) (js : List Job) (j : Job) → find (λ x. x.id == id) js ≡ some j → j.id ≡ id
unfolding find
find_id id [] j e = cc
find_id id (x ∷ js) j e = ground (arith, find_id id js j)
