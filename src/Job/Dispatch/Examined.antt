-- ===== src/Job/Dispatch/Examined.antt =====
-- job.rs, `dispatch_pending`: what a round starts, and that no work that is due is left while a task
-- may be started.

use clix.Types.{
  bodies_eq, bool_eq, job_eq, patterns_eq, schedule_eq, status_eq, time_eq, weekday_eq,
}
use clix.Prelude.{
  Bool, Bool-cases, List, Text, Text-discrete, [], all, any, ap, arith, false, get, get-insert,
  get-insert-other, if◌then◌else◌, inl, inr, int_eq, leb, length, ltb, map, nat_eq, not, refl, some,
  subst, sym, text_eq, texts_eq, true, ℕ, ◌++◌, ◌+◌, ◌<◌, ◌==◌, ◌||◌, ◌∷◌, ◌≡◌, ◌≤◌, ◌⊎◌,
}
use clix.Limits.{dispatch_max}
use clix.Job.Dispatch.{Dispatcher, Work, is_delayed, is_running, start_task, try_all}
use clix.Job.Dispatch.Waiting.{Candidate}

-- The tasks that run once these have been started one by one.
abbrev pub with_started : List Candidate → List Text → List Text
with_started [] active = active
with_started (c ∷ cs) active = with_started cs (c.0 ∷ active)

-- None of them was running when it was started.
unfoldable pub Fresh : List Text → List Candidate → Type 0
Fresh active [] = Unit
Fresh active (c ∷ cs) = (any (λ k. k == c.0) active ≡ false) × Fresh (c.0 ∷ active) cs

-- The key that was started last.
abbrev pub last_key : List Candidate → Text → Text
last_key [] cursor = cursor
last_key (c ∷ cs) cursor = last_key cs c.0

-- Some of a list, in its order.
unfoldable pub Within : List Candidate → List Candidate → Type 0
Within [] ys = Unit
Within (x ∷ xs) [] = ⊥
Within (x ∷ xs) (y ∷ ys) = ((x ≡ y) × Within xs ys) ⊎ Within (x ∷ xs) ys

-- What a round does with the works in their order: it looks at those up to a place, starts some of
-- them, and stops before the end only at the limit.
pub record Examined (now interval : ℕ) (works : List Candidate) (before : Dispatcher)
    (made : List Work × Dispatcher) : Type 0 where
  pub looked_at : List Candidate
  pub left : List Candidate
  pub new : List Candidate
  pub in_order : works ≡ looked_at ++ left
  pub among : Within new looked_at
  pub returned : made.0 ≡ map (λ c. c.1) new
  pub fresh : Fresh before.active new
  pub due : all (λ c. not (is_delayed now before c.0)) new ≡ true
  pub running_now : made.1.active ≡ with_started new before.active
  pub followed : made.1.cursor ≡ last_key new before.cursor
  pub served : all (λ c. is_running made.1 c.0 || is_delayed now before c.0) looked_at ≡ true
  -- A work that was started is not tried again before the interval is over.
  pub retried :
      (k : Text)
      → get k made.1.next_attempt
        ≡ (if any (λ c. c.0 == k) new then some (now + interval) else get k before.next_attempt)
  pub stopped : (left ≡ []) ⊎ (dispatch_max ≤ length made.1.active)
  pub bounded : (dispatch_max < length before.active) ⊎ (length made.1.active ≤ dispatch_max)

nothing :
    (now interval : ℕ) (works : List Candidate) (d : Dispatcher)
    → (works ≡ []) ⊎ (dispatch_max ≤ length d.active)
    → Examined now interval works d ([], d)
unfolding Within Fresh
nothing now interval works d why = record {
  looked_at = [];
  left = works;
  new = [];
  in_order = refl;
  among = tt;
  returned = refl;
  fresh = tt;
  due = refl;
  running_now = refl;
  followed = refl;
  served = refl;
  retried = λ k. refl;
  stopped = why;
  bounded = elim (Bool-cases (ltb dispatch_max (length d.active))) [
    | inl t ↦ inl (ground arith)
    | inr f ↦ inr (ground arith)
  ];
}

Within-later : (c : Candidate) (xs ys : List Candidate) → Within xs ys → Within xs (c ∷ ys)
unfolding Within
Within-later c [] ys w = tt
Within-later c (x ∷ xs) ys w = inr w

all-weaken :
    (p q : Text × Work → Bool) (cs : List (Text × Work))
    → ((c : Text × Work) → p c ≡ true → q c ≡ true)
    → all p cs ≡ true
    → all q cs ≡ true
all-weaken p q [] h a = refl
all-weaken p q (c ∷ cs) h a =
    let here = h c (ground arith) in let rest = all-weaken p q cs h (ground arith) in ground arith

-- A key that waits after a start waited before it, or it is the one that was started.
is_delayed-start_task :
    (now interval : ℕ) (key k : Text) (d : Dispatcher)
    → is_delayed now (start_task now interval key d) k ≡ true
    → (key ≡ k) ⊎ (is_delayed now d k ≡ true)
unfolding is_delayed start_task
is_delayed-start_task now interval key k d e = elim (Text-discrete key k) [
  | yes same ↦ inl same
  | no n ↦ inr (ground (arith, get-insert-other key k (now + interval) d.next_attempt n))
]

is_running-start_task :
    (now interval : ℕ) (key k : Text) (d : Dispatcher)
    → is_running d k ≡ true
    → is_running (start_task now interval key d) k ≡ true
unfolding is_running start_task
is_running-start_task now interval key k d e = ground arith

is_running-started :
    (now interval : ℕ) (key : Text) (d : Dispatcher)
    → is_running (start_task now interval key d) key ≡ true
unfolding is_running start_task
is_running-started now interval key d = ground arith

-- A key that runs still runs after others have been started.
is_running-with_started :
    (k : Text) (new : List Candidate) (active : List Text)
    → any (λ r. r == k) active ≡ true
    → any (λ r. r == k) (with_started new active) ≡ true
is_running-with_started k [] active e = e
is_running-with_started k (c ∷ cs) active e =
    is_running-with_started k cs (c.0 ∷ active) (ground arith)

-- What is fresh beside a task that has been started was not delayed before that start.
due_before :
    (now interval : ℕ) (key : Text) (d : Dispatcher) (active : List Text) (new : List Candidate)
    → any (λ r. r == key) active ≡ true
    → Fresh active new
    → all (λ c. not (is_delayed now (start_task now interval key d) c.0)) new ≡ true
    → all (λ c. not (is_delayed now d c.0)) new ≡ true
unfolding Fresh is_delayed start_task
due_before now interval key d active [] r f a = refl
due_before now interval key d active (c ∷ cs) r (n, f) a =
    let differ : ¬ (key ≡ c.0) =
      λ e. absurd (let x = subst (λ t. any (λ r. r == t) active ≡ true) e r in ground arith) in
    let same = get-insert-other key c.0 (now + interval) d.next_attempt differ in
    let rest = due_before now interval key d (c.0 ∷ active) cs (ground arith) f (ground arith) in
    ground arith

-- A work that is passed over, before the rest.
passed_over :
    (now interval : ℕ) (c : Candidate) (rest : List Candidate) (d : Dispatcher)
    (made : List Work × Dispatcher)
    → (is_running d c.0 || is_delayed now d c.0) ≡ true
    → Examined now interval rest d made
    → Examined now interval (c ∷ rest) d made
unfolding is_running
passed_over now interval c rest d made skipped x = record {
  looked_at = c ∷ x.looked_at;
  left = x.left;
  new = x.new;
  in_order = ap (λ cs. c ∷ cs) x.in_order;
  among = Within-later c x.new x.looked_at x.among;
  returned = x.returned;
  fresh = x.fresh;
  due = x.due;
  running_now = x.running_now;
  followed = x.followed;
  served =
      let later = x.served in
      let active = x.running_now in
      let kept = is_running-with_started c.0 x.new d.active in ground arith;
  retried = x.retried;
  stopped = x.stopped;
  bounded = x.bounded;
}

still_served :
    (now interval : ℕ) (key k : Text) (d after : Dispatcher)
    → is_running after key ≡ true
    → (is_running after k || is_delayed now (start_task now interval key d) k) ≡ true
    → (is_running after k || is_delayed now d k) ≡ true
still_served now interval key k d after running_now p = elim (Bool-cases (is_running after k)) [
  | inl r ↦ ground arith
  | inr r ↦ elim (is_delayed-start_task now interval key k d (ground arith)) [
    | inl same ↦
        let runs : is_running after k ≡ true =
          subst (λ t. is_running after t ≡ true) same running_now in
        ground arith
    | inr delayed ↦ ground arith
  ]
]

room_for_one :
    (now interval : ℕ) (key : Text) (d : Dispatcher)
    → leb dispatch_max (length d.active) ≡ false
    → length (start_task now interval key d).active ≤ dispatch_max
unfolding start_task
room_for_one now interval key d room = ground arith

-- A work that is started, before the rest.
started :
    (now interval : ℕ) (c : Candidate) (rest : List Candidate) (d : Dispatcher)
    (made : List Work × Dispatcher)
    → leb dispatch_max (length d.active) ≡ false
    → (is_running d c.0 || is_delayed now d c.0) ≡ false
    → Examined now interval rest (start_task now interval c.0 d) made
    → Examined now interval (c ∷ rest) d (c.1 ∷ made.0, made.1)
unfolding Within Fresh is_running start_task
started now interval c rest d made room idle x =
    let own = is_running-with_started c.0 x.new (c.0 ∷ d.active) (ground arith) in
    let runs : any (λ r. r == c.0) made.1.active ≡ true =
      subst (λ a. any (λ r. r == c.0) a ≡ true) (sym x.running_now) own in
    record {
      looked_at = c ∷ x.looked_at;
      left = x.left;
      new = c ∷ x.new;
      in_order = ap (λ cs. c ∷ cs) x.in_order;
      among = inl (refl, x.among);
      returned = ap (λ ws. c.1 ∷ ws) x.returned;
      fresh = (ground arith, x.fresh);
      due =
          let others =
            due_before now interval c.0 d (c.0 ∷ d.active) x.new (ground arith) x.fresh x.due in
          ground arith;
      running_now = x.running_now;
      followed = x.followed;
      served =
          let later =
            all-weaken _ (λ e. is_running made.1 e.0 || is_delayed now d e.0) x.looked_at
              (λ e p. still_served now interval c.0 e.0 d made.1 runs p) x.served in
          ground arith;
      retried = λ k.
          let others = x.retried k in
          let own_key = get-insert c.0 k (now + interval) d.next_attempt in ground arith;
      stopped = x.stopped;
      bounded =
          let fits = room_for_one now interval c.0 d room in
          inr (elim x.bounded [ inl b ↦ absurd (omega arith) | inr b ↦ b ]);
    }

pub try_all-Examined :
    (now interval : ℕ) (works : List Candidate) (d : Dispatcher)
    → Examined now interval works d (try_all now interval works d)
unfolding try_all
try_all-Examined now interval [] d = nothing now interval [] d (inl refl)
try_all-Examined now interval ((key, work) ∷ rest) d =
    elim (Bool-cases (leb dispatch_max (length d.active))) [
      | inl full ↦ rw full (nothing now interval ((key, work) ∷ rest) d (inr (ground arith)))
      | inr room ↦ elim (Bool-cases (is_running d key || is_delayed now d key)) [
        | inl due ↦
            rw (room, due)
              (passed_over now interval (key, work) rest d _ due
                (try_all-Examined now interval rest d))
        | inr due ↦
            rw (room, due)
              (started now interval (key, work) rest d _ room due
                (try_all-Examined now interval rest (start_task now interval key d)))
      ]
    ]
