-- ===== src/Grant/Check.antt =====
-- grant.rs, `check_at`: who may run what, and when.
use mathlib.Core.List.Memᴰ
use mathlib.Core.List.{Memᴰ}
use clix.Error.{ok}
use clix.Prelude.{
  Bool, Bool-cases, IsBefore, List, Option, Option-cases, Text, Text-discrete, [], any, ap, arith,
  false, find, inl, inr, int_eq, int_lt, int_lt_iff, is_empty, nat_eq, none, refl, some, subst, sym,
  text_eq, texts_eq, true, ℕ, ℤ, ◌%◌, ◌&&◌, ◌<◌, ◌==◌, ◌↔◌, ◌∙◌, ◌∷◌, ◌≡◌, ◌≢◌, ◌≤◌, ◌⊎◌,
}
use clix.Types.{
  BodyId, Grant, Moment, Schedule, allows_at, bodies_eq, bool_eq, calendar_ok, job_eq, patterns_eq,
  schedule_eq, status_eq, time_eq, time_ok, time_within, weekday_eq,
}
use clix.State.{Store}
use clix.Grant.{check_at, check_found, check_option, is_allowed, is_expired, is_scheduled}

-- The grant is the first of the tool's name.
unfoldable pub IsFirst : Text → Grant → List Grant → Type 0
IsFirst name g [] = ⊥
IsFirst name g (x ∷ gs) = ((x.tool ≡ name) × (x ≡ g)) ⊎ ((x.tool ≢ name) × IsFirst name g gs)

-- It names the machine, or every machine.
abbrev pub Names : Option (List BodyId) → BodyId → Type 0
Names allowed from =
    (allowed ≡ none) ⊎ ((bodies : List BodyId) × (allowed ≡ some bodies) × Memᴰ from bodies)

-- Its expiry, where it has one, is not in the past.
abbrev pub InTime : Option ℤ → ℤ → Type 0
InTime until now = (until ≡ none) ⊎ ((t : ℤ) × (until ≡ some t) × (¬ IsBefore t now))

-- A time of day in a window that may be open at either end and may pass midnight.
unfoldable pub InWindow : Option ℕ → Option ℕ → ℕ → Type 0
InWindow none none t = Unit
InWindow (some from) none t = from ≤ t
InWindow none (some to) t = t ≤ to
InWindow (some from) (some to) t = ((from ≤ t) × (t ≤ to)) ⊎ ((to < from) × ((from ≤ t) ⊎ (t ≤ to)))

-- A schedule that names no day is for every day.
abbrev pub OnDay : Schedule → Moment → Type 0
OnDay s now = ((s.days ≡ []) × (s.dates ≡ [])) ⊎ (Memᴰ now.weekday s.days ⊎ Memᴰ now.day s.dates)

abbrev pub OnSchedule : Option Schedule → Moment → Type 0
OnSchedule schedule now =
    (schedule ≡ none)
    ⊎ ((s : Schedule) × (schedule ≡ some s) × OnDay s now × InWindow s.from s.to now.time)

-- What the owner has allowed.
pub record Permits (s : Store) (name : Text) (from : BodyId) (now : Moment) (g : Grant)
    : Type 0 where
  pub found : IsFirst name g s.grants
  pub unreserved : g.reservation ≡ none
  pub names : Names g.allow_from from
  pub in_time : InTime g.until now.instant
  pub on_schedule : OnSchedule g.schedule now

pub some_injective {ℓ} : {A : Type ℓ} {x y : A} → some x ≡ some y → x ≡ y
some_injective e = cc

is_empty_iff {ℓ} : {A : Type ℓ} (xs : List A) → (is_empty xs ≡ true) ↔ (xs ≡ [])
is_empty_iff [] = (λ e. refl, λ e. refl)
is_empty_iff (x ∷ xs) = (λ e. absurd (ground arith), λ e. absurd cc)

any-is_empty {ℓ} : {A : Type ℓ} (p : A → Bool) (xs : List A) → is_empty xs ≡ true → any p xs ≡ false
any-is_empty p [] e = refl
any-is_empty p (x ∷ xs) e = absurd (ground arith)

any_iff {ℓ} :
    {A : Type ℓ} (p : A → Bool) (a : A) (xs : List A)
    → ((x : A) → (p x ≡ true) ↔ (a ≡ x))
    → (any p xs ≡ true) ↔ Memᴰ a xs
any_iff p a [] h = (λ e. absurd (ground arith), λ m. absurd (Memᴰ.not-nil m))
any_iff p a (x ∷ xs) h = (
  λ e. elim (Bool-cases (p x)) [
    | inl t ↦ Memᴰ.head ((h x).0 t)
    | inr f ↦ Memᴰ.tail ((any_iff p a xs h).0 (ground arith))
  ],
  λ m. elim (Memᴰ.cases_cons m) [
    | inl e ↦ let here = (h x).1 e in ground arith
    | inr r ↦ let later = (any_iff p a xs h).1 r in ground arith
  ],
)

find_iff :
    (name : Text) (g : Grant) (gs : List Grant)
    → (find (λ x. x.tool == name) gs ≡ some g) ↔ IsFirst name g gs
unfolding find IsFirst
find_iff name g [] = (λ e. absurd cc, λ m. absurd m)
find_iff name g (x ∷ gs) = elim (Text-discrete x.tool name) [
  | yes e ↦ (
    λ f. inl (e, ground arith),
    λ m. elim m [ inl p ↦ let same = p.1 in ground arith | inr p ↦ absurd (p.0 e) ],
  )
  | no n ↦ (
    λ f. inr (n, (find_iff name g gs).0 (ground arith)),
    λ m. elim m [
      | inl p ↦ absurd (n p.0)
      | inr p ↦ let later = (find_iff name g gs).1 p.1 in ground arith
    ],
  )
]

is_allowed_iff :
    (allowed : Option (List BodyId)) (from : BodyId)
    → (is_allowed allowed from ≡ true) ↔ Names allowed from
unfolding is_allowed
is_allowed_iff none from = (λ e. inl refl, λ n. refl)
is_allowed_iff (some bodies) from =
    let each = any_iff (λ b. b == from) from bodies (λ b. (λ e. ground arith, λ e. ground arith)) in
    (
      λ e. inr (bodies, refl, each.0 e),
      λ n. elim n [
        | inl e ↦ absurd cc
        | inr (bs, e, m) ↦ each.1 (subst (Memᴰ from) (sym (some_injective e)) m)
      ],
    )

is_expired_iff : (until : Option ℤ) (now : ℤ) → (is_expired until now ≡ false) ↔ InTime until now
unfolding is_expired
is_expired_iff none now = (λ e. inl refl, λ n. refl)
is_expired_iff (some t) now = (
  λ e. inr (t, refl, λ b. let h = (int_lt_iff t now).1 b in ground arith),
  λ n. elim n [
    | inl e ↦ absurd cc
    | inr (u, e, m) ↦ elim (Bool-cases (int_lt t now)) [
      | inl h ↦ absurd (m (subst (λ x. IsBefore x now) (some_injective e) ((int_lt_iff t now).0 h)))
      | inr h ↦ h
    ]
  ],
)

time_within_iff_InWindow :
    (from to : Option ℕ) (t : ℕ) → (time_within from to t ≡ true) ↔ InWindow from to t
unfolding time_within InWindow
time_within_iff_InWindow none none t = (λ e. tt, λ e. refl)
time_within_iff_InWindow (some from) none t = (λ e. ground arith, λ e. ground arith)
time_within_iff_InWindow none (some to) t = (λ e. ground arith, λ e. ground arith)
time_within_iff_InWindow (some from) (some to) t = (λ e. ground arith, λ e. ground arith)

-- The test of the source, for a day of the month.
calendar_iff :
    (s : Schedule) (now : Moment) → now.day ≤ 31 → (calendar_ok s now ≡ true) ↔ OnDay s now
unfolding calendar_ok
calendar_iff s now d =
    let same_day : now.day % 256 ≡ now.day = omega arith in
    let weekday_in =
      any_iff (λ x. x == now.weekday) now.weekday s.days
        (λ x. (λ e. ground arith, λ e. ground arith)) in
    let day_in =
      any_iff (λ x. x == now.day % 256) now.day s.dates
        (λ x. (λ e. ground (arith, same_day), λ e. ground (arith, same_day))) in
    let no_days = any-is_empty (λ x. x == now.weekday) s.days in
    let no_dates = any-is_empty (λ x. x == now.day % 256) s.dates in
    (
      λ e. elim (Bool-cases (is_empty s.days && is_empty s.dates)) [
        | inl t ↦
            inl ((is_empty_iff s.days).0 (ground arith), (is_empty_iff s.dates).0 (ground arith))
        | inr f ↦ inr (elim (Bool-cases (any (λ x. x == now.weekday) s.days)) [
          | inl w ↦ inl (weekday_in.0 w)
          | inr w ↦ inr (day_in.0 (ground arith))
        ])
      ],
      λ o. elim o [
        | inl (a, b) ↦
            let none_day = (is_empty_iff s.days).1 a in
            let none_date = (is_empty_iff s.dates).1 b in ground arith
        | inr (inl m) ↦ let w = weekday_in.1 m in ground (arith, no_days)
        | inr (inr m) ↦ let w = day_in.1 m in ground (arith, no_dates)
      ],
    )

allows_at_iff :
    (s : Schedule) (now : Moment)
    → now.day ≤ 31
    → (allows_at s now ≡ true) ↔ (OnDay s now × InWindow s.from s.to now.time)
unfolding allows_at time_ok
allows_at_iff s now d =
    let day = calendar_iff s now d in
    let window = time_within_iff_InWindow s.from s.to now.time in
    (
      λ e. (day.0 (ground arith), window.0 (ground arith)),
      λ p. let fits = day.1 p.0 in let within = window.1 p.1 in ground arith,
    )

is_scheduled_iff :
    (schedule : Option Schedule) (now : Moment)
    → now.day ≤ 31
    → (is_scheduled schedule now ≡ true) ↔ OnSchedule schedule now
unfolding is_scheduled
is_scheduled_iff none now d = (λ e. inl refl, λ n. refl)
is_scheduled_iff (some s) now d = (
  λ e. inr (s, refl, ((allows_at_iff s now d).0 e).0, ((allows_at_iff s now d).0 e).1),
  λ n. elim n [
    | inl e ↦ absurd cc
    | inr (u, e, day, window) ↦
        let same = sym (some_injective e) in
        (allows_at_iff s now d).1 (
          subst (λ x. OnDay x now) same day,
          subst (λ x. InWindow x.from x.to now.time) same window,
        )
  ],
)

-- The tests of `check_found`, each by itself.
check_found_iff :
    (s : Store) (from : BodyId) (now : Moment) (x g : Grant)
    → (check_found s from now x ≡ ok g) ↔ (
        (x ≡ g)
        × (x.reservation ≡ none)
        × (is_allowed x.allow_from from ≡ true)
        × (is_expired x.until now.instant ≡ false)
        × (is_scheduled x.schedule now ≡ true))
unfolding check_found
check_found_iff s from now x g = elim (Option-cases x.reservation) [
  | inr (id, t) ↦ (λ e. absurd (ground arith), λ p. absurd (ground arith))
  | inl t ↦ (λ e. ground arith, λ p. ground arith)
]

check_option_iff :
    (s : Store) (name : Text) (from : BodyId) (now : Moment) (o : Option Grant) (g : Grant)
    → (check_option s name from now o ≡ ok g)
      ↔ ((x : Grant) × (o ≡ some x) × (check_found s from now x ≡ ok g))
unfolding check_option
check_option_iff s name from now none g = (λ e. absurd cc, λ p. absurd cc)
check_option_iff s name from now (some x) g = (
  λ e. (x, refl, e),
  λ p. subst (λ y. check_found s from now y ≡ ok g) (sym (some_injective p.1)) p.2,
)

-- What lets a machine through is the first grant of the tool's name, and no run holds it.
pub check_at-found :
    (s : Store) (name : Text) (from : BodyId) (now : Moment) (g : Grant)
    → check_at s name from now ≡ ok g
    → (find (λ x. x.tool == name) s.grants ≡ some g) × (g.reservation ≡ none)
unfolding check_at
check_at-found s name from now g e =
    let (x, f, c) =
      (check_option_iff s name from now (find (λ y. y.tool == name) s.grants) g).0 e in
    let (same, free, _, _, _) = (check_found_iff s from now x g).0 c in
    (f ∙ ap some same, ap (λ (y : Grant). y.reservation) (sym same) ∙ free)

-- A machine is let through with a grant exactly when that grant is the first of the tool's name, no
-- run holds it, it names no machines or this one, its expiry, if any, is not before the present
-- instant, and its schedule, if any, names no day or this weekday or this day of the month, and its
-- window, which may be open at either end and may pass midnight, holds the time of day; on any day
-- of the month up to the 31st.
pub check_at_iff :
    (s : Store) (name : Text) (from : BodyId) (now : Moment) (g : Grant)
    → now.day ≤ 31
    → (check_at s name from now ≡ ok g) ↔ Permits s name from now g
unfolding check_at
check_at_iff s name from now g d = (
  λ e.
      let (x, f, c) =
        (check_option_iff s name from now (find (λ y. y.tool == name) s.grants) g).0 e in
      let (same, free, a, t, w) = (check_found_iff s from now x g).0 c in
      record {
        found = (find_iff name g s.grants).0 (f ∙ ap some same);
        unreserved = rw (← same) free;
        names = (is_allowed_iff g.allow_from from).0 (rw (← same) a);
        in_time = (is_expired_iff g.until now.instant).0 (rw (← same) t);
        on_schedule = (is_scheduled_iff g.schedule now d).0 (rw (← same) w);
      },
  λ p. (check_option_iff s name from now (find (λ y. y.tool == name) s.grants) g).1 (
    g,
    (find_iff name g s.grants).1 p.found,
    (check_found_iff s from now g g).1 (
      refl,
      p.unreserved,
      (is_allowed_iff g.allow_from from).1 p.names,
      (is_expired_iff g.until now.instant).1 p.in_time,
      (is_scheduled_iff g.schedule now d).1 p.on_schedule,
    ),
  ),
)
