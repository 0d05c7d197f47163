-- ===== src/Local/Accepts.antt =====
-- cli.rs and local.rs: the owner's socket accepts the schedules that the command line accepts.
use clix.Cli.Times.{parse_ampm_naive-validate_ampm}
use clix.Prelude.{
  Bool, Bool-cases, List, Option, Text, Text-discrete, [], all, any, ap, arith, decimal, false,
  find, if◌then◌else◌, inl, inr, int_eq, is_empty, is_none, leb, map, nat_eq, none, not, refl, some,
  sym, text, text_eq, texts_eq, true, unwrap_or, ℕ, ℕ_discrete, ◌&&◌, ◌*◌, ◌++◌, ◌==◌, ◌||◌, ◌∙◌,
  ◌∷◌, ◌≡◌, ◌⊎◌,
}
use clix.Error.{
  >>=-eq-ok, ClixError, Result, err, is_ok, ok, ok-injective, refuse_if, refuse_if-ok, usage, ◌>>=◌,
}
use clix.Types.{
  Schedule, Weekday, bodies_eq, bool_eq, job_eq, patterns_eq, schedule_eq, status_eq, time_eq,
  weekday_eq,
}
use clix.Cli.{
  bad_date, or_usage, parse_ampm_naive, parse_dates, parse_unsigned, to_ascii_lowercase, trim,
  validate_ampm, validate_days, weekdays,
}
use clix.Local.{
  both_days, parse_weekday, read_dates, read_days, read_time, rpc_schedule, schedule_fields,
}

fails_first {ℓ κ} :
    {T : Type ℓ} {V : Type κ} (first : Result T) (next : T → Result V) {x : ClixError}
    → first ≡ err x
    → (first >>= next) ≡ err x
fails_first first next e = ap (λ r. r >>= next) e

any-all :
    (p : Text → Bool) (w : Text) (xs : List Text)
    → any (λ x. x == w) xs ≡ true
    → all p xs ≡ true
    → p w ≡ true
any-all p w [] found each = absurd (ground arith)
any-all p w (x ∷ xs) found each = ground (arith, any-all p w xs)

names_read : all (λ x. is_ok (parse_weekday x)) weekdays ≡ true
unfolding parse_weekday weekdays trim to_ascii_lowercase Text-discrete text find ℕ_discrete
names_read = refl

is_ok-value {ℓ} : {A : Type ℓ} (r : Result A) → is_ok r ≡ true → (a : A) × (r ≡ ok a)
is_ok-value (ok a) e = (a, refl)
is_ok-value (err x) e = absurd (ground arith)

weekday_read :
    (w : Text) → not (any (λ x. x == w) weekdays) ≡ false → (d : Weekday) × (parse_weekday w ≡ ok d)
weekday_read w e =
    is_ok-value (parse_weekday w)
      (any-all (λ x. is_ok (parse_weekday x)) w weekdays (ground arith) names_read)

-- A chain whose first step succeeds goes on with its value.
>>=-ok {ℓ κ} :
    {T : Type ℓ} {V : Type κ} (first : Result T) (next : T → Result V) {t : T} {r : Result V}
    → first ≡ ok t
    → next t ≡ r
    → (first >>= next) ≡ r
>>=-ok first next e p = ap (λ x. x >>= next) e ∙ p

days_read :
    (typed out : List Text)
    → validate_days typed ≡ ok out
    → (ds : List Weekday) × (read_days (map some out) ≡ ok ds)
unfolding validate_days read_days
days_read [] out e = ([], ap (λ o. read_days (map some o)) (sym (ok-injective e)))
days_read (d ∷ typed) out e =
    let lower = to_ascii_lowercase (trim d) in
    let (u, known, rest) =
      >>=-eq-ok
        (refuse_if (not (any (λ w. w == lower) weekdays))
          (usage (text "unknown weekday '" ++ (d ++ text "' (use mon..sun)"))))
        _ e in
    let (later, others, final) = >>=-eq-ok (validate_days typed) _ rest in
    let (day, read) = weekday_read lower (refuse_if-ok _ _ u known) in
    let (ds, reads) = days_read typed later others in
    (
      day ∷ ds,
      ap (λ o. read_days (map some o)) (sym (ok-injective final))
          ∙ >>=-ok (parse_weekday lower) _ read (>>=-ok (read_days (map some later)) _ reads refl),
    )

dates_read :
    (typed : List Text) (out : List ℕ)
    → parse_dates typed ≡ ok out
    → read_dates (map inr out) ≡ ok out
unfolding parse_dates read_dates
dates_read [] out e =
    ap (λ o. read_dates (map inr o)) (sym (ok-injective e)) ∙ ap ok (ok-injective e)
dates_read (d ∷ typed) out e =
    let (n, _, rest) = >>=-eq-ok (or_usage (bad_date d) (parse_unsigned 255 (trim d))) _ e in
    let (u, range, rest₂) =
      >>=-eq-ok (refuse_if (not (leb 1 n && leb n 31)) (usage (bad_date d))) _ rest in
    let (later, others, final) = >>=-eq-ok (parse_dates typed) _ rest₂ in
    let within = refuse_if-ok _ _ u range in
    let reads = dates_read typed later others in
    ap (λ o. read_dates (map inr o)) (sym (ok-injective final))
    ∙ >>=-ok (refuse_if (not (leb 1 n && leb n 31)) (usage (bad_date (decimal n)))) _
        (ap (λ b. refuse_if b (usage (bad_date (decimal n)))) within)
        (>>=-ok (read_dates (map inr later)) _ reads final)

time_read :
    (from : Option Text)
    → is_none from || is_ok (validate_ampm (unwrap_or [] from)) ≡ true
    → (t : Option ℕ) × (read_time from ≡ ok t)
unfolding read_time
time_read none e = (none, refl)
time_read (some s) e = elim (parse_ampm_naive-validate_ampm s) [
  | inl (h, _, _, reads) ↦ (some (h * 3600000000000), >>=-ok (parse_ampm_naive s) _ reads refl)
  | inr (x, refused, _) ↦ absurd (ground arith)
]

is_empty-map {ℓ κ} :
    {A : Type ℓ} {B : Type κ} (f : A → B) (xs : List A) → is_empty (map f xs) ≡ is_empty xs
is_empty-map f [] = refl
is_empty-map f (x ∷ xs) = refl

unfoldable pub dates_of : Option Schedule → List ℕ
dates_of none = []
dates_of (some s) = s.dates

dates_of-choose :
    (ds : List ℕ) (p q r : Bool) (s : Schedule)
    → s.dates ≡ ds
    → dates_of (if p && is_empty ds && q && r then none else some s) ≡ ds
unfolding dates_of
dates_of-choose [] true true true s e = refl
dates_of-choose [] true true false s e = e
dates_of-choose [] true false r s e = e
dates_of-choose [] false q r s e = e
dates_of-choose (n ∷ ns) true q r s e = e
dates_of-choose (n ∷ ns) false q r s e = e

-- Of days, dates and times that the command line accepts, it makes a request whose schedule the
-- owner's socket accepts too, with those dates; unless both named days and all weekdays are asked
-- for, which the socket refuses as such.
pub rpc_schedule-schedule_fields :
    (working_days : Bool) (days days' dates : List Text) (dates' : List ℕ) (from to : Option Text)
    → validate_days days ≡ ok days'
    → parse_dates dates ≡ ok dates'
    → is_none from || is_ok (validate_ampm (unwrap_or [] from)) ≡ true
    → is_none to || is_ok (validate_ampm (unwrap_or [] to)) ≡ true
    → ((working_days && not (is_empty days') ≡ true)
        × (rpc_schedule (schedule_fields working_days days' dates' from to) ≡ err both_days))
      ⊎ ((s : Option Schedule) × (working_days && not (is_empty days') ≡ false)
          × (rpc_schedule (schedule_fields working_days days' dates' from to) ≡ ok s)
          × (dates_of s ≡ dates'))
unfolding rpc_schedule schedule_fields
rpc_schedule-schedule_fields working_days days days' dates dates' from to d n f t =
    let clash = working_days && not (is_empty (map some days')) in
    let as_typed = ap (λ b. working_days && not b) (is_empty-map some days') in
    let (ds, days_are) = days_read days days' d in
    let (begin, begins) = time_read from f in
    let (end, ends) = time_read to t in
    elim (Bool-cases clash) [
      | inl e ↦ inl (
        sym as_typed ∙ e,
        fails_first (refuse_if clash both_days) _ (ap (λ b. refuse_if b both_days) e),
      )
      | inr e ↦ inr (
        _,
        sym as_typed ∙ e,
        >>=-ok (refuse_if clash both_days) _ (ap (λ b. refuse_if b both_days) e) (
            >>=-ok (read_days (map some days')) _ days_are (
              >>=-ok (read_dates (map inr dates')) _ (dates_read dates dates' n)
                (>>=-ok (read_time from) _ begins (>>=-ok (read_time to) _ ends refl)))),
        dates_of-choose dates' _ _ _ _ refl,
      )
    ]
