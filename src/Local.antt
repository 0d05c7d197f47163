-- ===== src/Local.antt =====
-- local.rs: how the owner's socket reads the schedule of a grant, and what the command line sends it.
pub mod Accepts
use clix.Prelude.{
  Bool, List, Option, Text, [], decimal, false, find, if◌then◌else◌, inl, inr, int_eq, is_empty,
  is_none, leb, map, nat_eq, none, not, some, text, text_eq, texts_eq, unwrap_or, ℕ, ◌&&◌, ◌++◌,
  ◌==◌, ◌∷◌, ◌⊎◌,
}
use clix.Error.{ClixError, Result, err, ok, refuse_if, usage, ◌>>=◌, ◌>>◌}
use clix.Types.{
  Schedule, Weekday, bodies_eq, bool_eq, fri, job_eq, mon, patterns_eq, sat, schedule_eq, status_eq,
  sun, thu, time_eq, tue, wed, weekday_eq,
}
use clix.Cli.{bad_date, parse_ampm_naive, to_ascii_lowercase, trim}

-- The fields of the request as their JSON accessors see them: an array's element that is not a
-- string is `none`, and one that is not an unsigned number is its printed form.
pub record ScheduleRequest : Type 0 where
  pub weekdays : Option Bool
  pub days : Option (List (Option Text))
  pub dates : Option (List (Text ⊎ ℕ))
  pub from : Option Text
  pub to : Option Text

weekday_names : List (Text × Weekday)
weekday_names =
    (text "mon", mon)
    ∷ (text "tue", tue)
    ∷ (text "wed", wed)
    ∷ (text "thu", thu)
    ∷ (text "fri", fri)
    ∷ (text "sat", sat)
    ∷ (text "sun", sun)
    ∷ []

unfoldable pub parse_weekday : Text → Result Weekday
unfolding weekday_names
parse_weekday s =
    let lower = to_ascii_lowercase (trim s) in
    elim (find (λ w. w.0 == lower) weekday_names) [
      | some w ↦ ok w.1
      | none ↦ err (usage (text "unknown weekday '" ++ (s ++ text "' (use mon..sun)")))
    ]

unfoldable pub read_days : List (Option Text) → Result (List Weekday)
read_days [] = ok []
read_days (none ∷ ds) = err (usage (text "unknown weekday (use mon..sun)"))
read_days (some s ∷ ds) = do day ← parse_weekday s; rest ← read_days ds; ok (day ∷ rest)

unfoldable pub read_dates : List (Text ⊎ ℕ) → Result (List ℕ)
unfolding bad_date
read_dates [] = ok []
read_dates (inl d ∷ ds) = err (usage (bad_date d))
read_dates (inr n ∷ ds) = do
  refuse_if (not (leb 1 n && leb n 31)) (usage (bad_date (decimal n)))
  rest ← read_dates ds
  ok (n ∷ rest)

unfoldable pub read_time : Option Text → Result (Option ℕ)
read_time none = ok none
read_time (some s) = do t ← parse_ampm_naive s; ok (some t)

unfoldable pub both_days : ClixError
both_days = usage (text "use --days or --weekdays, not both")

unfoldable pub rpc_schedule : ScheduleRequest → Result (Option Schedule)
rpc_schedule req = do
  let weekdays = unwrap_or false req.weekdays
  let day_vals = unwrap_or [] req.days
  refuse_if (weekdays && not (is_empty day_vals)) both_days
  named ← read_days day_vals
  let days = (if weekdays then mon ∷ tue ∷ wed ∷ thu ∷ fri ∷ [] else []) ++ named
  dates ← read_dates (unwrap_or [] req.dates)
  from ← read_time req.from
  to ← read_time req.to
  ok (
      if is_empty days && is_empty dates && is_none from && is_none to
      then none
      else some (record { days = days; dates = dates; from = from; to = to }))

-- The schedule's fields of the request that `rpc_from_cmd` makes of a command.
unfoldable pub schedule_fields :
    (weekdays : Bool) → List Text → List ℕ → (from to : Option Text) → ScheduleRequest
schedule_fields weekdays days dates from to = record {
  weekdays = some weekdays;
  days = some (map some days);
  dates = some (map inr dates);
  from = from;
  to = to;
}
