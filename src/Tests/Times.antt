-- ===== src/Tests/Times.antt =====
-- Times of day, times that are saved, and what the owner types for them.

use clix.Prelude.{
  Option, Text-discrete, [], arith, ends_with, false, find, is_empty, is_none, last, negsuc, none,
  not, pos, refl, some, text, true, unwrap_or, ℕ, ℕ_discrete, ℤ, ◌&&◌, ◌*◌, ◌+◌, ◌<◌, ◌||◌, ◌↔◌,
  ◌∷◌, ◌≡◌, ◌≤◌, ◌⊎◌,
}
use clix.Error.{ClixError, err, is_ok, ok, usage}
use clix.Cli.{
  bad_time, ends_in_character, from_hms_opt, half_of_day, hour_of_day, or_usage, parse_ampm,
  parse_ampm_naive, parse_dates, parse_duration, parse_unsigned, strip_no_wait, strip_suffix,
  to_ascii_lowercase, trim, validate_ampm, validate_days,
}
use clix.Cli.Times.{parse_ampm_naive-validate_ampm}
use clix.Local.{both_days, rpc_schedule, schedule_fields}
use clix.Local.Accepts.{dates_of, rpc_schedule-schedule_fields}
use clix.Types.{Schedule, serialize_time, time_within}
use clix.Types.Window.{after, time_within_iff}
use clix.Grant.Expiry.{reloaded, reloaded-InTime}
use clix.Grant.Check.{InTime}

-- At one in the morning, in the window from ten in the evening to two in the morning.
time_within_iff_example :
    (time_within (some 79200000000000) (some 7200000000000) 3600000000000 ≡ true)
    ↔ (after 79200000000000 3600000000000 ≤ after 79200000000000 7200000000000)
time_within_iff_example =
    time_within_iff 79200000000000 7200000000000 3600000000000 (omega arith) (omega arith)
      (omega arith)

reloaded-InTime_example :
    let until : Option ℤ = some (pos 1500000000) in
    (InTime until (pos 1200000000) ⊎ (¬ InTime (reloaded until) (pos 1200000000)))
    × (InTime (reloaded until) (pos 1200000000) ⊎ (¬ InTime until (pos (1200000000 + 999999999))))
    × (reloaded (reloaded until) ≡ reloaded until)
reloaded-InTime_example = reloaded-InTime (some (pos 1500000000)) 1200000000 (omega arith)

-- An expiry before the epoch is saved as the epoch.
before_epoch : serialize_time (some (negsuc 5)) ≡ some 0
unfolding serialize_time
before_epoch = refl

typed_time : parse_ampm_naive (text " 5PM ") ≡ ok 61200000000000
unfolding parse_ampm_naive parse_ampm trim to_ascii_lowercase parse_unsigned half_of_day
    strip_suffix ends_with hour_of_day or_usage from_hms_opt bad_time Text-discrete text find
    ℕ_discrete
typed_time = refl

midnight : parse_ampm (text "12am") ≡ ok 0
unfolding parse_ampm trim to_ascii_lowercase parse_unsigned half_of_day strip_suffix ends_with
    hour_of_day or_usage bad_time Text-discrete text find ℕ_discrete
midnight = refl

no_clock : parse_ampm (text "17:00") ≡ err (usage (text "bad time '17:00' (use am/pm, e.g. 5pm)"))
unfolding parse_ampm trim to_ascii_lowercase half_of_day strip_suffix ends_with or_usage bad_time
    Text-discrete text find ℕ_discrete
no_clock = refl

days_typed : validate_days (text "Mon" ∷ text " sun" ∷ []) ≡ ok (text "mon" ∷ text "sun" ∷ [])
unfolding validate_days trim to_ascii_lowercase Text-discrete text find ℕ_discrete
days_typed = refl

dates_typed : parse_dates (text "1" ∷ text "+31 " ∷ []) ≡ ok (1 ∷ 31 ∷ [])
unfolding parse_dates trim parse_unsigned or_usage text find Text-discrete ℕ_discrete
dates_typed = refl

date_too_late : is_ok (parse_dates (text "32" ∷ [])) ≡ false
unfolding parse_dates trim parse_unsigned or_usage text find Text-discrete ℕ_discrete
date_too_late = refl

two_hours : parse_duration (text "2H") ≡ some (ok 7200)
unfolding parse_duration trim to_ascii_lowercase parse_unsigned or_usage ends_in_character last text
    find Text-discrete ℕ_discrete
two_hours = refl

no_number : is_ok (unwrap_or (ok 0) (parse_duration (text "h5"))) ≡ false
unfolding parse_duration trim to_ascii_lowercase parse_unsigned or_usage ends_in_character last text
    find Text-discrete ℕ_discrete
no_number = refl

-- The byte before the end of "1" with U+00E9 is no boundary between characters.
duration_panics : parse_duration (b'1' ∷ 0xC3 ∷ 0xA9 ∷ []) ≡ none
unfolding parse_duration trim to_ascii_lowercase ends_in_character last find Text-discrete
    ℕ_discrete
duration_panics = refl

-- U+3000 before the digit is white space.
wide_space : trim (0xE3 ∷ 0x80 ∷ 0x80 ∷ b'a' ∷ 0xC2 ∷ 0xA0 ∷ []) ≡ b'a' ∷ []
unfolding trim find Text-discrete ℕ_discrete
wide_space = refl

no_wait_after_name :
    strip_no_wait (text "mini" ∷ text "--no-wait" ∷ text "ls" ∷ []) false
    ≡ (text "mini" ∷ text "ls" ∷ [], true)
unfolding strip_no_wait Text-discrete text ℕ_discrete
no_wait_after_name = refl

parse_ampm_naive-validate_ampm_example :
    ((h : ℕ) × (h < 24)
      × (validate_ampm (text "12pm") ≡ ok tt)
      × (parse_ampm_naive (text "12pm") ≡ ok (h * 3600000000000)))
    ⊎ ((e : ClixError) × (validate_ampm (text "12pm") ≡ err e)
        × (parse_ampm_naive (text "12pm") ≡ err e))
parse_ampm_naive-validate_ampm_example = parse_ampm_naive-validate_ampm (text "12pm")

typed_days : validate_days (text "Mon" ∷ []) ≡ ok (text "mon" ∷ [])
unfolding validate_days trim to_ascii_lowercase Text-discrete text find ℕ_discrete
typed_days = refl

typed_dates : parse_dates (text "31" ∷ []) ≡ ok (31 ∷ [])
unfolding parse_dates trim parse_unsigned or_usage text find Text-discrete ℕ_discrete
typed_dates = refl

typed_until : is_none (some (text "5pm")) || is_ok (validate_ampm (text "5pm")) ≡ true
unfolding validate_ampm parse_ampm trim to_ascii_lowercase parse_unsigned half_of_day strip_suffix
    ends_with hour_of_day or_usage bad_time Text-discrete text find ℕ_discrete
typed_until = refl

-- Mondays and the last of the month, until five.
rpc_schedule-schedule_fields_example :
    ((false && not (is_empty (text "mon" ∷ [])) ≡ true)
      × (rpc_schedule (schedule_fields false (text "mon" ∷ []) (31 ∷ []) none (some (text "5pm")))
          ≡ err both_days))
    ⊎ ((s : Option Schedule) × (false && not (is_empty (text "mon" ∷ [])) ≡ false)
        × (rpc_schedule (schedule_fields false (text "mon" ∷ []) (31 ∷ []) none (some (text "5pm")))
            ≡ ok s)
        × (dates_of s ≡ 31 ∷ []))
rpc_schedule-schedule_fields_example =
    rpc_schedule-schedule_fields false (text "Mon" ∷ []) (text "mon" ∷ []) (text "31" ∷ [])
      (31 ∷ []) none (some (text "5pm")) typed_days typed_dates refl typed_until
