-- ===== src/Cli.antt =====
-- cli.rs: what the owner types for days, dates, times and durations. `trim`, `to_ascii_lowercase`,
-- `strip_suffix` and `parse` of an unsigned number are the standard library's, on UTF-8 bytes.
pub mod Times
use clix.Prelude.{
  Bool, List, Option, Text, [], any, drop, ends_with, false, find, get_or, if◌then◌else◌, int_eq,
  is_empty, last, leb, length, ltb, map, nat_eq, none, not, some, suc, take, text, text_eq,
  texts_eq, true, zero, ℕ, ◌%◌, ◌&&◌, ◌*◌, ◌++◌, ◌+◌, ◌-◌, ◌/◌, ◌==◌, ◌^◌, ◌||◌, ◌∷◌,
}
use clix.Error.{Result, err, ok, refuse_if, usage, ◌>>=◌, ◌>>◌}

-- The characters of Unicode's White_Space.
spaces : List Text
spaces =
    map (λ b. b ∷ []) (9 ∷ 10 ∷ 11 ∷ 12 ∷ 13 ∷ 32 ∷ [])
    ++ (map (λ b. 0xC2 ∷ b ∷ []) (0x85 ∷ 0xA0 ∷ [])
        ++ ((0xE1 ∷ 0x9A ∷ 0x80 ∷ [])
              ∷ map (λ b. 0xE2 ∷ 0x80 ∷ b ∷ [])
                  (0x80 ∷ 0x81 ∷ 0x82 ∷ 0x83 ∷ 0x84 ∷ 0x85 ∷ 0x86 ∷ 0x87 ∷ 0x88 ∷ 0x89 ∷ 0x8A ∷ 0xA8
                    ∷ 0xA9 ∷ 0xAF ∷ [])
            ++ ((0xE2 ∷ 0x81 ∷ 0x9F ∷ []) ∷ (0xE3 ∷ 0x80 ∷ 0x80 ∷ []) ∷ [])))

reversed : Text → Text → Text
reversed acc [] = acc
reversed acc (b ∷ bs) = reversed (b ∷ acc) bs

-- Removes what begins the text and is one of the given, as often as it can.
trim_start_from : ℕ → List Text → Text → Text
trim_start_from zero ws s = s
trim_start_from (suc f) ws s = elim (find (λ w. take (length w) s == w) ws) [
  | none ↦ s
  | some w ↦ trim_start_from f ws (drop (length w) s)
]

unfoldable pub trim : Text → Text
unfolding spaces reversed trim_start_from
trim s =
    let begun = trim_start_from (length s) spaces s in
    let ended = trim_start_from (length begun) (map (reversed []) spaces) (reversed [] begun) in
    reversed [] ended

unfoldable pub to_ascii_lowercase : Text → Text
to_ascii_lowercase s = map (λ b. if leb 65 b && leb b 90 then b + 32 else b) s

unfoldable pub strip_suffix : Text → Text → Option Text
strip_suffix suffix s =
    if ends_with suffix s then some (take (length s - length suffix) s) else none

digits_from : ℕ → Text → Option ℕ
digits_from n [] = some n
digits_from n (b ∷ bs) = if leb 48 b && leb b 57 then digits_from (n * 10 + (b - 48)) bs else none

-- `str::parse` of an unsigned integer that is at most `max`: a sign `+` may come first.
unfoldable pub parse_unsigned : ℕ → Text → Option ℕ
unfolding digits_from
parse_unsigned max [] = none
parse_unsigned max (b ∷ bs) =
    let digits = if b == b'+' then bs else b ∷ bs in
    if is_empty digits
    then none
    else elim (digits_from 0 digits) [ none ↦ none | some n ↦ if leb n max then some n else none ]

unfoldable pub or_usage {ℓ} : {A : Type ℓ} → Text → Option A → Result A
or_usage message none = err (usage message)
or_usage message (some a) = ok a

-- The rest of `strip_no_wait`: the word after the first.
after_name : List Text → Bool → List Text × Bool
after_name (a ∷ b ∷ parts) no_wait =
    if b == text "--no-wait" then (a ∷ parts, true) else (a ∷ b ∷ parts, no_wait)
after_name parts no_wait = (parts, no_wait)

unfoldable pub strip_no_wait : List Text → Bool → List Text × Bool
unfolding after_name
strip_no_wait [] no_wait = ([], no_wait)
strip_no_wait (a ∷ parts) no_wait =
    if a == text "--no-wait" then after_name parts true else after_name (a ∷ parts) no_wait

unfoldable pub weekdays : List Text
weekdays =
    text "mon" ∷ text "tue" ∷ text "wed" ∷ text "thu" ∷ text "fri" ∷ text "sat" ∷ text "sun" ∷ []

unfoldable pub validate_days : List Text → Result (List Text)
unfolding weekdays
validate_days [] = ok []
validate_days (d ∷ days) = do
  let lower = to_ascii_lowercase (trim d)
  refuse_if (not (any (λ w. w == lower) weekdays))
      (usage (text "unknown weekday '" ++ (d ++ text "' (use mon..sun)")))
  rest ← validate_days days
  ok (lower ∷ rest)

unfoldable pub bad_date : Text → Text
bad_date d = text "bad date '" ++ (d ++ (text "' (use 1" ++ (0xE2 ∷ 0x80 ∷ 0x93 ∷ text "31)")))

unfoldable pub parse_dates : List Text → Result (List ℕ)
unfolding or_usage bad_date
parse_dates [] = ok []
parse_dates (d ∷ dates) = do
  n ← or_usage (bad_date d) (parse_unsigned 255 (trim d))
  refuse_if (not (leb 1 n && leb n 31)) (usage (bad_date d))
  rest ← parse_dates dates
  ok (n ∷ rest)

unfoldable pub bad_time : Text → Text
bad_time s = text "bad time '" ++ (s ++ text "' (use am/pm, e.g. 5pm)")

-- The text before `pm` or `am`, and whether it was `pm`.
unfoldable pub half_of_day : Text → Option (Text × Bool)
half_of_day s = elim (strip_suffix (text "pm") s) [
  | some rest ↦ some (rest, true)
  | none ↦ elim (strip_suffix (text "am") s) [ some rest ↦ some (rest, false) | none ↦ none ]
]

unfoldable pub hour_of_day : ℕ → Bool → ℕ
hour_of_day hour pm = if hour == 12 then (if pm then 12 else 0) else if pm then hour + 12 else hour

-- Minutes since midnight.
unfoldable pub parse_ampm : Text → Result ℕ
unfolding or_usage bad_time half_of_day strip_suffix
parse_ampm typed = do
  let s = to_ascii_lowercase (trim typed)
  half ← or_usage (bad_time s) (half_of_day s)
  hour ← or_usage (bad_time s) (parse_unsigned (2 ^ 32 - 1) half.0)
  refuse_if (not (leb 1 hour && leb hour 12)) (usage (bad_time s))
  ok (hour_of_day hour half.1 * 60)

-- `NaiveTime::from_hms_opt`, in nanoseconds since midnight.
unfoldable pub from_hms_opt : ℕ → ℕ → ℕ → Option ℕ
from_hms_opt hour min sec =
    if ltb hour 24 && ltb min 60 && ltb sec 60
    then some ((hour * 3600 + min * 60 + sec) * 10 ^ 9)
    else none

unfoldable pub parse_ampm_naive : Text → Result ℕ
unfolding or_usage bad_time from_hms_opt
parse_ampm_naive s = do
  mins ← parse_ampm s
  or_usage (bad_time s) (from_hms_opt (mins / 60) (mins % 60) 0)

unfoldable pub validate_ampm : Text → Result (Unit {0})
validate_ampm s = do mins ← parse_ampm s; ok tt

bad_duration : Text → Text
bad_duration s = text "bad duration '" ++ (s ++ text "' (e.g. 2h, 30m)")

-- `checked_mul` of a 64-bit number.
checked_mul : ℕ → ℕ → Result ℕ
checked_mul n k =
    if ltb (n * k) (2 ^ 64) then ok (n * k) else err (usage (text "duration too large"))

-- The seconds of one unit.
unit_seconds : ℕ → Option ℕ
unit_seconds unit =
    if unit == b's'
    then some 1
    else if unit == b'm'
    then some 60
    else if unit == b'h'
    then some 3600
    else if unit == b'd'
    then some 86400
    else none

-- Whether the text's last byte is a character: `split_at` before it panics where it is not.
unfoldable pub ends_in_character : Text → Bool
ends_in_character s = elim (last s) [ none ↦ true | some b ↦ ltb b 128 || leb 192 b ]

seconds : Text → Result ℕ
unfolding or_usage bad_duration checked_mul unit_seconds
seconds s = do
  n ← or_usage (bad_duration s) (parse_unsigned (2 ^ 64 - 1) (take (length s - 1) s))
  unit ← or_usage (bad_duration s) (unit_seconds (get_or s (length s - 1) 0))
  checked_mul n unit

-- In seconds; `none` where the program panics.
unfoldable pub parse_duration : Text → Option (Result ℕ)
unfolding seconds
parse_duration typed =
    let s = to_ascii_lowercase (trim typed) in
    if ltb (length s) 2
    then some (err (usage (text "bad duration (e.g. 2h, 30m)")))
    else if ends_in_character s
    then some (seconds s)
    else none
