-- ===== src/Cli/Times.antt =====
-- cli.rs: the hours that `parse_ampm` gives, as times of day.

use clix.Prelude.{
  Bool, Text, ap, arith, false, inl, inr, leb, not, sym, ℕ, ◌%◌, ◌&&◌, ◌*◌, ◌-◌, ◌/◌, ◌<◌, ◌^◌, ◌∙◌,
  ◌≡◌, ◌⊎◌,
}
use clix.Error.{
  >>=-eq-ok, ClixError, Result, Result-cases, err, ok, ok-injective, refuse_if, refuse_if-ok, usage,
  ◌>>=◌,
}
use clix.Cli.{
  bad_time, from_hms_opt, half_of_day, hour_of_day, or_usage, parse_ampm, parse_ampm_naive,
  parse_unsigned, to_ascii_lowercase, trim, validate_ampm,
}

hour_of_day-lt : (h : ℕ) (pm : Bool) → not (leb 1 h && leb h 12) ≡ false → hour_of_day h pm < 24
unfolding hour_of_day
hour_of_day-lt h pm e = ground arith

-- Minutes since midnight that are a whole hour of a day.
unfoldable pub IsHour : ℕ → Type 0
IsHour m = (h : ℕ) × (m ≡ h * 60) × (h < 24)

pub parse_ampm-IsHour : (s : Text) (m : ℕ) → parse_ampm s ≡ ok m → IsHour m
unfolding parse_ampm IsHour
parse_ampm-IsHour typed m e =
    let s = to_ascii_lowercase (trim typed) in
    let (half, _, rest) = >>=-eq-ok (or_usage (bad_time s) (half_of_day s)) _ e in
    let (hour, _, rest₂) =
      >>=-eq-ok (or_usage (bad_time s) (parse_unsigned (2 ^ 32 - 1) half.0)) _ rest in
    let (u, in_range, final) =
      >>=-eq-ok (refuse_if (not (leb 1 hour && leb hour 12)) (usage (bad_time s))) _ rest₂ in
    (
      hour_of_day hour half.1,
      sym (ok-injective final),
      hour_of_day-lt hour half.1 (refuse_if-ok _ _ u in_range),
    )

clock_hour :
    (h m : ℕ) (t : Text)
    → m ≡ h * 60
    → h < 24
    → or_usage t (from_hms_opt (m / 60) (m % 60) 0) ≡ ok (h * 3600000000000)
unfolding or_usage from_hms_opt
clock_hour h m t e lt = ground arith

-- A typed time that the command line accepts is read, by the reader that the owner's socket uses
-- too, as a whole hour of the day from 0 to 23, in nanoseconds since midnight; where the command
-- line refuses it, that reader gives the same error.
pub parse_ampm_naive-validate_ampm :
    (s : Text)
    → ((h : ℕ) × (h < 24)
        × (validate_ampm s ≡ ok tt)
        × (parse_ampm_naive s ≡ ok (h * 3600000000000)))
      ⊎ ((e : ClixError) × (validate_ampm s ≡ err e) × (parse_ampm_naive s ≡ err e))
unfolding parse_ampm_naive validate_ampm IsHour
parse_ampm_naive-validate_ampm s =
    let checks : ℕ → Result (Unit {0}) = λ _. ok tt in
    let reads : ℕ → Result ℕ =
      λ mins. or_usage (bad_time s) (from_hms_opt (mins / 60) (mins % 60) 0) in
    elim (Result-cases (parse_ampm s)) [
      | inl (m, e) ↦
          let (h, whole, small) = parse_ampm-IsHour s m e in
          inl (
            h,
            small,
            ap (λ r. r >>= checks) e,
            ap (λ r. r >>= reads) e ∙ clock_hour h m (bad_time s) whole small,
          )
      | inr (e, p) ↦ inr (e, ap (λ r. r >>= checks) p, ap (λ r. r >>= reads) p)
    ]
