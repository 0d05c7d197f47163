-- ===== src/Types/Window.antt =====
-- types.rs, `time_ok`: the daily window of a schedule, which may pass midnight.
use clix.Prelude.{arith, some, true, ℕ, ◌%◌, ◌+◌, ◌-◌, ◌<◌, ◌↔◌, ◌≡◌, ◌≤◌}
use clix.Types.{time_within}

-- The nanoseconds of a day.
abbrev pub day_length : ℕ
day_length = 86400000000000

-- How long after the first time of day the second one comes.
abbrev pub after : ℕ → ℕ → ℕ
after from t = (t + day_length - from) % day_length

-- For times of day, a window with a beginning and an end holds a time exactly when, on a clock that
-- starts at the beginning, the time does not come after the end; so a window whose end is the
-- smaller one passes midnight.
pub time_within_iff :
    (from to t : ℕ)
    → from < day_length
    → to < day_length
    → t < day_length
    → (time_within (some from) (some to) t ≡ true) ↔ (after from t ≤ after from to)
unfolding time_within
time_within_iff from to t a b c = (λ h. ground arith, λ h. ground arith)
