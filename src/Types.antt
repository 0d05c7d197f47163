-- ===== src/Types.antt =====
-- types.rs: the records that a machine keeps. Names, ids and paths are byte strings (`Text`), and
-- so are byte vectors. A time is a number of nanoseconds since the epoch; what chrono reads off the
-- local clock is the record `Moment`.
pub mod Window
use clix.Prelude.{
  Bool, Eq, List, Option, Text, any, if◌then◌else◌, int_eq, is_empty, leb, nat_eq, negsuc, none,
  not, pos, some, text_eq, texts_eq, true, ℕ, ℕ_discrete, ℤ, ◌%◌, ◌&&◌, ◌*◌, ◌/◌, ◌==◌, ◌||◌,
}

-- `BodyId(String)`: a machine's display name.
abbrev pub BodyId : Type 0
BodyId = Text

pub data Weekday : Type 0 where
  mon tue wed thu fri sat sun : Weekday

unfoldable pub Weekday-discrete : Discrete Weekday
Weekday-discrete = hlevel

instance abbrev pub weekday_eq : Eq Weekday
weekday_eq = record { dec = Weekday-discrete }

-- `DateTime<Local>`: the instant, and its weekday, day of the month and time of day.
pub record Moment : Type 0 where
  pub instant : ℤ
  pub weekday : Weekday
  pub day : ℕ
  pub time : ℕ

pub record Schedule : Type 0 where
  pub days : List Weekday
  pub dates : List ℕ
  pub from : Option ℕ
  pub to : Option ℕ

unfoldable pub calendar_ok : Schedule → Moment → Bool
calendar_ok s now =
    let days_set = not (is_empty s.days) in
    let dates_set = not (is_empty s.dates) in
    if not days_set && not dates_set
    then true
    else days_set && any (λ d. d == now.weekday) s.days
      || dates_set && any (λ d. d == now.day % 256) s.dates

unfoldable pub time_within : Option ℕ → Option ℕ → ℕ → Bool
time_within none none t = true
time_within (some from) none t = leb from t
time_within none (some to) t = leb t to
time_within (some from) (some to) t =
    if leb from to then leb from t && leb t to else leb from t || leb t to

unfoldable pub time_ok : Schedule → ℕ → Bool
unfolding time_within
time_ok s t = time_within s.from s.to t

unfoldable pub allows_at : Schedule → Moment → Bool
unfolding calendar_ok time_ok
allows_at s now = calendar_ok s now && time_ok s now.time

pub record Grant : Type 0 where
  pub tool : Text
  pub binary : Text
  pub allow_from : Option (List BodyId)
  pub once : Bool
  pub until : Option ℤ
  pub schedule : Option Schedule
  pub reservation : Option Text
  pub args : Option (List (List Text))

pub data JobStatus : Type 0 where
  queued waiting_body waiting_capacity running : JobStatus
  done : ℤ → JobStatus
  denied failed uncertain : Text → JobStatus

pub record Job : Type 0 where
  pub id : Text
  pub body : BodyId
  pub argv : List Text
  pub from : BodyId
  pub status : JobStatus
  pub stdout : Text
  pub stderr : Text

pub record Peer : Type 0 where
  pub name : BodyId
  pub owner_pk : Text
  pub addr : Option Text

pub record Request : Type 0 where
  pub id : Text
  pub from : BodyId
  pub tool : Text
  pub once_suggested : Bool

pub record OutboundRequest : Type 0 where
  pub id : Text
  pub body : BodyId
  pub tool : Text
  pub waiting : Bool
  pub error : Option Text

pub record RequestReceipt : Type 0 where
  pub delivery_id : Text
  pub request : Request

-- `system_time_opt`: a saved time keeps whole seconds, and one before the epoch becomes the epoch.
unfoldable pub serialize_time : Option ℤ → Option ℕ
serialize_time none = none
serialize_time (some (pos t)) = some (t / 1000000000)
serialize_time (some (negsuc t)) = some 0

unfoldable pub deserialize_time : Option ℕ → Option ℤ
deserialize_time none = none
deserialize_time (some s) = some (pos (s * 1000000000))

unfoldable pub JobStatus-discrete : Discrete JobStatus
JobStatus-discrete = hlevel ℕ_discrete

unfoldable pub Job-discrete : Discrete Job
Job-discrete = hlevel ℕ_discrete

unfoldable pub Schedule-discrete : Discrete (Option Schedule)
Schedule-discrete = hlevel ℕ_discrete

instance abbrev pub status_eq : Eq JobStatus
status_eq = record { dec = JobStatus-discrete }

instance abbrev pub job_eq : Eq Job
job_eq = record { dec = Job-discrete }

instance abbrev pub schedule_eq : Eq (Option Schedule)
schedule_eq = record { dec = Schedule-discrete }

unfoldable pub Bodies-discrete : Discrete (Option (List BodyId))
Bodies-discrete = hlevel ℕ_discrete

unfoldable pub Time-discrete : Discrete (Option ℤ)
Time-discrete = hlevel ℕ_discrete

unfoldable pub Patterns-discrete : Discrete (Option (List (List Text)))
Patterns-discrete = hlevel ℕ_discrete

unfoldable pub Bool-discrete : Discrete Bool
Bool-discrete = hlevel

instance abbrev pub bodies_eq : Eq (Option (List BodyId))
bodies_eq = record { dec = Bodies-discrete }

instance abbrev pub time_eq : Eq (Option ℤ)
time_eq = record { dec = Time-discrete }

instance abbrev pub patterns_eq : Eq (Option (List (List Text)))
patterns_eq = record { dec = Patterns-discrete }

instance abbrev pub bool_eq : Eq Bool
bool_eq = record { dec = Bool-discrete }
