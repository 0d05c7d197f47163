-- ===== src/Job/Dispatch.antt =====
-- job.rs, `dispatch_pending`: which of the waiting work one round starts.
pub mod Waiting
pub mod Order
pub mod Examined
pub mod Round
use clix.Error.{ClixError, Result, capacity, display, err, ok, protocol}
use clix.Prelude.{
  Bool, List, Map, Text, [], any, false, find, get, if◌then◌else◌, insert, int_eq, is_none,
  is_some_and, leb, length, ltb, map, nat_eq, none, not, remove_first, retain, some, text, text_eq,
  text_lt, texts_eq, true, update_first, ℕ, ◌!=◌, ◌&&◌, ◌++◌, ◌+◌, ◌==◌, ◌||◌, ◌∷◌,
}
use clix.Types.{
  Job, JobStatus, OutboundRequest, Peer, bodies_eq, bool_eq, failed, job_eq, patterns_eq, queued,
  schedule_eq, status_eq, time_eq, waiting_capacity, weekday_eq,
}
use clix.State.{Host, Store}
use clix.Store.{Sidecar, Sys, update}
use clix.Limits.{dispatch_max, status}
use clix.Job.{is_terminal}

pub data Work : Type 0 where
  remote_work local_work : Job → Work
  request_work : OutboundRequest → Work
  history_work : Peer → Work

-- The tasks that run, by the keys of their work; when each key may be tried again; and the key that
-- was started last.
pub record Dispatcher : Type 0 where
  pub active : List Text
  pub next_attempt : Map ℕ
  pub cursor : Text

unfoldable pub waits_to_start : JobStatus → Bool
waits_to_start queued = true
waits_to_start waiting_capacity = true
waits_to_start _ = false

unfoldable pub job_work : Text → Job → List (Text × Work)
job_work body_name j =
    if j.from == body_name && (j.body != body_name && not (is_terminal j.status))
    then (text "job:" ++ j.id, remote_work j) ∷ []
    else if j.from == body_name && (j.body == body_name && waits_to_start j.status)
    then (text "local:" ++ j.id, local_work j) ∷ []
    else []

unfoldable pub jobs_work : Text → List Job → List (Text × Work)
unfolding job_work
jobs_work body_name [] = []
jobs_work body_name (j ∷ jobs) = job_work body_name j ++ jobs_work body_name jobs

unfoldable pub requests_work : List OutboundRequest → List (Text × Work)
requests_work [] = []
requests_work (r ∷ requests) =
    if is_none r.error
    then (text "request:" ++ r.id, request_work r) ∷ requests_work requests
    else requests_work requests

unfoldable pub peer_work : Peer → Text × Work
peer_work p = (text "history:" ++ p.name, history_work p)

unfoldable pub insert_sorted : Text × Work → List (Text × Work) → List (Text × Work)
insert_sorted c [] = c ∷ []
insert_sorted c (d ∷ ds) = if text_lt d.0 c.0 then d ∷ insert_sorted c ds else c ∷ d ∷ ds

unfoldable pub sort_by_key : List (Text × Work) → List (Text × Work)
unfolding insert_sorted
sort_by_key [] = []
sort_by_key (c ∷ cs) = insert_sorted c (sort_by_key cs)

-- Everything that waits, in the order of the keys.
unfoldable pub candidates : Store → List (Text × Work)
unfolding jobs_work requests_work peer_work sort_by_key
candidates s =
    sort_by_key
      (jobs_work s.body_name s.jobs ++ (requests_work s.outbound_requests ++ map peer_work s.peers))

-- From the first key after the cursor, around.
unfoldable pub from_cursor : Text → List (Text × Work) → List (Text × Work)
from_cursor cursor [] = []
from_cursor cursor (c ∷ cs) = if text_lt cursor c.0 then c ∷ cs else from_cursor cursor cs

unfoldable pub up_to_cursor : Text → List (Text × Work) → List (Text × Work)
up_to_cursor cursor [] = []
up_to_cursor cursor (c ∷ cs) = if text_lt cursor c.0 then [] else c ∷ up_to_cursor cursor cs

unfoldable pub rotated : Text → List (Text × Work) → List (Text × Work)
unfolding from_cursor up_to_cursor
rotated cursor cs = from_cursor cursor cs ++ up_to_cursor cursor cs

unfoldable pub is_running : Dispatcher → Text → Bool
is_running d key = any (λ running_key. running_key == key) d.active

unfoldable pub is_delayed : ℕ → Dispatcher → Text → Bool
is_delayed now d key = is_some_and (λ at. ltb now at) (get key d.next_attempt)

unfoldable pub start_task : ℕ → ℕ → Text → Dispatcher → Dispatcher
start_task now interval key d = record {
  active = key ∷ d.active;
  next_attempt = insert key (now + interval) d.next_attempt;
  cursor = key;
}

-- The works that are started, and the dispatcher after them. The cursor follows the work started last.
unfoldable pub try_all : ℕ → ℕ → List (Text × Work) → Dispatcher → List Work × Dispatcher
unfolding is_running is_delayed start_task
try_all now interval [] d = ([], d)
try_all now interval ((key, work) ∷ rest) d =
    let skipped = try_all now interval rest d in
    let (works, d') = try_all now interval rest (start_task now interval key d) in
    if leb dispatch_max (length d.active)
    then ([], d)
    else if is_running d key || is_delayed now d key
    then skipped
    else (work ∷ works, d')

unfoldable pub forget_old : List (Text × Work) → Dispatcher → Dispatcher
forget_old cs d = record d { next_attempt = retain (λ e. any (λ c. c.0 == e.0) cs) d.next_attempt }

unfoldable pub round : ℕ → ℕ → Store → Dispatcher → List Work × Dispatcher
round now interval s d =
    let cs = candidates s in try_all now interval (rotated d.cursor cs) (forget_old cs d)

-- A task that has ended.
unfoldable pub joined : Text → Dispatcher → Dispatcher
joined key d = record d { active = remove_first (λ k. k == key) d.active }

-- A submission of a job of this machine failed before the job was started.
refused_status : ClixError → JobStatus
refused_status (capacity _) = waiting_capacity
refused_status e = failed (display e)

unfoldable pub refuse_local : Text → ClixError → Store → Result (Store × Unit {0})
unfolding refused_status
refuse_local id e s = elim (find (λ j. j.id == id) s.jobs) [
  | none ↦ err (protocol (text "queued local job disappeared"))
  | some j ↦
      if waits_to_start j.status
      then ok (
        record s {
          jobs =
              update_first (λ j. j.id == id) (λ j. record j { status = refused_status e }) s.jobs;
        },
        tt,
      )
      else ok (s, tt)
]

unfoldable pub local_failed : Host → Sys → Sidecar → Text → ClixError → Sidecar × Result (Unit {0})
local_failed h sys m id e = update h sys m (refuse_local id e)
