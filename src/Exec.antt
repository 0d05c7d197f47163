-- ===== src/Exec.antt =====
-- exec.rs, `submit`: a command is accepted, its permission reserved and both saved before the
-- process starts; the same command delivered again finds the job and starts nothing.
pub mod Finish
pub mod Spent
pub mod Admission
pub mod Once
pub mod Entitled
pub mod Complete
pub mod Confined
pub mod Reservation
pub mod Trace
use clix.Types.{
  BodyId, Grant, Job, JobStatus, Moment, bodies_eq, bool_eq, denied, job_eq, patterns_eq, queued,
  running, schedule_eq, status_eq, time_eq, waiting_capacity, weekday_eq,
}
use clix.Error.{
  ClixError, Result, display, err, expired, not_added, not_added_at_time, not_allowed, ok, protocol,
  refuse_if, ◌>>=◌, ◌>>◌,
}
use clix.Prelude.{
  Bool, List, Option, Text, [], any, false, find, get, if◌then◌else◌, int_eq, is_some, is_some_and,
  nat_eq, none, not, some, text, text_eq, texts_eq, true, update_first, ◌!=◌, ◌&&◌, ◌++◌, ◌==◌,
  ◌||◌, ◌∷◌,
}
use clix.Limits
use clix.Limits.{Limits, invocation, status, take_child, tool}
use clix.Job.{Reply, exec_json}
use clix.Grant.{check_args, check_at}
use clix.Request.{upsert}
use clix.History.{
  Certificate, captured_output_eq, certificate_eq, legacy_observer, output_ref_eq, role_eq,
  signed_fact_eq,
}
use clix.History.Keys.{invocation_hash, validate_invocation}
use clix.History.Ingest.{bind_admission}
use clix.State.{Host, Store}
use clix.Store.{Sidecar, Sys, update}

-- What a command needs of the world when it is submitted: the local time, random bytes for a
-- request's id, and the outcomes of the save.
pub record Clock : Type 0 where
  pub now : Moment
  pub random : Result Text
  pub sys : Sys

-- A delivery of a command: who asks, what to run, its id and, in the signed protocol, its
-- certificate.
pub record Delivery : Type 0 where
  pub from : BodyId
  pub argv : List Text
  pub id : Text
  pub certificate : Option Certificate

-- `argv[0]`; `invocation` has refused an empty vector.
unfoldable pub argv_head : List Text → Text
argv_head [] = []
argv_head (a ∷ _) = a

-- A refusal that an approval could mend.
is_mendable : ClixError → Bool
is_mendable (not_added _ _) = true
is_mendable (not_allowed _ _ _) = true
is_mendable (expired _ _) = true
is_mendable (not_added_at_time _ _) = true
is_mendable _ = false

is_local_queue : Text → Job → Bool
is_local_queue body_name j =
    j.from == body_name && (j.status == queued || j.status == waiting_capacity)

new_job : Text → Delivery → JobStatus → Job
new_job body_name d status = record {
  id = d.id;
  body = body_name;
  argv = d.argv;
  from = d.from;
  status = status;
  stdout = [];
  stderr = [];
}

unfoldable pub reserve : Text → Grant → Store → Store
reserve id g s =
    if g.once
    then record s {
      grants =
          update_first (λ x. x.tool == g.tool) (λ x. record x { reservation = some id }) s.grants;
    }
    else s

pub store_job : Job → Store → Store
store_job j s =
    if any (λ x. x.id == j.id) s.jobs
    then record s { jobs = update_first (λ x. x.id == j.id) (λ _. j) s.jobs }
    else record s { jobs = s.jobs ++ (j ∷ []) }

-- An accepted job and, if it is granted, the grant and the slot with which it starts.
pub record Accepted : Type 0 where
  pub job : Job
  pub granted : Option (Grant × Limits)

-- The permission to run, by the grant and its argument list.
permit : Moment → Store → Delivery → Result Grant
unfolding argv_head
permit now s d = do g ← check_at s (argv_head d.argv) d.from now; check_args g d.argv; ok g

-- The request that the owner could approve.
add_request : Result Text → Store → Delivery → ClixError → Result Store
unfolding argv_head is_mendable
add_request random s d e =
    if is_mendable e
    then (upsert random s d.from (argv_head d.argv) >>= λ added. ok (added.0))
    else ok s

-- The job that is refused.
refuse : Result Text → Store → Delivery → ClixError → Result (Store × Accepted)
unfolding add_request
refuse random s d e = do
  s' ← add_request random s d e
  let j = new_job s.body_name d (denied (display e))
  ok (store_job j s', record { job = j; granted = none })

-- The job that starts.
grant_run : Limits → Store → Delivery → Grant → Result (Store × Accepted)
unfolding reserve
grant_run limits s d g = do
  slots ← take_child limits
  let j = new_job s.body_name d running
  ok (store_job j (reserve d.id g s), record { job = j; granted = some (g, slots) })

-- The state and the free slots after the call, the reply, and the run that it started.
pub record Outcome : Type 0 where
  pub sidecar : Sidecar
  pub limits : Limits
  pub reply : Result Reply
  pub started : Option (Grant × Job)

unchanged : Sidecar → Limits → Result Reply → Outcome
unchanged m limits r = record { sidecar = m; limits = limits; reply = r; started = none }

start : Sidecar → Limits → Accepted → Outcome
start m limits a = elim a.granted [
  | none ↦ unchanged m limits (ok (exec_json a.job))
  | some (g, slots) ↦ record {
    sidecar = m;
    limits = slots;
    reply = ok (exec_json a.job);
    started = some (g, a.job);
  }
]

judge_permit : Result Text → Limits → Store → Delivery → Result Grant → Result (Store × Accepted)
unfolding refuse grant_run new_job store_job
judge_permit random limits s d (ok g) = grant_run limits s d g
judge_permit random limits s d (err e) = refuse random s d e

conclude : Sidecar → Limits → Result Accepted → Outcome
unfolding unchanged start
conclude m limits (err e) = unchanged m limits (err e)
conclude m limits (ok a) = start m limits a

module _ (h : Host) where
  pub bind : Store → Option Certificate → Result Store
  bind s none = ok s
  bind s (some c) = bind_admission h s c

  -- The edit that accepts a command.
  pub admit : Clock → Limits → Delivery → Store → Result (Store × Accepted)
  unfolding bind permit judge_permit
  admit clock limits d s = do
    s' ← bind s d.certificate
    judge_permit clock.random limits s' d (permit clock.now s' d)

  check_certificate : Store → Option Certificate → Result (Unit {0})
  check_certificate s none = ok tt
  check_certificate s (some c) = do
    validate_invocation h s c
    refuse_if (is_some c.invocation.legacy_observer || c.invocation.body != s.body_name)
        (protocol (text "invalid certified execution destination"))

  -- The job under this id must be this very command, admitted under this very certificate.
  check_existing : Store → Delivery → Job → Result (Unit {0})
  check_existing s d j = do
    refuse_if (j.from != d.from || j.body != s.body_name || j.argv != d.argv)
        (protocol (text "job ID belongs to a different invocation"))
    elim d.certificate [
      | none ↦ ok tt
      | some c ↦
          refuse_if
            (not (is_some_and (λ k. k == invocation_hash h c) (get d.id s.job_certificates)))
            (protocol (text "job ID belongs to a different signed admission"))
    ]

  -- A job that is known already and not waiting to start here; `none` where the command is to be
  -- admitted.
  recall_job : Store → Delivery → Option Job → Result (Option Job)
  unfolding check_existing is_local_queue
  recall_job s d none = ok none
  recall_job s d (some j) = do
    check_existing s d j
    ok (if is_local_queue s.body_name j then none else some j)

  recall : Store → Delivery → Result (Option Job)
  unfolding recall_job
  recall s d = recall_job s d (find (λ j. j.id == d.id) s.jobs)

  before_admission : Store → Delivery → Result (Option Job)
  unfolding check_certificate recall
  before_admission s d = do
    Limits.invocation d.id d.argv
    check_certificate s d.certificate
    recall s d

  accept : Clock → Sidecar → Limits → Delivery → Outcome
  unfolding admit conclude
  accept clock m limits d =
      let (m', r) = update h clock.sys m (admit clock limits d) in conclude m' limits r

  -- A command that is refused or known already is answered; another is admitted.
  proceed : Clock → Sidecar → Limits → Delivery → Result (Option Job) → Outcome
  unfolding unchanged accept
  proceed clock m limits d (err e) = unchanged m limits (err e)
  proceed clock m limits d (ok (some j)) = unchanged m limits (ok (exec_json j))
  proceed clock m limits d (ok none) = accept clock m limits d

  -- `submit` and `submit_certified`.
  unfoldable pub submit : Clock → Sidecar → Limits → Delivery → Outcome
  unfolding before_admission proceed
  submit clock m limits d = proceed clock m limits d (before_admission m.store d)
