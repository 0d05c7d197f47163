-- ===== src/Job/Remote.antt =====
-- job.rs: a job that runs on another machine, as the machine that asked sees it.
pub mod Final
use clix.Types.{
  BodyId, Job, JobStatus, bodies_eq, bool_eq, failed, job_eq, patterns_eq, running, schedule_eq,
  status_eq, time_eq, waiting_body, waiting_capacity, weekday_eq,
}
use clix.Error.{
  ClixError, Result, display, err, json, ok, protocol, unreachable, usage, ◌>>=◌, ◌>>◌,
}
use clix.Prelude.{
  Bool, List, Map, Option, Text, [], false, find, if◌then◌else◌, insert, int_eq, is_some, nat_eq,
  none, some, text, text_eq, texts_eq, true, ◌!=◌, ◌&&◌, ◌++◌, ◌==◌, ◌||◌, ◌∷◌,
}
use clix.Limits
use clix.Ids.{new_id}
use clix.Job.{is_capacity, is_terminal, is_unreachable}
use clix.History.{
  Published, captured_output_eq, certificate_eq, output_ref_eq, role_eq, signed_fact_eq,
}
use clix.History.Reply.{accept_runner_reply, for_job}
use clix.State.{Host, Store}
use clix.Store.{Sidecar, Sys, ensure_writable, put_job, update}

-- `append_retry`: a new job, and the job that it repeats.
link_retry : Text → Option Text → Map Text → Map Text
link_retry id none links = links
link_retry id (some old) links = insert id old links

-- A new job, if its id and its arguments are admissible.
fresh_job : Result Text → BodyId → BodyId → List Text → JobStatus → Result Job
fresh_job random from body argv status = do
  id ← new_id random
  Limits.invocation id argv
  ok (record {
    id = id;
    body = body;
    argv = argv;
    from = from;
    status = status;
    stdout = [];
    stderr = [];
  })

add_job : Option Text → Job → Store → Store
unfolding link_retry
add_job retry_of job s = record s {
  retry_links = link_retry job.id retry_of s.retry_links;
  jobs = s.jobs ++ (job ∷ []);
}

-- What an unsigned answer does to a job that is not finished.
unfoldable pub judge : BodyId → Job → Job → Result (Option Job)
judge peer incoming j =
    if j.body != peer || is_terminal j.status
    then ok none
    else if incoming.body != peer || incoming.from != j.from || incoming.argv != j.argv
    then err (protocol (text "peer returned a different job invocation"))
    else ok (some j)

-- The job that an unsigned answer is about, if it may still change.
unfoldable pub considered : Store → BodyId → Job → Result (Option Job)
unfolding judge
considered s peer incoming = do
  Limits.result incoming
  elim (find (λ j. j.id == incoming.id) s.jobs) [ none ↦ ok none | some j ↦ judge peer incoming j ]

-- What a failed delivery makes of the job's status.
unfoldable pub after_error : ClixError → JobStatus → JobStatus
after_error e status =
    if is_capacity e
    then (if status == running then status else waiting_capacity)
    else if is_unreachable e
    then (if status == running then status else waiting_body)
    else failed (display e)

-- The fields of a peer's response that are read: the job, unless it is missing or null, and the
-- history, unless it is missing, each as the JSON parser reads it; and the parser's message for a
-- missing job.
pub record Response : Type 0 where
  pub job : Option (Result Job)
  pub job_error : Text
  pub history : Option (Result Published)

-- What the peer answered to the query for the job and, if it did not know it, to the execution.
pub record Answers : Type 0 where
  pub known : Result Response
  pub executed : Result Response

module _ (h : Host) where
  unfoldable pub append_retry :
      Sys
      → Result Text
      → Sidecar
      → BodyId
      → BodyId
      → List Text
      → JobStatus
      → Option Text
      → Sidecar × Result Job
  unfolding fresh_job add_job
  append_retry sys random m from body argv status retry_of =
      elim (fresh_job random from body argv status) [
        | err e ↦ (m, err e)
        | ok job ↦ update h sys m (λ s. ok (add_job retry_of job s, job))
      ]

  -- A job that may still change takes the answer over.
  apply_considered : Sys → Sidecar → Job → Result (Option Job) → Sidecar × Result (Option Job)
  apply_considered sys m incoming (err e) = (m, err e)
  apply_considered sys m incoming (ok none) = (m, ok none)
  apply_considered sys m incoming (ok (some j)) =
      if incoming.status == j.status && incoming.stdout == j.stdout && incoming.stderr == j.stderr
      then (m, ok (some j))
      else let (m', r) = put_job h sys m incoming in (m', r >>= λ _. ok (some incoming))

  unfoldable pub apply_peer_result : Sys → Sidecar → BodyId → Job → Sidecar × Result (Option Job)
  unfolding considered apply_considered
  apply_peer_result sys m peer incoming =
      apply_considered sys m incoming (considered m.store peer incoming)

  -- A failed delivery of a job that is found here.
  fail_found : Sys → Sidecar → ClixError → Option Job → Sidecar × Result (Unit {0})
  unfolding after_error
  fail_found sys m e none = (m, ok tt)
  fail_found sys m e (some j) =
      if is_terminal j.status || after_error e j.status == j.status
      then (m, ok tt)
      else put_job h sys m (record j { status = after_error e j.status })

  unfoldable pub delivery_failed : Sys → Sidecar → Text → ClixError → Sidecar × Result (Unit {0})
  unfolding fail_found
  delivery_failed sys m id e = fail_found sys m e (find (λ j. j.id == id) m.store.jobs)

  -- A response is read as signed where the job has a certificate.
  apply_response : Sys → Sidecar → BodyId → Bool → Response → Sidecar × Result (Unit {0})
  apply_response sys m peer true response = elim response.history [
    | none ↦ (m, err (protocol (text "peer response is missing signed history")))
    | some (err e) ↦ (m, err e)
    | some (ok p) ↦
        let (m', r) = update h sys m (accept_runner_reply h peer p) in (m', r >>= λ _. ok tt)
  ]
  apply_response sys m peer false response = elim response.job [
    | none ↦ (m, err (json response.job_error))
    | some (err e) ↦ (m, err e)
    | some (ok job) ↦ let (m', r) = apply_peer_result sys m peer job in (m', r >>= λ _. ok tt)
  ]

  exchange : Sys → Sidecar → BodyId → Bool → Answers → Sidecar × Result (Unit {0})
  unfolding apply_response
  exchange sys m peer certified answers = elim answers.known [
    | err e ↦ (m, err e)
    | ok response ↦
        if is_some response.job
        then apply_response sys m peer certified response
        else elim answers.executed [
          | err e ↦ (m, err e)
          | ok response' ↦ apply_response sys m peer certified response'
        ]
  ]

  attempt : Sys → Sidecar → Job → Answers → Sidecar × Result (Unit {0})
  unfolding exchange
  attempt sys m job answers = elim (find (λ p. p.name == job.body) m.store.peers) [
    | none ↦ (m, err (usage (job.body ++ text " is not paired")))
    | some peer ↦ elim peer.addr [
      | none ↦ (m, err unreachable)
      | some _ ↦ exchange sys m peer.name (is_some (for_job h m.store job)) answers
    ]
  ]

  -- One delivery of a job, with the peer's answers and the outcomes of its two possible saves. The
  -- state is not changed by others while it lasts.
  unfoldable pub dispatch_one : Sys → Sys → Sidecar → Job → Answers → Sidecar × Result (Unit {0})
  unfolding attempt
  dispatch_one sys sys' m job answers = elim (ensure_writable m.store) [
    | err e ↦ (m, err e)
    | ok _ ↦
        let (m', r) = attempt sys m job answers in
        elim r [ ok _ ↦ (m', ok tt) | err e ↦ delivery_failed sys' m' job.id e ]
  ]
