-- ===== src/History/Reply.antt =====
-- history.rs: what one machine tells another of a record, and the runner's answer to a delivery.
use clix.Types.{
  BodyId, Job, JobStatus, bodies_eq, bool_eq, job_eq, patterns_eq, schedule_eq, status_eq, time_eq,
  weekday_eq,
}
use clix.Error.{Result, err, ok, protocol, refuse_if, ◌>>=◌, ◌>>◌}
use clix.Prelude.{
  Bool, Option, Text, [], find, get, if◌then◌else◌, insert, int_eq, is_none, is_some, is_some_and,
  nat_eq, none, not, or_else, some, text, text_eq, texts_eq, update_first, ◌!=◌, ◌&&◌, ◌==◌, ◌||◌,
}
use clix.Job.{is_terminal}
use clix.History.{
  CapturedOutput, Certificate, Entry, Fact, Invocation, Published, SignedFact, captured_output_eq,
  certificate_eq, output_ref_eq, role_eq, selected, signed_fact_eq,
}
use clix.History.Keys.{invocation_hash, matches_job, output_matches, output_ref}
use clix.History.Facts.{validate_record}
use clix.History.Ingest.{ingest}
use clix.State.{Host, Store, contains}

-- The job was admitted under this key and still has its output.
is_holder : Store → Text → Entry → Job → Bool
is_holder s key entry job =
    is_some_and (λ k. k == key) (get job.id s.job_certificates)
    && matches_job entry.record_of.certificate job
    && not (contains job.id s.output_pruned)

-- The output to keep with the job: what came, unless it was pruned here.
retained : Store → Text → Text → Option CapturedOutput → Option CapturedOutput
retained s key id output =
    if contains key s.history_pruned || contains id s.output_pruned then none else output

answered : Invocation → JobStatus → Option CapturedOutput → Job
answered i status output = record {
  id = i.id;
  body = i.body;
  argv = i.argv;
  from = i.from;
  status = status;
  stdout = elim output [ none ↦ [] | some o ↦ o.stdout ];
  stderr = elim output [ none ↦ [] | some o ↦ o.stderr ];
}

-- The runner's fact replaces a job that is not finished.
settle_job : Store → Text → Published → SignedFact → Job → Store × Option Job
unfolding retained answered
settle_job s key p signed job =
    let i = p.record_of.certificate.invocation in
    if is_terminal job.status
    then (s, none)
    else let output = retained s key i.id p.output in
      let incoming = answered i signed.fact.status output in
      let pruned =
        if is_none output && (signed.fact.stdout.bytes != 0 || signed.fact.stderr.bytes != 0)
        then insert i.id tt s.output_pruned
        else s.output_pruned in
      (
        record s {
          output_pruned = pruned;
          jobs = update_first (λ j. j.id == i.id) (λ _. incoming) s.jobs;
        },
        some incoming,
      )

module _ (h : Host) where
  held_output : Store → Text → Entry → Fact → Option Job → Option CapturedOutput
  unfolding is_holder
  held_output s key entry f none = none
  held_output s key entry f (some job) =
      if is_holder s key entry job
        && output_ref h job.stdout == f.stdout
        && output_ref h job.stderr == f.stderr
      then some (record { stdout = job.stdout; stderr = job.stderr })
      else none

  kept_output : Entry → Fact → Option CapturedOutput
  kept_output entry f = elim entry.output [
    | none ↦ none
    | some o ↦ if output_matches h o f then some o else none
  ]

  unfoldable pub selected_output : Store → Entry → Option Job → Option CapturedOutput
  unfolding held_output kept_output
  selected_output s entry job = elim (selected entry.record_of) [
    | none ↦ none
    | some f ↦
        let key = invocation_hash h entry.record_of.certificate in
        if contains key s.history_pruned
        then none
        else or_else (held_output s key entry f.fact job) (kept_output entry f.fact)
  ]

  unfoldable pub export_entry : Store → Entry → Published
  export_entry s entry = record {
    record_of = entry.record_of;
    output =
        selected_output s entry
          (find (λ j. j.id == entry.record_of.certificate.invocation.id) s.jobs);
    change = entry.change;
  }

  -- The job, and its signed history, that a peer is told of.
  unfoldable pub execution_reply : Store → Certificate → Result (Option (Job × Published))
  execution_reply s c =
      let key = invocation_hash h c in
      elim (find (λ j. j.id == c.invocation.id) s.jobs) [
        | none ↦ ok none
        | some job ↦
            if not (matches_job c job)
              || not (is_some_and (λ k. k == key) (get job.id s.job_certificates))
            then err (protocol (text "job ID is bound to a different admitted invocation"))
            else elim (get key s.history.entries) [
              | none ↦ err (protocol (text "admission is missing history"))
              | some entry ↦ ok (some (job, export_entry s entry))
            ]
      ]

  unfoldable pub for_job : Store → Job → Option Entry
  for_job s job = elim (get job.id s.job_certificates) [
    | none ↦ none
    | some key ↦ elim (get key s.history.entries) [
      | none ↦ none
      | some e ↦
          if is_none e.record_of.certificate.invocation.legacy_observer
            && matches_job e.record_of.certificate job
          then some e
          else none
    ]
  ]

  unfoldable pub accept_runner_reply : BodyId → Published → Store → Result (Store × Option Job)
  unfolding settle_job
  accept_runner_reply peer p s = do
    let c = p.record_of.certificate
    validate_record h s p.record_of
    let key = invocation_hash h c
    refuse_if (is_some c.invocation.legacy_observer || c.invocation.body != peer)
        (protocol (text "response has no modern runner authority"))
    elim p.record_of.runner [
      | none ↦ err (protocol (text "runner response is missing its signed result"))
      | some signed ↦ elim (find (λ j. j.id == c.invocation.id) s.jobs) [
        | none ↦ ok (s, none)
        | some job ↦ (do
          refuse_if
              (not (is_some_and (λ k. k == key) (get c.invocation.id s.job_certificates))
                || not (matches_job c job))
              (protocol (text "runner result belongs to a different admission"))
          (s', _) ← ingest h s p
          ok (settle_job s' key p signed job))
      ]
    ]
