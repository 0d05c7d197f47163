-- ===== src/History/Refresh.antt =====
-- history.rs, `refresh_owned`: inside each durable update, the facts that this machine owns about
-- its own jobs are signed and published.
use clix.Types.{
  Job, JobStatus, Peer, bodies_eq, bool_eq, failed, job_eq, patterns_eq, queued, schedule_eq,
  status_eq, time_eq, waiting_body, waiting_capacity, weekday_eq,
}
use clix.Error.{Result, err, ok, protocol, ◌>>=◌, ◌>>◌}
pub mod Frame
use clix.Prelude.{
  Bool, List, Map, Option, Text, [], false, get, if◌then◌else◌, insert, int_eq, is_empty, is_some,
  is_some_and, map, nat_eq, none, not, retain, some, text, text_eq, text_lt, texts_eq, true, ℕ,
  ◌!=◌, ◌&&◌, ◌==◌, ◌||◌, ◌∷◌,
}
use clix.Job.{is_terminal}
use clix.Ids.{new_id}
use clix.History.{
  Entry, Fact, OutputRef, Record, Role, SignedFact, captured_output_eq, certificate_eq,
  legacy_observer, origin, output_ref_eq, role_eq, runner, selected, signed_fact_eq,
}
use clix.History.Keys.{
  certificate, fact_bytes, hash, invocation_hash, matches_job, next_change, output_matches,
  output_ref, signing_key,
}
use clix.State.{Host, Store, contains, extend, next_u64}

-- The stable sort of the paired names and keys, by name.
insert_by_name : Text × Text → List (Text × Text) → List (Text × Text)
insert_by_name p [] = p ∷ []
insert_by_name p (q ∷ qs) = if text_lt p.0 q.0 then p ∷ q ∷ qs else q ∷ insert_by_name p qs

sort_by_name : List (Text × Text) → List (Text × Text) → List (Text × Text)
unfolding insert_by_name
sort_by_name sorted [] = sorted
sort_by_name sorted (p ∷ ps) = sort_by_name (insert_by_name p sorted) ps

trust_list : List Peer → List (Text × Text)
unfolding sort_by_name
trust_list peers = sort_by_name [] (map (λ (p : Peer). (p.name, p.owner_pk)) peers)

-- The jobs of the state before the update, by id.
index_jobs : List Job → Map Job → Map Job
index_jobs [] m = m
index_jobs (j ∷ js) m = index_jobs js (insert j.id j m)

old_jobs : Option Store → Map Job
unfolding index_jobs
old_jobs none = []
old_jobs (some s) = index_jobs s.jobs []

is_changed : Bool → Map Job → Job → Bool
is_changed legacy old j = legacy || elim (get j.id old) [ none ↦ true | some o ↦ o != j ]

-- The role under which this machine speaks of a job, its earlier fact and the status to publish;
-- `none` where it has nothing to say.
pub record Voice : Type 0 where
  pub role : Role
  pub previous : Option SignedFact
  pub status : JobStatus

origin_voice : Record → JobStatus → Option Voice
origin_voice r queued = some (record { role = origin; previous = r.origin; status = queued })
origin_voice r waiting_body =
    some (record { role = origin; previous = r.origin; status = waiting_body })
origin_voice r waiting_capacity =
    some (record { role = origin; previous = r.origin; status = waiting_capacity })
origin_voice r (failed reason) =
    some (record { role = origin; previous = r.origin; status = failed reason })
origin_voice r _ = none

is_local_queue : JobStatus → Bool
is_local_queue queued = true
is_local_queue waiting_capacity = true
is_local_queue _ = false

voice : Text → Record → Job → Option Voice
unfolding origin_voice is_local_queue
voice body_name r job =
    if is_some r.certificate.invocation.legacy_observer
    then some (record { role = legacy_observer; previous = r.origin; status = job.status })
    else if job.body == body_name && not (is_local_queue job.status)
    then some (record { role = runner; previous = r.runner; status = job.status })
    else if job.from == body_name
    then origin_voice r job.status
    else none

-- The earlier fact says the same, or is final.
is_settled : Option SignedFact → JobStatus → OutputRef → OutputRef → Bool
is_settled none status out err' = false
is_settled (some p) status out err' =
    p.fact.status == status && p.fact.stdout == out && p.fact.stderr == err'
    || is_terminal p.fact.status

next_revision : Option SignedFact → Result ℕ
next_revision none = ok 1
next_revision (some p) = elim (next_u64 p.fact.revision) [
  | some n ↦ ok n
  | none ↦ err (protocol (text "fact revision exhausted"))
]

with_fact : Record → Role → SignedFact → Record
with_fact r role signed =
    if role == runner then record r { runner = some signed } else record r { origin = some signed }

-- Every job that was known before the history was, is a legacy job.
mark_legacy : Store → Store
mark_legacy s =
    if s.history.initialized
    then s
    else record s { legacy_jobs = extend (map (λ (j : Job). j.id) s.jobs) s.legacy_jobs }

start_epoch : Result Text → Store → Result Store
start_epoch random s =
    if is_empty s.history.epoch
    then (do id ← new_id random; ok (record s { history = record s.history { epoch = id } }))
    else ok s

module _ (h : Host) where
  -- The key of the job's history entry, made if the job has none.
  admit : Map Job → Store → Job → Result (Text × Store)
  admit old s job = elim (get job.id s.job_certificates) [
    | some key ↦ ok (key, s)
    | none ↦
        let legacy =
          contains job.id s.legacy_jobs || job.from != s.body_name || is_some (get job.id old) in
        let s' : Store =
          if legacy then record s { legacy_jobs = insert job.id tt s.legacy_jobs } else s in
        (do
          c ← certificate h s' job legacy
          let key = invocation_hash h c
          (n, history) ← next_change s'.history
          let entry : Entry = record {
            record_of = record { certificate = c; origin = none; runner = none };
            change = n;
            output = none;
          }
          ok (
            key,
            record s' {
              history = record history { entries = insert key entry history.entries };
              job_certificates = insert job.id key s'.job_certificates;
            },
          ))
  ]

  -- The digests of the job's output, as the role may state them.
  outputs : Store → Job → Voice → Result (OutputRef × OutputRef)
  outputs s job v =
      if v.role == origin
      then ok (output_ref h [], output_ref h [])
      else if contains job.id s.output_pruned
      then elim v.previous [
        | some f ↦ ok (f.fact.stdout, f.fact.stderr)
        | none ↦ err (protocol (text "pruned job is missing its output digests"))
      ]
      else ok (output_ref h job.stdout, output_ref h job.stderr)

  -- A payload that the job holds itself, or that is not the selected fact's, is dropped.
  keep_output : Store → Job → Entry → Entry
  keep_output s job entry = elim (selected entry.record_of) [
    | none ↦ entry
    | some f ↦
        if not (contains job.id s.output_pruned)
            && output_ref h job.stdout == f.fact.stdout
            && output_ref h job.stderr == f.fact.stderr
          || is_some_and (λ o. not (output_matches h o f.fact)) entry.output
        then record entry { output = none }
        else entry
  ]

  sign_fact : Store → Fact → Result SignedFact
  sign_fact s f = do
    key ← signing_key h s
    ok (record { fact = f; signature = h.sign key (fact_bytes h f) })

  -- Sign the new fact and store it with the entry.
  publish : Store → Job → Text → Entry → Voice → OutputRef → OutputRef → Result Store
  unfolding next_revision with_fact keep_output sign_fact
  publish s job key entry v out err' = do
    revision ← next_revision v.previous
    signed ← sign_fact s (record {
      invocation = key;
      role = v.role;
      revision = revision;
      status = v.status;
      stdout = out;
      stderr = err';
    })
    (n, history) ← next_change s.history
    let entry' : Entry =
        keep_output s job
          (record entry { record_of = with_fact entry.record_of v.role signed; change = n })
    ok (record s { history = record history { entries = insert key entry' history.entries } })

  speak : Store → Job → Text → Entry → Voice → Result Store
  unfolding outputs is_settled publish
  speak s job key entry v = do
    (out, err') ← outputs s job v
    if is_settled v.previous v.status out err' then ok s else publish s job key entry v out err'

  speak_voice : Store → Job → Text → Entry → Option Voice → Result Store
  unfolding speak
  speak_voice s job key entry none = ok s
  speak_voice s job key entry (some v) = speak s job key entry v

  speak_entry : Store → Job → Text → Option Entry → Result Store
  unfolding voice speak_voice
  speak_entry s job key none = err (protocol (text "admitted job lost its certificate"))
  speak_entry s job key (some entry) =
      if not (matches_job entry.record_of.certificate job)
      then err (protocol (text "admitted job invocation changed"))
      else speak_voice s job key entry (voice s.body_name entry.record_of job)

  -- One job that has changed.
  refresh_job : Map Job → Store → Job → Result Store
  unfolding admit speak_entry
  refresh_job old s job =
      if job.from != s.body_name && job.body != s.body_name
      then ok s
      else (do (key, s') ← admit old s job; speak_entry s' job key (get key s'.history.entries))

  refresh_jobs : Map Job → Store → List Job → Result Store
  refresh_jobs old s [] = ok s
  refresh_jobs old s (j ∷ js) = refresh_job old s j >>= λ s'. refresh_jobs old s' js

  -- A change of the paired keys restarts every neighbour's scan.
  renew_trust : Store → Store
  unfolding trust_list
  renew_trust s =
      let trust = hash h (h.json_trust (trust_list s.peers)) in
      if trust == s.history.trust
      then s
      else record s { history = record s.history { peers = []; trust = trust } }

  unfoldable pub refresh_owned : Result Text → Option Store → Store → Result Store
  unfolding mark_legacy start_epoch renew_trust old_jobs is_changed refresh_job refresh_jobs
  refresh_owned random previous s = do
    let legacy = not s.history.initialized
    let old = old_jobs previous
    s₁ ← start_epoch random (mark_legacy s)
    let s₂ = renew_trust s₁
    s₃ ← refresh_jobs old s₂ (retain (is_changed legacy old) s₂.jobs)
    ok (record s₃ { history = record s₃.history { initialized = true } })
