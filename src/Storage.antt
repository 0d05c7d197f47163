-- ===== src/Storage.antt =====
-- storage.rs: bounds on what is kept. Output can be pruned; the records of what was admitted and
-- delivered stay.
use clix.Types.{
  Job, bodies_eq, bool_eq, job_eq, patterns_eq, schedule_eq, status_eq, time_eq, weekday_eq,
}
use clix.Error.{Result, capacity, err, json, ok}
pub mod Prune
pub mod Charge
pub mod Encoding
use clix.Prelude.{
  List, Map, Option, Text, [], get, if◌then◌else◌, insert, int_eq, is_some, is_some_and, length,
  ltb, map, nat_eq, none, not, some, text, text_eq, texts_eq, ℕ, ◌&&◌, ◌++◌, ◌+◌, ◌==◌, ◌||◌, ◌∷◌,
}
use clix.Job.{is_terminal}
use clix.History.{
  CapturedOutput, Entry, captured_output_eq, certificate_eq, output_ref_eq, role_eq, selected,
  signed_fact_eq,
}
use clix.State.{Host, Store}

abbrev pub state_bytes : ℕ
state_bytes = 134217728

abbrev pub output_budget : ℕ
output_budget = 16777216

abbrev pub completion_reserve : ℕ
completion_reserve = 2097152

abbrev pub max_jobs : ℕ
max_jobs = 10000

abbrev pub max_history : ℕ
max_history = 30000

abbrev pub max_request_receipts : ℕ
max_request_receipts = 10000

abbrev pub max_pending_requests : ℕ
max_pending_requests = 1024

abbrev pub max_outbound_requests : ℕ
max_outbound_requests = 1024

abbrev pub max_peers : ℕ
max_peers = 64

abbrev pub max_grants : ℕ
max_grants = 256

-- `BoundedJson::write` over the pieces that the serialiser hands out; `none` is `full`.
write_all : Text → List Text → Option Text
write_all bytes [] = some bytes
write_all bytes (piece ∷ pieces) =
    let rest = write_all (bytes ++ piece) pieces in
    if ltb state_bytes (length bytes + length piece) then none else rest

-- What was written, and how the serialiser ended.
written : Option Text → Option Text → Result Text
written none failure = err (capacity (text "Clix state exceeds 128 MiB; new work is refused"))
written (some bytes) (some e) = err (json e)
written (some bytes) none = ok bytes

unfoldable pub encode : Host → Store → Result Text
unfolding write_all written
encode h s = written (write_all [] (h.json_store s).0) (h.json_store s).1

sum : List ℕ → ℕ
sum [] = 0
sum (n ∷ ns) = n + sum ns

job_bytes : Job → ℕ
job_bytes j = length j.stdout + length j.stderr

captured_bytes : Option CapturedOutput → ℕ
captured_bytes none = 0
captured_bytes (some o) = length o.stdout + length o.stderr

jobs_bytes : List Job → ℕ
unfolding job_bytes
jobs_bytes [] = 0
jobs_bytes (j ∷ js) = job_bytes j + jobs_bytes js

entries_bytes : Map Entry → ℕ
unfolding captured_bytes
entries_bytes [] = 0
entries_bytes ((key, e) ∷ es) = captured_bytes e.output + entries_bytes es

unfoldable pub output_bytes : Store → ℕ
unfolding jobs_bytes entries_bytes
output_bytes s = jobs_bytes s.jobs + entries_bytes s.history.entries

pub data Payload : Type 0 where
  local replica : Text → Payload

-- A payload that may be pruned: its age, where it stands and its size.
pub record Candidate : Type 0 where
  pub age : ℕ
  pub payload : Payload
  pub size : ℕ

-- The outputs that finished jobs hold, by the key of their entry.
local_candidates : Store → List Job → Map Candidate → Map Candidate
unfolding job_bytes
local_candidates s [] m = m
local_candidates s (j ∷ js) m = local_candidates s js (
    if job_bytes j == 0 || not (is_terminal j.status)
    then m
    else elim (get j.id s.job_certificates) [
      | none ↦ m
      | some key ↦ elim (get key s.history.entries) [
        | none ↦ m
        | some entry ↦
            if is_some (selected entry.record_of)
            then insert key
                (record { age = entry.change; payload = local j.id; size = job_bytes j }) m
            else m
      ]
    ])

replica_candidates : Map Entry → Map Candidate → Map Candidate
unfolding captured_bytes
replica_candidates [] m = m
replica_candidates ((key, entry) ∷ es) m = replica_candidates es (
    let bytes = captured_bytes entry.output in
    if ltb 0 bytes && is_some_and (λ f. is_terminal f.fact.status) (selected entry.record_of)
    then elim (get key m) [
      | some c ↦ insert key (record c { size = c.size + bytes }) m
      | none ↦ insert key (record { age = entry.change; payload = replica key; size = bytes }) m
    ]
    else m)

insert_by_age : Candidate → List Candidate → List Candidate
insert_by_age c [] = c ∷ []
insert_by_age c (d ∷ ds) = if ltb c.age d.age then c ∷ d ∷ ds else d ∷ insert_by_age c ds

sort_by_age : List Candidate → List Candidate → List Candidate
unfolding insert_by_age
sort_by_age sorted [] = sorted
sort_by_age sorted (c ∷ cs) = sort_by_age (insert_by_age c sorted) cs

-- The oldest first.
unfoldable pub candidates : Store → List Candidate
unfolding local_candidates replica_candidates sort_by_age
candidates s = sort_by_age [] (
    map (λ (p : Text × Candidate). p.1)
      (replica_candidates s.history.entries (local_candidates s s.jobs [])))
