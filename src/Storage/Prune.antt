-- ===== src/Storage/Prune.antt =====
-- storage.rs: pruning, and the checks that an update passes before it is saved.
pub mod Budget
use clix.Types.{
  bodies_eq, bool_eq, job_eq, patterns_eq, schedule_eq, status_eq, time_eq, weekday_eq,
}
use clix.Error.{Result, capacity, err, ok, protocol, refuse_if, ◌>>=◌, ◌>>◌}
pub mod Frame
use clix.Prelude.{
  List, Map, Text, [], any, decimal, get, if◌then◌else◌, insert, int_eq, leb, length, ltb, nat_eq,
  none, some, take, text, text_eq, texts_eq, update_first, ℕ, ◌&&◌, ◌++◌, ◌-◌, ◌==◌, ◌∷◌,
}
use clix.History.{Entry, captured_output_eq, certificate_eq, output_ref_eq, role_eq, signed_fact_eq}
use clix.State.{Store, next_u64}
use clix.Storage.{
  Candidate, Payload, candidates, local, max_grants, max_history, max_jobs, max_outbound_requests,
  max_peers, max_pending_requests, max_request_receipts, output_budget, output_bytes, replica,
}

-- Clear the job's own payload; the key of its entry.
clear_local : Store → Payload → Result (Text × Store)
clear_local s (local id) = elim (get id s.job_certificates) [
  | none ↦ err (protocol (text "output has no admission record"))
  | some key ↦
      if any (λ j. j.id == id) s.jobs
      then ok (
        key,
        record s {
          jobs = update_first (λ j. j.id == id) (λ j. record j { stdout = []; stderr = [] }) s.jobs;
          output_pruned = insert id tt s.output_pruned;
        },
      )
      else err (protocol (text "output job disappeared"))
]
clear_local s (replica key) = ok (key, s)

clear_entry : ℕ → Text → Map Entry → Map Entry
clear_entry n key entries = elim (get key entries) [
  | none ↦ entries
  | some entry ↦ insert key (record entry { output = none; change = n }) entries
]

-- The entry loses its payload, and the pruning is itself a change of the history.
mark_pruned : Store → Text → Result Store
unfolding clear_entry
mark_pruned s key = elim (next_u64 s.history.clock) [
  | none ↦ err (protocol (text "history sequence exhausted"))
  | some n ↦ ok (record s {
    history = record s.history { clock = n; entries = clear_entry n key s.history.entries };
    history_pruned = insert key tt s.history_pruned;
  })
]

unfoldable pub remove_payload : Store → Payload → Result Store
unfolding clear_local mark_pruned
remove_payload s payload = do (key, s') ← clear_local s payload; mark_pruned s' key

remove_payloads : Store → List Candidate → Result Store
remove_payloads s [] = ok s
remove_payloads s (c ∷ cs) = remove_payload s c.payload >>= λ s'. remove_payloads s' cs

-- How many bytes went; the store without them.
unfoldable pub prune : Store → ℕ → Result (ℕ × Store)
unfolding remove_payloads
prune s keep = do
  let cs = candidates s
  s' ← remove_payloads s (take (length cs - keep) cs)
  ok (output_bytes s - output_bytes s', s')

unfoldable pub count_limit : Text → ℕ → ℕ → ℕ → Result (Unit {0})
count_limit name next old most = refuse_if (ltb most next && ltb old next) (
    capacity (
      name
      ++ (text " limit ("
          ++ (decimal most
              ++ text ") reached; new admissions are refused, existing records are preserved"))))

-- Payloads go, oldest first, until the rest fits.
shrink : Store → List Candidate → Result Store
shrink s [] = ok s
shrink s (c ∷ cs) =
    let rest = remove_payload s c.payload >>= λ s'. shrink s' cs in
    if leb (output_bytes s) output_budget then ok s else rest

fit_budget : Store → Result Store
unfolding shrink
fit_budget s = do
  s' ← shrink s (candidates s)
  refuse_if (ltb output_budget (output_bytes s'))
      (capacity (text "retained output budget is full; active or unverified data was preserved"))
  ok s'

-- The counts, each against its limit and its former value.
check_counts : Store → Store → Result (Unit {0})
check_counts next old = do
  count_limit (text "execution receipt") (length next.jobs) (length old.jobs) max_jobs
  count_limit (text "history record") (length next.history.entries) (length old.history.entries)
      max_history
  count_limit (text "request delivery receipt") (length next.request_receipts)
      (length old.request_receipts) max_request_receipts
  count_limit (text "pending request") (length next.requests) (length old.requests)
      max_pending_requests
  count_limit (text "outbound request") (length next.outbound_requests)
      (length old.outbound_requests) max_outbound_requests
  count_limit (text "paired machine") (length next.peers) (length old.peers) max_peers
  count_limit (text "grant") (length next.grants) (length old.grants) max_grants

unfoldable pub prepare : Store → Store → Result Store
unfolding check_counts fit_budget
prepare next old = do
  check_counts next old
  if ltb output_budget (output_bytes next) then fit_budget next else ok next
