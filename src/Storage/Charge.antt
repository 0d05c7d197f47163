-- ===== src/Storage/Charge.antt =====
-- storage.rs, `completion_charge`: room is kept for the outcome of every job that was admitted.
use clix.Types.{Job}
use clix.Error.{Result, capacity, err, ok, ◌>>=◌}
use clix.Prelude.{
  List, Map, Option, Text, [], decimal, if◌then◌else◌, leb, length, ltb, none, some, text, ℕ, ◌*◌,
  ◌+◌, ◌-◌, ◌∷◌,
}
use clix.Job.{is_terminal}
use clix.History.{CapturedOutput, Entry}
use clix.State.{Host, Store, contains}
use clix.Storage.{completion_reserve, encode, output_budget, state_bytes}

unfoldable pub sat_add : ℕ → ℕ → ℕ
sat_add a b = if ltb (a + b) 18446744073709551616 then a + b else 18446744073709551615

sat_mul : ℕ → ℕ → ℕ
sat_mul a b = if ltb (a * b) 18446744073709551616 then a * b else 18446744073709551615

byte_digits : ℕ → ℕ
byte_digits b = if leb 100 b then 3 else if leb 10 b then 2 else 1

digits_of : Text → ℕ
unfolding byte_digits
digits_of [] = 0
digits_of (b ∷ bs) = byte_digits b + digits_of bs

-- The digits and the commas of a byte vector in JSON.
unfoldable pub payload_json_bytes : Text → ℕ
unfolding digits_of
payload_json_bytes [] = 0
payload_json_bytes (b ∷ bs) = digits_of (b ∷ bs) + length (b ∷ bs) - 1

payloads_of_jobs : List Job → ℕ
payloads_of_jobs [] = 0
payloads_of_jobs (j ∷ js) =
    payload_json_bytes j.stdout + payload_json_bytes j.stderr + payloads_of_jobs js

payload_of_output : Option CapturedOutput → ℕ
payload_of_output none = 0
payload_of_output (some o) = payload_json_bytes o.stdout + payload_json_bytes o.stderr

payloads_of_entries : Map Entry → ℕ
unfolding payload_of_output
payloads_of_entries [] = 0
payloads_of_entries ((key, e) ∷ es) = payload_of_output e.output + payloads_of_entries es

-- `checked_ilog10` counts the decimal digits.
sequence_headroom : ℕ → ℕ
sequence_headroom n = 20 - length (decimal n)

headrooms : Map Entry → ℕ
unfolding sequence_headroom
headrooms [] = 0
headrooms ((key, e) ∷ es) = sequence_headroom e.change + headrooms es

pending_jobs : List Job → ℕ
pending_jobs [] = 0
pending_jobs (j ∷ js) = (if is_terminal j.status then 0 else 1) + pending_jobs js

module _ (h : Host) where
  job_receipts : Map (Unit {0}) → List Job → ℕ
  job_receipts pruned [] = 0
  job_receipts pruned (j ∷ js) =
      (if contains j.id pruned then 0 else length (h.json_text j.id) + 1) + job_receipts pruned js

  entry_receipts : Map (Unit {0}) → Map Entry → ℕ
  entry_receipts pruned [] = 0
  entry_receipts pruned ((key, e) ∷ es) =
      (if contains key pruned then 0 else length (h.json_text key) + 1) + entry_receipts pruned es

  unfoldable pub completion_charge : Store → ℕ → ℕ
  unfolding sat_add sat_mul payloads_of_jobs payloads_of_entries sequence_headroom headrooms
      pending_jobs job_receipts entry_receipts
  completion_charge s encoded =
      let payload = payloads_of_jobs s.jobs + payloads_of_entries s.history.entries in
      let metadata = encoded - payload in
      let receipts =
        job_receipts s.output_pruned s.jobs + entry_receipts s.history_pruned s.history.entries in
      let sequences = sequence_headroom s.history.clock + headrooms s.history.entries in
      sat_add (sat_add (sat_add (sat_add metadata receipts) sequences) (output_budget * 4))
        (sat_mul (pending_jobs s.jobs) completion_reserve)

  unfoldable pub reserve_completion : Store → Store → ℕ → Result (Unit {0})
  reserve_completion s old encoded =
      if leb (completion_charge s encoded) state_bytes then ok tt else (do
        bytes ← encode h old
        if leb (completion_charge s encoded) (completion_charge old (length bytes))
            then ok tt
            else err (
                capacity (
                  text
                    "state capacity is reserved for admitted job outcomes; new work is refused")))
