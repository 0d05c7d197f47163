-- ===== src/History/Normalize.antt =====
-- history.rs, `normalize_output`: one payload is kept once, and a pruned one not at all.

use clix.Types.{
  Job, bodies_eq, bool_eq, job_eq, patterns_eq, schedule_eq, status_eq, time_eq, weekday_eq,
}
pub mod Frame
use clix.Prelude.{
  Bool, List, Map, [], get, if◌then◌else◌, insert, int_eq, is_some_and, nat_eq, none, not, some,
  text_eq, texts_eq, ◌!=◌, ◌&&◌, ◌==◌, ◌||◌, ◌∷◌,
}
use clix.History.{
  Entry, SignedFact, captured_output_eq, certificate_eq, output_ref_eq, role_eq, selected,
  signed_fact_eq,
}
use clix.History.Keys.{certificate, matches_job}
use clix.State.{Store, contains}

clear_pruned : Map (Unit {0}) → Map Entry → Map Entry
clear_pruned pruned [] = []
clear_pruned pruned ((key, entry) ∷ entries) =
    (key, if contains key pruned then record entry { output = none } else entry)
    ∷ clear_pruned pruned entries

has_bytes : SignedFact → Bool
has_bytes f = f.fact.stdout.bytes != 0 || f.fact.stderr.bytes != 0

normalize_job : Store → Job → Job × Store
unfolding has_bytes
normalize_job s job = elim (get job.id s.job_certificates) [
  | none ↦ (job, s)
  | some key ↦ elim (get key s.history.entries) [
    | none ↦ (job, s)
    | some entry ↦
        if not (matches_job entry.record_of.certificate job)
        then (job, s)
        else if contains key s.history_pruned
        then (
          record job { stdout = []; stderr = [] },
          if is_some_and has_bytes (selected entry.record_of)
              then record s { output_pruned = insert job.id tt s.output_pruned }
              else s,
        )
        else if not (contains job.id s.output_pruned)
            && is_some_and (λ o. o.stdout == job.stdout && o.stderr == job.stderr) entry.output
        then (
          job,
          record s {
            history = record s.history {
              entries = insert key (record entry { output = none }) s.history.entries;
            };
          },
        )
        else (job, s)
  ]
]

normalize_jobs : Store → List Job → List Job × Store
normalize_jobs s [] = ([], s)
normalize_jobs s (j ∷ js) =
    let (j', s') = normalize_job s j in let (js', s'') = normalize_jobs s' js in (j' ∷ js', s'')

unfoldable pub normalize_output : Store → Store
unfolding clear_pruned normalize_job normalize_jobs
normalize_output s =
    let s₁ : Store = record s {
      history = record s.history { entries = clear_pruned s.history_pruned s.history.entries };
    } in
    let (jobs, s₂) = normalize_jobs s₁ s₁.jobs in record s₂ { jobs = jobs }
