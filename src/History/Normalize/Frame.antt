-- ===== src/History/Normalize/Frame.antt =====
-- history.rs, `normalize_output` touches payloads and the marks of what was pruned.
use mathlib.Core.Path.{ap₂}
use clix.Types.{Job}
use clix.Prelude.{List, [], arith, map, refl, ◌∷◌, ◌≡◌}
use clix.State.{Store}
use clix.State.Frame.{Kept, Kept-refl, Kept-trans, bare}
use clix.History.Normalize.{clear_pruned, normalize_job, normalize_jobs, normalize_output}

normalize_job-Kept :
    (s : Store) (job : Job)
    → (bare (normalize_job s job).0 ≡ bare job) × Kept s (normalize_job s job).1
unfolding normalize_job
normalize_job-Kept s job = ground arith

normalize_jobs-Kept :
    (s : Store) (js : List Job)
    → (map bare (normalize_jobs s js).0 ≡ map bare js) × Kept s (normalize_jobs s js).1
unfolding normalize_jobs
normalize_jobs-Kept s [] = (refl, Kept-refl s)
normalize_jobs-Kept s (j ∷ js) =
    let (first, kept) = normalize_job-Kept s j in
    let (others, kept') = normalize_jobs-Kept (normalize_job s j).1 js in
    (ap₂ ◌∷◌ first others, Kept-trans kept kept')

with_jobs-Kept :
    (a b : Store) (js : List Job)
    → Kept a b
    → map bare js ≡ map bare a.jobs
    → Kept a (record b { jobs = js })
with_jobs-Kept a b js k e = ground arith

clear-Kept :
    (s : Store)
    → Kept s (record s {
      history = record s.history { entries = clear_pruned s.history_pruned s.history.entries };
    })
clear-Kept s = ground arith

-- Every job is still there with its status.
pub normalize_output-Kept : (s : Store) → Kept s (normalize_output s)
unfolding normalize_output
normalize_output-Kept s =
    let s₁ : Store = record s {
      history = record s.history { entries = clear_pruned s.history_pruned s.history.entries };
    } in
    let (jobs, kept) = normalize_jobs-Kept s₁ s₁.jobs in
    Kept-trans (clear-Kept s) (with_jobs-Kept s₁ _ _ kept jobs)
