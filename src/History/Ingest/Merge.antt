-- ===== src/History/Ingest/Merge.antt =====
-- history.rs, `merge_fact`: a fact that is known is replaced by a later one only, and a final one
-- never.
use clix.Prelude.{
  Bool, Bool-cases, Option, arith, false, inl, inr, int_eq, ltb, nat_eq, none, some, text_eq,
  texts_eq, true, ◌==◌, ◌≡◌, ◌≤◌,
}
use clix.Types.{
  bodies_eq, bool_eq, job_eq, patterns_eq, schedule_eq, status_eq, time_eq, weekday_eq,
}
use clix.Error.{ok}
use clix.Job.{is_terminal}
use clix.History.{
  SignedFact, captured_output_eq, certificate_eq, output_ref_eq, role_eq, signed_fact_eq,
}
use clix.History.Ingest.{merge_fact}

-- Where a fact is known, a merge that succeeds leaves the known fact or the incoming one; its
-- revision is not lower, the known fact stays where it is final or no change is reported, and a
-- reported change is the incoming fact.
pub merge_fact_forward :
    (current : SignedFact) (incoming m : Option SignedFact) (changed : Bool)
    → merge_fact (some current) incoming ≡ ok (m, changed)
    → (f : SignedFact) × (m ≡ some f)
      × (current.fact.revision ≤ f.fact.revision)
      × (is_terminal current.fact.status ≡ true → f ≡ current)
      × (changed ≡ false → f ≡ current)
      × (changed ≡ true → incoming ≡ some f)
unfolding merge_fact
merge_fact_forward current none m changed e =
    (current, ground arith, ground arith, ground arith, ground arith, ground arith)
merge_fact_forward current (some incoming) m changed e =
    elim (Bool-cases (ltb incoming.fact.revision current.fact.revision)) [
      | inl t ↦ (current, ground arith, ground arith, ground arith, ground arith, ground arith)
      | inr t ↦ elim (Bool-cases (incoming.fact.revision == current.fact.revision)) [
        | inl u ↦ (current, ground arith, ground arith, ground arith, ground arith, ground arith)
        | inr u ↦ (incoming, ground arith, ground arith, ground arith, ground arith, ground arith)
      ]
    ]

-- After a merge that succeeds, a second merge of the same fact succeeds and changes nothing.
pub merge_fact_again :
    (known incoming m : Option SignedFact) (changed : Bool)
    → merge_fact known incoming ≡ ok (m, changed)
    → merge_fact m incoming ≡ ok (m, false)
unfolding merge_fact
merge_fact_again known none m changed e = ground arith
merge_fact_again none (some incoming) m changed e = ground arith
merge_fact_again (some current) (some incoming) m changed e = ground arith
