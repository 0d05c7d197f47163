-- ===== src/History/Ingest.antt =====
-- history.rs: the import of another machine's records, and the admission of an invocation here.
pub mod Merge
pub mod Frame
use clix.Types.{
  bodies_eq, bool_eq, job_eq, patterns_eq, schedule_eq, status_eq, time_eq, weekday_eq,
}
use clix.Error.{Result, err, ok, protocol, refuse_if, ◌>>=◌, ◌>>◌}
use clix.Prelude.{
  Bool, Option, Text, any, false, get, if◌then◌else◌, insert, int_eq, is_none, is_some_and, ltb,
  nat_eq, none, not, some, text, text_eq, texts_eq, true, unwrap_or, ◌!=◌, ◌&&◌, ◌==◌, ◌||◌,
}
use clix.Job.{is_terminal}
use clix.History.{
  CapturedOutput, Certificate, Entry, Fact, Published, Record, SignedFact, captured_output_eq,
  certificate_eq, output_ref_eq, role_eq, selected, signed_fact_eq,
}
use clix.History.Keys.{invocation_hash, matches_job, next_change, output_matches, output_ref}
use clix.History.Facts.{validate_record}
use clix.State.{Host, Store, contains}

-- The merged fact, and whether it changed.
unfoldable pub merge_fact :
    Option SignedFact → Option SignedFact → Result (Option SignedFact × Bool)
merge_fact existing none = ok (existing, false)
merge_fact none (some incoming) = ok (some incoming, true)
merge_fact (some current) (some incoming) =
    if ltb incoming.fact.revision current.fact.revision
    then ok (some current, false)
    else if incoming.fact.revision == current.fact.revision
    then (if incoming != current
        then err (protocol (text "conflicting history facts at the same revision"))
        else ok (some current, false))
    else if is_terminal current.fact.status
    then err (protocol (text "history cannot rewrite a terminal fact"))
    else ok (some incoming, true)

-- The entry that is already kept, or an empty one.
entry_for : Store → Text → Certificate → Entry
entry_for s key c =
    unwrap_or
      (record {
        record_of = record { certificate = c; origin = none; runner = none };
        change = 0;
        output = none;
      })
      (get key s.history.entries)

merge_record : Record → Record → Result (Record × Bool)
merge_record r incoming = do
  (o, o_changed) ← merge_fact r.origin incoming.origin
  (n, n_changed) ← merge_fact r.runner incoming.runner
  ok (record r { origin = o; runner = n }, o_changed || n_changed)

store_entry : Store → Text → Entry → Bool → Result (Store × Bool)
store_entry s key entry false = ok (s, false)
store_entry s key entry true = do
  (n, history) ← next_change s.history
  ok (
    record s {
      history = record history {
        entries = insert key (record entry { change = n }) history.entries;
      };
    },
    true,
  )

module _ (h : Host) where
  -- The output that comes with a record must be the selected fact's.
  check_published : Record → Option CapturedOutput → Result (Unit {0})
  check_published r none = ok tt
  check_published r (some output) = elim (selected r) [
    | none ↦ err (protocol (text "output has no history fact"))
    | some f ↦
        refuse_if (not (output_matches h output f.fact))
          (protocol (text "history output differs from its signed digest"))
  ]

  -- A job admitted under this key still holds the selected output.
  is_local_output : Store → Text → Record → Bool
  is_local_output s key r = elim (selected r) [
    | none ↦ false
    | some f ↦
        any
          (λ j.
            is_some_and (λ k. k == key) (get j.id s.job_certificates)
            && matches_job r.certificate j
            && not (contains j.id s.output_pruned)
            && output_ref h j.stdout == f.fact.stdout
            && output_ref h j.stderr == f.fact.stderr)
          s.jobs
  ]

  -- The published payload, unless it was pruned here, and whether it is new.
  take_output : Bool → Option CapturedOutput → Entry → Fact → Entry × Bool
  take_output pruned none entry f = (entry, false)
  take_output pruned (some o) entry f =
      if not pruned && output_matches h o f && not (is_some_and (λ old. old == o) entry.output)
      then (record entry { output = some o }, true)
      else (entry, false)

  -- A payload that is not the selected fact's is dropped.
  drop_stale : Entry → Fact → Entry × Bool
  drop_stale entry f =
      if is_some_and (λ o. not (output_matches h o f)) entry.output
      then (record entry { output = none }, true)
      else (entry, false)

  merge_output : Store → Text → Option CapturedOutput → Entry → Entry × Bool
  unfolding is_local_output take_output drop_stale
  merge_output s key output entry =
      if is_local_output s key entry.record_of
      then (record entry { output = none }, false)
      else elim (selected entry.record_of) [
        | none ↦ (entry, false)
        | some f ↦
            let (entry', added) = take_output (contains key s.history_pruned) output entry f.fact in
            let (entry'', dropped) = drop_stale entry' f.fact in (entry'', added || dropped)
      ]

  unfoldable pub ingest : Store → Published → Result (Store × Bool)
  unfolding check_published merge_output entry_for merge_record store_entry
  ingest s p = do
    validate_record h s p.record_of
    check_published p.record_of p.output
    let key = invocation_hash h p.record_of.certificate
    let entry = entry_for s key p.record_of.certificate
    refuse_if (entry.record_of.certificate != p.record_of.certificate)
        (protocol (text "different certificate for the same invocation"))
    (merged, changed) ← merge_record entry.record_of p.record_of
    let (entry', changed') = merge_output s key p.output (record entry { record_of = merged })
    store_entry s key entry' (changed || changed' || is_none (get key s.history.entries))

  unfoldable pub bind_admission : Store → Certificate → Result Store
  bind_admission s c = do
    let key = invocation_hash h c
    let id = c.invocation.id
    elim (get id s.job_certificates) [
      | some old ↦
          refuse_if (old != key)
            (protocol (text "job ID is already bound to a different invocation"))
      | none ↦
          refuse_if (any (λ j. j.id == id) s.jobs)
            (protocol (text "job ID belongs to an earlier unsigned admission"))
    ]
    s' ← elim (get key s.history.entries) [
      | some _ ↦ ok s
      | none ↦ (do
        (n, history) ← next_change s.history
        let entry : Entry = record {
          record_of = record { certificate = c; origin = none; runner = none };
          change = n;
          output = none;
        }
        ok (record s { history = record history { entries = insert key entry history.entries } }))
    ]
    ok (record s' {
      job_certificates = insert id key s'.job_certificates;
      retry_links = elim c.invocation.retry_of [
        | none ↦ s'.retry_links
        | some old ↦ insert id old s'.retry_links
      ];
    })
