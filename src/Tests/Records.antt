-- ===== src/Tests/Records.antt =====
-- Grants, lines, pages and facts.
use clix.Prelude.{
  Text-discrete, [], arith, false, find, get, hex, if◌then◌else◌, insert, int_eq, length, nat_eq,
  none, pos, refl, retain, some, text, text_eq, texts_eq, true, ℕ, ℕ_discrete, ◌++◌, ◌<◌, ◌==◌, ◌↔◌,
  ◌∷◌, ◌≡◌, ◌≤◌,
}
use clix.Types.{
  Grant, JobStatus, bodies_eq, bool_eq, done, job_eq, patterns_eq, running, schedule_eq, status_eq,
  time_eq, weekday_eq,
}
use clix.Error.{ok}
use clix.State.{Store, contains, next_u64}
use clix.State.Frame.{Kept}
use clix.Grant.{commit}
use clix.Grant.Slots.{Unique, commit-Unique, find-commit}
use clix.Job.{Reply, is_terminal}
use clix.History.{
  Certificate-discrete, History, OutputRef, Published, Role-discrete, SignedFact,
  captured_output_eq, certificate_eq, legacy_observer, origin, output_ref_eq, role_eq, runner,
  selected, signed_fact_eq,
}
use clix.History.Keys.{
  certificate, hash, invocation_hash, known_key, next_change, public_key, signing_key,
  validate_invocation, verify,
}
use clix.History.Facts.{check_output, is_waiting, validate_fact, validate_record}
use clix.History.Ingest.{ingest, merge_fact}
use clix.History.Ingest.Merge.{merge_fact_again, merge_fact_forward}
use clix.History.Ingest.Frame.{OnlyHistory, ingest-OnlyHistory}
use clix.History.Pages.{page, page_bytes, page_rows}
use clix.History.Pages.Bounds.{page-bound, rows_bytes}
use clix.Storage.{candidates, output_budget, output_bytes}
use clix.Storage.Prune.{count_limit, prepare, prune, remove_payload}
use clix.Storage.Prune.Frame.{prune-Kept}
use clix.Storage.Prune.Budget.{InLimits, prepare_bound}
use clix.Limits.{Limits, contains_nul, id_bytes, identifier, invocation, status, tool}
use clix.Limits.Invocation.{IsArgv, IsPlain, invocation_iff}
use clix.Limits.Line.{closed, is_utf8, limited_line, line, read_until, silent, strip_newline}
use clix.Limits.Line.Frames.{has_newline, limited_line_bound, limited_line_next}
use clix.Tests.{empty_store, granting, host, ls_grant, no_history, running_store, seed}

commit-Unique_example : Unique (commit granting ls_grant).grants
commit-Unique_example = commit-Unique granting ls_grant (tt, tt)

find-commit_example :
    find (λ (x : Grant). x.tool == text "ls") (commit empty_store ls_grant).grants ≡ (
      if text "ls" == text "ls"
      then some ls_grant
      else find (λ (x : Grant). x.tool == text "ls") empty_store.grants)
find-commit_example = find-commit empty_store ls_grant (text "ls")

abbrev reference : OutputRef
reference = record {
  bytes = 0;
  sha256 = text "0123456789abcdef0123456789abcdef0123456789abcdef0123456789abcdef";
}

abbrev fact_at : ℕ → JobStatus → SignedFact
fact_at n status = record {
  fact = record {
    invocation = [];
    role = runner;
    revision = n;
    status = status;
    stdout = reference;
    stderr = reference;
  };
  signature = [];
}

merges :
    merge_fact (some (fact_at 1 running)) (some (fact_at 2 (done (pos 0))))
    ≡ ok (some (fact_at 2 (done (pos 0))), true)
unfolding clix.History.Ingest.merge_fact clix.Job.is_terminal clix.Prelude.ℕ_discrete
merges = refl

merge_fact_forward_example :
    (f : SignedFact) × (some (fact_at 2 (done (pos 0))) ≡ some f)
    × (1 ≤ f.fact.revision)
    × (is_terminal running ≡ true → f ≡ fact_at 1 running)
    × (true ≡ false → f ≡ fact_at 1 running)
    × (true ≡ true → some (fact_at 2 (done (pos 0))) ≡ some f)
merge_fact_forward_example =
    merge_fact_forward (fact_at 1 running) (some (fact_at 2 (done (pos 0))))
      (some (fact_at 2 (done (pos 0)))) true merges

merge_fact_again_example :
    merge_fact (some (fact_at 2 (done (pos 0)))) (some (fact_at 2 (done (pos 0))))
    ≡ ok (some (fact_at 2 (done (pos 0))), false)
merge_fact_again_example =
    merge_fact_again (some (fact_at 1 running)) (some (fact_at 2 (done (pos 0))))
      (some (fact_at 2 (done (pos 0)))) true merges

abbrev remote : Published
remote = record {
  record_of = record {
    certificate = record {
      invocation = record {
        id = text "k";
        from = text "a";
        origin_key = seed;
        body = text "b";
        runner_key = seed;
        argv = text "ls" ∷ [];
        retry_of = none;
        legacy_observer = none;
      };
      signature = [];
    };
    origin = none;
    runner = some (fact_at 1 running);
  };
  output = none;
  change = 0;
}

abbrev imported : Store
imported = record empty_store {
  history = record no_history {
    clock = 1;
    entries = ([], record { record_of = remote.record_of; change = 1; output = none }) ∷ [];
  };
}

ingests : ingest host empty_store remote ≡ ok (imported, true)
unfolding clix.History.Certificate-discrete clix.History.Facts.check_output
    clix.History.Facts.is_waiting clix.History.Facts.validate_fact
    clix.History.Facts.validate_record clix.History.Ingest.ingest clix.History.Ingest.merge_fact
    clix.History.Keys.hash clix.History.Keys.invocation_hash clix.History.Keys.known_key
    clix.History.Keys.next_change clix.History.Keys.public_key clix.History.Keys.signing_key
    clix.History.Keys.validate_invocation clix.History.Keys.verify clix.History.Role-discrete
    clix.History.selected clix.Limits.contains_nul clix.Limits.identifier clix.Limits.invocation
    clix.Limits.status clix.Limits.tool clix.Prelude.Text-discrete clix.Prelude.find
    clix.Prelude.get clix.Prelude.hex clix.Prelude.insert clix.Prelude.text clix.Prelude.ℕ_discrete
    clix.State.next_u64
ingests = refl

ingest-OnlyHistory_example :
    (validate_record host empty_store remote.record_of ≡ ok tt)
    × OnlyHistory empty_store imported true
ingest-OnlyHistory_example = ingest-OnlyHistory host empty_store remote imported true ingests

one_page :
    page host imported (text "e") 0 none
    ≡ ok (record {
      epoch = text "e";
      reset = false;
      high = 1;
      next = 1;
      complete = true;
      entries = record { record_of = remote.record_of; output = none; change = 1 } ∷ [];
    })
unfolding clix.History.Pages.page clix.History.Reply.export_entry clix.History.Reply.selected_output
    clix.History.selected clix.Prelude.Text-discrete clix.Prelude.find clix.Prelude.get
    clix.Prelude.retain clix.Prelude.text clix.Prelude.ℕ_discrete clix.State.contains
one_page = refl

page-bound_example :
    (1 ≤ page_rows)
    × (rows_bytes host (record { record_of = remote.record_of; output = none; change = 1 } ∷ [])
        ≤ page_bytes)
page-bound_example =
    page-bound host imported (text "e") 0 none
      (record {
        epoch = text "e";
        reset = false;
        high = 1;
        next = 1;
        complete = true;
        entries = record { record_of = remote.record_of; output = none; change = 1 } ∷ [];
      })
      one_page

prepared : prepare running_store empty_store ≡ ok running_store
unfolding clix.Storage.Prune.count_limit clix.Storage.Prune.prepare clix.Storage.output_bytes
prepared = refl

prepare_bound_example :
    (output_bytes running_store ≤ output_budget) × InLimits running_store empty_store
prepare_bound_example = prepare_bound running_store empty_store running_store prepared

-- A finished job with an entry, whose output can be pruned.
abbrev kept_output : Store
kept_output = record imported {
  history = record imported.history {
    entries =
        (
          [],
          record {
            record_of = record remote.record_of { runner = some (fact_at 1 (done (pos 0))) };
            change = 1;
            output = some (record { stdout = text "x"; stderr = [] });
          },
        )
        ∷ [];
  };
}

abbrev lost_output : Store
lost_output = record kept_output {
  history = record kept_output.history {
    clock = 2;
    entries =
        (
          [],
          record {
            record_of = record remote.record_of { runner = some (fact_at 1 (done (pos 0))) };
            change = 2;
            output = none;
          },
        )
        ∷ [];
  };
  history_pruned = ([], tt) ∷ [];
}

prunes : prune kept_output 0 ≡ ok (1, lost_output)
unfolding clix.History.selected clix.Job.is_terminal clix.Prelude.Text-discrete clix.Prelude.get
    clix.Prelude.insert clix.Prelude.text clix.State.next_u64 clix.Storage.Prune.prune
    clix.Storage.Prune.remove_payload clix.Storage.candidates clix.Storage.output_bytes
prunes = refl

prune-Kept_example : Kept kept_output lost_output
prune-Kept_example = prune-Kept kept_output 0 1 lost_output prunes

invocation_iff_example :
    (invocation (text "j1") (text "ls" ∷ []) ≡ ok tt)
    ↔ (IsPlain 1 id_bytes (text "j1") × IsArgv (text "ls" ∷ []))
invocation_iff_example = invocation_iff (text "j1") (text "ls" ∷ [])

plain_line : (has_newline (text "ab") ≡ false) × (is_utf8 (text "ab") ≡ true)
unfolding clix.Prelude.text clix.Limits.Line.limited_line clix.Limits.Line.is_utf8
    clix.Limits.Line.read_until clix.Limits.Line.strip_newline ℕ_discrete
plain_line = (refl, refl)

limited_line_next_example :
    limited_line 8 (text "ab" ++ (10 ∷ text "cd")) silent ≡ (line (text "ab"), text "cd")
unfolding text
limited_line_next_example =
    limited_line_next 8 (text "ab") (text "cd") silent plain_line.0 (omega arith) plain_line.1

one_line : (limited_line 8 (text "ab" ++ (10 ∷ [])) closed).0 ≡ line (text "ab")
unfolding clix.Prelude.text clix.Limits.Line.limited_line clix.Limits.Line.is_utf8
    clix.Limits.Line.read_until clix.Limits.Line.strip_newline ℕ_discrete
one_line = refl

limited_line_bound_example : (length (text "ab") < 8) × (is_utf8 (text "ab") ≡ true)
limited_line_bound_example =
    limited_line_bound 8 (text "ab" ++ (10 ∷ [])) (text "ab") closed one_line
