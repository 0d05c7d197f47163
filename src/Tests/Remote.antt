-- ===== src/Tests/Remote.antt =====
-- A command that a peer signs, an answer that comes late, and a process that runs.
use clix.State.{Store}
use clix.Prelude.{
  List, Text, Text-discrete, [], false, find, get, int_eq, length, nat_eq, none, pos, refl, retain,
  some, text, text_eq, text_lt, texts_eq, true, ℕ, ℕ_discrete, ◌==◌, ◌∷◌, ◌≡◌, ◌≤◌,
}
use clix.Types.{
  Job, Peer, bodies_eq, bool_eq, done, job_eq, patterns_eq, schedule_eq, status_eq, time_eq,
  weekday_eq,
}
use clix.Error.{ok, unreachable}
use clix.Limits.{Limits, contains_nul, identifier, invocation, output_stream_bytes, status, tool}
use clix.Store.{Sidecar}
use clix.Job.{is_terminal}
use clix.Job.Remote.{apply_peer_result, delivery_failed}
use clix.Job.Remote.Final.{late_answer}
use clix.History.{
  Certificate, History, captured_output_eq, certificate_eq, legacy_observer, output_ref_eq, role_eq,
  signed_fact_eq,
}
use clix.History.Keys.{
  authorize_execution, known_key, public_key, signing_key, validate_invocation, verify,
}
use clix.History.Authority.{IsAuthorized, authorize_execution-IsAuthorized}
use clix.Grant.{check_args}
use clix.Exec.Finish.{Child, exited, ran, run_child}
use clix.Job.Dispatch.{Dispatcher, candidates, forget_old, history_work, rotated, round, try_all}
use clix.Job.Dispatch.Examined.{Examined}
use clix.Job.Dispatch.Round.{Forgets, round-Examined}
use clix.Job.Dispatch.Order.{Order}
use clix.Job.Dispatch.Waiting.{Candidate}
use clix.Exec.Confined.{run_child-confined}
use clix.Tests.{empty_store, fine, host, ls_grant, ls_job, seed}

abbrev peer : Peer
peer = record { name = text "a"; owner_pk = seed; addr = none }

abbrev certified : Certificate
certified = record {
  invocation = record {
    id = text "k";
    from = text "a";
    origin_key = seed;
    body = text "b";
    runner_key = seed;
    argv = text "ls" ∷ [];
    retry_of = none;
    legacy_observer = none;
  };
  signature = [];
}

authorizes : authorize_execution host empty_store peer certified ≡ ok tt
unfolding clix.History.Keys.authorize_execution clix.History.Keys.known_key
    clix.History.Keys.public_key clix.History.Keys.signing_key clix.History.Keys.validate_invocation
    clix.History.Keys.verify clix.Limits.contains_nul clix.Limits.identifier clix.Limits.invocation
    clix.Limits.tool clix.Prelude.Text-discrete clix.Prelude.find clix.Prelude.text
    clix.Prelude.ℕ_discrete
authorizes = refl

authorize_execution-IsAuthorized_example : IsAuthorized host empty_store peer certified
authorize_execution-IsAuthorized_example =
    authorize_execution-IsAuthorized host empty_store peer certified authorizes

abbrev over : Job
over = record ls_job { status = done (pos 0) }

abbrev over_sidecar : Sidecar
over_sidecar = record { store = record empty_store { jobs = over ∷ [] }; disk = none }

finds : find (λ (x : Job). x.id == ls_job.id) over_sidecar.store.jobs ≡ some over
unfolding clix.Prelude.Text-discrete clix.Prelude.find clix.Prelude.text clix.Prelude.ℕ_discrete
finds = refl

is_over : is_terminal over.status ≡ true
unfolding is_terminal
is_over = refl

late_answer_example :
    ((apply_peer_result host fine over_sidecar (text "b") ls_job).0 ≡ over_sidecar)
    × ((delivery_failed host fine over_sidecar (text "j1") unreachable).0 ≡ over_sidecar)
late_answer_example =
    late_answer host fine over_sidecar (text "b") ls_job over unreachable finds is_over

abbrev listing : Child
listing = record {
  spawn_error = none;
  stdout = record { bytes = text "out"; broken = none };
  stderr = record { bytes = []; broken = none };
  stderr_first = false;
  wait = ok (exited 0);
}

runs : run_child ls_grant (text "ls" ∷ []) listing ≡ ran (exited 0) (text "out") [] none
unfolding clix.Exec.Finish.run_child clix.Grant.check_args clix.Prelude.Text-discrete
    clix.Prelude.text clix.Prelude.ℕ_discrete
runs = refl

run_child-confined_example :
    ((rest : List Text) × (text "ls" ∷ [] ≡ text "ls" ∷ rest)
      × (check_args ls_grant (text "ls" ∷ []) ≡ ok tt))
    × (length (text "out") ≤ output_stream_bytes)
    × (length {A = ℕ} [] ≤ output_stream_bytes)
run_child-confined_example =
    run_child-confined ls_grant (text "ls" ∷ []) listing (exited 0) (text "out") [] none runs

abbrev idle : Dispatcher
idle = record { active = []; next_attempt = []; cursor = [] }

-- A machine with one peer, whose history is to be fetched.
abbrev with_peer : Store
with_peer = record empty_store { peers = peer ∷ [] }

fetches : (round 5 2 with_peer idle).0 ≡ history_work peer ∷ []
unfolding round clix.Job.Dispatch.try_all clix.Job.Dispatch.rotated clix.Job.Dispatch.candidates
    clix.Prelude.text_lt text clix.Job.Dispatch.forget_old clix.Prelude.get clix.Prelude.retain
fetches = refl

round-Examined_example :
    (works : List Candidate) × (kept : Dispatcher) × Order with_peer idle.cursor works
    × Forgets works idle kept
    × Examined 5 2 works kept (round 5 2 with_peer idle)
round-Examined_example = round-Examined 5 2 with_peer idle
