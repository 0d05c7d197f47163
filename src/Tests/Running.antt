-- ===== src/Tests/Running.antt =====
-- A command that is delivered, run and delivered again.
use clix.Grant.Check.{Permits, check_at_iff}
use clix.Exec.Reservation.{reserve-release}
use clix.Exec.Trace.AtMostOnce.{starts_at_most_once}
use clix.State.{Store, contains, next_u64}
use clix.Store.Durable.{AllRefused, Updated, update-Updated, update_stopped}
use clix.State.Known.{known}
use clix.Exec.Admission.{submit_again}
use clix.Exec.Complete.{IsOver, complete-IsOver}
use clix.Exec.Once.{Started, submit_saved}
use clix.Exec.Spent.{IsSpent}
use clix.Store.Recover.{recover_jobs-none_running, runs_in}
use clix.Grant.{build, check_args, check_at, commit}
use clix.Exec.Finish.{Child, complete, exited, release}
use clix.Store.{Sys, ensure_writable, recover_jobs, save_encoded, stage, staged, update}
use clix.Exec.Trace.{starts, step, submitted}
use clix.Error.{Result, err, grant_busy, io, is_ok, ok}
use clix.Types.{
  BodyId, Grant, Job, Job-discrete, JobStatus-discrete, Moment, Request, bodies_eq, bool_eq, job_eq,
  patterns_eq, schedule_eq, status_eq, time_eq, weekday_eq,
}
use clix.Prelude.{
  List, Text, Text-discrete, Texts-discrete, [], arith, decimal_int, false, find, get, hex, insert,
  int_eq, is_component, nat_eq, none, refl, remove_first, retain, some, split_on, text, text_eq,
  texts_eq, true, update_first, ℕ_discrete, ◌==◌, ◌↔◌, ◌∷◌, ◌≡◌, ◌≤◌,
}
use clix.Exec.{admit, reserve, submit}
use clix.Request.{Decision, allow, decide, requester}
use clix.Grant.Resolve.{contains_slash, join_path, resolve_tool, tool_key}
use clix.Request.Decide.{Approved, decide-Approved}
use clix.Tests.{
  clock, delivery, empty_store, env, fine, granting, host, ls_grant, ls_job, noon, running_sidecar,
  running_store, sidecar, slots,
}

started_here : (submit host clock sidecar slots delivery).started ≡ some (ls_grant, ls_job)
unfolding clix.Exec.submit clix.Grant.check_args clix.Grant.check_at clix.History.Keys.certificate
    clix.History.Keys.hash clix.History.Keys.invocation_hash clix.History.Keys.known_key
    clix.History.Keys.matches_job clix.History.Keys.next_change clix.History.Keys.output_ref
    clix.History.Keys.public_key clix.History.Keys.signing_key
    clix.History.Normalize.normalize_output clix.History.OutputRef-discrete
    clix.History.Refresh.refresh_owned clix.History.Role-discrete clix.History.selected
    clix.Ids.new_id clix.Job.is_terminal clix.Limits.contains_nul clix.Limits.identifier
    clix.Limits.invocation clix.Limits.take_child clix.Limits.tool clix.Prelude.Text-discrete
    clix.Prelude.Texts-discrete clix.Prelude.decimal_int clix.Prelude.find clix.Prelude.get
    clix.Prelude.hex clix.Prelude.insert clix.Prelude.retain clix.Prelude.text
    clix.Prelude.update_first clix.Prelude.ℕ_discrete clix.State.contains clix.State.next_u64
    clix.Storage.Charge.completion_charge clix.Storage.Charge.payload_json_bytes
    clix.Storage.Charge.reserve_completion clix.Storage.Prune.count_limit clix.Storage.Prune.prepare
    clix.Storage.encode clix.Storage.output_bytes clix.Store.ensure_writable clix.Store.save_encoded
    clix.Store.stage clix.Store.update
started_here = refl

submit_saved_example :
    Started host delivery ls_job (submit host clock sidecar slots delivery).sidecar
submit_saved_example = submit_saved host clock sidecar slots delivery ls_grant ls_job started_here

spent : IsSpent (text "j1") running_store
unfolding clix.Prelude.Text-discrete clix.Prelude.find clix.Prelude.text clix.Prelude.ℕ_discrete
    clix.Types.JobStatus-discrete
spent = record { job = ls_job; at = refl; left = refl }

submit_again_example :
    let o = submit host clock running_sidecar slots delivery in
    (o.started ≡ none) × (o.sidecar ≡ running_sidecar) × (o.limits ≡ slots)
submit_again_example = submit_again host clock running_sidecar slots delivery spent

starts_at_most_once_example :
    starts host
      (text "j1")
      (record { sidecar = sidecar; limits = slots })
      (submitted clock delivery ∷ submitted clock delivery ∷ [])
    ≤ 1
starts_at_most_once_example =
    starts_at_most_once host (text "j1") (record { sidecar = sidecar; limits = slots })
      (submitted clock delivery ∷ submitted clock delivery ∷ [])

-- Delivered twice, the command starts once.
started_once :
    starts host
      (text "j1")
      (record { sidecar = sidecar; limits = slots })
      (submitted clock delivery ∷ submitted clock delivery ∷ [])
    ≡ 1
unfolding clix.Exec.Trace.starts clix.Exec.Trace.step clix.Exec.submit clix.Grant.check_args
    clix.Grant.check_at clix.History.Keys.certificate clix.History.Keys.hash
    clix.History.Keys.invocation_hash clix.History.Keys.known_key clix.History.Keys.matches_job
    clix.History.Keys.next_change clix.History.Keys.output_ref clix.History.Keys.public_key
    clix.History.Keys.signing_key clix.History.Normalize.normalize_output
    clix.History.OutputRef-discrete clix.History.Refresh.refresh_owned clix.History.Role-discrete
    clix.History.selected clix.Ids.new_id clix.Job.is_terminal clix.Limits.contains_nul
    clix.Limits.identifier clix.Limits.invocation clix.Limits.take_child clix.Limits.tool
    clix.Prelude.Text-discrete clix.Prelude.Texts-discrete clix.Prelude.decimal_int
    clix.Prelude.find clix.Prelude.get clix.Prelude.hex clix.Prelude.insert clix.Prelude.retain
    clix.Prelude.text clix.Prelude.update_first clix.Prelude.ℕ_discrete clix.State.contains
    clix.State.next_u64 clix.Storage.Charge.completion_charge clix.Storage.Charge.payload_json_bytes
    clix.Storage.Charge.reserve_completion clix.Storage.Prune.count_limit clix.Storage.Prune.prepare
    clix.Storage.encode clix.Storage.output_bytes clix.Store.ensure_writable clix.Store.save_encoded
    clix.Store.stage clix.Store.update
started_once = refl

update-Updated_example :
    let edit = admit host clock slots delivery in
    Updated host sidecar (update host fine sidecar edit).0 edit (update host fine sidecar edit).1
update-Updated_example = update-Updated host fine sidecar (admit host clock slots delivery)

-- The disk is full.
abbrev full : Sys
full = record fine { write = err (io (text "full")) }

abbrev renamed : Store → Result (Store × Unit {0})
renamed s = ok (record s { body_name = text "c" }, tt)

-- What the update would save.
abbrev to_save : Store × Text × Unit {0}
to_save = elim (staged host full granting renamed) [ err e ↦ (granting, [], tt) | ok t ↦ t ]

can_be_saved : staged host full granting renamed ≡ ok (to_save.0, to_save.1, to_save.2)
unfolding staged clix.Exec.submit clix.Grant.check_args clix.Grant.check_at
    clix.History.Keys.certificate clix.History.Keys.hash clix.History.Keys.invocation_hash
    clix.History.Keys.known_key clix.History.Keys.matches_job clix.History.Keys.next_change
    clix.History.Keys.output_ref clix.History.Keys.public_key clix.History.Keys.signing_key
    clix.History.Normalize.normalize_output clix.History.OutputRef-discrete
    clix.History.Refresh.refresh_owned clix.History.Role-discrete clix.History.selected
    clix.Ids.new_id clix.Job.is_terminal clix.Limits.contains_nul clix.Limits.identifier
    clix.Limits.invocation clix.Limits.take_child clix.Limits.tool clix.Prelude.Text-discrete
    clix.Prelude.Texts-discrete clix.Prelude.decimal_int clix.Prelude.find clix.Prelude.get
    clix.Prelude.hex clix.Prelude.insert clix.Prelude.retain clix.Prelude.text
    clix.Prelude.update_first clix.Prelude.ℕ_discrete clix.State.contains clix.State.next_u64
    clix.Storage.Charge.completion_charge clix.Storage.Charge.payload_json_bytes
    clix.Storage.Charge.reserve_completion clix.Storage.Prune.count_limit clix.Storage.Prune.prepare
    clix.Storage.encode clix.Storage.output_bytes clix.Store.ensure_writable clix.Store.save_encoded
    clix.Store.stage clix.Store.update
can_be_saved = refl

fails_to_save : is_ok (update host full sidecar renamed).1 ≡ false
unfolding staged clix.Exec.submit clix.Grant.check_args clix.Grant.check_at
    clix.History.Keys.certificate clix.History.Keys.hash clix.History.Keys.invocation_hash
    clix.History.Keys.known_key clix.History.Keys.matches_job clix.History.Keys.next_change
    clix.History.Keys.output_ref clix.History.Keys.public_key clix.History.Keys.signing_key
    clix.History.Normalize.normalize_output clix.History.OutputRef-discrete
    clix.History.Refresh.refresh_owned clix.History.Role-discrete clix.History.selected
    clix.Ids.new_id clix.Job.is_terminal clix.Limits.contains_nul clix.Limits.identifier
    clix.Limits.invocation clix.Limits.take_child clix.Limits.tool clix.Prelude.Text-discrete
    clix.Prelude.Texts-discrete clix.Prelude.decimal_int clix.Prelude.find clix.Prelude.get
    clix.Prelude.hex clix.Prelude.insert clix.Prelude.retain clix.Prelude.text
    clix.Prelude.update_first clix.Prelude.ℕ_discrete clix.State.contains clix.State.next_u64
    clix.Storage.Charge.completion_charge clix.Storage.Charge.payload_json_bytes
    clix.Storage.Charge.reserve_completion clix.Storage.Prune.count_limit clix.Storage.Prune.prepare
    clix.Storage.encode clix.Storage.output_bytes clix.Store.ensure_writable clix.Store.save_encoded
    clix.Store.stage clix.Store.update
fails_to_save = refl

abbrev another : List (Sys × (Store → Result (Store × Unit {0})))
another = (fine, renamed) ∷ []

update_stopped_example : AllRefused host (update host full sidecar renamed).0 another
update_stopped_example =
    update_stopped host full sidecar renamed to_save.0 to_save.1 to_save.2 another can_be_saved
      fails_to_save

check_at_iff_example :
    (check_at granting (text "ls") (text "a") noon ≡ ok ls_grant)
    ↔ Permits granting (text "ls") (text "a") noon ls_grant
check_at_iff_example = check_at_iff granting (text "ls") (text "a") noon ls_grant (omega arith)

let_through : check_at granting (text "ls") (text "a") noon ≡ ok ls_grant
unfolding clix.Grant.check_at clix.Prelude.Text-discrete clix.Prelude.find clix.Prelude.text
    clix.Prelude.ℕ_discrete
let_through = refl

reserve-release_example :
    let s' = reserve (text "j1") ls_grant granting in
    ((who : BodyId) (then : Moment)
      → check_at s' (text "ls") who then ≡ err (grant_busy (text "ls")))
    × (release (text "ls") (text "j1") (some false) s'.grants ≡ granting.grants)
    × (release (text "ls") (text "j1") (some true) s'.grants
        ≡ remove_first (λ (x : Grant). x.tool == text "ls") granting.grants)
    × (release (text "ls") (text "j1") none s'.grants ≡ s'.grants)
reserve-release_example =
    reserve-release granting (text "a") noon ls_grant (text "j1") let_through refl

abbrev child : Child
child = record {
  spawn_error = none;
  stdout = record { bytes = text "out"; broken = none };
  stderr = record { bytes = []; broken = none };
  stderr_first = false;
  wait = ok (exited 0);
}

known_running : known (text "j1") running_store ≡ some ls_job
unfolding clix.Prelude.Text-discrete clix.Prelude.find clix.Prelude.text clix.Prelude.ℕ_discrete
known_running = refl

complete-IsOver_example :
    IsOver (text "j1") (complete host fine running_sidecar ls_grant ls_job child).store
complete-IsOver_example =
    complete-IsOver host fine running_sidecar ls_grant ls_job child ls_job known_running

recovered : (recover_jobs host fine running_sidecar).1 ≡ ok tt
unfolding clix.History.Keys.certificate clix.History.Keys.hash clix.History.Keys.invocation_hash
    clix.History.Keys.known_key clix.History.Keys.matches_job clix.History.Keys.next_change
    clix.History.Keys.output_ref clix.History.Keys.public_key clix.History.Keys.signing_key
    clix.History.Normalize.normalize_output clix.History.OutputRef-discrete
    clix.History.Refresh.refresh_owned clix.History.Role-discrete clix.History.selected
    clix.Ids.new_id clix.Job.is_terminal clix.Prelude.Text-discrete clix.Prelude.Texts-discrete
    clix.Prelude.decimal_int clix.Prelude.find clix.Prelude.get clix.Prelude.hex clix.Prelude.insert
    clix.Prelude.retain clix.Prelude.text clix.Prelude.ℕ_discrete clix.State.contains
    clix.State.next_u64 clix.Storage.Charge.completion_charge clix.Storage.Charge.payload_json_bytes
    clix.Storage.Charge.reserve_completion clix.Storage.Prune.count_limit clix.Storage.Prune.prepare
    clix.Storage.encode clix.Storage.output_bytes clix.Store.ensure_writable clix.Store.recover_jobs
    clix.Store.save_encoded clix.Store.stage clix.Store.update clix.Types.Job-discrete
    clix.Types.JobStatus-discrete
recovered = refl

recover_jobs-none_running_example :
    runs_in
      (recover_jobs host fine running_sidecar).0.store.body_name
      (recover_jobs host fine running_sidecar).0.store.jobs
    ≡ false
recover_jobs-none_running_example = recover_jobs-none_running host fine running_sidecar recovered

abbrev asking : Store
asking = record empty_store {
  requests =
      record { id = text "r1"; from = text "a"; tool = text "ls"; once_suggested = true } ∷ [];
}

abbrev approved : Grant
approved = record ls_grant { binary = text "/bin/ls" }

abbrev decision : Decision
decision = allow requester true none none

approves : decide env (text "r1") decision asking ≡ ok (commit asking approved, some approved)
unfolding clix.Grant.Resolve.contains_slash clix.Grant.Resolve.join_path
    clix.Grant.Resolve.resolve_tool clix.Grant.Resolve.tool_key clix.Grant.build
    clix.Limits.contains_nul clix.Limits.tool clix.Prelude.Text-discrete clix.Prelude.find
    clix.Prelude.retain clix.Prelude.text clix.Prelude.ℕ_discrete clix.Request.decide
    clix.Prelude.split_on clix.Prelude.is_component
approves = refl

decide-Approved_example : Approved asking (commit asking approved) (text "r1") requester approved
decide-Approved_example =
    decide-Approved env (text "r1") requester true none none asking (commit asking approved)
      approved approves
