-- ===== src/Store.antt =====
-- store.rs: the durable update. The state file is replaced first, and only then does the new
-- state replace the old one in memory.
use clix.Types.{
  Job, bodies_eq, bool_eq, job_eq, patterns_eq, running, schedule_eq, status_eq, time_eq, uncertain,
  weekday_eq,
}
use clix.Error.{ClixError, Result, display, err, io, ok, ◌>>=◌, ◌>>◌}
pub mod Durable
pub mod Recover
use clix.Prelude.{
  Bool, Option, Text, [], any, if◌then◌else◌, int_eq, length, map, nat_eq, none, not, some, text,
  text_eq, texts_eq, unwrap_or, update_first, ℕ, ◌&&◌, ◌++◌, ◌==◌, ◌∷◌,
}
use clix.Ids.{new_id}
use clix.History.{captured_output_eq, certificate_eq, output_ref_eq, role_eq, signed_fact_eq}
use clix.History.Refresh.{refresh_owned}
use clix.History.Normalize.{normalize_output}
use clix.State.{Host, Store}
use clix.Storage.{encode}
use clix.Storage.Prune.{prepare}
use clix.Storage.Charge.{reserve_completion}

abbrev pub format_version : ℕ
format_version = 2

-- The outcomes of the system calls that one update makes: random bytes for a new epoch and for the
-- name of the temporary file, and each step of the replacement.
pub record Sys : Type 0 where
  pub epoch_random : Result Text
  pub private_dir : Result (Unit {0})
  pub name_random : Result Text
  pub create : Result (Unit {0})
  pub write : Result (Unit {0})
  pub sync : Result (Unit {0})
  pub rename : Result (Unit {0})
  pub sync_dir : Result (Unit {0})

-- The sidecar: its state, and the bytes of state.json.
pub record Sidecar : Type 0 where
  pub store : Store
  pub disk : Option Text

-- Everything up to the rename.
before_rename : Sys → Result (Unit {0})
before_rename sys = do
  sys.private_dir
  _ ← new_id sys.name_random
  sys.create
  sys.write
  sys.sync
  sys.rename

-- The contents of state.json, and whether the save succeeded, by how far it came.
replace_file :
    Result (Unit {0}) → Result (Unit {0}) → Text → Option Text → Option Text × Result (Unit {0})
replace_file (err e) synced bytes disk = (disk, err e)
replace_file (ok _) synced bytes disk = (some bytes, synced)

-- The temporary file that a failure leaves behind is removed, and is not modelled.
unfoldable pub save_encoded : Sys → Text → Option Text → Option Text × Result (Unit {0})
unfolding before_rename replace_file
save_encoded sys bytes disk = replace_file (before_rename sys) sys.sync_dir bytes disk

unfoldable pub ensure_writable : Store → Result (Unit {0})
ensure_writable s = elim s.write_error [
  | none ↦ ok tt
  | some reason ↦ err (
      io (
        text "Clix storage is unavailable: "
        ++ (reason ++ text ". Repair storage and restart the sidecar.")))
]

-- The new state is published after it is saved; a failure is remembered.
publish_state :
    {T : Type 0} → Sidecar → Store → T → Option Text × Result (Unit {0}) → Sidecar × Result T
publish_state m next value (disk, ok _) = (record { store = next; disk = disk }, ok value)
publish_state m next value (disk, err e) =
    (record { store = record m.store { write_error = some (display e) }; disk = disk }, err e)

save_staged : {T : Type 0} → Sys → Sidecar → Result (Store × Text × T) → Sidecar × Result T
unfolding publish_state
save_staged sys m (err e) = (m, err e)
save_staged sys m (ok (next, bytes, value)) =
    publish_state m next value (save_encoded sys bytes m.disk)

is_running_here : Store → Job → Bool
is_running_here s j = j.body == s.body_name && j.status == running

mark_uncertain : Store → Text → Store
unfolding is_running_here
mark_uncertain s reason = record s {
  jobs =
      map (λ (j : Job). if is_running_here s j then record j { status = uncertain reason } else j)
        s.jobs;
}

restarted : Text
restarted =
    text "sidecar restarted during execution; the command may have taken effect. Not rerunning."

unrecovered : Text
unrecovered =
    text
      "sidecar restarted during execution and could not save recovery; the command may have taken effect. Not rerunning."

unfoldable pub recovery_failed : ClixError → Store → Store
unfolding mark_uncertain unrecovered
recovery_failed e s =
    mark_uncertain (record s { write_error = some (unwrap_or (display e) s.write_error) })
      unrecovered

put : Job → Store → Store
put job s =
    if any (λ j. j.id == job.id) s.jobs
    then record s { jobs = update_first (λ j. j.id == job.id) (λ _. job) s.jobs }
    else record s { jobs = s.jobs ++ (job ∷ []) }

module _ (h : Host) where
  unfoldable pub save : Sys → Store → Option Text → Option Text × Result (Unit {0})
  save sys s disk = elim (encode h s) [
    | err e ↦ (disk, err e)
    | ok bytes ↦ save_encoded sys bytes disk
  ]

  -- What an edit must pass before its result is saved: the state to publish and its bytes.
  unfoldable pub stage : {T : Type 0} → Sys → Store → Store × T → Result (Store × Text × T)
  stage sys old (next, value) = do
    refreshed ← refresh_owned h sys.epoch_random (some old) next
    let stamped : Store = record refreshed { format_version = format_version }
    prepared ← prepare (normalize_output stamped) old
    bytes ← encode h prepared
    reserve_completion h prepared old (length bytes)
    ok (prepared, bytes, value)

  unfoldable pub staged :
      {T : Type 0} → Sys → Store → (Store → Result (Store × T)) → Result (Store × Text × T)
  staged sys s edit = do ensure_writable s; edited ← edit s; stage sys s edited

  unfoldable pub update :
      {T : Type 0} → Sys → Sidecar → (Store → Result (Store × T)) → Sidecar × Result T
  unfolding save_staged staged
  update sys m edit = save_staged sys m (staged sys m.store edit)

  unfoldable pub recover_jobs : Sys → Sidecar → Sidecar × Result (Unit {0})
  unfolding is_running_here mark_uncertain restarted
  recover_jobs sys m =
      if m.store.history.initialized && not (any (is_running_here m.store) m.store.jobs)
      then (m, ok tt)
      else update sys m (λ s. ok (mark_uncertain s restarted, tt))

  unfoldable pub put_job : Sys → Sidecar → Job → Sidecar × Result (Unit {0})
  unfolding put
  put_job sys m job = update sys m (λ s. ok (put job s, tt))
