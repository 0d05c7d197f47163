-- ===== src/Exec/Finish.antt =====
-- exec.rs: the run of an accepted command, and the record of its outcome.
use clix.Types.{
  Grant, Job, JobStatus, bodies_eq, bool_eq, done, failed, job_eq, patterns_eq, schedule_eq,
  status_eq, time_eq, uncertain, weekday_eq,
}
use clix.Error.{ClixError, Result, display, err, ok, protocol, usage}
use clix.Prelude.{
  Bool, List, Option, Text, [], any, decimal_int, false, if◌then◌else◌, inl, inr, int_eq,
  is_some_and, length, ltb, nat_eq, none, pos, remove_first, some, text, text_eq, texts_eq, true,
  update_first, ℕ, ℤ, ◌!=◌, ◌&&◌, ◌++◌, ◌+◌, ◌==◌, ◌∷◌, ◌⊎◌,
}
use clix.Limits.{output_stream_bytes, status, tool}
use clix.Grant.{check_args}
use clix.State.{Host, Store}
use clix.Store.{Sidecar, Sys, update}

pub data ExitStatus : Type 0 where
  exited signaled : ℕ → ExitStatus

-- A stream of the child: its bytes, and the error that ended it if one did.
pub record Stream : Type 0 where
  pub bytes : Text
  pub broken : Option Text

-- What the operating system makes of a run: the error of a spawn that failed, the two streams, on
-- which of them a capture fails first if both do, and the result of the wait.
pub record Child : Type 0 where
  pub spawn_error : Option Text
  pub stdout : Stream
  pub stderr : Stream
  pub stderr_first : Bool
  pub wait : Result ExitStatus

pub data RunOutcome : Type 0 where
  ran : ExitStatus → (stdout stderr : Text) → (capture_error : Option Text) → RunOutcome
  not_started undetermined : Text → RunOutcome

unfoldable pub validate_argv : Grant → List Text → Result (Unit {0})
validate_argv g [] = err (usage (text "argv[0] is not granted"))
validate_argv g (name ∷ args) =
    if name != g.tool
    then err (usage (text "argv[0] is not granted"))
    else check_args g (name ∷ args)

-- The bytes of a stream, or why they were not captured.
unfoldable pub read_output : Stream → Text ⊎ Text
read_output s =
    if ltb output_stream_bytes (length s.bytes)
    then inr (text "command output exceeds 4 MiB per stream; stopped the command")
    else elim s.broken [ none ↦ inl s.bytes | some e ↦ inr e ]

unfoldable pub capture : Bool → Text ⊎ Text → Text ⊎ Text → Text × Text × Option Text
capture stderr_first (inl out) (inl err') = (out, err', none)
capture stderr_first (inl out) (inr e) = ([], [], some e)
capture stderr_first (inr e) (inl err') = ([], [], some e)
capture stderr_first (inr e) (inr e') = ([], [], some (if stderr_first then e' else e))

-- The end of the wait for the process.
unfoldable pub waited : Result ExitStatus → Text × Text × Option Text → RunOutcome
waited (ok status) (out, err', failure) = ran status out err' failure
waited (err e) captured = undetermined (display e)

-- The process, once it is spawned or could not be.
unfoldable pub spawned : Child → Option Text → RunOutcome
unfolding read_output capture waited
spawned child (some e) = not_started e
spawned child none =
    waited child.wait
      (capture child.stderr_first (read_output child.stdout) (read_output child.stderr))

unfoldable pub attempt_run : Child → Result (Unit {0}) → RunOutcome
unfolding spawned
attempt_run child (err e) = not_started (display e)
attempt_run child (ok _) = spawned child child.spawn_error

-- `run_async`.
unfoldable pub run_child : Grant → List Text → Child → RunOutcome
unfolding validate_argv attempt_run
run_child g argv child = attempt_run child (validate_argv g argv)

is_success : ExitStatus → Bool
is_success (exited n) = n == 0
is_success (signaled n) = false

exit_code : ExitStatus → ℤ
exit_code (exited n) = pos n
exit_code (signaled n) = pos (128 + n)

-- Whether the run succeeded; `none` where nobody knows.
unfoldable pub success : RunOutcome → Option Bool
unfolding is_success
success (ran status out err' capture_error) = some (is_success status)
success (not_started e) = some false
success (undetermined e) = none

unfoldable pub exit_status : Text → ℤ → Option Text → JobStatus
exit_status tool exit none = done exit
exit_status tool exit (some reason) = failed (
    tool
    ++ (text " exited " ++ (decimal_int exit ++ (text ", but output capture failed: " ++ reason))))

-- The job with its outcome.
unfoldable pub settled : Text → Job → RunOutcome → Job
unfolding exit_code exit_status
settled tool run (ran status out err' capture_error) = record run {
  status = exit_status tool (exit_code status) capture_error;
  stdout = out;
  stderr = err';
}
settled tool run (not_started e) = record run {
  status = failed (text "could not run " ++ (tool ++ (text ": " ++ e)));
}
settled tool run (undetermined e) = record run {
  status = uncertain (
      text "could not determine "
      ++ (tool ++ (text " exit status: " ++ (e ++ text ". Not rerunning."))));
}

-- The reservation that this run holds.
unfoldable pub is_reserved : Text → Text → Grant → Bool
is_reserved tool id g = g.tool == tool && is_some_and (λ r. r == id) g.reservation

-- A success uses a single-use grant up, a failure gives it back, and an unknown outcome keeps it
-- reserved.
unfoldable pub release : Text → Text → Option Bool → List Grant → List Grant
unfolding is_reserved
release tool id none gs = gs
release tool id (some true) gs = remove_first (is_reserved tool id) gs
release tool id (some false) gs =
    update_first (is_reserved tool id) (λ g. record g { reservation = none }) gs

unfoldable pub record_outcome : Grant → Job → Option Bool → Store → Result (Store × Unit {0})
unfolding release
record_outcome g run won s =
    if any (λ j. j.id == run.id) s.jobs
    then ok (
      record s {
        grants = if g.once then release g.tool run.id won s.grants else s.grants;
        jobs = update_first (λ j. j.id == run.id) (λ _. run) s.jobs;
      },
      tt,
    )
    else err (protocol (text "accepted job disappeared"))

unfoldable pub not_persisted : ClixError → Text
not_persisted e =
    text "could not persist job completion: "
    ++ (display e ++ text "; its outcome is uncertain. Not rerunning.")

-- Where the outcome was not saved, the job is uncertain in memory.
unfoldable pub mark_unsaved : Job → Sidecar × Result (Unit {0}) → Sidecar
unfolding not_persisted
mark_unsaved run (m, ok _) = m
mark_unsaved run (m, err e) = record m {
  store = record m.store {
    jobs =
        update_first (λ j. j.id == run.id) (λ j. record j { status = uncertain (not_persisted e) })
          m.store.jobs;
  };
}

module _ (h : Host) where
  unfoldable pub finish : Sys → Sidecar → Grant → Job → RunOutcome → Sidecar × Result (Unit {0})
  unfolding success settled record_outcome
  finish sys m g run outcome =
      update h sys m (record_outcome g (settled g.tool run outcome) (success outcome))

  -- The task that `submit` spawns, once the process has ended. It locks the state to save the
  -- outcome and again to mark a failure; nothing is taken to happen between the two.
  unfoldable pub complete : Sys → Sidecar → Grant → Job → Child → Sidecar
  unfolding mark_unsaved
  complete sys m g run child = mark_unsaved run (finish sys m g run (run_child g run.argv child))
