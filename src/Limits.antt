-- ===== src/Limits.antt =====
-- limits.rs: the admission constants, the semaphores that count free slots, and the validators of
-- what arrives from a client or a peer.
pub mod Line
pub mod Invocation
pub mod Permits
use clix.Prelude.{
  Bool, List, Text, [], any, if◌then◌else◌, int_eq, is_empty, leb, length, ltb, nat_eq, text,
  text_eq, texts_eq, ℕ, ◌+◌, ◌-◌, ◌==◌, ◌||◌, ◌∷◌,
}
use clix.Types.{
  Job, JobStatus, bodies_eq, bool_eq, denied, failed, job_eq, patterns_eq, schedule_eq, status_eq,
  time_eq, uncertain, weekday_eq,
}
use clix.Error.{ClixError, Result, capacity, err, ok, protocol, refuse_if, usage, ◌>>=◌, ◌>>◌}

abbrev pub children_max : ℕ
children_max = 4

abbrev pub dispatch_max : ℕ
dispatch_max = 8

abbrev pub mesh_exec_requests : ℕ
mesh_exec_requests = 4

abbrev pub mesh_connections : ℕ
mesh_connections = 16

abbrev pub owner_connections : ℕ
owner_connections = 32

abbrev pub owner_waiters : ℕ
owner_waiters = 8

abbrev pub argv_count : ℕ
argv_count = 256

abbrev pub argv_bytes : ℕ
argv_bytes = 65536

abbrev pub id_bytes : ℕ
id_bytes = 128

abbrev pub tool_bytes : ℕ
tool_bytes = 4096

abbrev pub status_reason_bytes : ℕ
status_reason_bytes = 65536

abbrev pub output_stream_bytes : ℕ
output_stream_bytes = 4194304

abbrev pub owner_request_bytes : ℕ
owner_request_bytes = 131072

-- Each semaphore is the count of its free permits.
pub record Limits : Type 0 where
  pub children : ℕ
  pub mesh : ℕ
  pub mesh_exec : ℕ
  pub owner : ℕ
  pub waiters : ℕ

unfoldable pub default_limits : Limits
default_limits = record {
  children = children_max;
  mesh = mesh_connections;
  mesh_exec = mesh_exec_requests;
  owner = owner_connections;
  waiters = owner_waiters;
}

unfoldable pub take_mesh_exec : Limits → Result Limits
take_mesh_exec l =
    if l.mesh_exec == 0
    then err (capacity (text "execution admission is busy; waiting for capacity"))
    else ok (record l { mesh_exec = l.mesh_exec - 1 })

unfoldable pub take_child : Limits → Result Limits
take_child l =
    if l.children == 0
    then err (capacity (text "execution slots are busy; waiting for capacity"))
    else ok (record l { children = l.children - 1 })

unfoldable pub take_waiter : Limits → Result Limits
take_waiter l =
    if l.waiters == 0
    then err (capacity (text "too many clients are waiting; inspect the saved job by ID"))
    else ok (record l { waiters = l.waiters - 1 })

-- A permit that is dropped returns its slot.
unfoldable pub drop_mesh_exec : Limits → Limits
drop_mesh_exec l = record l { mesh_exec = l.mesh_exec + 1 }

unfoldable pub drop_child : Limits → Limits
drop_child l = record l { children = l.children + 1 }

unfoldable pub contains_nul : Text → Bool
contains_nul s = any (λ b. b == 0) s

unfoldable pub identifier : Text → Result (Unit {0})
identifier id =
    if is_empty id || ltb id_bytes (length id) || contains_nul id
    then err (usage (text "identifier requires 1 to 128 bytes and no NUL"))
    else ok tt

unfoldable pub tool : Text → Result (Unit {0})
tool value =
    if is_empty value || ltb tool_bytes (length value) || contains_nul value
    then err (usage (text "tool must contain 1 to 4096 bytes and no NUL"))
    else ok tt

too_long : ClixError
too_long = usage (text "command arguments exceed 64 KiB")

-- The loop of `invocation`, over the bytes counted so far; `checked_add` fails past 2^64.
check_args : ℕ → List Text → Result (Unit {0})
unfolding too_long
check_args bytes [] = ok tt
check_args bytes (arg ∷ args) =
    let rest = check_args (bytes + length arg) args in
    if contains_nul arg
    then err (usage (text "command arguments must not contain NUL"))
    else if leb 18446744073709551616 (bytes + length arg)
    then err too_long
    else if ltb argv_bytes (bytes + length arg)
    then err too_long
    else rest

check_argv : List Text → Result (Unit {0})
unfolding check_args
check_argv [] = err (usage (text "command requires between 1 and 256 arguments"))
check_argv (name ∷ args) =
    if ltb argv_count (length (name ∷ args))
    then err (usage (text "command requires between 1 and 256 arguments"))
    else do tool name; check_args 0 (name ∷ args)

unfoldable pub invocation : Text → List Text → Result (Unit {0})
unfolding check_argv
invocation id argv = do identifier id; check_argv argv

check_reason : Text → Result (Unit {0})
check_reason reason =
    if ltb status_reason_bytes (length reason)
    then err (protocol (text "job reason exceeds 64 KiB"))
    else ok tt

unfoldable pub status : JobStatus → Result (Unit {0})
unfolding check_reason
status (denied reason) = check_reason reason
status (failed reason) = check_reason reason
status (uncertain reason) = check_reason reason
status _ = ok tt

unfoldable pub result : Job → Result (Unit {0})
result job = do
  invocation job.id job.argv
  status job.status
  refuse_if
      (ltb output_stream_bytes (length job.stdout) || ltb output_stream_bytes (length job.stderr))
      (protocol (text "job output exceeds 4 MiB per stream"))
