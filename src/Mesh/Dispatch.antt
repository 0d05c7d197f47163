-- ===== src/Mesh/Dispatch.antt =====
-- mesh.rs, `dispatch`: the operations that a paired machine may ask for.
pub mod Confined
use clix.Error.{ClixError, Result, err, ok, protocol, refuse_if, usage, ◌>>=◌, ◌>>◌}
use clix.Prelude.{
  Bool, List, Option, Text, [], any, false, if◌then◌else◌, int_eq, is_empty, length, ltb, nat_eq,
  none, some, text, text_eq, texts_eq, true, unwrap_or, ℕ, ◌++◌, ◌==◌,
}
use clix.Types.{
  Grant, Job, Peer, Request, bodies_eq, bool_eq, job_eq, patterns_eq, schedule_eq, status_eq,
  time_eq, weekday_eq,
}
use clix.Limits.{Limits, drop_mesh_exec, invocation, take_mesh_exec, tool}
use clix.Limits
use clix.Job
use clix.Mesh
use clix.State.{Fingerprint, Host, Store}
use clix.Store.{Sidecar, ensure_writable, update}
use clix.Ids.{new_id}
use clix.Request.{receive}
use clix.History.{
  Certificate, Page, Published, captured_output_eq, certificate_eq, output_ref_eq, role_eq,
  signed_fact_eq,
}
use clix.History.Keys.{authorize_execution, certificate}
use clix.History.Reply.{execution_reply}
use clix.History.Pages.{page}
use clix.Exec.{Clock, Delivery, Outcome, submit}
use clix.Pin.{Listing, Manifest, fingerprint_eq, manifest_eq, version_eq}
use clix.Pin.Tree.{Files}
use clix.Pin.Scan.{Entries}
use clix.Pin.Rename.{Outside}
use clix.Pin.Recovery.{Codec, recovery_state_eq}
use clix.Pin.Serve.{PutRequest, rpc_commit, rpc_get, rpc_list, rpc_put}

-- A message by its `op`, with the fields that are read of it, as the JSON parser finds them.
pub data Message : Type 0 where
  exec_v2 job_get_v2 : Result Certificate → Message
  history_page : (epoch : Option Text) (after high : Option ℕ) → Message
  exec : Result (List Text) → (id : Option Text) → Message
  job_get : (id : Option Text) → Message
  request : (tool id : Option Text) → Message
  pin_list : Message
  pin_get : (path : Option Text) → Result Fingerprint → Message
  pin_put : PutRequest → Message
  pin_commit : Result Manifest → Message
  unknown : (op : Text) → Message

pub data Answer : Type 0 where
  executed : Option (Job × Published) → Answer
  submitted : Job.Reply → Answer
  history_rows : Page → Answer
  job_found : Option Job → Answer
  requested : Request → Answer
  listed : Listing → Answer
  contents : Text → Answer
  accepted : Answer

-- What a machine keeps, and the tree that it replicates.
pub record Machine : Type 0 where
  pub sidecar : Sidecar
  pub limits : Limits
  pub files : Files
  pub held : Files

-- What a message meets outside: the clock and the outcomes of a save, the time in milliseconds, the
-- tree's root where it opens, its entries, and what an application of a change meets.
pub record Surroundings : Type 0 where
  pub clock : Clock
  pub millis : ℕ
  pub root : Result Text
  pub entries : Entries
  pub outside : Outside

-- The machine afterwards, a process that was started, and the answer.
abbrev pub Dispatched : Type 0
Dispatched = Machine × Option (Grant × Job) × Result Answer

unfoldable pub answered : {T : Type 0} → Machine → (T → Answer) → Result T → Dispatched
answered m answer r = (m, none, r >>= λ t. ok (answer t))

-- An execution holds one of the slots for executions, unless its id is known here: whether it does,
-- and the slots that are left.
exec_slot : Limits → Store → Text → Result (Bool × Limits)
exec_slot l s id =
    if any (λ j. j.id == id) s.jobs
    then ok (false, l)
    else (do l' ← take_mesh_exec l; ok (true, l'))

-- At its end the slot that it holds is dropped.
unfoldable pub after_exec : Machine → Bool → Outcome → (Store → Result Answer) → Dispatched
after_exec m held o reply = (
  record m { sidecar = o.sidecar; limits = if held then drop_mesh_exec o.limits else o.limits },
  o.started,
  o.reply >>= λ _. reply o.sidecar.store,
)

unfoldable pub after_edit : {T : Type 0} → Machine → (T → Answer) → Sidecar × Result T → Dispatched
after_edit m answer (sidecar, r) = (record m { sidecar = sidecar }, none, r >>= λ t. ok (answer t))

unfoldable pub after_put : Machine → Files × Files × Result (Unit {0}) → Dispatched
after_put m (files, held, r) =
    (record m { files = files; held = held }, none, r >>= λ _. ok accepted)

needed_text : ClixError → Option Text → Result Text
needed_text e none = err e
needed_text e (some t) = if is_empty t then err e else ok t

opens : Result Text → Result (Unit {0})
opens r = r >>= λ _. ok tt

module _ (h : Host) (codec : Codec) (w : Surroundings) (peer : Peer) where
  -- What a signed request must pass.
  admit_signed : Store → Result Certificate → Result Certificate
  admit_signed s asked = do c ← asked; ensure_writable s; authorize_execution h s peer c; ok c

  submit_in : Machine → Delivery → (Store → Result Answer) → Result (Bool × Limits) → Dispatched
  submit_in m d reply (err e) = (m, none, err e)
  submit_in m d reply (ok (held, l)) = after_exec m held (submit h w.clock m.sidecar l d) reply

  signed_reply : Certificate → Store → Result Answer
  signed_reply c s = do r ← execution_reply h s c; ok (executed r)

  exec_signed : Machine → Result Certificate → Dispatched
  unfolding exec_slot submit_in signed_reply
  exec_signed m (err e) = (m, none, err e)
  exec_signed m (ok c) =
      let i = c.invocation in
      submit_in m (record { from = i.from; argv = i.argv; id = i.id; certificate = some c })
        (signed_reply c) (exec_slot m.limits m.sidecar.store i.id)

  -- The id and the arguments of an unsigned execution.
  admit_plain : Result (List Text) → Option Text → Result (List Text × Text)
  admit_plain asked id = do
    argv ← asked
    fresh ← new_id w.clock.random
    Limits.invocation (unwrap_or fresh id) argv
    ok (argv, unwrap_or fresh id)

  plain_reply : Outcome → Store → Result Answer
  plain_reply o s = o.reply >>= λ r. ok (submitted r)

  submit_plain : Machine → Delivery → Result (Bool × Limits) → Dispatched
  unfolding plain_reply
  submit_plain m d (err e) = (m, none, err e)
  submit_plain m d (ok (held, l)) =
      let o = submit h w.clock m.sidecar l d in after_exec m held o (plain_reply o)

  exec_plain : Machine → Result (List Text × Text) → Dispatched
  unfolding exec_slot submit_plain
  exec_plain m (err e) = (m, none, err e)
  exec_plain m (ok (argv, id)) =
      submit_plain m (record { from = peer.name; argv = argv; id = id; certificate = none })
        (exec_slot m.limits m.sidecar.store id)

  read_page : Store → Option Text → Option ℕ → Option ℕ → Result Page
  read_page s epoch after high = do
    refuse_if (ltb 128 (length (unwrap_or [] epoch))) (protocol (text "invalid history epoch"))
    from ← elim after as (λ _. Result ℕ) [
      | none ↦ err (protocol (text "missing history cursor"))
      | some n ↦ ok n
    ]
    page h s (unwrap_or [] epoch) from high

  receive_in : Machine → Option Text → Result Text → Dispatched
  receive_in m id (err e) = (m, none, err e)
  receive_in m id (ok tool) =
      after_edit m requested
        (update h w.clock.sys m.sidecar (receive w.clock.random peer.name tool id))

  unfoldable pub dispatch : Machine → Message → Dispatched
  unfolding admit_signed exec_signed signed_reply admit_plain exec_plain read_page receive_in
      needed_text opens
  dispatch m (exec_v2 asked) = exec_signed m (admit_signed m.sidecar.store asked)
  dispatch m (job_get_v2 asked) =
      answered m executed
        (do c ← admit_signed m.sidecar.store asked; execution_reply h m.sidecar.store c)
  dispatch m (history_page epoch after high) =
      answered m history_rows (read_page m.sidecar.store epoch after high)
  dispatch m (exec asked id) = exec_plain m (admit_plain asked id)
  dispatch m (job_get id) = answered m job_found (Mesh.job_get m.sidecar.store peer id)
  dispatch m (request tool id) = receive_in m id (needed_text (usage (text "missing tool")) tool)
  dispatch m pin_list =
      answered m listed (rpc_list h codec (opens w.root) m.sidecar.store peer m.held w.entries)
  dispatch m (pin_get path version) =
      answered m contents (rpc_get h codec (opens w.root) m.sidecar.store m.files path version)
  dispatch m (pin_put req) =
      after_put m (rpc_put h codec w.outside w.root m.sidecar.store peer req m.held)
  dispatch m (pin_commit asked) =
      after_edit m (λ _. accepted)
        (rpc_commit h codec w.clock.sys w.millis (opens w.root) m.sidecar peer asked m.held
          w.entries)
  dispatch m (unknown op) = (m, none, err (usage (op ++ text " is not allowed over the mesh")))
