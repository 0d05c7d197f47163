-- ===== src/Mesh/Dispatch/Confined.antt =====
-- mesh.rs, `dispatch`: what each of a peer's operations can change.
use clix.Limits
use clix.Ids.{new_id}
use clix.History.Keys.{authorize_execution}
use clix.History.Authority.{IsAuthorized, authorize_execution-IsAuthorized}
use clix.Exec.Once.{Started, submit_saved}
use clix.Exec.Entitled.{Entitled, submit-Entitled, submit-mesh_exec}
use clix.Store.{Sidecar, ensure_writable}
use clix.Error.{>>=-eq-ok, Result, err, ok, ok-injective}
use clix.Prelude.{
  Bool, List, Option, Option-cases, Text, ap, arith, false, if◌then◌else◌, inl, inr, none, refl,
  some, subst, sym, true, unwrap_or, ◌∙◌, ◌≡◌, ◌≤◌, ◌⊎◌,
}
use clix.Types.{Grant, Job, Peer}
use clix.State.{Host, Store}
use clix.Limits.{Limits, drop_mesh_exec, invocation, take_mesh_exec, tool}
use clix.History.{Certificate}
use clix.Exec.{Delivery, submit}
use clix.Pin.Tree.{Files, read}
use clix.Pin.Recovery.{Codec}
use clix.Mesh.Dispatch.{
  Answer, Dispatched, Machine, Message, Surroundings, accepted, admit_plain, admit_signed,
  after_edit, after_exec, after_put, answered, dispatch, exec, exec_plain, exec_signed, exec_slot,
  exec_v2, history_page, job_get, job_get_v2, pin_commit, pin_get, pin_list, pin_put, receive_in,
  request, requested, submit_in, submit_plain, unknown,
}

abbrev pub is_write : Message → Bool
is_write (pin_put _) = true
is_write _ = false

-- The operations that edit the state.
abbrev pub edits_state : Message → Bool
edits_state (exec_v2 _) = true
edits_state (exec _ _) = true
edits_state (request _ _) = true
edits_state (pin_commit _) = true
edits_state _ = false

module _ (h : Host) (codec : Codec) (w : Surroundings) (peer : Peer) where
  -- Who asked for a command: the peer, by its signature or over the connection that it opened.
  pub data Asked (s : Store) (msg : Message) (d : Delivery) : Type 0 where
    signed :
        (c : Certificate)
        → msg ≡ exec_v2 (ok c)
        → IsAuthorized h s peer c
        → d.from ≡ c.invocation.from
        → d.argv ≡ c.invocation.argv
        → d.id ≡ c.invocation.id
        → d.certificate ≡ some c
        → Asked s msg d
    plain :
        (argv : List Text) (id : Option Text)
        → msg ≡ exec (ok argv) id
        → d.from ≡ peer.name
        → d.argv ≡ argv
        → d.certificate ≡ none
        → Asked s msg d

  -- A process that a message starts: the peer asked for it, a grant entitles it, and it is saved.
  pub record Starts (m : Machine) (msg : Message) (after : Dispatched) : Type 0 where
    pub grant : Grant
    pub job : Job
    pub delivery : Delivery
    pub process : after.1 ≡ some (grant, job)
    pub asked : Asked m.sidecar.store msg delivery
    pub entitled : Entitled m.sidecar.store w.clock.now delivery grant job
    pub saved : Started h delivery job after.0.sidecar

  -- A machine before and after a message.
  pub record Confined (msg : Message) (m : Machine) (after : Dispatched) : Type 0 where
    pub state_kept : (edits_state msg ≡ true) ⊎ (after.0.sidecar ≡ m.sidecar)
    pub tree_kept : (is_write msg ≡ true) ⊎ ((after.0.files ≡ m.files) × (after.0.held ≡ m.held))
    pub slots_kept : after.0.limits.mesh_exec ≡ m.limits.mesh_exec
    pub started : (after.1 ≡ none) ⊎ Starts m msg after

  unchanged-Confined :
      (msg : Message) (m : Machine) (r : Result Answer) → Confined msg m (m, none, r)
  unchanged-Confined msg m r = record {
    state_kept = inr refl;
    tree_kept = inr (refl, refl);
    slots_kept = refl;
    started = inl refl;
  }

  after_edit-Confined :
      {T : Type 0} (msg : Message) (m : Machine) (answer : T → Answer) (r : Sidecar × Result T)
      → edits_state msg ≡ true
      → Confined msg m (after_edit m answer r)
  unfolding after_edit
  after_edit-Confined msg m answer (sidecar, r) edits = record {
    state_kept = inl edits;
    tree_kept = inr (refl, refl);
    slots_kept = refl;
    started = inl refl;
  }

  after_put-Confined :
      (msg : Message) (m : Machine) (r : Files × Files × Result (Unit {0}))
      → is_write msg ≡ true
      → Confined msg m (after_put m r)
  unfolding after_put
  after_put-Confined msg m (files, held, r) writes = record {
    state_kept = inr refl;
    tree_kept = inl writes;
    slots_kept = refl;
    started = inl refl;
  }

  -- The slot that a message holds is free again when it is dropped.
  held-slot :
      (l l' : Limits) (s : Store) (id : Text) (held : Bool) (after : Limits)
      → exec_slot l s id ≡ ok (held, l')
      → after.mesh_exec ≡ l'.mesh_exec
      → (if held then drop_mesh_exec after else after).mesh_exec ≡ l.mesh_exec
  unfolding exec_slot take_mesh_exec drop_mesh_exec
  held-slot l l' s id held after e same = ground arith

  -- A submission for a message that asks for it.
  submitted-Confined :
      (msg : Message) (m : Machine) (d : Delivery) (held : Bool) (l : Limits)
      (reply : Store → Result Answer)
      → w.clock.now.day ≤ 31
      → edits_state msg ≡ true
      → Asked m.sidecar.store msg d
      → exec_slot m.limits m.sidecar.store d.id ≡ ok (held, l)
      → Confined msg m (after_exec m held (submit h w.clock m.sidecar l d) reply)
  unfolding after_exec
  submitted-Confined msg m d held l reply day edits asks slot = record {
    state_kept = inl edits;
    tree_kept = inr (refl, refl);
    slots_kept =
        held-slot m.limits l m.sidecar.store d.id held _ slot
          (submit-mesh_exec h w.clock m.sidecar l d);
    started = elim (Option-cases (submit h w.clock m.sidecar l d).started) [
      | inl n ↦ inl n
      | inr ((g, j), e) ↦ inr (record {
        grant = g;
        job = j;
        delivery = d;
        process = e;
        asked = asks;
        entitled = submit-Entitled h w.clock m.sidecar l d g j day e;
        saved = submit_saved h w.clock m.sidecar l d g j e;
      })
    ];
  }

  submit_in-Confined :
      (m : Machine) (c : Certificate) (reply : Store → Result Answer)
      (slot : Result (Bool × Limits))
      → let i = c.invocation in
        let d : Delivery = record {
          from = i.from;
          argv = i.argv;
          id = i.id;
          certificate = some c;
        } in
        w.clock.now.day ≤ 31
        → IsAuthorized h m.sidecar.store peer c
        → exec_slot m.limits m.sidecar.store i.id ≡ slot
        → Confined (exec_v2 (ok c)) m (submit_in h codec w peer m d reply slot)
  unfolding submit_in
  submit_in-Confined m c reply (err e) day own s = unchanged-Confined (exec_v2 (ok c)) m (err e)
  submit_in-Confined m c reply (ok (held, l)) day own s =
      submitted-Confined (exec_v2 (ok c)) m _ held l reply day refl
        (signed c refl own refl refl refl refl) s

  submit_plain-Confined :
      (m : Machine) (argv : List Text) (id : Option Text) (d : Delivery)
      (slot : Result (Bool × Limits))
      → w.clock.now.day ≤ 31
      → d.from ≡ peer.name
      → d.argv ≡ argv
      → d.certificate ≡ none
      → exec_slot m.limits m.sidecar.store d.id ≡ slot
      → Confined (exec (ok argv) id) m (submit_plain h codec w peer m d slot)
  unfolding submit_plain
  submit_plain-Confined m argv id d (err e) day f a c s =
      unchanged-Confined (exec (ok argv) id) m (err e)
  submit_plain-Confined m argv id d (ok (held, l)) day f a c s =
      submitted-Confined (exec (ok argv) id) m d held l _ day refl (plain argv id refl f a c) s

  exec_signed-Confined :
      (m : Machine) (asked : Result Certificate) (r : Result Certificate)
      → w.clock.now.day ≤ 31
      → admit_signed h codec w peer m.sidecar.store asked ≡ r
      → Confined (exec_v2 asked) m (exec_signed h codec w peer m r)
  unfolding exec_signed admit_signed
  exec_signed-Confined m asked (err e) day p = unchanged-Confined (exec_v2 asked) m (err e)
  exec_signed-Confined m asked (ok c) day p =
      let (c', read, rest) = >>=-eq-ok asked _ p in
      let (_, _, rest₂) = >>=-eq-ok (ensure_writable m.sidecar.store) _ rest in
      let (u, own, final) = >>=-eq-ok (authorize_execution h m.sidecar.store peer c') _ rest₂ in
      let same = ok-injective final in
      subst (λ x. Confined (exec_v2 x) m (exec_signed h codec w peer m (ok c)))
        (sym (read ∙ ap ok same))
        (submit_in-Confined m c _ (exec_slot m.limits m.sidecar.store c.invocation.id) day
          (authorize_execution-IsAuthorized h m.sidecar.store peer c
            (subst (λ x. authorize_execution h m.sidecar.store peer x ≡ ok tt) same own))
          refl)

  exec_plain-Confined :
      (m : Machine) (asked : Result (List Text)) (id : Option Text) (r : Result (List Text × Text))
      → w.clock.now.day ≤ 31
      → admit_plain h codec w peer asked id ≡ r
      → Confined (exec asked id) m (exec_plain h codec w peer m r)
  unfolding exec_plain admit_plain
  exec_plain-Confined m asked id (err e) day p = unchanged-Confined (exec asked id) m (err e)
  exec_plain-Confined m asked id (ok (argv, job_id)) day p =
      let (argv', read, rest) = >>=-eq-ok asked _ p in
      let (fresh, _, rest₂) = >>=-eq-ok (new_id w.clock.random) _ rest in
      let (_, _, final) = >>=-eq-ok (Limits.invocation (unwrap_or fresh id) argv') _ rest₂ in
      let same = ap (λ t. t.0) (ok-injective final) in
      subst (λ x. Confined (exec x id) m (exec_plain h codec w peer m (ok (argv, job_id))))
        (sym (read ∙ ap ok same))
        (submit_plain-Confined m argv id _ (exec_slot m.limits m.sidecar.store job_id) day refl refl
          refl refl)

  receive_in-Confined :
      (m : Machine) (tool id : Option Text) (r : Result Text)
      → Confined (request tool id) m (receive_in h codec w peer m id r)
  unfolding receive_in
  receive_in-Confined m tool id (err e) = unchanged-Confined (request tool id) m (err e)
  receive_in-Confined m tool id (ok t) = after_edit-Confined (request tool id) m requested _ refl

  -- Of a paired machine's operations, only executions, requests and pin commits change the state,
  -- and only a pin write changes the tree or the recovery directory; after any operation as many
  -- slots for executions are free as before. Where one starts a process, on any day of the month up
  -- to the 31st, the peer asked for it, by its own signature for this machine or by its name over
  -- its connection; a grant permits that machine the command now, with these arguments; the job is
  -- that command's; and the job and its spent id are in the state that is saved.
  pub dispatch-Confined :
      (m : Machine) (msg : Message)
      → w.clock.now.day ≤ 31
      → Confined msg m (dispatch h codec w peer m msg)
  unfolding dispatch answered
  dispatch-Confined m (exec_v2 asked) day = exec_signed-Confined m asked _ day refl
  dispatch-Confined m (job_get_v2 asked) day = unchanged-Confined (job_get_v2 asked) m _
  dispatch-Confined m (history_page epoch after high) day =
      unchanged-Confined (history_page epoch after high) m _
  dispatch-Confined m (exec asked id) day = exec_plain-Confined m asked id _ day refl
  dispatch-Confined m (job_get id) day = unchanged-Confined (job_get id) m _
  dispatch-Confined m (request tool id) day = receive_in-Confined m tool id _
  dispatch-Confined m pin_list day = unchanged-Confined pin_list m _
  dispatch-Confined m (pin_get path version) day = unchanged-Confined (pin_get path version) m _
  dispatch-Confined m (pin_put req) day = after_put-Confined (pin_put req) m _ refl
  dispatch-Confined m (pin_commit asked) day =
      after_edit-Confined (pin_commit asked) m (λ _. accepted) _ refl
  dispatch-Confined m (unknown op) day = unchanged-Confined (unknown op) m _
