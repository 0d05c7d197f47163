-- ===== src/Exec/Admission.antt =====
-- exec.rs, `submit`: what a delivery starts, and what a second delivery does.
use clix.Limits.{Limits, invocation, status, take_child}
use clix.Store.{Sidecar}
use clix.Types.{
  BodyId, Grant, Job, JobStatus-discrete, Request, bodies_eq, bool_eq, job_eq, patterns_eq,
  schedule_eq, status_eq, time_eq, weekday_eq,
}
use clix.Error.{>>=-eq-ok, ClixError, Result, err, ok, ok-injective}
use clix.Prelude.{
  Bool-cases, Option, Text, any, arith, false, inl, inr, int_eq, nat_eq, none, some, text_eq,
  texts_eq, true, ◌==◌, ◌∙◌, ◌≡◌, ◌≢◌,
}
use clix.Limits
use clix.Request.{upsert}
use clix.History.{
  Certificate, captured_output_eq, certificate_eq, output_ref_eq, role_eq, signed_fact_eq,
}
use clix.History.Keys.{next_change}
use clix.History.Ingest.{bind_admission}
use clix.State.{Host, Store}
use clix.State.Frame.{bare}
use clix.State.Known.{
  known, known-find, known_in-append_ne, known_in-append_self, known_in-replace_ne,
  known_in-replace_self,
}
use clix.Exec.{
  Accepted, Clock, Delivery, add_request, admit, argv_head, before_admission, bind,
  check_certificate, check_existing, grant_run, is_local_queue, is_mendable, judge_permit, new_job,
  permit, recall, recall_job, refuse, reserve, store_job, submit, unchanged,
}
use clix.Exec.Spent.{IsSpent, waits}

-- The fields of a state that an admission's certificate and its request leave alone.
pub record Same (a b : Store) : Type 0 where
  pub jobs : b.jobs ≡ a.jobs
  pub grants : b.grants ≡ a.grants
  pub body_name : b.body_name ≡ a.body_name

upsert-Same :
    (random : Result Text) (s : Store) (from : BodyId) (name : Text) (s' : Store) (r : Request)
    → upsert random s from name ≡ ok (s', r)
    → Same s s'
unfolding upsert
upsert-Same random s from name s' r e = ground arith

pub store_job-known_self : (s : Store) (j : Job) → known j.id (store_job j s) ≡ some (bare j)
unfolding store_job
store_job-known_self s j = elim (Bool-cases (any (λ x. x.id == j.id) s.jobs)) [
  | inl t ↦ rw t (known_in-replace_self j s.jobs t)
  | inr t ↦ rw t (known_in-append_self j s.jobs t)
]

pub store_job-known_ne :
    (id : Text) (s : Store) (j : Job) → j.id ≢ id → known id (store_job j s) ≡ known id s
unfolding store_job
store_job-known_ne id s j ne = elim (Bool-cases (any (λ x. x.id == j.id) s.jobs)) [
  | inl t ↦ rw t (known_in-replace_ne id j s.jobs ne)
  | inr t ↦ rw t (known_in-append_ne id j s.jobs ne)
]

-- The accepted job is stored over a state whose jobs are the old ones.
pub record Admits (d : Delivery) (s s' : Store) (a : Accepted) : Type 0 where
  pub base : Store
  pub base_jobs : base.jobs ≡ s.jobs
  pub base_name : base.body_name ≡ s.body_name
  pub result : s' ≡ store_job a.job base
  pub id : a.job.id ≡ d.id
  pub body : a.job.body ≡ s.body_name
  pub left : waits a.job.status ≡ false

grant_run-Admits :
    (limits : Limits) (s : Store) (d : Delivery) (g : Grant) (s' : Store) (a : Accepted)
    → grant_run limits s d g ≡ ok (s', a)
    → Admits d s s' a
unfolding grant_run reserve new_job JobStatus-discrete
grant_run-Admits limits s d g s' a e =
    let (slots, _, rest) = >>=-eq-ok (take_child limits) _ e in
    let same = ok-injective rest in
    record {
      base = reserve d.id g s;
      base_jobs = ground arith;
      base_name = ground arith;
      result = ground arith;
      id = ground arith;
      body = ground arith;
      left = ground arith;
    }

add_request-Same :
    (random : Result Text) (s : Store) (d : Delivery) (e : ClixError) (s' : Store)
    → add_request random s d e ≡ ok s'
    → Same s s'
unfolding add_request
add_request-Same random s d e s' r = elim (Bool-cases (is_mendable e)) [
  | inl t ↦
      let (added, first, rest) =
        >>=-eq-ok (upsert random s d.from (argv_head d.argv)) _ (rw t at r) in
      let same = upsert-Same random s d.from (argv_head d.argv) added.0 added.1 first in
      ground arith
  | inr t ↦ ground arith
]

refuse-Admits :
    (random : Result Text) (s : Store) (d : Delivery) (e : ClixError) (s' : Store) (a : Accepted)
    → refuse random s d e ≡ ok (s', a)
    → Admits d s s' a
unfolding refuse new_job JobStatus-discrete
refuse-Admits random s d e s' a r =
    let (t, first, rest) = >>=-eq-ok (add_request random s d e) _ r in
    let same = add_request-Same random s d e t first in
    let stored = ok-injective rest in
    record {
      base = t;
      base_jobs = same.jobs;
      base_name = same.body_name;
      result = ground arith;
      id = ground arith;
      body = ground arith;
      left = ground arith;
    }

judge_permit-Admits :
    (random : Result Text) (limits : Limits) (s : Store) (d : Delivery) (r : Result Grant)
    (s' : Store) (a : Accepted)
    → judge_permit random limits s d r ≡ ok (s', a)
    → Admits d s s' a
unfolding judge_permit
judge_permit-Admits random limits s d (ok g) s' a e = grant_run-Admits limits s d g s' a e
judge_permit-Admits random limits s d (err x) s' a e = refuse-Admits random s d x s' a e

module _ (h : Host) where
  pub bind-Same : (s : Store) (c : Option Certificate) (s' : Store) → bind h s c ≡ ok s' → Same s s'
  unfolding bind bind_admission next_change
  bind-Same s none s' e = ground arith
  bind-Same s (some c) s' e = ground arith

  recall_job-left :
      (s : Store) (d : Delivery) (j : Job)
      → recall_job h s d (some j) ≡ ok none
      → waits j.status ≡ true
  unfolding recall_job is_local_queue
  recall_job-left s d j e =
      let (_, _, rest) = >>=-eq-ok (check_existing h s d j) _ e in ground arith

  recall-spent : (s : Store) (d : Delivery) → IsSpent d.id s → recall h s d ≢ ok none
  unfolding recall
  recall-spent s d sp e =
      let (x, found, same) = known-find d.id s.jobs sp.job sp.at in
      let left = recall_job-left s d x (rw found at e) in ground (arith, sp.left)

  before_admission-spent :
      (s : Store) (d : Delivery) → IsSpent d.id s → before_admission h s d ≢ ok none
  unfolding before_admission
  before_admission-spent s d sp e =
      let (_, _, rest) = >>=-eq-ok (Limits.invocation d.id d.argv) _ e in
      let (_, _, rest') = >>=-eq-ok (check_certificate h s d.certificate) _ rest in
      recall-spent s d sp rest'

  -- A command delivered under a spent id, one whose job is known here and does not wait to start
  -- here, starts no process, takes no slot and changes neither the state nor the state file.
  pub submit_again :
      (clock : Clock) (m : Sidecar) (limits : Limits) (d : Delivery)
      → IsSpent d.id m.store
      → let o = submit h clock m limits d in
        (o.started ≡ none) × (o.sidecar ≡ m) × (o.limits ≡ limits)
  unfolding submit unchanged
  submit_again clock m limits d sp = ground (arith, before_admission-spent m.store d sp)

  pub admit-Admits :
      (clock : Clock) (limits : Limits) (d : Delivery) (s s' : Store) (a : Accepted)
      → admit h clock limits d s ≡ ok (s', a)
      → Admits d s s' a
  unfolding admit
  admit-Admits clock limits d s s' a e =
      let (t, first, rest) = >>=-eq-ok (bind h s d.certificate) _ e in
      let same = bind-Same s d.certificate t first in
      let ad = judge_permit-Admits clock.random limits t d (permit clock.now t d) s' a rest in
      record {
        base = ad.base;
        base_jobs = ad.base_jobs ∙ same.jobs;
        base_name = ad.base_name ∙ same.body_name;
        result = ad.result;
        id = ad.id;
        body = ad.body ∙ same.body_name;
        left = ad.left;
      }
