-- ===== src/Exec/Trace/Jobs.antt =====
-- grant.rs, request.rs: the owner's edits leave the jobs alone.
use clix.Prelude.{
  Bool-cases, Option, Option-cases, Text, ap, arith, find, inl, inr, int_eq, is_empty, nat_eq, none,
  refl, some, sym, text_eq, texts_eq, ◌!=◌, ◌==◌, ◌∙◌, ◌≡◌,
}
use clix.Types.{
  BodyId, Grant, Request, bodies_eq, bool_eq, job_eq, patterns_eq, schedule_eq, status_eq, time_eq,
  weekday_eq,
}
use clix.Error.{>>=-eq-ok, Result, ok, ok-injective}
use clix.Grant.{
  Terms, add_with_args, build, commit, invalidate_requests, is_target, removal_target, remove,
}
use clix.Grant.Resolve.{Env}
use clix.Request.{
  Decision, add_receipt, allow, apply_decision, check_replaces, decide, deny, find_receipt, receive,
  scope_names, upsert,
}
use clix.Limits
use clix.State.{Store}

-- An edit that leaves the jobs alone.
abbrev pub KeepsJobs : {T : Type 0} → (Store → Result (Store × T)) → Type 0
KeepsJobs {T} edit = (a b : Store) (v : T) → edit a ≡ ok (b, v) → b.jobs ≡ a.jobs

commit-jobs : (s : Store) (g : Grant) → (commit s g).jobs ≡ s.jobs
unfolding commit invalidate_requests
commit-jobs s g = refl

pub add-KeepsJobs : (env : Env) (name : Text) (t : Terms) → KeepsJobs (add_with_args env name t)
unfolding add_with_args
add-KeepsJobs env name t a b v e =
    let (g, _, rest) = >>=-eq-ok (build env a name t) _ e in
    ap (λ x. x.0.jobs) (sym (ok-injective rest)) ∙ commit-jobs a g

pub remove-KeepsJobs : (env : Env) (name : Text) → KeepsJobs (remove env name)
unfolding remove invalidate_requests
remove-KeepsJobs env name a b v e =
    let (target, _, rest) = >>=-eq-ok (removal_target env name) _ e in
    elim (Option-cases (find (is_target target name) a.grants)) [
      | inl f ↦ absurd (cc (rw f at rest))
      | inr (g, f) ↦ ap (λ x. x.0.jobs) (sym (ok-injective (rw f at rest)))
    ]

upsert-jobs :
    (random : Result Text) (from : BodyId) (name : Text)
    → KeepsJobs (λ s. upsert random s from name)
unfolding upsert
upsert-jobs random from name a b v e = ground arith

add_receipt-jobs : (id : Option Text) (x : Store × Request) → (add_receipt id x).0.jobs ≡ x.0.jobs
unfolding add_receipt
add_receipt-jobs none x = refl
add_receipt-jobs (some id) x = refl

pub receive-KeepsJobs :
    (random : Result Text) (from : BodyId) (name : Text) (id : Option Text)
    → KeepsJobs (receive random from name id)
unfolding receive
receive-KeepsJobs random from name id a b v e =
    let (_, _, e₁) = >>=-eq-ok (Limits.tool name) _ e in
    let (found, _, e₂) = >>=-eq-ok (find_receipt a from id) _ e₁ in
    elim (Option-cases found) [
      | inr (r, f) ↦ elim (Bool-cases (r.request.tool != name)) [
        | inl t ↦ absurd (cc (rw (f, t) at e₂))
        | inr t ↦ ap (λ x. x.0.jobs) (sym (ok-injective (rw (f, t) at e₂)))
      ]
      | inl f ↦
          let (more, up, e₃) = >>=-eq-ok (upsert random a from name) _ (rw f at e₂) in
          ap (λ x. x.0.jobs) (sym (ok-injective e₃))
          ∙ add_receipt-jobs id more
          ∙ upsert-jobs random from name a more.0 more.1 up
    ]

apply_decision-jobs :
    (env : Env) (r : Request) (d : Decision) → KeepsJobs (λ s. apply_decision env s r d)
unfolding apply_decision
apply_decision-jobs env r deny a b v e = ap (λ x. x.0.jobs) (sym (ok-injective e))
apply_decision-jobs env r (allow scope once until schedule) a b v e =
    let (names, _, e₁) = >>=-eq-ok (scope_names r scope) _ e in
    let terms : Terms = record {
      allow = names;
      once = once;
      until = until;
      schedule = schedule;
      args = none;
    } in
    let (g, _, e₂) = >>=-eq-ok (build env a r.tool terms) _ e₁ in
    let (_, _, e₃) = >>=-eq-ok (check_replaces a g) _ e₂ in
    ap (λ x. x.0.jobs) (sym (ok-injective e₃)) ∙ commit-jobs a g

pub decide-KeepsJobs : (env : Env) (id : Text) (d : Decision) → KeepsJobs (decide env id d)
unfolding decide
decide-KeepsJobs env id d a b v e = elim (Bool-cases (is_empty id)) [
  | inl t ↦ absurd (cc (rw t at e))
  | inr t ↦ elim (Option-cases (find (λ (r : Request). r.id == id) a.requests)) [
    | inl f ↦ absurd (cc (rw (t, f) at e))
    | inr (r, f) ↦ apply_decision-jobs env r d a b v (rw (t, f) at e)
  ]
]
