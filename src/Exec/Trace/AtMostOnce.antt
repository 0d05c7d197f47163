-- ===== src/Exec/Trace/AtMostOnce.antt =====
-- exec.rs: a command is started at most once, whatever happens in between.
use clix.Exec.Admission.{submit_again}
use clix.Exec.{submit}
use clix.Prelude.{
  Bool-cases, List, Option, Option-cases, Text, Text-discrete, [], any, ap, arith, false, inl, inr,
  int_eq, is_some_and, map, nat_eq, none, refl, some, subst, sym, text_eq, texts_eq, true,
  update_first, ◌==◌, ◌∙◌, ◌∷◌, ◌≡◌, ◌≤◌, ◌⊎◌,
}
use clix.Types.{
  Grant, Job, JobStatus-discrete, bodies_eq, bool_eq, job_eq, patterns_eq, schedule_eq, status_eq,
  time_eq, uncertain, weekday_eq,
}
use clix.Error.{Result, err, ok, ok-injective}
use clix.Grant.{add_with_args, remove}
use clix.Request.{decide, receive}
use clix.State.{Host, Store}
use clix.State.Frame.{bare}
use clix.State.Known.{
  find_id, known_in, known_in-replace_ne, known_in-replace_self, known_in-update_ne,
}
use clix.Store.{Sidecar, Sys, update}
use clix.Exec.Spent.{IsSpent, IsSpent-same, KeepsSpent, update-IsSpent}
use clix.Exec.Once.{submit-IsSpent, submit_saved}
use clix.Exec.Complete.{final-left, marked-IsOver, settled-final}
use clix.Exec.Finish.{
  Child, RunOutcome, complete, finish, mark_unsaved, not_persisted, record_outcome, run_child,
  settled, success,
}
use clix.Exec.Trace.{
  Event, System, added, decided, ended, quiet, removed, requested, started_job, starts, step,
  submitted,
}
use clix.Exec.Trace.Jobs.{
  KeepsJobs, add-KeepsJobs, decide-KeepsJobs, receive-KeepsJobs, remove-KeepsJobs,
}

jobs-KeepsSpent :
    {T : Type 0} (id : Text) (a : Store) (edit : Store → Result (Store × T))
    → KeepsJobs edit
    → KeepsSpent id a edit
jobs-KeepsSpent id a edit k b v e sp = IsSpent-same id a b (ap (known_in id) (k a b v e)) sp

find-id : (id : Text) (js : List Job) (j : Job) → known_in id js ≡ some j → j.id ≡ id
find-id id js j e = find_id id (map bare js) j e

started_job-some :
    (o : Option (Grant × Job)) (j : Job) → started_job o ≡ some j → (g : Grant) × (o ≡ some (g, j))
unfolding started_job
started_job-some none j p = absurd (cc p)
started_job-some (some (g, k)) j p = (g, ground arith)

record_outcome-KeepsSpent :
    (id : Text) (a : Store) (g : Grant) (run : Job) (o : RunOutcome)
    → KeepsSpent id a (record_outcome g (settled g.tool run o) (success o))
unfolding record_outcome
record_outcome-KeepsSpent id a g run o b v e sp =
    let j = settled g.tool run o in
    elim (Bool-cases (any (λ x. x.id == j.id) a.jobs)) [
      | inr t ↦ absurd (cc (rw t at e))
      | inl t ↦
          let jobs : b.jobs ≡ update_first (λ x. x.id == j.id) (λ _. j) a.jobs =
            ap (λ x. x.0.jobs) (sym (ok-injective (rw t at e))) in
          elim (Text-discrete j.id id) [
            | yes i ↦ record {
              job = bare j;
              at =
                  ap (known_in id) jobs
                  ∙ subst
                      (λ k.
                        known_in k (update_first (λ x. x.id == j.id) (λ _. j) a.jobs)
                        ≡ some (bare j))
                      i (known_in-replace_self j a.jobs t);
              left = final-left j.status (settled-final g.tool run o);
            }
            | no n ↦
                IsSpent-same id a b (ap (known_in id) jobs ∙ known_in-replace_ne id j a.jobs n) sp
          ]
    ]

mark_unsaved-IsSpent :
    (id : Text) (run : Job) (m : Sidecar) (r : Result (Unit {0}))
    → IsSpent id m.store
    → IsSpent id (mark_unsaved run (m, r)).store
unfolding mark_unsaved JobStatus-discrete
mark_unsaved-IsSpent id run m (ok _) sp = sp
mark_unsaved-IsSpent id run m (err e) sp = elim (Text-discrete run.id id) [
  | yes i ↦ record {
    job = record sp.job { status = uncertain (not_persisted e) };
    at =
        subst
          (λ k.
            known_in id (
              update_first (λ (x : Job). x.id == k)
                (λ x. record x { status = uncertain (not_persisted e) }) m.store.jobs)
            ≡ some (record sp.job { status = uncertain (not_persisted e) }))
          (sym i) (marked-IsOver id (not_persisted e) m.store.jobs sp.job sp.at);
    left = refl;
  }
  | no n ↦
      IsSpent-same id m.store _
        (known_in-update_ne id run.id (λ x. record x { status = uncertain (not_persisted e) })
          m.store.jobs (λ j. refl) n)
        sp
]

module _ (h : Host) where
  complete-IsSpent :
      (id : Text) (sys : Sys) (m : Sidecar) (g : Grant) (run : Job) (child : Child)
      → IsSpent id m.store
      → IsSpent id (complete h sys m g run child).store
  unfolding complete finish
  complete-IsSpent id sys m g run child sp =
      let o = run_child g run.argv child in
      let edit = record_outcome g (settled g.tool run o) (success o) in
      let u = update h sys m edit in
      mark_unsaved-IsSpent id run u.0 u.1
        (update-IsSpent h id sys m edit (record_outcome-KeepsSpent id m.store g run o) sp)

  -- A spent id stays spent over every event.
  step-IsSpent :
      (id : Text) (sy : System) (e : Event)
      → IsSpent id sy.sidecar.store
      → IsSpent id (step h sy e).next.sidecar.store
  unfolding step quiet
  step-IsSpent id sy (submitted clock d) sp = submit-IsSpent h clock sy.sidecar sy.limits d id sp
  step-IsSpent id sy (ended sys g run child) sp = complete-IsSpent id sys sy.sidecar g run child sp
  step-IsSpent id sy (added sys env name terms) sp =
      update-IsSpent h id sys sy.sidecar (add_with_args env name terms)
        (jobs-KeepsSpent id _ _ (add-KeepsJobs env name terms)) sp
  step-IsSpent id sy (removed sys env name) sp =
      update-IsSpent h id sys sy.sidecar (remove env name)
        (jobs-KeepsSpent id _ _ (remove-KeepsJobs env name)) sp
  step-IsSpent id sy (decided sys env k d) sp =
      update-IsSpent h id sys sy.sidecar (decide env k d)
        (jobs-KeepsSpent id _ _ (decide-KeepsJobs env k d)) sp
  step-IsSpent id sy (requested sys random from name k) sp =
      update-IsSpent h id sys sy.sidecar (receive random from name k)
        (jobs-KeepsSpent id _ _ (receive-KeepsJobs random from name k)) sp

  -- What starts is spent, and was not.
  step-started :
      (sy : System) (e : Event) (j : Job)
      → (step h sy e).started ≡ some j
      → IsSpent j.id (step h sy e).next.sidecar.store × (¬ IsSpent j.id sy.sidecar.store)
  unfolding step
  step-started sy (submitted clock d) j p =
      let (g, f) = started_job-some (submit h clock sy.sidecar sy.limits d).started j p in
      let st = submit_saved h clock sy.sidecar sy.limits d g j f in
      let mine : d.id ≡ j.id = sym (find-id d.id _ (bare j) st.stored) in
      (
        subst (λ i. IsSpent i (submit h clock sy.sidecar sy.limits d).sidecar.store) mine st.spent,
        λ sp. absurd (
            cc (
              f,
              (submit_again h clock sy.sidecar sy.limits d
                  (subst (λ i. IsSpent i sy.sidecar.store) (sym mine) sp)).0,
            )),
      )
  step-started sy (ended sys g run child) j p = absurd (cc p)
  step-started sy (added sys env name terms) j p = absurd (cc p)
  step-started sy (removed sys env name) j p = absurd (cc p)
  step-started sy (decided sys env k d) j p = absurd (cc p)
  step-started sy (requested sys random from name k) j p = absurd (cc p)

  -- Whether an event starts a process under an id.
  start-cases :
      (id : Text) (sy : System) (e : Event)
      → (is_some_and (λ (j : Job). j.id == id) (step h sy e).started ≡ false)
        ⊎ ((is_some_and (λ (j : Job). j.id == id) (step h sy e).started ≡ true)
            × IsSpent id (step h sy e).next.sidecar.store
            × (¬ IsSpent id sy.sidecar.store))
  start-cases id sy e = elim (Option-cases (step h sy e).started) [
    | inl f ↦ inl (rw f refl)
    | inr (j, f) ↦ elim (Text-discrete j.id id) [
      | no n ↦ inl (rw f (ground arith))
      | yes i ↦
          let (after, before) = step-started sy e j f in
          inr (
            rw f (ground arith),
            subst (λ k. IsSpent k (step h sy e).next.sidecar.store) i after,
            subst (λ k. ¬ IsSpent k sy.sidecar.store) i before,
          )
    ]
  ]

  starts-spent :
      (id : Text) (sy : System) (es : List Event)
      → IsSpent id sy.sidecar.store
      → starts h id sy es ≡ 0
  unfolding starts
  starts-spent id sy [] sp = refl
  starts-spent id sy (e ∷ es) sp = elim (start-cases id sy e) [
    | inl f ↦ rw f (starts-spent id (step h sy e).next es (step-IsSpent id sy e sp))
    | inr (_, _, n) ↦ absurd (n sp)
  ]

  -- From any state, over any sequence of deliveries of commands, ends of processes, and additions,
  -- removals, requests and approvals of grants, whichever of their saves fail, at most one process
  -- is started under an id.
  pub starts_at_most_once : (id : Text) (sy : System) (es : List Event) → starts h id sy es ≤ 1
  unfolding starts
  starts_at_most_once id sy [] = omega arith
  starts_at_most_once id sy (e ∷ es) = elim (start-cases id sy e) [
    | inl f ↦ rw f (starts_at_most_once id (step h sy e).next es)
    | inr (t, sp, _) ↦ rw t (rw (starts-spent id (step h sy e).next es sp) (omega arith))
  ]
