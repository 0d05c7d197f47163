-- ===== src/Exec/Complete.antt =====
-- exec.rs: what the end of a run leaves behind.
use clix.Prelude.{
  Bool, Bool-cases, List, Option, Text, [], any, ap, arith, false, find, inl, inr, int_eq, nat_eq,
  none, refl, some, subst, sym, text_eq, texts_eq, true, update_first, ◌==◌, ◌∙◌, ◌∷◌, ◌≡◌,
}
use clix.Types.{
  Grant, Job, JobStatus, JobStatus-discrete, bodies_eq, bool_eq, denied, done, failed, job_eq,
  patterns_eq, queued, running, schedule_eq, status_eq, time_eq, uncertain, waiting_body,
  waiting_capacity, weekday_eq,
}
use clix.Error.{Result, err, is_ok, ok, ok-injective}
use clix.Job.{is_terminal}
use clix.State.{Host, Store}
use clix.State.Frame.{bare}
use clix.State.Known.{known, known-Kept, known_in, known_in-replace_self}
use clix.Store.{Sidecar, Sys, update}
use clix.Store.Durable.{published, rejected, unsaved, unsynced, update-Updated}
use clix.Exec.Spent.{waits}
use clix.Exec.Finish.{
  Child, RunOutcome, complete, exit_status, finish, mark_unsaved, not_persisted, not_started, ran,
  record_outcome, run_child, settled, success, undetermined,
}

pub settled-final :
    (name : Text) (run : Job) (o : RunOutcome) → is_terminal (settled name run o).status ≡ true
unfolding settled exit_status is_terminal
settled-final name run (ran status out err' none) = refl
settled-final name run (ran status out err' (some e)) = refl
settled-final name run (not_started e) = refl
settled-final name run (undetermined e) = refl

pub settled-same :
    (name : Text) (run : Job) (o : RunOutcome)
    → ((settled name run o).id ≡ run.id) × ((settled name run o).body ≡ run.body)
unfolding settled
settled-same name run (ran status out err' e) = (refl, refl)
settled-same name run (not_started e) = (refl, refl)
settled-same name run (undetermined e) = (refl, refl)

pub final-left : (status : JobStatus) → is_terminal status ≡ true → waits status ≡ false
unfolding is_terminal JobStatus-discrete
final-left queued e = absurd (cc e)
final-left waiting_body e = absurd (cc e)
final-left waiting_capacity e = absurd (cc e)
final-left running e = absurd (cc e)
final-left (done n) e = refl
final-left (denied r) e = refl
final-left (failed r) e = refl
final-left (uncertain r) e = refl

-- A job of the id stands in the state and is over.
pub record IsOver (id : Text) (s : Store) : Type 0 where
  pub job : Job
  pub at : known id s ≡ some job
  pub final : is_terminal job.status ≡ true

record_outcome-known :
    (g : Grant) (run : Job) (won : Option Bool) (s s' : Store)
    → record_outcome g run won s ≡ ok (s', tt)
    → known run.id s' ≡ some (bare run)
unfolding record_outcome
record_outcome-known g run won s s' e = elim (Bool-cases (any (λ j. j.id == run.id) s.jobs)) [
  | inl t ↦
      let same = ok-injective (rw t at e) in
      ap (λ (p : Store × Unit {0}). known run.id p.0) (sym same)
      ∙ known_in-replace_self run s.jobs t
  | inr t ↦ absurd (cc (rw t at e))
]

pub marked-IsOver :
    (id reason : Text) (js : List Job) (j : Job)
    → known_in id js ≡ some j
    → known_in id
        (update_first (λ (x : Job). x.id == id) (λ x. record x { status = uncertain reason }) js)
      ≡ some (record j { status = uncertain reason })
unfolding find update_first
marked-IsOver id reason [] j e = absurd (cc e)
marked-IsOver id reason (x ∷ js) j e = ground (arith, marked-IsOver id reason js j)

known-IsOver :
    (id : Text) (s : Store) (j : Job)
    → known id s ≡ some (bare j)
    → is_terminal j.status ≡ true
    → IsOver id s
known-IsOver id s j k t = record { job = bare j; at = k; final = t }

module _ (h : Host) (sys : Sys) (m : Sidecar) (g : Grant) (run : Job) where
  -- Kept in the state, over, or marked as uncertain: the job is over.
  mark_unsaved-IsOver :
      (m' : Sidecar) (r : Result (Unit {0})) (j : Job)
      → known run.id m'.store ≡ some j
      → (is_ok r ≡ true → is_terminal j.status ≡ true)
      → IsOver run.id (mark_unsaved run (m', r)).store
  unfolding mark_unsaved is_terminal
  mark_unsaved-IsOver m' (ok _) j k t = record { job = j; at = k; final = t refl }
  mark_unsaved-IsOver m' (err e) j k t = record {
    job = record j { status = uncertain (not_persisted e) };
    at = marked-IsOver run.id (not_persisted e) m'.store.jobs j k;
    final = refl;
  }

  finish-IsOver :
      (o : RunOutcome) (j : Job)
      → known run.id m.store ≡ some j
      → IsOver run.id (mark_unsaved run (finish h sys m g run o)).store
  unfolding finish
  finish-IsOver o j k =
      let edit = record_outcome g (settled g.tool run o) (success o) in
      let u = update h sys m edit in
      elim (update-Updated h sys m edit) [
        | rejected e p same ↦
            mark_unsaved-IsOver u.0 u.1 j (rw same k) (λ t. absurd (cc (rw p at t)))
        | unsaved e p same ↦
            mark_unsaved-IsOver u.0 u.1 j (rw same k) (λ t. absurd (cc (rw p at t)))
        | unsynced e s next v bytes p _ _ same ↦
            mark_unsaved-IsOver u.0 u.1 j (rw same k) (λ t. absurd (cc (rw p at t)))
        | published s v bytes p _ edited st _ ↦
            mark_unsaved-IsOver u.0 u.1 (bare (settled g.tool run o))
              (known-Kept run.id st.kept
                ∙ subst (λ i. known i s ≡ some (bare (settled g.tool run o)))
                    (settled-same g.tool run o).0
                    (record_outcome-known g (settled g.tool run o) (success o) m.store s edited))
              (λ t. settled-final g.tool run o)
      ]

  -- Where the state knows a job, after the end of its run the job is over, whatever the process did
  -- and whether or not the outcome could be saved.
  pub complete-IsOver :
      (child : Child) (j : Job)
      → known run.id m.store ≡ some j
      → IsOver run.id (complete h sys m g run child).store
  unfolding complete
  complete-IsOver child j k = finish-IsOver (run_child g run.argv child) j k
