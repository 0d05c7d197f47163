-- ===== src/Store/Recover.antt =====
-- store.rs, `recover_jobs`: the start of the sidecar after a crash.
use clix.Store.Durable.{published, rejected, unsaved, unsynced, update-Updated}
use clix.Prelude.{
  Bool, Bool-cases, List, Text, [], any, ap, arith, false, if◌then◌else◌, inl, inr, int_eq, map,
  nat_eq, not, refl, subst, sym, text_eq, texts_eq, true, ◌&&◌, ◌==◌, ◌||◌, ◌∙◌, ◌∷◌, ◌≡◌,
}
use clix.Types.{
  Job, JobStatus-discrete, bodies_eq, bool_eq, job_eq, patterns_eq, running, schedule_eq, status_eq,
  time_eq, uncertain, weekday_eq,
}
use clix.Error.{Result, ok, ok-injective}
use clix.State.{Host, Store}
use clix.State.Frame.{Kept, bare}
use clix.Store.{Sidecar, Sys, is_running_here, mark_uncertain, recover_jobs, restarted, update}

-- Some job of this machine stands as running.
abbrev pub runs_in : Text → List Job → Bool
runs_in body js = any (λ (j : Job). j.body == body && j.status == running) js

runs_in-bare : (body : Text) (js : List Job) → runs_in body (map bare js) ≡ runs_in body js
runs_in-bare body [] = refl
runs_in-bare body (j ∷ js) =
    ap (λ b. (j.body == body && j.status == running) || b) (runs_in-bare body js)

marked-runs_in :
    (body reason : Text) (js : List Job)
    → runs_in body (
        map
          (λ (j : Job).
            if j.body == body && j.status == running
            then record j { status = uncertain reason }
            else j)
          js)
      ≡ false
unfolding JobStatus-discrete
marked-runs_in body reason [] = refl
marked-runs_in body reason (j ∷ js) = elim (Bool-cases (j.body == body && j.status == running)) [
  | inl t ↦ rw t (ground (arith, marked-runs_in body reason js))
  | inr t ↦ rw (t, t) (marked-runs_in body reason js)
]

runs_in-Kept : {a b : Store} → Kept a b → runs_in b.body_name b.jobs ≡ runs_in a.body_name a.jobs
runs_in-Kept {a} {b} k =
    sym (runs_in-bare b.body_name b.jobs)
    ∙ ap (λ n. runs_in n (map bare b.jobs)) (sym k.body_name)
    ∙ ap (runs_in a.body_name) (sym k.jobs)
    ∙ runs_in-bare a.body_name a.jobs

mark-none_running :
    (s : Store) (reason : Text)
    → runs_in (mark_uncertain s reason).body_name (mark_uncertain s reason).jobs ≡ false
unfolding mark_uncertain is_running_here
mark-none_running s reason = marked-runs_in s.body_name reason s.jobs

idle :
    (s : Store)
    → (s.history.initialized && not (any (is_running_here s) s.jobs)) ≡ true
    → runs_in s.body_name s.jobs ≡ false
unfolding is_running_here
idle s t = ground arith

-- Once the recovery at the start has succeeded, no job of this machine stands as running.
pub recover_jobs-none_running :
    (h : Host) (sys : Sys) (m : Sidecar)
    → (recover_jobs h sys m).1 ≡ ok tt
    → runs_in (recover_jobs h sys m).0.store.body_name (recover_jobs h sys m).0.store.jobs ≡ false
unfolding recover_jobs
recover_jobs-none_running h sys m e =
    elim (Bool-cases
      (m.store.history.initialized && not (any (is_running_here m.store) m.store.jobs))) [
        | inl t ↦ rw t (idle m.store t)
        | inr t ↦ rw t (marked (rw t at e))
      ]
  where
    edit : Store → Result (Store × Unit {0})
    edit s = ok (mark_uncertain s restarted, tt)

    marked :
        (update h sys m edit).1 ≡ ok tt
        → runs_in (update h sys m edit).0.store.body_name (update h sys m edit).0.store.jobs ≡ false
    marked p = elim (update-Updated h sys m edit) [
      | rejected e q _ ↦ absurd (cc (sym p ∙ q))
      | unsaved e q _ ↦ absurd (cc (sym p ∙ q))
      | unsynced e s next v bytes q _ _ _ ↦ absurd (cc (sym p ∙ q))
      | published s v bytes q _ edited st _ ↦
          runs_in-Kept st.kept
          ∙ subst (λ (t : Store). runs_in t.body_name t.jobs ≡ false)
              (ap (λ x. x.0) (ok-injective edited)) (mark-none_running m.store restarted)
    ]
