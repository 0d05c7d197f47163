-- ===== src/Exec/Spent.antt =====
-- exec.rs: an id whose job is known here and does not wait to start here.
use clix.Types.{
  Job, JobStatus, bodies_eq, bool_eq, job_eq, patterns_eq, queued, schedule_eq, status_eq, time_eq,
  waiting_capacity, weekday_eq,
}
use clix.Error.{Result, ok}
use clix.Prelude.{
  Bool, Text, false, int_eq, nat_eq, refl, some, text_eq, texts_eq, ◌==◌, ◌||◌, ◌∙◌, ◌≡◌,
}
use clix.State.{Host, Store}
use clix.State.Frame.{Kept}
use clix.State.Known.{known, known-Kept}
use clix.Store.{Sidecar, Sys, update}
use clix.Store.Durable.{published, rejected, unsaved, unsynced, update-Updated}

abbrev pub waits : JobStatus → Bool
waits status = status == queued || status == waiting_capacity

pub record IsSpent (id : Text) (s : Store) : Type 0 where
  pub job : Job
  pub at : known id s ≡ some job
  pub left : waits job.status ≡ false

pub IsSpent-Kept : (id : Text) (a b : Store) → Kept a b → IsSpent id a → IsSpent id b
IsSpent-Kept id a b k sp = record { job = sp.job; at = known-Kept id k ∙ sp.at; left = sp.left }

-- The same job, in a state that knows it too.
pub IsSpent-same : (id : Text) (a b : Store) → known id b ≡ known id a → IsSpent id a → IsSpent id b
IsSpent-same id a b e sp = record { job = sp.job; at = e ∙ sp.at; left = sp.left }

-- An edit that keeps spent ids spent.
abbrev pub KeepsSpent : {T : Type 0} → Text → Store → (Store → Result (Store × T)) → Type 0
KeepsSpent {T} id a edit = (b : Store) (v : T) → edit a ≡ ok (b, v) → IsSpent id a → IsSpent id b

module _ (h : Host) {T : Type 0} (id : Text) (sys : Sys) (m : Sidecar)
    (edit : Store → Result (Store × T)) where
  pub update-IsSpent :
      KeepsSpent id m.store edit → IsSpent id m.store → IsSpent id (update h sys m edit).0.store
  update-IsSpent keeps sp = elim (update-Updated h sys m edit) [
    | rejected e _ same ↦ rw same sp
    | unsaved e _ same ↦ rw same (IsSpent-same id _ _ refl sp)
    | unsynced e s next v bytes _ _ _ same ↦ rw same (IsSpent-same id _ _ refl sp)
    | published s v bytes _ _ edited st _ ↦ IsSpent-Kept id s _ st.kept (keeps s v edited sp)
  ]
