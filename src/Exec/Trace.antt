-- ===== src/Exec/Trace.antt =====
-- exec.rs, store.rs, grant.rs and request.rs together: a life of the service, as the sequence of
-- the events that reach it. The state is locked during each event, so no two overlap.
pub mod Jobs
pub mod AtMostOnce
use clix.Prelude.{
  List, Option, Text, [], if◌then◌else◌, int_eq, is_some_and, nat_eq, none, some, text_eq, texts_eq,
  ℕ, ◌+◌, ◌==◌, ◌∷◌,
}
use clix.Types.{
  BodyId, Grant, Job, bodies_eq, bool_eq, job_eq, patterns_eq, schedule_eq, status_eq, time_eq,
  weekday_eq,
}
use clix.Error.{Result}
use clix.Grant.{Terms, add_with_args, remove}
use clix.Grant.Resolve.{Env}
use clix.Request.{Decision, decide, receive}
use clix.Limits.{Limits, drop_child}
use clix.Limits
use clix.State.{Host}
use clix.Store.{Sidecar, Sys, update}
use clix.Exec.{Clock, Delivery, submit}
use clix.Exec.Finish.{Child, complete}

pub data Event : Type 0 where
  -- A command is delivered.
  submitted : Clock → Delivery → Event
  -- A process has ended.
  ended : Sys → Grant → Job → Child → Event
  -- The owner adds or removes a grant, or decides a request.
  added : Sys → Env → Text → Terms → Event
  removed : Sys → Env → Text → Event
  decided : Sys → Env → Text → Decision → Event
  -- A machine asks for a grant.
  requested : Sys → Result Text → (from : BodyId) → Text → Option Text → Event

pub record System : Type 0 where
  pub sidecar : Sidecar
  pub limits : Limits

-- The job that an event starts, if it starts one, and the system after it.
pub record Step : Type 0 where
  pub started : Option Job
  pub next : System

started_job : Option (Grant × Job) → Option Job
started_job none = none
started_job (some (g, j)) = some j

quiet : System → Sidecar → Step
quiet sy m = record { started = none; next = record { sidecar = m; limits = sy.limits } }

module _ (h : Host) where
  unfoldable pub step : System → Event → Step
  unfolding quiet started_job
  step sy (submitted clock d) =
      let o = submit h clock sy.sidecar sy.limits d in
      record {
        started = started_job o.started;
        next = record { sidecar = o.sidecar; limits = o.limits };
      }
  step sy (ended sys g run child) = record {
    started = none;
    next = record {
      sidecar = complete h sys sy.sidecar g run child;
      limits = drop_child sy.limits;
    };
  }
  step sy (added sys env name terms) =
      quiet sy (update h sys sy.sidecar (add_with_args env name terms)).0
  step sy (removed sys env name) = quiet sy (update h sys sy.sidecar (remove env name)).0
  step sy (decided sys env id decision) =
      quiet sy (update h sys sy.sidecar (decide env id decision)).0
  step sy (requested sys random from name delivery_id) =
      quiet sy (update h sys sy.sidecar (receive random from name delivery_id)).0

  -- How often the events start a process under an id.
  unfoldable pub starts : Text → System → List Event → ℕ
  starts id sy [] = 0
  starts id sy (e ∷ es) =
      let s = step sy e in
      let rest = starts id s.next es in
      if is_some_and (λ (j : Job). j.id == id) s.started then 1 + rest else rest
