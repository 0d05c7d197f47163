-- ===== src/Request/Deliver.antt =====
-- request.rs, `deliver`: one delivery of a request to the machine that it is for.
use clix.Error.{Result, display, err, ok, unreachable, usage}
use clix.Prelude.{
  Bool, List, Option, Text, false, find, if◌then◌else◌, int_eq, nat_eq, none, remove_first, some,
  text, text_eq, texts_eq, true, update_first, ◌&&◌, ◌++◌, ◌==◌,
}
use clix.Types.{
  OutboundRequest, bodies_eq, bool_eq, job_eq, patterns_eq, schedule_eq, status_eq, time_eq,
  weekday_eq,
}
use clix.State.{Host, Store}
use clix.Store.{Sidecar, Sys, ensure_writable, update}

is_unreachable_error : Result (Unit {0}) → Bool
is_unreachable_error (err unreachable) = true
is_unreachable_error _ = false

-- What the peer's answer makes of the request that is kept here.
unfoldable pub after_delivery :
    Text → Result (Unit {0}) → List OutboundRequest → List OutboundRequest
after_delivery id (ok _) requests = remove_first (λ r. r.id == id) requests
after_delivery id (err unreachable) requests =
    update_first (λ r. r.id == id) (λ r. record r { waiting = true }) requests
after_delivery id (err e) requests =
    update_first (λ r. r.id == id) (λ r. record r { error = some (display e) }) requests

-- The call, if there is a machine to call; `answer` is what it gives.
called : Store → OutboundRequest → Result (Unit {0}) → Result (Unit {0})
called s request answer = elim (find (λ p. p.name == request.body) s.peers) [
  | none ↦ err (usage (request.body ++ text " is not paired"))
  | some p ↦ elim p.addr [ none ↦ err unreachable | some _ ↦ answer ]
]

module _ (h : Host) where
  note_delivery :
      Sys
      → Sidecar
      → Text
      → Result (Unit {0})
      → Option OutboundRequest
      → Sidecar × Result (Unit {0})
  unfolding is_unreachable_error
  note_delivery sys m id result none = (m, ok tt)
  note_delivery sys m id result (some existing) =
      if existing.waiting && is_unreachable_error result
      then (m, ok tt)
      else update h sys m (λ s.
        ok (record s { outbound_requests = after_delivery id result s.outbound_requests }, tt))

  delivered :
      Sys → Sidecar → Text → Result (Unit {0}) → Result (Unit {0}) → Sidecar × Result (Unit {0})
  unfolding note_delivery
  delivered sys m id result (err e) = (m, err e)
  delivered sys m id result (ok _) =
      note_delivery sys m id result (find (λ r. r.id == id) m.store.outbound_requests)

  -- `m` is the state when the request is sent, and `later` the one when the answer is there.
  unfoldable pub deliver :
      Sys → Sidecar → Sidecar → OutboundRequest → Result (Unit {0}) → Sidecar × Result (Unit {0})
  unfolding called delivered
  deliver sys m later request answer = elim (ensure_writable m.store) [
    | err e ↦ (later, err e)
    | ok _ ↦
        delivered sys later request.id (called m.store request answer) (ensure_writable later.store)
  ]
