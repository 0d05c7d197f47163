-- ===== src/Request.antt =====
-- request.rs: requests for a grant, and the owner's decisions on them.
pub mod Decide
pub mod Deliver
use clix.Types.{
  BodyId, Grant, Request, RequestReceipt, Schedule, bodies_eq, bool_eq, job_eq, patterns_eq,
  schedule_eq, status_eq, time_eq, weekday_eq,
}
use clix.Error.{ClixError, Result, err, ok, protocol, refuse_if, usage, ◌>>=◌, ◌>>◌}
use clix.Prelude.{
  Bool, List, Option, Text, [], false, find, find_last, if◌then◌else◌, int_eq, is_empty, nat_eq,
  none, remove_first, some, text, text_eq, texts_eq, true, update_last, ℤ, ◌!=◌, ◌&&◌, ◌++◌, ◌==◌,
  ◌||◌, ◌∷◌,
}
use clix.Limits
use clix.Ids.{new_id}
use clix.Grant.{build, commit, same_permission}
use clix.Grant.Resolve.{Env}
use clix.State.{Store}

is_same : BodyId → Text → Request → Bool
is_same from tool r = r.from == from && r.tool == tool

refreshed : Request → Request
refreshed r = record r { once_suggested = true }

-- The latest row of the same machine and tool is refreshed; otherwise one is added.
unfoldable pub upsert : Result Text → Store → BodyId → Text → Result (Store × Request)
unfolding is_same refreshed
upsert random s from tool = do
  Limits.tool tool
  refuse_if (is_empty tool) (usage (text "usage: clix request <machine> <tool>"))
  elim (find_last (is_same from tool) s.requests) [
    | some r ↦
        ok (
          record s { requests = update_last (is_same from tool) refreshed s.requests },
          refreshed r,
        )
    | none ↦ (do
      id ← new_id random
      let r : Request = record { id = id; from = from; tool = tool; once_suggested = true }
      ok (record s { requests = s.requests ++ (r ∷ []) }, r))
  ]

unfoldable pub add_receipt : Option Text → Store × Request → Store × Request
add_receipt none (s, r) = (s, r)
add_receipt (some id) (s, r) = (
  record s {
    request_receipts = s.request_receipts ++ (record { delivery_id = id; request = r } ∷ []);
  },
  r,
)

-- The receipt of an earlier delivery under this id by this machine.
unfoldable pub find_receipt : Store → BodyId → Option Text → Result (Option RequestReceipt)
find_receipt s from none = ok none
find_receipt s from (some id) = do
  Limits.identifier id
  ok (find (λ r. r.delivery_id == id && r.request.from == from) s.request_receipts)

unfoldable pub receive :
    Result Text → BodyId → Text → Option Text → Store → Result (Store × Request)
unfolding find_receipt add_receipt
receive random from tool delivery_id s = do
  Limits.tool tool
  receipt ← find_receipt s from delivery_id
  elim receipt [
    | some r ↦
        if r.request.tool != tool
        then err (protocol (text "request ID belongs to a different tool"))
        else ok (s, r.request)
    | none ↦ upsert random s from tool >>= λ added. ok (add_receipt delivery_id added)
  ]

pub data Scope : Type 0 where
  requester : Scope
  bodies : List Text → Scope

pub data Decision : Type 0 where
  allow : Scope → (once : Bool) → (until : Option ℤ) → (schedule : Option Schedule) → Decision
  deny : Decision

unfoldable pub from_action : Text → Result Decision
from_action action =
    if action == text "default" || action == text "once"
    then ok (allow requester true none none)
    else if action == text "allow"
    then ok (allow requester false none none)
    else if action == text "deny"
    then ok deny
    else err (usage (text "unknown request action"))

unfoldable pub scope_names : Request → Scope → Result (List Text)
scope_names r requester = ok (r.from ∷ [])
scope_names r (bodies []) = err (usage (text "approval body list must not be empty"))
scope_names r (bodies (b ∷ bs)) = ok (b ∷ bs)

no_longer_pending : ClixError
no_longer_pending = usage (text "request is no longer pending; run clix pending")

different_grant : Text → Text → ClixError
different_grant tool body = usage (
    tool
    ++ (text " already has a grant on "
        ++ (body
            ++ text "; change it with clix add / clix remove rather than approving this request")))

-- An approval may not replace a different grant of the same tool.
unfoldable pub check_replaces : Store → Grant → Result (Unit {0})
unfolding different_grant
check_replaces s g = elim (find (λ x. x.tool == g.tool) s.grants) [
  | none ↦ ok tt
  | some existing ↦
      if same_permission existing g then ok tt else err (different_grant g.tool s.body_name)
]

unfoldable pub apply_decision : Env → Store → Request → Decision → Result (Store × Option Grant)
unfolding scope_names check_replaces
apply_decision env s r deny =
    ok (record s { requests = remove_first (λ x. x.id == r.id) s.requests }, none)
apply_decision env s r (allow scope once until schedule) = do
  names ← scope_names r scope
  g ←
      build env s r.tool
        (record { allow = names; once = once; until = until; schedule = schedule; args = none })
  check_replaces s g
  ok (commit s g, some g)

unfoldable pub decide : Env → Text → Decision → Store → Result (Store × Option Grant)
unfolding no_longer_pending apply_decision
decide env id decision s =
    if is_empty id then err no_longer_pending else elim (find (λ r. r.id == id) s.requests) [
      | none ↦ err no_longer_pending
      | some r ↦ apply_decision env s r decision
    ]
