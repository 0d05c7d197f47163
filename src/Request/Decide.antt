-- ===== src/Request/Decide.antt =====
-- request.rs, `decide`: what an approval grants.
use clix.Limits
use clix.Prelude.{
  Bool, Bool-cases, List, Option, Option-cases, Text, [], arith, false, find, inl, inr, int_eq,
  is_empty, is_some, nat_eq, none, some, text, text_eq, texts_eq, true, ℤ, ◌&&◌, ◌==◌, ◌∷◌, ◌≡◌,
}
use clix.Types.{
  Grant, Request, Schedule, bodies_eq, bool_eq, job_eq, patterns_eq, schedule_eq, status_eq,
  time_eq, weekday_eq,
}
use clix.Error.{>>=-eq-ok, ok, ok-injective, refuse_if, usage}
use clix.Grant.{Terms, build, check_allow, check_list, commit, same_permission}
use clix.Grant.Resolve.{Env, resolve_tool, tool_key}
use clix.State.{Store}
use clix.Request.{
  Scope, allow, apply_decision, bodies, check_replaces, decide, requester, scope_names,
}

-- The grant of an approved request: it is the pending request's tool, for the machines of the
-- scope, and no other terms than the tool's present grant has, if it has one.
pub record Approved (s s' : Store) (id : Text) (scope : Scope) (g : Grant) : Type 0 where
  pub request : Request
  pub pending : find (λ (r : Request). r.id == id) s.requests ≡ some request
  pub tool : g.tool ≡ tool_key request.tool
  pub names : List Text
  pub named : scope_names request scope ≡ ok names
  pub allow_from : g.allow_from ≡ some names
  pub unreserved : g.reservation ≡ none
  pub same :
      (old : Grant)
      → find (λ (x : Grant). x.tool == g.tool) s.grants ≡ some old
      → same_permission old g ≡ true
  pub result : s' ≡ commit s g

check_replaces-same :
    (s : Store) (g : Grant)
    → check_replaces s g ≡ ok tt
    → (old : Grant) → find (λ (x : Grant). x.tool == g.tool) s.grants ≡ some old
    → same_permission old g ≡ true
unfolding check_replaces
check_replaces-same s g e old f = elim (Bool-cases (same_permission old g)) [
  | inl t ↦ t
  | inr t ↦ absurd (ground arith)
]

build-terms :
    (env : Env) (s : Store) (name : Text) (t : Terms) (g : Grant)
    → build env s name t ≡ ok g
    → (g.tool ≡ tool_key name)
      × (g.reservation ≡ none)
      × (is_empty t.allow ≡ false → g.allow_from ≡ some t.allow)
unfolding build
build-terms env s name t g e =
    let (_, _, e₁) = >>=-eq-ok (Limits.tool name) _ e in
    let (_, _, e₂) =
      >>=-eq-ok
        (refuse_if (t.once && is_some t.schedule)
          (usage (text "use --once or a schedule, not both")))
        _ e₁ in
    let (_, _, e₃) = >>=-eq-ok (check_list name t.args) _ e₂ in
    let (binary, _, e₄) = >>=-eq-ok (resolve_tool env name) _ e₃ in
    let (_, _, e₅) = >>=-eq-ok (check_allow s t.allow) _ e₄ in
    (ground arith, ground arith, λ n. ground arith)

scope_names-not_empty :
    (r : Request) (scope : Scope) (names : List Text)
    → scope_names r scope ≡ ok names
    → is_empty names ≡ false
unfolding scope_names
scope_names-not_empty r requester names e = ground arith
scope_names-not_empty r (bodies []) names e = absurd (cc e)
scope_names-not_empty r (bodies (b ∷ bs)) names e = ground arith

approval :
    (env : Env) (id : Text) (scope : Scope) (once : Bool) (until : Option ℤ)
    (schedule : Option Schedule) (s s' : Store) (g : Grant) (r : Request)
    → find (λ (x : Request). x.id == id) s.requests ≡ some r
    → apply_decision env s r (allow scope once until schedule) ≡ ok (s', some g)
    → Approved s s' id scope g
unfolding apply_decision
approval env id scope once until schedule s s' g r f e =
    let (names, named, e₁) = >>=-eq-ok (scope_names r scope) _ e in
    let terms : Terms = record {
      allow = names;
      once = once;
      until = until;
      schedule = schedule;
      args = none;
    } in
    let (g', built, e₂) = >>=-eq-ok (build env s r.tool terms) _ e₁ in
    let (_, replaces, e₃) = >>=-eq-ok (check_replaces s g') _ e₂ in
    let same = ok-injective e₃ in
    let mine : g' ≡ g = ground (arith, same) in
    let (tool, unreserved, allowed) = build-terms env s r.tool terms g' built in
    record {
      request = r;
      pending = f;
      tool = rw (← mine) tool;
      names = names;
      named = named;
      allow_from = rw (← mine) (allowed (scope_names-not_empty r scope names named));
      unreserved = rw (← mine) unreserved;
      same = rw (← mine) (check_replaces-same s g' replaces);
      result = rw (← mine) (ground (arith, same));
    }

-- An approval of a request that ends with a grant commits that grant: it is of a pending request's
-- tool, for the machines of the scope alone, held by no run, and any grant that the tool had
-- permits the same.
pub decide-Approved :
    (env : Env) (id : Text) (scope : Scope) (once : Bool) (until : Option ℤ)
    (schedule : Option Schedule) (s s' : Store) (g : Grant)
    → decide env id (allow scope once until schedule) s ≡ ok (s', some g)
    → Approved s s' id scope g
unfolding decide
decide-Approved env id scope once until schedule s s' g e = elim (Bool-cases (is_empty id)) [
  | inl t ↦ absurd (ground arith)
  | inr t ↦ elim (Option-cases (find (λ (r : Request). r.id == id) s.requests)) [
    | inl f ↦ absurd (cc (rw (t, f) at e))
    | inr (r, f) ↦ approval env id scope once until schedule s s' g r f (rw (t, f) at e)
  ]
]
