-- ===== src/Grant.antt =====
-- grant.rs: what the owner of a machine lets others run on it.
pub mod Resolve
pub mod Check
pub mod Expiry
pub mod Slots
use clix.Types.{
  BodyId, Grant, Moment, Schedule, allows_at, bodies_eq, bool_eq, job_eq, patterns_eq, schedule_eq,
  status_eq, time_eq, weekday_eq,
}
use clix.Error.{
  ClixError, Result, err, expired, grant_busy, not_added, not_added_at_time, not_allowed, ok,
  refuse_if, usage, ◌>>=◌, ◌>>◌,
}
use clix.Prelude.{
  Bool, List, Option, Text, [], any, drop, false, find, if◌then◌else◌, int_eq, int_lt, is_empty,
  is_some, map, nat_eq, none, not, remove_first, retain, some, text, text_eq, texts_eq, true,
  unwrap_or, ℤ, ◌!=◌, ◌&&◌, ◌++◌, ◌==◌, ◌∷◌,
}
use clix.Limits
use clix.Grant.Resolve.{Env, contains_slash, is_absolute, resolve_tool, tool_key}
use clix.State.{Store}

pub check_allow : Store → List Text → Result (Unit {0})
check_allow s [] = ok tt
check_allow s (name ∷ names) =
    let rest = check_allow s names in
    if name != s.body_name && not (any (λ p. p.name == name) s.peers)
    then err (usage (name ++ text " is not a paired machine"))
    else rest

check_patterns : Text → List (List Text) → Result (Unit {0})
check_patterns tool [] = ok tt
check_patterns tool (p ∷ ps) =
    Limits.invocation (text "allowlist") (tool_key tool ∷ p) >> check_patterns tool ps

pub check_list : Text → Option (List (List Text)) → Result (Unit {0})
unfolding check_patterns
check_list tool none = ok tt
check_list tool (some patterns) =
    if is_empty patterns
    then err (usage (text "an argument allowlist needs at least one entry"))
    else check_patterns tool patterns

-- The terms of a grant, as `clix add` and an approval give them.
pub record Terms : Type 0 where
  pub allow : List Text
  pub once : Bool
  pub until : Option ℤ
  pub schedule : Option Schedule
  pub args : Option (List (List Text))

unfoldable pub build : Env → Store → Text → Terms → Result Grant
unfolding check_allow check_list
build env s tool t = do
  Limits.tool tool
  refuse_if (t.once && is_some t.schedule) (usage (text "use --once or a schedule, not both"))
  check_list tool t.args
  binary ← resolve_tool env tool
  check_allow s t.allow
  ok (record {
    tool = tool_key tool;
    binary = binary;
    allow_from = if is_empty t.allow then none else some t.allow;
    once = t.once;
    until = t.until;
    schedule = t.schedule;
    reservation = none;
    args = t.args;
  })

-- An argument tail must be one of the listed ones exactly.
is_listed : Option (List (List Text)) → List Text → Bool
is_listed none tail = true
is_listed (some patterns) tail = any (λ p. p == tail) patterns

join : Text → List Text → Text
join sep [] = []
join sep (s ∷ []) = s
join sep (s ∷ t ∷ ss) = s ++ (sep ++ join sep (t ∷ ss))

show_pattern : List Text → Text
unfolding join
show_pattern p = if is_empty p then text "(no arguments)" else join (text " ") p

refused_args : Grant → ClixError
unfolding join show_pattern
refused_args g = usage (
    g.tool
    ++ (text " is granted only with these arguments: "
        ++ join (text " | ") (map show_pattern (unwrap_or [] g.args))))

unfoldable pub check_args : Grant → List Text → Result (Unit {0})
unfolding is_listed refused_args
check_args g argv = if is_listed g.args (drop 1 argv) then ok tt else err (refused_args g)

unfoldable pub invalidate_requests : Store → Text → Store
invalidate_requests s key = record s { requests = retain (λ r. tool_key r.tool != key) s.requests }

unfoldable pub commit : Store → Grant → Store
commit s g =
    invalidate_requests (record s { grants = retain (λ x. x.tool != g.tool) s.grants ++ (g ∷ []) })
      g.tool

unfoldable pub add_with_args : Env → Text → Terms → Store → Result (Store × Grant)
add_with_args env tool t s = do g ← build env s tool t; ok (commit s g, g)

unfoldable pub same_permission : Grant → Grant → Bool
same_permission a b =
    a.tool == b.tool
    && a.binary == b.binary
    && a.allow_from == b.allow_from
    && a.once == b.once
    && a.until == b.until
    && a.schedule == b.schedule
    && a.args == b.args

unfoldable pub removal_target : Env → Text → Result Text
removal_target env tool = if contains_slash tool then env.absolute tool else ok tool

-- The grant that a removal names: by its stored path, or by its tool.
pub is_target : Text → Text → Grant → Bool
is_target target tool g = if is_absolute target then g.binary == target else g.tool == tool

unfoldable pub remove : Env → Text → Store → Result (Store × Unit {0})
unfolding is_target
remove env tool s = do
  target ← removal_target env tool
  elim (find (is_target target tool) s.grants) [
    | none ↦ err (not_added tool s.body_name)
    | some g ↦ ok (
      invalidate_requests (record s { grants = remove_first (is_target target tool) s.grants })
          g.tool,
      tt,
    )
  ]

pub is_allowed : Option (List BodyId) → BodyId → Bool
is_allowed none from = true
is_allowed (some allowed) from = any (λ b. b == from) allowed

pub is_expired : Option ℤ → ℤ → Bool
is_expired none now = false
is_expired (some until) now = int_lt until now

pub is_scheduled : Option Schedule → Moment → Bool
is_scheduled none now = true
is_scheduled (some schedule) now = allows_at schedule now

unfoldable pub check_found : Store → BodyId → Moment → Grant → Result Grant
unfolding is_allowed is_expired is_scheduled
check_found s from now g =
    if is_some g.reservation
    then err (grant_busy g.tool)
    else if not (is_allowed g.allow_from from)
    then err (not_allowed g.tool from s.body_name)
    else if is_expired g.until now.instant
    then err (expired g.tool s.body_name)
    else if not (is_scheduled g.schedule now)
    then err (not_added_at_time g.tool s.body_name)
    else ok g

unfoldable pub check_option : Store → Text → BodyId → Moment → Option Grant → Result Grant
unfolding check_found
check_option s tool from now none = err (not_added tool s.body_name)
check_option s tool from now (some g) = check_found s from now g

unfoldable pub check_at : Store → Text → BodyId → Moment → Result Grant
unfolding check_option
check_at s tool from now = check_option s tool from now (find (λ g. g.tool == tool) s.grants)
