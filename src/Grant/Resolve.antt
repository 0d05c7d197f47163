-- ===== src/Grant/Resolve.antt =====
-- grant.rs: from a tool's name to its executable, and to the name of its grant.
use Prim.Native.Nat.{bit_and}
use clix.Types.{
  bodies_eq, bool_eq, job_eq, patterns_eq, schedule_eq, status_eq, time_eq, weekday_eq,
}
use clix.Error.{Result, err, no_such_tool}
use clix.Prelude.{
  Bool, List, Option, Text, [], any, false, if◌then◌else◌, int_eq, is_component, is_empty,
  is_some_and, last, nat_eq, none, retain, some, split_on, text_eq, texts_eq, unwrap_or, ℕ, ◌!=◌,
  ◌&&◌, ◌++◌, ◌==◌, ◌||◌, ◌∷◌,
}

-- What the program finds in its environment: `PATH`, whether a path is a regular file and with
-- which mode, and the absolute form of a path, which depends on the working directory.
pub record Env : Type 0 where
  pub path_var : Option Text
  pub metadata : Text → Option (Bool × ℕ)
  pub absolute : Text → Result Text

slash : ℕ
slash = b'/'

unfoldable pub is_absolute : Text → Bool
unfolding slash
is_absolute [] = false
is_absolute (b ∷ bs) = b == slash

unfoldable pub contains_slash : Text → Bool
unfolding slash
contains_slash s = any (λ b. b == slash) s

-- `Path::file_name`.
file_name : Text → Option Text
unfolding slash
file_name path = elim (last (retain is_component (split_on slash path))) [
  | none ↦ none
  | some s ↦ if s == b'.' ∷ b'.' ∷ [] then none else some s
]

unfoldable pub tool_key : Text → Text
unfolding file_name
tool_key name = unwrap_or name (file_name name)

-- `Path::join`.
unfoldable pub join_path : Text → Text → Text
unfolding slash is_absolute last
join_path dir name =
    if is_absolute name
    then name
    else if is_empty dir || is_some_and (λ b. b == slash) (last dir)
    then dir ++ name
    else dir ++ (slash ∷ name)

is_executable_file : Env → Text → Bool
is_executable_file env path = elim (env.metadata path) [
  | none ↦ false
  | some (is_file, mode) ↦ is_file && bit_and mode 0o111 != 0
]

search_path : Env → List Text → Text → Result Text
unfolding is_executable_file
search_path env [] name = err (no_such_tool name)
search_path env (dir ∷ dirs) name =
    let rest = search_path env dirs name in
    if is_executable_file env (join_path dir name) then env.absolute (join_path dir name) else rest

unfoldable pub resolve_tool : Env → Text → Result Text
unfolding search_path is_executable_file
resolve_tool env name =
    if is_absolute name || contains_slash name
    then (if is_executable_file env name then env.absolute name else err (no_such_tool name))
    else search_path env (split_on b':' (unwrap_or [] env.path_var)) name
