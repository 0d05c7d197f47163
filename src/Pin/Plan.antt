-- ===== src/Pin/Plan.antt =====
-- pin.rs, `plan`: what a synchronisation has to change on either side, by comparing both sides with
-- what they last agreed on.
pub mod Paths
pub mod Merge
pub mod Conflict
use clix.Types.{
  bodies_eq, bool_eq, job_eq, patterns_eq, schedule_eq, status_eq, time_eq, weekday_eq,
}
use clix.Error.{Result, err, ok, ◌>>=◌, ◌>>◌}
use clix.Prelude.{
  List, Map, Option, Text, [], false, get, if◌then◌else◌, insert, int_eq, nat_eq, none, some,
  text_eq, texts_eq, true, ◌++◌, ◌==◌, ◌∷◌,
}
use clix.State.{Fingerprint, extend}
use clix.Pin.{
  Change, Manifest, conflict, fingerprint_eq, keys_of, manifest_eq, valid_path, version_eq,
}

-- `BTreeSet` of the paths that any of the three lists.
unfoldable pub all_paths : Manifest → Manifest → Manifest → Map (Unit {0})
all_paths mine theirs base =
    extend (keys_of base) (extend (keys_of theirs) (extend (keys_of mine) []))

unfoldable pub put_selected : Text → Option Fingerprint → Manifest → Manifest
put_selected path none merged = merged
put_selected path (some fp) merged = insert path fp merged

module _ (mine theirs base : Manifest) (a b : Text) where
  -- The changes for one path, and the version that both sides shall have.
  unfoldable pub select : Text → Result (List Change × Option Fingerprint)
  select path =
      let l = get path mine in
      let r = get path theirs in
      let agreed = get path base in
      if l == r
      then ok ([], l)
      else if l == agreed
      then ok (record { path = path; expected = l; new = r; to_remote = false } ∷ [], r)
      else if r == agreed
      then ok (record { path = path; expected = r; new = l; to_remote = true } ∷ [], l)
      else err (conflict path a b)

  unfoldable pub plan_paths :
      Map (Unit {0}) → List Change → Manifest → Result (List Change × Manifest)
  unfolding select put_selected
  plan_paths [] changes merged = ok (changes, merged)
  plan_paths ((path, _) ∷ paths) changes merged = do
    valid_path path
    planned ← select path
    plan_paths paths (changes ++ planned.0) (put_selected path planned.1 merged)

  unfoldable pub plan : Result (List Change × Manifest)
  unfolding plan_paths all_paths
  plan = plan_paths (all_paths mine theirs base) [] []
