-- ===== src/Pin/Serve.antt =====
-- pin.rs: what a machine does for a paired one that synchronises with it, and what a synchronisation
-- records.
pub mod Guarded
pub mod Committed
use clix.Error.{ClixError, Result, err, ok, protocol, refuse_if, ◌>>=◌, ◌>>◌}
use clix.Prelude.{
  Map, Option, Text, [], false, get, hex, insert, int_eq, is_none, nat_eq, none, some, text,
  text_eq, texts_eq, ℕ, ◌!=◌, ◌%◌, ◌++◌, ◌||◌, ◌∷◌,
}
use clix.Types.{
  Peer, bodies_eq, bool_eq, job_eq, patterns_eq, schedule_eq, status_eq, time_eq, weekday_eq,
}
use clix.State.{Fingerprint, Host, Store}
use clix.Store.{Sidecar, Sys, update}
use clix.Pin.{
  Change, Listing, Manifest, baseline, changed, conflict, ensure_enabled, fingerprint_eq,
  manifest_eq, valid_path, version_eq,
}
use clix.Pin.Hex.{unhex}
use clix.Pin.Tree.{Files, read}
use clix.Pin.Scan.{Entries, scan_dir}
use clix.Pin.Rename.{Outside}
use clix.Pin.Recovery.{Codec, recovery_state_eq}
use clix.Pin.Recovery.Check.{check_recovery_except}
use clix.Pin.Apply.{apply}

-- A request's fields as the JSON parser finds them: missing, of another type, or read.
pub record PutRequest : Type 0 where
  pub path : Option Text
  pub expected : Option (Result (Option Fingerprint))
  pub new : Option (Result (Option Fingerprint))
  pub content : Option Text

hashes_of : Manifest → Map Text
hashes_of [] = []
hashes_of ((path, f) ∷ m) = (path, f.hash) ∷ hashes_of m

-- `as_millis() as u64`.
unfoldable pub recorded : ℕ → Text → Manifest → Store → Store
unfolding hashes_of
recorded now pk manifest s = record s {
  pin_index = record {
    peers = insert (hex pk) manifest s.pin_index.peers;
    last_sync = some (now % 18446744073709551616);
    hashes = hashes_of manifest;
    last_error = none;
  };
}

-- A field that must be there.
needed : {T : Type 0} → ClixError → Option T → Result T
needed e none = err e
needed e (some t) = ok t

read_content : Option Text → Result (Option Text)
read_content none = ok none
read_content (some s) = do bytes ← unhex s; ok (some bytes)

precondition : Option (Result (Option Fingerprint)) → Result (Option Fingerprint)
precondition none = err (protocol (text "pin write requires version preconditions"))
precondition (some found) = found

-- The tree's manifest, unless what is held stands in the way.
unfoldable pub scan : Host → Codec → Files → Entries → Result Manifest
scan h codec held entries = do
  check_recovery_except h codec [] held
  scanned ← scan_dir h entries [] ([], 0)
  ok scanned.0

-- What a peer's request to write must pass: the change to make and its content. The version that it
-- expects is compared with this machine's own record of the last synchronisation.
unfoldable pub put_change : Store → Peer → PutRequest → Result (Change × Option Text)
unfolding needed read_content precondition
put_change s peer req = do
  ensure_enabled s
  path ← needed (protocol (text "missing pin path")) req.path
  refuse_if (is_none req.expected || is_none req.new)
      (protocol (text "pin write requires version preconditions"))
  expected ← precondition req.expected
  new ← precondition req.new
  valid_path path
  refuse_if (get path (baseline s peer.owner_pk) != expected)
      (conflict path peer.name (s.body_name ++ text " (local change since last sync)"))
  bytes ← read_content req.content
  ok (record { path = path; expected = expected; new = new; to_remote = false }, bytes)

unfoldable pub record_sync :
    Host → Sys → ℕ → Sidecar → Text → Manifest → Sidecar × Result (Unit {0})
record_sync h sys now m pk manifest = update h sys m (λ s. ok (recorded now pk manifest s, tt))

module _ (h : Host) (codec : Codec) where
  -- The argument `opened` is the tree's canonical root, where it opens.
  put_in :
      Outside
      → Result Text
      → Store
      → Files
      → Result (Change × Option Text)
      → Files × Files × Result (Unit {0})
  put_in o opened s held (err e) = (o.at_rename, held, err e)
  put_in o (err e) s held (ok wanted) = (o.at_rename, held, err e)
  put_in o (ok root) s held (ok (c, bytes)) = apply h codec o root c bytes s held

  unfoldable pub rpc_put :
      Outside → Result Text → Store → Peer → PutRequest → Files → Files × Files × Result (Unit {0})
  unfolding put_in
  rpc_put o opened s peer req held = put_in o opened s held (put_change s peer req)

  -- What a peer's request to commit must pass.
  unfoldable pub commit_manifest :
      Result (Unit {0}) → Store → Result Manifest → Files → Entries → Result Manifest
  commit_manifest opened s asked held entries = do
    ensure_enabled s
    manifest ← asked
    opened
    found ← scan h codec held entries
    refuse_if (found != manifest) (changed (text "(tree changed before commit)"))
    ok manifest

  commit_in : Sys → ℕ → Sidecar → Peer → Result Manifest → Sidecar × Result (Unit {0})
  commit_in sys now m peer (err e) = (m, err e)
  commit_in sys now m peer (ok manifest) = record_sync h sys now m peer.owner_pk manifest

  unfoldable pub rpc_commit :
      Sys
      → ℕ
      → Result (Unit {0})
      → Sidecar
      → Peer
      → Result Manifest
      → Files
      → Entries
      → Sidecar × Result (Unit {0})
  unfolding commit_in
  rpc_commit sys now opened m peer asked held entries =
      commit_in sys now m peer (commit_manifest opened m.store asked held entries)

  -- What a peer may read: the manifest and the record of the last synchronisation.
  unfoldable pub rpc_list : Result (Unit {0}) → Store → Peer → Files → Entries → Result Listing
  rpc_list opened s peer held entries = do
    ensure_enabled s
    opened
    files ← scan h codec held entries
    ok (record { files = files; baseline_of = baseline s peer.owner_pk })

  get_content : Text → Fingerprint → Option (Fingerprint × Text) → Result Text
  get_content path expected none = err (changed path)
  get_content path expected (some (actual, bytes)) =
      refuse_if (actual != expected) (changed path) >> ok (hex bytes)

  unfoldable pub rpc_get :
      Result (Unit {0}) → Store → Files → Option Text → Result Fingerprint → Result Text
  unfolding needed get_content
  rpc_get opened s files asked version = do
    ensure_enabled s
    path ← needed (protocol (text "missing pin path")) asked
    expected ← version
    opened
    found ← read h files path
    get_content path expected found
