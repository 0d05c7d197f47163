-- ===== src/Tests/Pins.antt =====
-- Two machines with one directory, and the changes between them.
use clix.Types.{Peer}
use clix.Error.{Result, err, ok}
use clix.Prelude.{
  Option, Text, Text-discrete, [], decimal_int, false, get, hex, inl, insert, is_component, none,
  refl, remove, retain, some, split_on, text, text_lt, true, ℕ_discrete, ◌∷◌, ◌≡◌, ◌⊎◌,
}
use clix.State.{Fingerprint, Store, extend}
use clix.Store.{Sidecar, ensure_writable, save_encoded, stage, update}
use clix.Pin.{
  Change, Fingerprint-discrete, Manifest, Manifest-discrete, Version-discrete, conflict,
  ensure_enabled, excluded, keys_of, valid_path, validate_listing, without_excluded,
}
use clix.Pin.Tree.{Files, fingerprint, read, read_node, regular}
use clix.Pin.Plan.{plan}
use clix.Pin.Plan.Conflict.{Merges, plan-Merges}
use clix.Pin.Rename.{Outside, exchanged, publish}
use clix.Pin.Recovery.{Codec, admit_recovery, recovery_usage, valid_recovery_name}
use clix.Pin.Recovery.Write.{Writes, create_new, private_file, write_typed_receipt}
use clix.Pin.Apply.{
  after_pending, apply_locked, carry_out, change_tree, change_tree_to, compare_previous,
  finish_change, prepare, publish_staged, stage_file,
}
use clix.Pin.Apply.Kept.{NothingLost, apply_locked-NothingLost}
use clix.Pin.Apply.Done.{Applied, apply_locked-Applied}
use clix.Pin.Scan.{
  Entries, child_path, end, entry, file, found_file, scan_dir, scan_entry, scan_file,
}
use clix.Pin.Scan.Bounds.{scan_dir-validate_listing}
use clix.Pin.Serve.{PutRequest, commit_manifest, record_sync, recorded, rpc_commit, rpc_put, scan}
use clix.Pin.Serve.Guarded.{Allowed, rpc_put-Allowed}
use clix.Pin.Serve.Committed.{Committed, rpc_commit-Committed}
use clix.Tests.{empty_store, fine, host, random_bytes, seed}

abbrev old_version : Fingerprint
old_version = record { hash = text "1"; mode = 420 }

abbrev new_version : Fingerprint
new_version = record { hash = text "2"; mode = 420 }

-- The other machine has a newer version of `f`, and this one has a file of its own.
abbrev mine : Manifest
mine = (text "f", old_version) ∷ (text "g", new_version) ∷ []

abbrev theirs : Manifest
theirs = (text "f", new_version) ∷ []

abbrev agreed : Manifest
agreed = (text "f", old_version) ∷ []

abbrev pull : Change
pull = record {
  path = text "f";
  expected = some old_version;
  new = some new_version;
  to_remote = false;
}

abbrev push : Change
push = record { path = text "g"; expected = none; new = some new_version; to_remote = true }

abbrev both : Manifest
both = (text "f", new_version) ∷ (text "g", new_version) ∷ []

planned : plan mine theirs agreed (text "a") (text "b") ≡ ok (pull ∷ push ∷ [], both)
unfolding clix.Pin.Plan.plan clix.Prelude.Text-discrete clix.Prelude.get clix.Prelude.insert
    clix.Prelude.split_on clix.Prelude.text clix.Prelude.text_lt clix.Prelude.ℕ_discrete
    clix.State.extend clix.Pin.Version-discrete clix.Pin.excluded clix.Pin.keys_of
    clix.Pin.valid_path
planned = refl

-- Both have changed `f`.
clashing :
    plan mine theirs [] (text "a") (text "b") ≡ err (conflict (text "f") (text "a") (text "b"))
unfolding clix.Pin.Plan.plan clix.Prelude.Text-discrete clix.Prelude.get clix.Prelude.insert
    clix.Prelude.split_on clix.Prelude.text clix.Prelude.text_lt clix.Prelude.ℕ_discrete
    clix.State.extend clix.Pin.Version-discrete clix.Pin.excluded clix.Pin.keys_of
    clix.Pin.valid_path
clashing = refl

plan-Merges_example :
    Merges mine theirs agreed (text "a") (text "b") (plan mine theirs agreed (text "a") (text "b"))
plan-Merges_example = plan-Merges mine theirs agreed (text "a") (text "b")

abbrev writes : Writes
writes = record {
  random = ok random_bytes;
  create = ok tt;
  write = ok tt;
  partial = [];
  sync = ok tt;
  rename = ok tt;
  sync_dir = ok tt;
}

abbrev pub codec : Codec
codec = record { print = λ _. []; fields = λ _. inl []; receipt = λ _. inl [] }

abbrev there : Files
there = (text "f", regular (record { bytes = text "1"; mode = 420 })) ∷ []

-- Nobody else writes to the tree, and every call succeeds.
abbrev pub calm : Outside
calm = record {
  first = there;
  second = there;
  at_rename = there;
  late = λ n. n;
  canonicalize = λ _. none;
  absolute = λ p. ok p;
  locked = ok tt;
  parent = ok tt;
  version_random = ok random_bytes;
  pending_writes = writes;
  create = ok tt;
  write = ok tt;
  partial = [];
  permissions = ok tt;
  sync = ok tt;
  rename = ok tt;
  sync_dirs = ok tt;
  open_previous = ok tt;
  sync_previous = ok tt;
  settled_writes = writes;
  unlink = ok tt;
  sync_unlinked = ok tt;
}

-- The digests of these hosts are empty, so a version is known by its mode.
abbrev executable : Change
executable = record {
  path = text "f";
  expected = some (record { hash = []; mode = 420 });
  new = some (record { hash = []; mode = 493 });
  to_remote = false;
}

apply_locked-NothingLost_example :
    NothingLost host codec calm
      (text "/p")
      executable
      (some (text "2"))
      empty_store
      []
      []
      (apply_locked host codec calm (text "/p") executable (some (text "2")) empty_store [] [])
apply_locked-NothingLost_example =
    apply_locked-NothingLost host codec calm (text "/p") executable (some (text "2")) empty_store []
      []

abbrev receipt : Text
receipt = text "30313233-3435-4637-b839-616263646566.json"

abbrev after : Files × Files × Result (Option Text)
after = (
  (text "f", regular (record { bytes = text "2"; mode = 493 })) ∷ [],
  (text "30313233-3435-4637-b839-616263646566", regular (record { bytes = text "1"; mode = 420 }))
      ∷ (receipt, private_file [])
      ∷ [],
  ok (some receipt),
)

exchanged_here :
    apply_locked host codec calm (text "/p") executable (some (text "2")) empty_store [] [] ≡ after
unfolding clix.Ids.format_id clix.Ids.new_id clix.Pin.Apply.after_pending
    clix.Pin.Apply.apply_locked clix.Pin.Apply.carry_out clix.Pin.Apply.change_tree
    clix.Pin.Apply.change_tree_to clix.Pin.Apply.compare_previous clix.Pin.Apply.finish_change
    clix.Pin.Apply.prepare clix.Pin.Apply.publish_staged clix.Pin.Apply.stage_file
    clix.Pin.Fingerprint-discrete clix.Pin.Guards.check_content clix.Pin.Guards.check_grants
    clix.Pin.Recovery.Check.check_recovery_except clix.Pin.Recovery.Write.create_new
    clix.Pin.Recovery.Write.write_typed_receipt clix.Pin.Recovery.admit_recovery
    clix.Pin.Recovery.recovery_usage clix.Pin.Recovery.valid_recovery_name clix.Pin.Rename.exchanged
    clix.Pin.Rename.publish clix.Pin.Tree.fingerprint clix.Pin.Tree.read clix.Pin.Tree.read_node
    clix.Pin.Version-discrete clix.Pin.excluded clix.Pin.valid_path clix.Prelude.Text-discrete
    clix.Prelude.get clix.Prelude.hex clix.Prelude.insert clix.Prelude.is_component
    clix.Prelude.remove clix.Prelude.retain clix.Prelude.split_on clix.Prelude.text
    clix.Prelude.text_lt clix.Prelude.ℕ_discrete clix.Storage.Charge.sat_add
    clix.Store.ensure_writable
exchanged_here = refl

apply_locked-Applied_example :
    Applied host codec calm
      (text "/p")
      executable
      (some (text "2"))
      empty_store
      []
      receipt
      after.0
      after.1
apply_locked-Applied_example =
    apply_locked-Applied host codec calm (text "/p") executable (some (text "2")) empty_store [] []
      after.0 after.1 receipt exchanged_here

abbrev enabled_store : Store
enabled_store = record empty_store { pin_enabled = true }

abbrev peer_a : Peer
peer_a = record { name = text "a"; owner_pk = seed; addr = none }

abbrev put_request : PutRequest
put_request = record {
  path = some (text "f");
  expected = some (ok none);
  new = some (ok none);
  content = none;
}

rpc_put-Allowed_example :
    let made = rpc_put host codec calm (ok (text "/p")) enabled_store peer_a put_request [] in
    ((made.0 ≡ there) × (made.1 ≡ [])) ⊎ Allowed host calm enabled_store peer_a put_request made.0
rpc_put-Allowed_example =
    rpc_put-Allowed host codec calm (ok (text "/p")) enabled_store peer_a [] put_request

-- A directory with one file.
abbrev entries : Entries
entries = entry (some (text "f")) (file (record { bytes = text "1"; mode = 420 })) end

abbrev found : Manifest
found = (text "f", record { hash = []; mode = 420 }) ∷ []

scanned : scan_dir host entries [] ([], 0) ≡ ok (found, 1)
unfolding clix.Pin.Scan.child_path clix.Pin.Scan.found_file clix.Pin.Scan.scan_entry
    clix.Pin.Scan.scan_file clix.Pin.Tree.fingerprint clix.Pin.Tree.read_node clix.Pin.excluded
    clix.Pin.valid_path clix.Prelude.Text-discrete clix.Prelude.hex clix.Prelude.insert
    clix.Prelude.split_on clix.Prelude.text clix.Prelude.ℕ_discrete
scanned = refl

scanned_empty : scan_dir host end [] ([], 0) ≡ ok ([], 0)
unfolding clix.Pin.Scan.scan_entry
scanned_empty = refl

scan_dir-validate_listing_example :
    validate_listing (record { files = found; baseline_of = without_excluded [] })
    ≡ ok (record { files = found; baseline_of = [] })
scan_dir-validate_listing_example =
    scan_dir-validate_listing host entries end (found, 1) ([], 0) scanned scanned_empty

abbrev pinned : Sidecar
pinned = record { store = enabled_store; disk = none }

committed : (rpc_commit host codec fine 7 (ok tt) pinned peer_a (ok found) [] entries).1 ≡ ok tt
unfolding clix.History.Keys.hash clix.History.Normalize.normalize_output
    clix.History.Refresh.refresh_owned clix.Ids.new_id clix.Pin.Manifest-discrete
    clix.Pin.Recovery.Check.check_recovery_except clix.Pin.Recovery.recovery_usage
    clix.Pin.Scan.child_path clix.Pin.Scan.found_file clix.Pin.Scan.scan_entry
    clix.Pin.Scan.scan_file clix.Pin.Serve.commit_manifest clix.Pin.Serve.record_sync
    clix.Pin.Serve.recorded clix.Pin.Serve.rpc_commit clix.Pin.Serve.scan clix.Pin.Tree.fingerprint
    clix.Pin.Tree.read_node clix.Pin.ensure_enabled clix.Pin.excluded clix.Pin.valid_path
    clix.Prelude.Text-discrete clix.Prelude.decimal_int clix.Prelude.hex clix.Prelude.insert
    clix.Prelude.retain clix.Prelude.split_on clix.Prelude.text clix.Prelude.ℕ_discrete
    clix.Storage.Charge.completion_charge clix.Storage.Charge.reserve_completion
    clix.Storage.Prune.count_limit clix.Storage.Prune.prepare clix.Storage.encode
    clix.Storage.output_bytes clix.Store.ensure_writable clix.Store.save_encoded clix.Store.stage
    clix.Store.update
committed = refl

rpc_commit-Committed_example :
    Committed host codec fine 7 pinned
      (rpc_commit host codec fine 7 (ok tt) pinned peer_a (ok found) [] entries).0
      peer_a
      (ok found)
      []
      entries
rpc_commit-Committed_example =
    rpc_commit-Committed host codec fine 7 (ok tt) pinned peer_a (ok found) [] entries committed
