-- ===== src/Pin/Apply.antt =====
-- pin.rs, `Tree::apply`: one change to one path. Nothing is overwritten: the version that a change
-- displaces moves to the recovery directory.
pub mod Held
pub mod Kept
pub mod Changed
pub mod Elsewhere
pub mod Done
use clix.Error.{Result, err, io, ok, refuse_if, ◌>>=◌, ◌>>◌}
use clix.Prelude.{
  Bool, List, Option, Text, [], get, if◌then◌else◌, insert, int_eq, is_some, length, nat_eq, none,
  remove, some, suc, take, text, text_eq, texts_eq, unwrap_or, ℕ, ◌!=◌, ◌++◌, ◌==◌, ◌∷◌,
}
use clix.Types.{
  bodies_eq, bool_eq, job_eq, patterns_eq, schedule_eq, status_eq, time_eq, weekday_eq,
}
use clix.State.{Fingerprint, Host, Store}
use clix.Store.{ensure_writable}
use clix.Storage.Charge.{sat_add}
use clix.Ids.{new_id}
use clix.Grant.Resolve.{join_path}
use clix.Pin.{Change, changed, fingerprint_eq, manifest_eq, max_file, recovery, version_eq}
use clix.Pin.Tree.{Files, Node, fingerprint, other, read, regular, version_of}
use clix.Pin.Recovery.{
  Codec, RecoveryReceipt, RecoveryState, admit_recovery, pending, recovery_state_eq, resolved,
  retained,
}
use clix.Pin.Recovery.Check.{check_recovery_except}
use clix.Pin.Guards.{check_content, check_grants}
use clix.Pin.Rename.{Outside, publish, withdraw}
use clix.Pin.Recovery.Write.{and_then, create_new, left_by, private_file, write_typed_receipt}

unfoldable pub receipt_of : Change → List Text → Text → RecoveryState → RecoveryReceipt
receipt_of c ignored version state = record {
  path = c.path;
  expected = c.expected;
  replacement = c.new;
  version = version;
  state = state;
  source_receipt = elim ignored [ [] ↦ none | id ∷ _ ↦ some id ];
  discard_token = none;
}

module _ (h : Host) (codec : Codec) (o : Outside) (root : Text) (c : Change) (content : Option Text)
    (store : Store) (ignored : List Text) where
  -- What comes before anything is written: whether there is a version to displace, and the id that
  -- it shall be held under; or nothing, where the change is made already.
  unfoldable pub prepare : Files → Result (Option (Bool × Text))
  prepare held = do
    ensure_writable store
    check_recovery_except h codec ignored held
    check_content h c.new content
    found ← read h o.first c.path
    let current = version_of found
    if current == c.new then ok none else do
      refuse_if (current != c.expected) (changed c.path)
      check_grants o (join_path root c.path) store.grants
      again ← read h o.second c.path
      let old_bytes : ℕ = elim again [ none ↦ 0 | some v ↦ length v.1 ]
      admit_recovery held (sat_add old_bytes (length (unwrap_or [] content))) 4
      o.parent
      version ← new_id o.version_random
      ok (some (is_some current, version))

  unfoldable pub compare_previous : Text → Text → Option Node → Result (Unit {0})
  compare_previous path_seen version none = err (io (text "No such file or directory (os error 2)"))
  compare_previous path_seen version (some (other _)) =
      err (io (text "Is a directory (os error 21)"))
  compare_previous path_seen version (some (regular f)) = do
    refuse_if (some (fingerprint h (take (suc max_file) f.bytes) f.mode) != c.expected)
        (changed path_seen)
    o.sync_previous

  -- The displaced version is what was expected, or the change is reported as a conflict.
  unfoldable pub retain_previous : Text → Files → Files × Result (Unit {0})
  unfolding receipt_of
  retain_previous version held =
      let receipt_name = version ++ text ".json" in
      let path_seen =
        c.path
        ++ (text " (review "
            ++ (recovery
                ++ (b'/' ∷ receipt_name
                    ++ (text "; previous version retained at "
                        ++ (recovery ++ (b'/' ∷ version ++ text ")")))))) in
      and_then (held, do o.open_previous; compare_previous path_seen version (get version held))
        (λ held _.
          write_typed_receipt codec o.settled_writes receipt_name
            (receipt_of c ignored version retained) held)

  -- Nothing was displaced: the receipt is not needed any more.
  unfoldable pub forget_receipt : Text → Files → Files × Result (Unit {0})
  unfolding receipt_of
  forget_receipt version held =
      let receipt_name = version ++ text ".json" in
      and_then
        (write_typed_receipt codec o.settled_writes receipt_name
          (receipt_of c ignored version resolved) held)
        (λ held _.
          and_then (held, o.unlink) (λ held _. (remove receipt_name held, o.sync_unlinked)))

  unfoldable pub finish : Text → Files → Files × Result (Option Text)
  unfolding retain_previous forget_receipt
  finish version held =
      and_then (held, o.sync_dirs)
        (λ held _.
          and_then
            (if is_some c.expected
              then retain_previous version held
              else forget_receipt version held)
            (λ held _. (held, ok (some (version ++ text ".json")))))

  -- The new content, durably in a file of its own in the recovery directory.
  unfoldable pub stage_file : Text → ℕ → Text → Files → Files × Result Node
  stage_file version mode bytes held =
      let node = regular (record { bytes = bytes; mode = mode }) in
      and_then (held, create_new o.create version held)
        (λ held _.
          and_then
            (
              insert version (private_file (left_by o.write bytes o.partial)) held,
              o.write >> o.permissions,
            )
            (λ held _. and_then (insert version node held, o.sync) (λ held _. (held, ok node))))

  unfoldable pub publish_staged :
      Text → Bool → Files × Result Node → Files × Files × Result (Unit {0})
  publish_staged version exchange (held, err e) = (o.at_rename, held, err e)
  publish_staged version exchange (held, ok node) = publish o c.path version node exchange held

  unfoldable pub change_tree_to :
      Option Fingerprint → Text → Bool → Files → Files × Files × Result (Unit {0})
  change_tree_to none version exchange held = withdraw o c.path version held
  change_tree_to (some new) version exchange held =
      publish_staged version exchange (stage_file version new.mode (unwrap_or [] content) held)

  unfoldable pub change_tree : Text → Bool → Files → Files × Files × Result (Unit {0})
  change_tree version exchange held = change_tree_to c.new version exchange held

  unfoldable pub finish_change :
      Text → Files × Files × Result (Unit {0}) → Files × Files × Result (Option Text)
  unfolding finish
  finish_change version (files, held, err e) = (files, held, err e)
  finish_change version (files, held, ok _) =
      let finished = finish version held in (files, finished.0, finished.1)

  unfoldable pub after_pending :
      Text → Bool → Files × Result (Unit {0}) → Files × Files × Result (Option Text)
  after_pending version exchange (held, err e) = (o.at_rename, held, err e)
  after_pending version exchange (held, ok _) =
      finish_change version (change_tree version exchange held)

  unfoldable pub carry_out :
      Files → Result (Option (Bool × Text)) → Files × Files × Result (Option Text)
  unfolding receipt_of
  carry_out held (err e) = (o.at_rename, held, err e)
  carry_out held (ok none) = (o.at_rename, held, ok none)
  carry_out held (ok (some (exchange, version))) = after_pending version exchange (
      write_typed_receipt codec o.pending_writes (version ++ text ".json")
        (receipt_of c ignored version pending) held)

  -- The files of the tree and of the recovery directory afterwards, and the receipt's name.
  unfoldable pub apply_locked : Files → Files × Files × Result (Option Text)
  apply_locked held = carry_out held (prepare held)

unfoldable pub done_with : Files × Files × Result (Option Text) → Files × Files × Result (Unit {0})
done_with (files, held, err e) = (files, held, err e)
done_with (files, held, ok _) = (files, held, ok tt)

module _ (h : Host) (codec : Codec) (o : Outside) (root : Text) (c : Change) (content : Option Text)
    (store : Store) (held : Files) where
  unfoldable pub apply_under : Result (Unit {0}) → Files × Files × Result (Unit {0})
  apply_under (err e) = (o.at_rename, held, err e)
  apply_under (ok _) = done_with (apply_locked h codec o root c content store [] held)

  unfoldable pub apply : Files × Files × Result (Unit {0})
  apply = apply_under o.locked
