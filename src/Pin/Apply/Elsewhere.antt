-- ===== src/Pin/Apply/Elsewhere.antt =====
-- pin.rs, `apply`: a change, however it ends, is to its own path.

use clix.Prelude.{
  Bool, List, Option, Text, [], ap, false, get, get-insert-other, get-remove-other, none, refl,
  some, true, ◌∙◌, ◌≡◌,
}
use clix.Error.{Result, err, ok}
use clix.State.{Fingerprint, Host, Store}
use clix.Pin.{Change}
use clix.Pin.Tree.{Files, Node}
use clix.Pin.Rename.{Outside, exchanged, moved, publish, withdraw}
use clix.Pin.Recovery.{Codec}
use clix.Pin.Apply.{
  after_pending, apply, apply_locked, apply_under, carry_out, change_tree, change_tree_to,
  done_with, finish_change, prepare, publish_staged,
}

exchanged-other :
    (o : Outside) (path version k : Text) (node : Node) (held : Files) (exchange : Bool)
    (found : Option Node) (r : Result (Unit {0}))
    → ¬ (path ≡ k)
    → get k (exchanged o path version node held exchange found r).0 ≡ get k o.at_rename
unfolding exchanged
exchanged-other o path version k node held exchange found (err e) n = refl
exchanged-other o path version k node held true none (ok _) n = refl
exchanged-other o path version k node held true (some old) (ok _) n =
    get-insert-other path k node o.at_rename n
exchanged-other o path version k node held false none (ok _) n =
    get-insert-other path k node o.at_rename n
exchanged-other o path version k node held false (some old) (ok _) n = refl

moved-other :
    (o : Outside) (path version k : Text) (held : Files) (taken found : Option Node)
    (r : Result (Unit {0}))
    → ¬ (path ≡ k)
    → get k (moved o path version held taken found r).0 ≡ get k o.at_rename
unfolding moved
moved-other o path version k held taken found (err e) n = refl
moved-other o path version k held (some _) found (ok _) n = refl
moved-other o path version k held none none (ok _) n = refl
moved-other o path version k held none (some old) (ok _) n = get-remove-other path k o.at_rename n

module _ (h : Host) (codec : Codec) (o : Outside) (root : Text) (c : Change) (content : Option Text)
    (store : Store) (ignored : List Text) (k : Text) where
  publish_staged-other :
      (version : Text) (exchange : Bool) (staged : Files × Result Node)
      → ¬ (c.path ≡ k)
      → get k (publish_staged h codec o root c content store ignored version exchange staged).0
        ≡ get k o.at_rename
  unfolding publish_staged publish
  publish_staged-other version exchange (held, err e) n = refl
  publish_staged-other version exchange (held, ok node) n =
      exchanged-other o c.path version k node held exchange (get c.path o.at_rename) o.rename n

  change_tree_to-other :
      (new : Option Fingerprint) (version : Text) (exchange : Bool) (held : Files)
      → ¬ (c.path ≡ k)
      → get k (change_tree_to h codec o root c content store ignored new version exchange held).0
        ≡ get k o.at_rename
  unfolding change_tree_to withdraw
  change_tree_to-other none version exchange held n =
      moved-other o c.path version k held (get version held) (get c.path o.at_rename) o.rename n
  change_tree_to-other (some new) version exchange held n =
      publish_staged-other version exchange _ n

  finish_change-same :
      (version : Text) (changed_tree : Files × Files × Result (Unit {0}))
      → (finish_change h codec o root c content store ignored version changed_tree).0
        ≡ changed_tree.0
  unfolding finish_change
  finish_change-same version (files, held, err e) = refl
  finish_change-same version (files, held, ok _) = refl

  after_pending-other :
      (version : Text) (exchange : Bool) (written : Files × Result (Unit {0}))
      → ¬ (c.path ≡ k)
      → get k (after_pending h codec o root c content store ignored version exchange written).0
        ≡ get k o.at_rename
  unfolding after_pending change_tree
  after_pending-other version exchange (held, err e) n = refl
  after_pending-other version exchange (held, ok _) n =
      ap (get k) (finish_change-same version _) ∙ change_tree_to-other c.new version exchange held n

  carry_out-other :
      (held : Files) (ready : Result (Option (Bool × Text)))
      → ¬ (c.path ≡ k)
      → get k (carry_out h codec o root c content store ignored held ready).0 ≡ get k o.at_rename
  unfolding carry_out
  carry_out-other held (err e) n = refl
  carry_out-other held (ok none) n = refl
  carry_out-other held (ok (some (exchange, version))) n = after_pending-other version exchange _ n

done_with-same : (after : Files × Files × Result (Option Text)) → (done_with after).0 ≡ after.0
unfolding done_with
done_with-same (files, held, err e) = refl
done_with-same (files, held, ok _) = refl

module _ (h : Host) (codec : Codec) (o : Outside) (root : Text) (c : Change) (content : Option Text)
    (store : Store) (held : Files) where
  apply_under-other :
      (k : Text) (locked : Result (Unit {0}))
      → ¬ (c.path ≡ k)
      → get k (apply_under h codec o root c content store held locked).0 ≡ get k o.at_rename
  unfolding apply_under apply_locked
  apply_under-other k (err e) n = refl
  apply_under-other k (ok _) n =
      ap (get k) (done_with-same _)
      ∙ carry_out-other h codec o root c content store [] k held
          (prepare h codec o root c content store [] held) n

  pub apply-other :
      (k : Text)
      → ¬ (c.path ≡ k)
      → get k (apply h codec o root c content store held).0 ≡ get k o.at_rename
  unfolding apply
  apply-other k n = apply_under-other k o.locked n
