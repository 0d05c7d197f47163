-- ===== src/Pin/Apply/Kept.antt =====
-- pin.rs, `apply_locked`: no version of a file is lost.

use clix.Pin.Apply.Held.{
  Displaced, create_new-differs, exchanged-Displaced, exchanged-keeps, moved-Displaced, moved-keeps,
  receipt_name-differs,
}
use clix.Error.{Result, err, ok, ◌>>◌}
use clix.Prelude.{
  Bool, List, Option, Text, [], ap, ends_with, ends_with-append, false, get, get-insert-other,
  get-remove-other, inl, inr, insert, is_some, none, refl, some, text, true, unwrap_or, ℕ, ◌++◌,
  ◌∙◌, ◌≡◌, ◌⊎◌,
}
use clix.State.{Fingerprint, Host, Store}
use clix.Pin.{Change}
use clix.Pin.Tree.{Files, Node}
use clix.Pin.Rename.{Outside, publish, withdraw}
use clix.Pin.Recovery.{Codec, is_json}
use clix.Pin.Recovery.Write.{
  and_then-keeps, and_then-ok, choose-keeps, create_new, write_typed_receipt-keeps,
}
use clix.Pin.Apply.{
  after_pending, apply_locked, carry_out, change_tree, change_tree_to, finish, finish_change,
  forget_receipt, prepare, publish_staged, retain_previous, stage_file,
}

module _ (h : Host) (codec : Codec) (o : Outside) (root : Text) (c : Change) (content : Option Text)
    (store : Store) (ignored : List Text) where
  -- What the files of the tree and of the recovery directory have to do with those before.
  pub record NothingLost (held : Files) (after : Files × Files × Result (Option Text))
      : Type 0 where
    pub displaced :
        (old : Node)
        → get c.path o.at_rename ≡ some old
        → (get c.path after.0 ≡ some old)
          ⊎ ((version : Text) × (get version after.1 ≡ some (o.late old)))
    pub held_still :
        (k : Text) (node : Node)
        → is_json k ≡ false
        → get k held ≡ some node
        → get k after.1 ≡ some node

  retain_previous-keeps :
      (version : Text) (held : Files) (k : Text) (node : Node)
      → ¬ (version ++ text ".json" ≡ k)
      → get k held ≡ some node
      → get k (retain_previous h codec o root c content store ignored version held).0 ≡ some node
  unfolding retain_previous
  retain_previous-keeps version held k node n e =
      and_then-keeps k node (held, _) _ e
        (λ held' u _ e'. write_typed_receipt-keeps codec o.settled_writes _ _ held' k node n e')

  forget_receipt-keeps :
      (version : Text) (held : Files) (k : Text) (node : Node)
      → ¬ (version ++ text ".json" ≡ k)
      → get k held ≡ some node
      → get k (forget_receipt h codec o root c content store ignored version held).0 ≡ some node
  unfolding forget_receipt
  forget_receipt-keeps version held k node n e =
      and_then-keeps k node _ _
        (write_typed_receipt-keeps codec o.settled_writes _ _ held k node n e)
        (λ held' u _ e'.
          and_then-keeps k node (held', o.unlink) _ e'
            (λ held'' u _ e''. get-remove-other (version ++ text ".json") k held'' n ∙ e''))

  finish-keeps :
      (version : Text) (held : Files) (k : Text) (node : Node)
      → ¬ (version ++ text ".json" ≡ k)
      → get k held ≡ some node
      → get k (finish h codec o root c content store ignored version held).0 ≡ some node
  unfolding finish
  finish-keeps version held k node n e =
      and_then-keeps k node (held, o.sync_dirs) _ e
        (λ held' u _ e'.
          and_then-keeps k node _ _
            (choose-keeps (is_some c.expected) _ _ k node
              (retain_previous-keeps version held' k node n e')
              (forget_receipt-keeps version held' k node n e'))
            (λ held'' u _ e''. e''))

  stage_file-keeps :
      (version : Text) (mode : ℕ) (bytes : Text) (held : Files) (k : Text) (node : Node)
      → get k held ≡ some node
      → get k (stage_file h codec o root c content store ignored version mode bytes held).0
        ≡ some node
  unfolding stage_file
  stage_file-keeps version mode bytes held k node e =
      and_then-keeps k node (held, create_new o.create version held) _ e
        (λ held' u made e'.
          let differs = create_new-differs o.create version held k node u e (ap (λ t. t.1) made) in
          and_then-keeps k node (insert version _ held', o.write >> o.permissions) _
            (get-insert-other version k _ held' differs ∙ e')
            (λ held'' _ _ e''.
              and_then-keeps k node (insert version _ held'', o.sync) _
                (get-insert-other version k _ held'' differs ∙ e'') (λ _ _ _ e₃. e₃)))

  stage_file-differs :
      (version : Text) (mode : ℕ) (bytes : Text) (held : Files) (k : Text) (node staged : Node)
      → get k held ≡ some node
      → (stage_file h codec o root c content store ignored version mode bytes held).1 ≡ ok staged
      → ¬ (version ≡ k)
  unfolding stage_file
  stage_file-differs version mode bytes held k node staged e p =
      let (u, made, _, _) = and_then-ok (held, create_new o.create version held) _ staged p in
      create_new-differs o.create version held k node u e made

  publish_staged-keeps :
      (version : Text) (exchange : Bool) (staged : Files × Result Node) (k : Text) (node : Node)
      → ((s : Node) → staged.1 ≡ ok s → ¬ (version ≡ k))
      → get k staged.0 ≡ some node
      → get k (publish_staged h codec o root c content store ignored version exchange staged).1
        ≡ some node
  unfolding publish_staged publish
  publish_staged-keeps version exchange (held, err e) k node n p = p
  publish_staged-keeps version exchange (held, ok s) k node n p =
      exchanged-keeps o c.path version s held exchange (get c.path o.at_rename) o.rename k node
        (n s refl) p

  publish_staged-Displaced :
      (version : Text) (exchange : Bool) (staged : Files × Result Node) (old : Node)
      → get c.path o.at_rename ≡ some old
      → Displaced o c.path version old
          (publish_staged h codec o root c content store ignored version exchange staged)
  unfolding publish_staged publish
  publish_staged-Displaced version exchange (held, err e) old p = inl p
  publish_staged-Displaced version exchange (held, ok s) old p =
      exchanged-Displaced o c.path version s held exchange (get c.path o.at_rename) o.rename old p p

  change_tree_to-keeps :
      (new : Option Fingerprint) (version : Text) (exchange : Bool) (held : Files) (k : Text)
      (node : Node)
      → get k held ≡ some node
      → get k (change_tree_to h codec o root c content store ignored new version exchange held).1
        ≡ some node
  unfolding change_tree_to withdraw
  change_tree_to-keeps none version exchange held k node e =
      moved-keeps o c.path version held (get version held) (get c.path o.at_rename) o.rename k node
        refl e
  change_tree_to-keeps (some new) version exchange held k node e =
      publish_staged-keeps version exchange
        (stage_file h codec o root c content store ignored version new.mode (unwrap_or [] content)
          held)
        k node (λ s made. stage_file-differs version new.mode _ held k node s e made)
        (stage_file-keeps version new.mode _ held k node e)

  change_tree_to-Displaced :
      (new : Option Fingerprint) (version : Text) (exchange : Bool) (held : Files) (old : Node)
      → get c.path o.at_rename ≡ some old
      → Displaced o c.path version old
          (change_tree_to h codec o root c content store ignored new version exchange held)
  unfolding change_tree_to withdraw
  change_tree_to-Displaced none version exchange held old e =
      moved-Displaced o c.path version held (get version held) (get c.path o.at_rename) o.rename old
        e e
  change_tree_to-Displaced (some new) version exchange held old e =
      publish_staged-Displaced version exchange _ old e

  json_differs : (version k : Text) → is_json k ≡ false → ¬ (version ++ text ".json" ≡ k)
  unfolding is_json
  json_differs version k e same =
      let named = ends_with-append version (text ".json") in
      let also : ends_with (text ".json") k ≡ true = rw⁻¹ same named in cc

  finish_change-NothingLost :
      (version : Text) (held : Files) (after : Files × Files × Result (Unit {0}))
      → ((k : Text) (node : Node) → get k held ≡ some node → get k after.1 ≡ some node)
      → ((old : Node) → get c.path o.at_rename ≡ some old → Displaced o c.path version old after)
      → NothingLost held (finish_change h codec o root c content store ignored version after)
  unfolding finish_change
  finish_change-NothingLost version held (files, held', err e) keeps there = record {
    displaced =
        λ old p. elim (there old p) [ inl here ↦ inl here | inr kept ↦ inr (version, kept) ];
    held_still = λ k node _ p. keeps k node p;
  }
  finish_change-NothingLost version held (files, held', ok _) keeps there = record {
    displaced = λ old p. elim (there old p) [
      | inl here ↦ inl here
      | inr kept ↦
          inr (version, finish-keeps version held' version _ (receipt_name-differs version) kept)
    ];
    held_still = λ k node plain p.
        finish-keeps version held' k node (json_differs version k plain) (keeps k node p);
  }

  untouched : (held : Files) (r : Result (Option Text)) → NothingLost held (o.at_rename, held, r)
  untouched held r = record { displaced = λ old p. inl p; held_still = λ k node _ p. p }

  after_pending-NothingLost :
      (version : Text) (exchange : Bool) (held : Files) (journal : Files × Result (Unit {0}))
      → ((k : Text) (node : Node)
          → is_json k ≡ false
          → get k held ≡ some node
          → get k journal.0 ≡ some node)
      → NothingLost held
          (after_pending h codec o root c content store ignored version exchange journal)
  unfolding after_pending change_tree
  after_pending-NothingLost version exchange held (held', err e) keeps = record {
    displaced = λ old p. inl p;
    held_still = keeps;
  }
  after_pending-NothingLost version exchange held (held', ok _) keeps =
      let rest =
        finish_change-NothingLost version held'
          (change_tree_to h codec o root c content store ignored c.new version exchange held')
          (λ k node p. change_tree_to-keeps c.new version exchange held' k node p)
          (λ old p. change_tree_to-Displaced c.new version exchange held' old p) in
      record {
        displaced = rest.displaced;
        held_still = λ k node plain p. rest.held_still k node plain (keeps k node plain p);
      }

  carry_out-NothingLost :
      (held : Files) (ready : Result (Option (Bool × Text)))
      → NothingLost held (carry_out h codec o root c content store ignored held ready)
  unfolding carry_out
  carry_out-NothingLost held (err e) = untouched held (err e)
  carry_out-NothingLost held (ok none) = untouched held (ok none)
  carry_out-NothingLost held (ok (some (exchange, version))) =
      after_pending-NothingLost version exchange held _ (λ k node plain p.
        write_typed_receipt-keeps codec o.pending_writes _ _ held k node
          (json_differs version k plain) p)

  -- However a change ends, and whatever other programs write to the tree meanwhile, the file that
  -- is at its path when the rename comes is still there afterwards or is held in the recovery
  -- directory with what was written to it through open handles; and everything that was held
  -- before, receipts apart, is still held.
  pub apply_locked-NothingLost :
      (held : Files) → NothingLost held (apply_locked h codec o root c content store ignored held)
  unfolding apply_locked
  apply_locked-NothingLost held =
      carry_out-NothingLost held (prepare h codec o root c content store ignored held)
