-- ===== src/Pin/Apply/Done.antt =====
-- pin.rs, `apply_locked`: what a change that succeeds has done.

use clix.Error.{>>=-eq-ok, Result, err, ok, ok-injective}
use clix.Prelude.{
  Bool, List, Option, Text, [], ap, arith, false, get, if◌then◌else◌, is_some, none, refl, some,
  subst, suc, sym, take, text, true, unwrap_or, ◌++◌, ◌∙◌, ◌≡◌,
}
use clix.State.{Fingerprint, Host, Store}
use clix.Store.{ensure_writable}
use clix.Pin.{Change, Version-discrete, max_file}
use clix.Pin.Tree.{File, Files, Node, fingerprint, other, regular}
use clix.Pin.Rename.{Outside}
use clix.Pin.Guards.{check_content}
use clix.Pin.Recovery.{Codec}
use clix.Pin.Recovery.Check.{check_recovery_except}
use clix.Pin.Recovery.Write.{and_then-ok, write_typed_receipt-keeps}
use clix.Pin.Apply.{
  after_pending, apply_locked, carry_out, change_tree, compare_previous, finish, finish_change,
  forget_receipt, prepare, retain_previous,
}
use clix.Pin.Apply.Held.{receipt_name-differs}
use clix.Pin.Apply.Changed.{ChangedTo, change_tree_to-ok, changed_to, check_content-ok}

choose-true : {T : Type 0} (b : Bool) (x y : T) → b ≡ true → (if b then x else y) ≡ x
choose-true true x y e = refl
choose-true false x y e = absurd (ground arith)

module _ (h : Host) (codec : Codec) (o : Outside) (root : Text) (c : Change) (content : Option Text)
    (store : Store) (ignored : List Text) where
  -- What holds of the files of the tree and of the recovery directory after a change that was made.
  pub record Applied (receipt : Text) (files held : Files) : Type 0 where
    pub in_place : get c.path files ≡ changed_to c.new content
    pub intact :
        (new : Fingerprint) → c.new ≡ some new → fingerprint h (unwrap_or [] content) new.mode ≡ new
    pub elsewhere : (path : Text) → ¬ (c.path ≡ path) → get path files ≡ get path o.at_rename
    pub displaced :
        is_some c.expected ≡ true
        → (version : Text) × (f : File) × (receipt ≡ version ++ text ".json")
          × (get version held ≡ some (regular f))
          × (some (fingerprint h (take (suc max_file) f.bytes) f.mode) ≡ c.expected)

  compare_previous-ok :
      (seen version : Text) (found : Option Node) (u : Unit {0})
      → compare_previous h codec o root c content store ignored seen version found ≡ ok u
      → (f : File) × (found ≡ some (regular f))
        × (some (fingerprint h (take (suc max_file) f.bytes) f.mode) ≡ c.expected)
  unfolding compare_previous
  compare_previous-ok seen version none u e = absurd (ground arith)
  compare_previous-ok seen version (some (other _)) u e = absurd (ground arith)
  compare_previous-ok seen version (some (regular f)) u e = (
    f,
    refl,
    elim (Version-discrete (some (fingerprint h (take (suc max_file) f.bytes) f.mode)) c.expected) [
      | yes same ↦ same
      | no n ↦ absurd (ground arith)
    ],
  )

  retain_previous-ok :
      (version : Text) (held : Files) (u : Unit {0})
      → let after = retain_previous h codec o root c content store ignored version held in
        after.1 ≡ ok u
        → (f : File) × (get version after.0 ≡ some (regular f))
          × (some (fingerprint h (take (suc max_file) f.bytes) f.mode) ≡ c.expected)
  unfolding retain_previous
  retain_previous-ok version held u e =
      let (_, compared, _, after) = and_then-ok (held, _) _ u e in
      let (_, _, compared') = >>=-eq-ok o.open_previous _ compared in
      let (f, found, same) = compare_previous-ok _ version (get version held) _ compared' in
      (
        f,
        ap (get version) after
            ∙ write_typed_receipt-keeps codec o.settled_writes _ _ held version (regular f)
                (receipt_name-differs version) found,
        same,
      )

  Retained : Text → Files → Type 0
  Retained receipt held =
      is_some c.expected ≡ true
      → (version : Text) × (f : File) × (receipt ≡ version ++ text ".json")
        × (get version held ≡ some (regular f))
        × (some (fingerprint h (take (suc max_file) f.bytes) f.mode) ≡ c.expected)

  finish-ok :
      (version : Text) (held : Files) (made : Option Text)
      → let after = finish h codec o root c content store ignored version held in
        after.1 ≡ ok made → (receipt : Text) × (made ≡ some receipt) × Retained receipt after.0
  unfolding finish Retained
  finish-ok version held made e =
      let (_, _, rest, after) = and_then-ok (held, o.sync_dirs) _ made e in
      let (u, settled, rest', after') = and_then-ok _ _ made rest in
      (
        version ++ text ".json",
        sym (ok-injective rest'),
        λ expected.
            let chosen =
              choose-true (is_some c.expected)
                (retain_previous h codec o root c content store ignored version held)
                (forget_receipt h codec o root c content store ignored version held) expected in
            let (f, kept, same) =
              retain_previous-ok version held u (ap (λ t. t.1) (sym chosen) ∙ settled) in
            (
              version,
              f,
              refl,
              ap (get version) (after ∙ (after' ∙ ap (λ t. t.0) chosen)) ∙ kept,
              same,
            ),
      )

  Made : Text → Files × Files × Result (Option Text) → Type 0
  Made receipt after =
      ChangedTo h codec o root c content store ignored c.new after.0 × Retained receipt after.1

  finish_change-Made :
      (version : Text) (after : Files × Files × Result (Unit {0})) (receipt : Text)
      → ((u : Unit {0})
          → after.2 ≡ ok u
          → ChangedTo h codec o root c content store ignored c.new after.0)
      → (finish_change h codec o root c content store ignored version after).2 ≡ ok (some receipt)
      → Made receipt (finish_change h codec o root c content store ignored version after)
  unfolding finish_change Made
  finish_change-Made version (files, held, err e) receipt there p = absurd (ground arith)
  finish_change-Made version (files, held, ok u) receipt there p =
      let (receipt', same, kept) = finish-ok version held (some receipt) p in
      let named : receipt' ≡ receipt = ground arith in
      (
        there u refl,
        subst (λ t. Retained t (finish h codec o root c content store ignored version held).0) named
            kept,
      )

  after_pending-Made :
      (version : Text) (exchange : Bool) (journal : Files × Result (Unit {0})) (receipt : Text)
      → (after_pending h codec o root c content store ignored version exchange journal).2
        ≡ ok (some receipt)
      → Made receipt (after_pending h codec o root c content store ignored version exchange journal)
  unfolding after_pending change_tree
  after_pending-Made version exchange (held, err e) receipt p = absurd (ground arith)
  after_pending-Made version exchange (held, ok _) receipt p =
      finish_change-Made version _ receipt
        (λ u made.
          change_tree_to-ok h codec o root c content store ignored c.new version exchange held u
            made)
        p

  prepare-intact :
      (held : Files) (ready : Option (Bool × Text)) (new : Fingerprint)
      → prepare h codec o root c content store ignored held ≡ ok ready
      → c.new ≡ some new
      → fingerprint h (unwrap_or [] content) new.mode ≡ new
  unfolding prepare
  prepare-intact held ready new e is_new =
      let (_, _, rest) = >>=-eq-ok (ensure_writable store) _ e in
      let (_, _, rest') = >>=-eq-ok (check_recovery_except h codec ignored held) _ rest in
      let (u, checked, _) = >>=-eq-ok (check_content h c.new content) _ rest' in
      check_content-ok h new content u
        (subst (λ n. check_content h n content ≡ ok u) is_new checked)

  carry_out-Made :
      (held : Files) (ready : Result (Option (Bool × Text))) (receipt : Text)
      → prepare h codec o root c content store ignored held ≡ ready
      → (carry_out h codec o root c content store ignored held ready).2 ≡ ok (some receipt)
      → Made receipt (carry_out h codec o root c content store ignored held ready)
        × ((new : Fingerprint)
            → c.new ≡ some new
            → fingerprint h (unwrap_or [] content) new.mode ≡ new)
  unfolding carry_out
  carry_out-Made held (err e) receipt p q = absurd (ground arith)
  carry_out-Made held (ok none) receipt p q = absurd (ground arith)
  carry_out-Made held (ok (some (exchange, version))) receipt p q = (
    after_pending-Made version exchange _ receipt q,
    λ new is_new. prepare-intact held _ new p is_new,
  )

  -- A change that reports a receipt has been made: the path holds the new content, which is what
  -- the new fingerprint is of, or nothing where the change deletes; no other path has changed; and
  -- where a version was displaced, the receipt names it, it is held, and it is the version
  -- expected.
  pub apply_locked-Applied :
      (held files held' : Files) (receipt : Text)
      → apply_locked h codec o root c content store ignored held ≡ (files, held', ok (some receipt))
      → Applied receipt files held'
  unfolding apply_locked Made Retained
  apply_locked-Applied held files held' receipt e =
      let (made, intact) =
        carry_out-Made held (prepare h codec o root c content store ignored held) receipt refl
          (ap (λ t. t.2) e) in
      let changed_here = made.0 in
      record {
        in_place = ap (get c.path) (ap (λ t. t.0) (sym e)) ∙ changed_here.0;
        intact = intact;
        elsewhere = λ path n. ap (get path) (ap (λ t. t.0) (sym e)) ∙ changed_here.1 path n;
        displaced = subst (Retained receipt) (ap (λ t. t.1) e) made.1;
      }
