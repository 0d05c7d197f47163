-- ===== src/Pin/Apply/Changed.antt =====
-- pin.rs, `apply_locked`: the path after a rename that succeeds.
use clix.Error.{Result, err, ok, ok-injective, ◌>>◌}
use clix.Prelude.{
  Bool, List, Option, Text, [], ap, arith, false, get, get-insert-other, get-insert-same,
  get-remove-other, get-remove-same, insert, none, refl, remove, some, sym, true, unwrap_or, ℕ, ◌∙◌,
  ◌≡◌,
}
use clix.State.{Fingerprint, Host, Store}
use clix.Pin.{Change, Fingerprint-discrete}
use clix.Pin.Tree.{Files, Node, fingerprint, regular}
use clix.Pin.Rename.{Outside, exchanged, moved, publish, withdraw}
use clix.Pin.Guards.{check_content}
use clix.Pin.Recovery.{Codec}
use clix.Pin.Recovery.Write.{and_then-ok, create_new}
use clix.Pin.Apply.{change_tree_to, publish_staged, stage_file}

-- The node that a change leaves at its path.
abbrev pub changed_to : Option Fingerprint → Option Text → Option Node
changed_to none content = none
changed_to (some new) content =
    some (regular (record { bytes = unwrap_or [] content; mode = new.mode }))

pub check_content-ok :
    (h : Host) (new : Fingerprint) (content : Option Text) (u : Unit {0})
    → check_content h (some new) content ≡ ok u
    → fingerprint h (unwrap_or [] content) new.mode ≡ new
unfolding check_content
check_content-ok h new none u e = absurd (ground arith)
check_content-ok h new (some bytes) u e =
    elim (Fingerprint-discrete (fingerprint h bytes new.mode) new) [
      | yes same ↦ same
      | no n ↦ absurd (ground arith)
    ]

exchanged-ok :
    (o : Outside) (path version : Text) (node : Node) (held : Files) (exchange : Bool)
    (found : Option Node) (r : Result (Unit {0})) (u : Unit {0})
    → let after = exchanged o path version node held exchange found r in
      after.2 ≡ ok u → after.0 ≡ insert path node o.at_rename
unfolding exchanged
exchanged-ok o path version node held exchange found (err e) u p = absurd (ground arith)
exchanged-ok o path version node held true none (ok _) u p = absurd (ground arith)
exchanged-ok o path version node held true (some old) (ok _) u p = refl
exchanged-ok o path version node held false none (ok _) u p = refl
exchanged-ok o path version node held false (some old) (ok _) u p = absurd (ground arith)

moved-ok :
    (o : Outside) (path version : Text) (held : Files) (taken found : Option Node)
    (r : Result (Unit {0})) (u : Unit {0})
    → let after = moved o path version held taken found r in
      after.2 ≡ ok u → after.0 ≡ remove path o.at_rename
unfolding moved
moved-ok o path version held taken found (err e) u p = absurd (ground arith)
moved-ok o path version held (some _) found (ok _) u p = absurd (ground arith)
moved-ok o path version held none none (ok _) u p = absurd (ground arith)
moved-ok o path version held none (some old) (ok _) u p = refl

module _ (h : Host) (codec : Codec) (o : Outside) (root : Text) (c : Change) (content : Option Text)
    (store : Store) (ignored : List Text) where
  stage_file-ok :
      (version : Text) (mode : ℕ) (bytes : Text) (held : Files) (node : Node)
      → (stage_file h codec o root c content store ignored version mode bytes held).1 ≡ ok node
      → node ≡ regular (record { bytes = bytes; mode = mode })
  unfolding stage_file
  stage_file-ok version mode bytes held node e =
      let (_, _, rest, _) = and_then-ok (held, create_new o.create version held) _ node e in
      let (_, _, rest', _) =
        and_then-ok (insert version _ held, o.write >> o.permissions) _ node rest in
      let (_, _, rest'', _) =
        and_then-ok (insert version _ (insert version _ held), o.sync) _ node rest' in
      sym (ok-injective rest'')

  publish_staged-ok :
      (version : Text) (exchange : Bool) (staged : Files × Result Node) (u : Unit {0})
      → let after = publish_staged h codec o root c content store ignored version exchange staged in
        after.2 ≡ ok u
        → (node : Node) × (staged.1 ≡ ok node) × (after.0 ≡ insert c.path node o.at_rename)
  unfolding publish_staged publish
  publish_staged-ok version exchange (held, err e) u p = absurd (ground arith)
  publish_staged-ok version exchange (held, ok node) u p = (
    node,
    refl,
    exchanged-ok o c.path version node held exchange (get c.path o.at_rename) o.rename u p,
  )

  -- The rename has changed this path only.
  abbrev pub ChangedTo : Option Fingerprint → Files → Type 0
  ChangedTo new files =
      (get c.path files ≡ changed_to new content)
      × ((path : Text) → ¬ (c.path ≡ path) → get path files ≡ get path o.at_rename)

  pub change_tree_to-ok :
      (new : Option Fingerprint) (version : Text) (exchange : Bool) (held : Files) (u : Unit {0})
      → let after =
          change_tree_to h codec o root c content store ignored new version exchange held in
        after.2 ≡ ok u → ChangedTo new after.0
  unfolding change_tree_to withdraw
  change_tree_to-ok none version exchange held u p =
      let gone =
        moved-ok o c.path version held (get version held) (get c.path o.at_rename) o.rename u p in
      (
        ap (get c.path) gone ∙ get-remove-same c.path o.at_rename,
        λ path n. ap (get path) gone ∙ get-remove-other c.path path o.at_rename n,
      )
  change_tree_to-ok (some new) version exchange held u p =
      let (node, staged, put) = publish_staged-ok version exchange _ u p in
      let same = stage_file-ok version new.mode (unwrap_or [] content) held node staged in
      (
        ap (get c.path) put ∙ (get-insert-same c.path node o.at_rename ∙ ap some same),
        λ path n. ap (get path) put ∙ get-insert-other c.path path node o.at_rename n,
      )
