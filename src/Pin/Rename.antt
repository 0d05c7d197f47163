-- ===== src/Pin/Rename.antt =====
-- pin.rs, `Tree::apply_locked`: the renames between a tree and its recovery directory, and what
-- surrounds them.

use clix.Error.{Result, err, ok}
use clix.Prelude.{Bool, Option, Text, false, get, insert, none, remove, some, true}
use clix.Pin.{changed}
use clix.Pin.Tree.{Files, Node}
use clix.Pin.Recovery.Write.{Writes}

-- What an application meets outside: other programs write the tree at any time, so each look at it
-- finds files of its own, and `late` is what writes through open handles make of a displaced file;
-- paths as the system resolves them; and the outcomes of the system calls.
pub record Outside : Type 0 where
  pub first : Files
  pub second : Files
  pub at_rename : Files
  pub late : Node → Node
  pub canonicalize : Text → Option Text
  pub absolute : Text → Result Text
  pub locked : Result (Unit {0})
  pub parent : Result (Unit {0})
  pub version_random : Result Text
  pub pending_writes : Writes
  pub create : Result (Unit {0})
  pub write : Result (Unit {0})
  pub partial : Text
  pub permissions : Result (Unit {0})
  pub sync : Result (Unit {0})
  pub rename : Result (Unit {0})
  pub sync_dirs : Result (Unit {0})
  pub open_previous : Result (Unit {0})
  pub sync_previous : Result (Unit {0})
  pub settled_writes : Writes
  pub unlink : Result (Unit {0})
  pub sync_unlinked : Result (Unit {0})

refused : Outside → Text → Files → Files × Files × Result (Unit {0})
refused o path held = (o.at_rename, held, err (changed path))

-- The rename of a staged file, where nothing is or in exchange for what is there.
unfoldable pub exchanged :
    Outside
    → Text
    → Text
    → Node
    → Files
    → Bool
    → Option Node
    → Result (Unit {0})
    → Files × Files × Result (Unit {0})
unfolding refused
exchanged o path version node held exchange found (err e) = refused o path held
exchanged o path version node held true none (ok _) = refused o path held
exchanged o path version node held true (some old) (ok _) =
    (insert path node o.at_rename, insert version (o.late old) held, ok tt)
exchanged o path version node held false none (ok _) =
    (insert path node o.at_rename, remove version held, ok tt)
exchanged o path version node held false (some old) (ok _) = refused o path held

-- The files of the tree and of the recovery directory after the staged file was published.
unfoldable pub publish :
    Outside → Text → Text → Node → Bool → Files → Files × Files × Result (Unit {0})
publish o path version node exchange held =
    exchanged o path version node held exchange (get path o.at_rename) o.rename

unfoldable pub moved :
    Outside
    → Text
    → Text
    → Files
    → Option Node
    → Option Node
    → Result (Unit {0})
    → Files × Files × Result (Unit {0})
unfolding refused
moved o path version held taken found (err e) = refused o path held
moved o path version held (some _) found (ok _) = refused o path held
moved o path version held none none (ok _) = refused o path held
moved o path version held none (some old) (ok _) =
    (remove path o.at_rename, insert version (o.late old) held, ok tt)

-- The rename that takes a file out of the tree.
unfoldable pub withdraw : Outside → Text → Text → Files → Files × Files × Result (Unit {0})
withdraw o path version held =
    moved o path version held (get version held) (get path o.at_rename) o.rename
