-- ===== src/Pin/Apply/Held.antt =====
-- pin.rs, `apply_locked`: what is held in the recovery directory stays there.

use clix.Error.{Result, err, ok}
use clix.Prelude.{
  Bool, Option, Text, Text-discrete, ap, arith, false, get, get-insert-other, get-insert-same,
  get-remove-other, inl, inr, length, length-append, none, some, text, true, ◌++◌, ◌∙◌, ◌≡◌, ◌≢◌,
  ◌⊎◌,
}
use clix.Pin.Tree.{Files, Node}
use clix.Pin.Rename.{Outside, exchanged, moved}
use clix.Pin.Recovery.Write.{create_new, create_new-absent}

pub receipt_name-differs : (version : Text) → version ++ text ".json" ≢ version
unfolding text
receipt_name-differs version e =
    let same = ap length e in omega (arith, length-append version (text ".json"))

-- Where creation succeeds, what was held has another name.
pub create_new-differs :
    (create : Result (Unit {0})) (version : Text) (held : Files) (k : Text) (node : Node)
    (u : Unit {0})
    → get k held ≡ some node
    → create_new create version held ≡ ok u
    → ¬ (version ≡ k)
create_new-differs create version held k node u e made same =
    create_new-absent create version held k node u e same made

pub exchanged-keeps :
    (o : Outside) (path version : Text) (staged : Node) (held : Files) (exchange : Bool)
    (found : Option Node) (r : Result (Unit {0})) (k : Text) (node : Node)
    → ¬ (version ≡ k)
    → get k held ≡ some node
    → get k (exchanged o path version staged held exchange found r).1 ≡ some node
unfolding exchanged
exchanged-keeps o path version staged held exchange found (err e) k node n h = h
exchanged-keeps o path version staged held true none (ok _) k node n h = h
exchanged-keeps o path version staged held true (some old) (ok _) k node n h =
    get-insert-other version k (o.late old) held n ∙ h
exchanged-keeps o path version staged held false none (ok _) k node n h =
    get-remove-other version k held n ∙ h
exchanged-keeps o path version staged held false (some old) (ok _) k node n h = h

pub moved-keeps :
    (o : Outside) (path version : Text) (held : Files) (taken found : Option Node)
    (r : Result (Unit {0})) (k : Text) (node : Node)
    → get version held ≡ taken
    → get k held ≡ some node
    → get k (moved o path version held taken found r).1 ≡ some node
unfolding moved
moved-keeps o path version held taken found (err e) k node t h = h
moved-keeps o path version held (some _) found (ok _) k node t h = h
moved-keeps o path version held none none (ok _) k node t h = h
moved-keeps o path version held none (some old) (ok _) k node t h = elim (Text-discrete version k) [
  | yes same ↦ let there : get version held ≡ some node = rw same h in absurd (ground arith)
  | no n ↦ get-insert-other version k (o.late old) held n ∙ h
]

-- What the rename finds at the path is there afterwards, or it is held.
abbrev pub Displaced : Outside → Text → Text → Node → Files × Files × Result (Unit {0}) → Type 0
Displaced o path version old after =
    (get path after.0 ≡ some old) ⊎ (get version after.1 ≡ some (o.late old))

pub exchanged-Displaced :
    (o : Outside) (path version : Text) (staged : Node) (held : Files) (exchange : Bool)
    (found : Option Node) (r : Result (Unit {0})) (old : Node)
    → get path o.at_rename ≡ some old
    → found ≡ some old
    → Displaced o path version old (exchanged o path version staged held exchange found r)
unfolding exchanged
exchanged-Displaced o path version staged held exchange found (err e) old h f = inl h
exchanged-Displaced o path version staged held true none (ok _) old h f = inl h
exchanged-Displaced o path version staged held true (some old') (ok _) old h f =
    inr (get-insert-same version (o.late old') held ∙ ap (λ n. some (o.late n)) (ground arith))
exchanged-Displaced o path version staged held false none (ok _) old h f = absurd (ground arith)
exchanged-Displaced o path version staged held false (some old') (ok _) old h f = inl h

pub moved-Displaced :
    (o : Outside) (path version : Text) (held : Files) (taken found : Option Node)
    (r : Result (Unit {0})) (old : Node)
    → get path o.at_rename ≡ some old
    → found ≡ some old
    → Displaced o path version old (moved o path version held taken found r)
unfolding moved
moved-Displaced o path version held taken found (err e) old h f = inl h
moved-Displaced o path version held (some _) found (ok _) old h f = inl h
moved-Displaced o path version held none none (ok _) old h f = inl h
moved-Displaced o path version held none (some old') (ok _) old h f =
    inr (get-insert-same version (o.late old') held ∙ ap (λ n. some (o.late n)) (ground arith))
