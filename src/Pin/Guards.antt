-- ===== src/Pin/Guards.antt =====
-- pin.rs, `Tree::apply_locked`: what a change must satisfy besides finding what it expects.
use clix.Error.{Result, err, ok, protocol, refuse_if, ◌>>=◌, ◌>>◌}
use clix.Prelude.{
  List, Option, Text, [], int_eq, is_component, ltb, nat_eq, none, retain, some, split_on, text,
  text_eq, texts_eq, unwrap_or, ◌!=◌, ◌++◌, ◌==◌, ◌||◌, ◌∷◌,
}
use clix.Types.{
  Grant, bodies_eq, bool_eq, job_eq, patterns_eq, schedule_eq, status_eq, time_eq, weekday_eq,
}
use clix.State.{Fingerprint, Host}
use clix.Pin.{fingerprint_eq, manifest_eq, version_eq}
use clix.Pin.Tree.{fingerprint}
use clix.Pin.Rename.{Outside}

-- No change replaces an executable that is granted here.
unfoldable pub check_grants : Outside → Text → List Grant → Result (Unit {0})
check_grants o destination [] = ok tt
check_grants o destination (g ∷ grants) = do
  absolute ← o.absolute g.binary
  let binary = unwrap_or absolute (o.canonicalize g.binary)
  refuse_if
      (retain is_component (split_on b'/' binary)
        == retain is_component (split_on b'/' destination))
      (protocol (
        text "pin would replace granted binary "
        ++ (g.tool
            ++ text
                ". Remove its grant on this machine before syncing, then review and add it again.")))
  check_grants o destination grants

-- The content is the one that the new fingerprint is of.
unfoldable pub check_content : Host → Option Fingerprint → Option Text → Result (Unit {0})
check_content h none content = ok tt
check_content h (some new) none = err (protocol (text "pin content missing"))
check_content h (some new) (some data_bytes) =
    refuse_if (ltb 511 new.mode || fingerprint h data_bytes new.mode != new)
      (protocol (text "invalid pin content hash or mode"))
