-- ===== src/Pin/Tree.antt =====
-- pin.rs, the files of a tree as one path shows them: `fingerprint`, `Tree::read`.

use clix.Error.{Result, err, ok, protocol, refuse_if, ◌>>◌}
use clix.Prelude.{Map, Option, Text, get, hex, length, ltb, none, some, text, ℕ, ◌++◌}
use clix.State.{Fingerprint, Host}
use clix.Pin.{max_file, valid_path}

-- A regular file: what it holds, and its permissions (`mode & 0o777`).
pub record File : Type 0 where
  pub bytes : Text
  pub mode : ℕ

-- What a path leads to: a file, or something that pin does not replicate.
pub data Node : Type 0 where
  regular : File → Node
  other : (size : ℕ) → Node

-- The nodes of a tree, by their paths.
abbrev pub Files : Type 0
Files = Map Node

-- The fingerprint alone.
abbrev pub version_of : Option (Fingerprint × Text) → Option Fingerprint
version_of none = none
version_of (some v) = some v.0

module _ (h : Host) where
  unfoldable pub fingerprint : Text → ℕ → Fingerprint
  fingerprint bytes mode = record { hash = hex (h.digest bytes); mode = mode }

  unfoldable pub read_node : Text → Option Node → Result (Option (Fingerprint × Text))
  read_node path none = ok none
  read_node path (some (other _)) =
      err (protocol (text "pin supports regular files only: " ++ path))
  read_node path (some (regular f)) = do
    refuse_if (ltb max_file (length f.bytes)) (protocol (text "pin file exceeds 16 MiB: " ++ path))
    ok (some (fingerprint f.bytes f.mode, f.bytes))

  unfoldable pub read : Files → Text → Result (Option (Fingerprint × Text))
  read files path = valid_path path >> read_node path (get path files)
