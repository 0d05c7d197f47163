-- ===== src/Pin/Scan.antt =====
-- pin.rs, `Tree::scan`: the manifest of a tree.
use clix.Types.{
  bodies_eq, bool_eq, job_eq, patterns_eq, schedule_eq, status_eq, time_eq, weekday_eq,
}
pub mod Bounds
use clix.Error.{ClixError, Result, err, ok, protocol, refuse_if, usage, ◌>>=◌, ◌>>◌}
use clix.Prelude.{
  Option, Text, if◌then◌else◌, insert, int_eq, is_empty, leb, length, ltb, nat_eq, none, not, some,
  split_on, text, text_eq, texts_eq, ℕ, ◌&&◌, ◌++◌, ◌+◌, ◌==◌, ◌||◌, ◌∷◌,
}
use clix.State.{Fingerprint, Host}
use clix.Pin.{
  Manifest, changed, excluded, fingerprint_eq, manifest_eq, max_pin_entries, recovery, valid_path,
  version_eq,
}
use clix.Pin.Tree.{File, read_node, regular}

-- A directory's entries in the order in which the system lists them, `.` and `..` apart, with their
-- names, or `none` where a name is not UTF-8.
mutual
  pub data Entry : Type 0 where
    file : File → Entry
    directory : Entries → Entry
    special : Entry

  pub data Entries : Type 0 where
    end : Entries
    entry : (name : Option Text) → Entry → Entries → Entries

unfoldable pub child_path : Text → Text → Text
child_path prefix name = if is_empty prefix then name else prefix ++ (b'/' ∷ name)

unfoldable pub too_large : ClixError
too_large = usage (text "pin tree exceeds 4096 entries or 64 directories of depth")

unfoldable pub found_file :
    Text → Manifest × ℕ → Option (Fingerprint × Text) → Result (Manifest × ℕ)
found_file path (out, count) none = err (changed path)
found_file path (out, count) (some v) = ok (insert path v.0 out, count)

module _ (h : Host) where
  unfoldable pub scan_file : Text → File → Manifest × ℕ → Result (Manifest × ℕ)
  scan_file path f state = do
    valid_path path
    found ← read_node h path (some (regular f))
    found_file path state found

  unfoldable mutual
    pub scan_entry : Text → Entry → Manifest × ℕ → Result (Manifest × ℕ)
    scan_entry path (file f) state = scan_file path f state
    scan_entry path (directory d) state = scan_dir d path state
    scan_entry path special state =
        err (protocol (text "unsupported pin entry (symlink or special file): " ++ path))

    -- One level, from the manifest and the count so far.
    pub scan_dir : Entries → Text → Manifest × ℕ → Result (Manifest × ℕ)
    scan_dir end prefix state = ok state
    scan_dir (entry none node rest) prefix state =
        err (protocol (text "pin requires UTF-8 filenames"))
    scan_dir (entry (some name) node rest) prefix (out, count) =
        if is_empty prefix && name == recovery then scan_dir rest prefix (out, count) else do
          refuse_if
              (ltb max_pin_entries (count + 1)
                || not (is_empty prefix) && leb 64 (length (split_on b'/' prefix)))
              too_large
          next ←
              (if excluded (child_path prefix name)
                then ok (out, count + 1)
                else scan_entry (child_path prefix name) node (out, count + 1))
          scan_dir rest prefix next
