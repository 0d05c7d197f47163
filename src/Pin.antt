-- ===== src/Pin.antt =====
-- pin.rs: content-based replication of one directory between two machines. This file holds its
-- records, constants and errors.
pub mod Plan
pub mod Hex
pub mod Tree
pub mod Recovery
pub mod Rename
pub mod Guards
pub mod Apply
pub mod Scan
pub mod Serve
use clix.Error.{ClixError, Result, err, ok, pin_conflict, protocol, refuse_if, usage, ◌>>=◌, ◌>>◌}
use clix.Prelude.{
  Bool, Eq, List, Map, Option, Text, [], any, false, get, hex, if◌then◌else◌, int_eq, is_empty,
  length, ltb, map, nat_eq, not, retain, split_on, text, text_eq, texts_eq, unwrap_or, ℕ,
  ℕ_discrete, ◌++◌, ◌==◌, ◌||◌, ◌∷◌,
}
use clix.State.{Fingerprint, Store}
use clix.Types.{
  bodies_eq, bool_eq, job_eq, patterns_eq, schedule_eq, status_eq, time_eq, weekday_eq,
}

abbrev pub recovery : Text
recovery = text ".clix-recovery"

abbrev pub max_file : ℕ
max_file = 16777216

abbrev pub max_recovery_bytes : ℕ
max_recovery_bytes = 268435456

abbrev pub max_recovery_entries : ℕ
max_recovery_entries = 4096

abbrev pub recovery_reserve : ℕ
recovery_reserve = 1048576

abbrev pub max_pin_entries : ℕ
max_pin_entries = 4096

unfoldable pub Fingerprint-discrete : Discrete Fingerprint
Fingerprint-discrete = hlevel ℕ_discrete

instance abbrev pub fingerprint_eq : Eq Fingerprint
fingerprint_eq = record { dec = Fingerprint-discrete }

-- What is known of one path: its fingerprint, if it is there.
unfoldable pub Version-discrete : Discrete (Option Fingerprint)
Version-discrete = hlevel ℕ_discrete

instance abbrev pub version_eq : Eq (Option Fingerprint)
version_eq = record { dec = Version-discrete }

abbrev pub Manifest : Type 0
Manifest = Map Fingerprint

unfoldable pub Manifest-discrete : Discrete Manifest
Manifest-discrete = hlevel ℕ_discrete

instance abbrev pub manifest_eq : Eq Manifest
manifest_eq = record { dec = Manifest-discrete }

pub record Listing : Type 0 where
  pub files : Manifest
  pub baseline_of : Manifest

pub record Change : Type 0 where
  pub path : Text
  pub expected : Option Fingerprint
  pub new : Option Fingerprint
  pub to_remote : Bool

-- Pin is opt-in per machine.
unfoldable pub ensure_enabled : Store → Result (Unit {0})
ensure_enabled s =
    refuse_if (not s.pin_enabled)
      (usage (text "pin is off on " ++ (s.body_name ++ text "; enable it there with clix pin on")))

unfoldable pub conflict : Text → Text → Text → ClixError
conflict path a b = pin_conflict (text "src/" ++ path) a b

unfoldable pub changed : Text → ClixError
changed path = pin_conflict (text "src/" ++ path) (text "scanned version") (text "current version")

-- `.git` and what is in it is not synchronised.
unfoldable pub excluded : Text → Bool
excluded rel = any (λ part. part == text ".git") (split_on b'/' rel)

-- `Path::components` of a text has a root, a current directory or a parent directory among them.
unfoldable pub is_special : Text → Bool
is_special rel =
    elim (split_on b'/' rel) [ [] ↦ false | first ∷ rest ↦ is_empty first || first == text "." ]
    || any (λ part. part == text "..") (split_on b'/' rel)

unfoldable pub valid_path : Text → Result (Unit {0})
unfolding is_special
valid_path rel =
    refuse_if
      (is_empty rel
        || (is_special rel || (any (λ c. c == recovery) (split_on b'/' rel) || excluded rel)))
      (protocol (text "invalid pin path"))

unfoldable pub without_excluded : Manifest → Manifest
without_excluded m = retain (λ e. not (excluded e.0)) m

-- What this machine recorded when it last synchronised with the peer of this key.
unfoldable pub baseline : Store → Text → Manifest
baseline s peer = without_excluded (unwrap_or [] (get (hex peer) s.pin_index.peers))

unfoldable pub common_baseline : Manifest → Manifest → Manifest → Manifest → Result Manifest
common_baseline a b mine theirs =
    if a == b
    then ok a
    else if mine == theirs
    then ok mine
    else err (conflict (text "(sync baseline)") (text "local baseline") (text "peer baseline"))

unfoldable pub check_paths : List Text → Result (Unit {0})
check_paths [] = ok tt
check_paths (p ∷ ps) = valid_path p >> check_paths ps

unfoldable pub keys_of : Manifest → List Text
keys_of m = map (λ e. e.0) m

unfoldable pub validate_listing : Listing → Result Listing
unfolding check_paths keys_of
validate_listing list = do
  refuse_if
      (ltb max_pin_entries (length list.files) || ltb max_pin_entries (length list.baseline_of))
      (protocol (text "peer pin listing exceeds 4096 entries"))
  let cleaned : Listing = record {
    files = without_excluded list.files;
    baseline_of = without_excluded list.baseline_of;
  }
  check_paths (keys_of cleaned.files ++ keys_of cleaned.baseline_of)
  ok cleaned

unfoldable pub pin_root : Text → Store → Text
pin_root default s = unwrap_or default s.pin_dir
