-- ===== src/Pin/Recovery.antt =====
-- pin.rs, `.clix-recovery`: the versions that synchronisation displaced, and the receipts that say
-- where they come from.
use clix.Storage.Charge.{sat_add}
use clix.Types.{
  bodies_eq, bool_eq, job_eq, patterns_eq, schedule_eq, status_eq, time_eq, weekday_eq,
}
pub mod Check
pub mod Write
use clix.Error.{ClixError, Result, err, ok, protocol, refuse_if, usage, ◌>>=◌, ◌>>◌}
use clix.Prelude.{
  Bool, Eq, Option, Text, [], decimal, ends_with, get, if◌then◌else◌, inl, inr, int_eq,
  is_component, is_empty, length, ltb, nat_eq, none, not, retain, some, split_on, text, text_eq,
  texts_eq, ℕ, ℕ_discrete, ◌!=◌, ◌&&◌, ◌++◌, ◌==◌, ◌||◌, ◌∷◌, ◌⊎◌,
}
use clix.State.{Fingerprint}
use clix.Pin.{
  fingerprint_eq, is_special, manifest_eq, max_recovery_bytes, max_recovery_entries,
  recovery_reserve, valid_path, version_eq,
}
use clix.Pin.Tree.{File, Files, Node, other, regular}

pub data RecoveryState : Type 0 where
  pending retained resolved discarding : RecoveryState

unfoldable pub RecoveryState-discrete : Discrete RecoveryState
RecoveryState-discrete = hlevel ℕ_discrete

instance abbrev pub recovery_state_eq : Eq RecoveryState
recovery_state_eq = record { dec = RecoveryState-discrete }

pub record RecoveryReceipt : Type 0 where
  pub path : Text
  pub expected : Option Fingerprint
  pub replacement : Option Fingerprint
  pub version : Text
  pub state : RecoveryState
  pub source_receipt : Option Text
  pub discard_token : Option Text

-- Receipts as JSON, which the program takes from another crate: printing one, the path and the state
-- that any JSON value names, and reading one back. `inl` is the parser's complaint.
pub record Codec : Type 0 where
  pub print : RecoveryReceipt → Text
  pub fields : Text → Text ⊎ (Option Text × Option Text)
  pub receipt : Text → Text ⊎ RecoveryReceipt

abbrev pub max_receipt : ℕ
max_receipt = 65536

abbrev pub recovery_lock : Text
recovery_lock = text ".lock"

unfoldable pub valid_recovery_name : Text → Result (Unit {0})
unfolding is_special
valid_recovery_name name =
    refuse_if
      (is_empty name
        || (ltb 200 (length name)
            || (name == recovery_lock
                || (is_special name || length (retain is_component (split_on b'/' name)) != 1))))
      (protocol (text "invalid recovery ID"))

unfoldable pub size_of : Node → ℕ
size_of (regular f) = length f.bytes
size_of (other size) = size

usage_from : Files → ℕ → ℕ → Result (ℕ × ℕ)
usage_from [] bytes entries = ok (bytes, entries)
usage_from ((name, node) ∷ held) bytes entries = do
  valid_recovery_name name
  usage_from held (sat_add bytes (size_of node)) (sat_add entries 1)

-- The bytes and the count of what is held.
unfoldable pub recovery_usage : Files → Result (ℕ × ℕ)
unfolding usage_from
recovery_usage held = usage_from held 0 0

unfoldable pub admit_recovery : Files → ℕ → ℕ → Result (Unit {0})
admit_recovery held extra_bytes extra_entries = do
  used ← recovery_usage held
  refuse_if
      (ltb max_recovery_bytes (sat_add (sat_add used.0 extra_bytes) recovery_reserve)
        || ltb max_recovery_entries (sat_add (sat_add used.1 extra_entries) 8))
      (ClixError.usage (
        text "pin recovery capacity reached ("
        ++ (decimal used.0
            ++ (text " bytes, "
                ++ (decimal used.1 ++ text " entries); review retained versions before syncing")))))

unfoldable pub open_internal : Files → Text → Result (Option File)
open_internal held name = valid_recovery_name name >> elim (get name held) [
  | none ↦ ok none
  | some (other _) ↦ err (protocol (text "recovery entries must be regular files"))
  | some (regular f) ↦ ok (some f)
]

unfoldable pub read_internal : Files → Text → ℕ → Result Text
read_internal held name max = do
  opened ← open_internal held name
  elim opened [
    | none ↦ err (ClixError.usage (text "recovery version is absent"))
    | some f ↦
        if ltb max (length f.bytes)
        then err
            (ClixError.usage (text "recovery read exceeds the supported size; data was preserved"))
        else ok f.bytes
  ]

unfoldable pub is_json : Text → Bool
is_json name = ends_with (text ".json") name

unfoldable pub described : {T : Type 0} → Text → Text ⊎ T → Result T
described name (inl complaint) =
    err (protocol (text "invalid recovery receipt " ++ (name ++ (text ": " ++ complaint))))
described name (inr t) = ok t

-- What a receipt of this machine's must satisfy.
check_receipt_fields : RecoveryReceipt → Result RecoveryReceipt
check_receipt_fields r = do
  if not (is_empty r.path) || r.state != discarding then valid_path r.path else ok tt
  valid_recovery_name r.version
  refuse_if
      (is_json r.version && not (r.state == discarding && is_empty r.path)
        || ends_with (text ".tmp") r.version && r.state != discarding)
      (protocol (text "recovery version must name a data file"))
  ok r

unfoldable pub parse_receipt : Codec → Text → Text → Result RecoveryReceipt
unfolding described check_receipt_fields
parse_receipt codec raw name = do
  receipt ← described name (codec.receipt raw)
  check_receipt_fields receipt
