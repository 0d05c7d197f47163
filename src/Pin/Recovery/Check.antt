-- ===== src/Pin/Recovery/Check.antt =====
-- pin.rs, `check_recovery_except`: whether what is held lets a synchronisation go on.
use clix.Types.{
  bodies_eq, bool_eq, job_eq, patterns_eq, schedule_eq, status_eq, time_eq, weekday_eq,
}
use clix.Error.{ClixError, Result, err, ok, refuse_if, ◌>>=◌, ◌>>◌}
use clix.Prelude.{
  Bool, List, Map, Option, Text, [], any, false, if◌then◌else◌, insert, int_eq, length, ltb, map,
  nat_eq, none, not, some, text, text_eq, texts_eq, unwrap_or, ◌!=◌, ◌&&◌, ◌++◌, ◌+◌, ◌==◌, ◌||◌,
  ◌∷◌,
}
use clix.State.{Fingerprint, Host, contains}
use clix.Pin.{
  changed, fingerprint_eq, manifest_eq, max_recovery_bytes, max_recovery_entries, recovery,
  version_eq,
}
use clix.Pin.Tree.{Files, fingerprint}
use clix.Pin.Recovery.{
  Codec, described, is_json, max_receipt, open_internal, parse_receipt, read_internal,
  recovery_state_eq, recovery_usage,
}

is_settled : Option Text → Bool
is_settled none = false
is_settled (some state) = state == text "retained" || state == text "resolved"

held_at : Text → Text
held_at name = recovery ++ (b'/' ∷ name)

recovery_names : Files → Result (List Text)
recovery_names held = do
  refuse_if (ltb (max_recovery_entries + 16) (length held))
      (ClixError.usage (text "recovery directory exceeds its entry limit; no data was deleted"))
  ok (map (λ e. e.0) held)

module _ (h : Host) (codec : Codec) (ignored : List Text) (held : Files) where
  -- `internal_snapshot`, but for the identity of the file.
  snapshot : Text → Result (Option Fingerprint)
  snapshot name = do
    opened ← open_internal held name
    elim opened [ none ↦ ok none | some f ↦ ok (some (fingerprint h f.bytes f.mode)) ]

  check_receipt : Text → Map (Unit {0}) → Result (Map (Unit {0}))
  unfolding snapshot is_settled held_at
  check_receipt name referenced =
      if not (is_json name) || any (λ i. i == name) ignored then ok referenced else do
        raw ← read_internal held name max_receipt
        fields ← described name (codec.fields raw)
        let path = unwrap_or (text "unknown path") fields.0
        refuse_if (not (is_settled fields.1)) (
            changed
              (path ++ (text "; owner must review " ++ (held_at name ++ text " before syncing"))))
        receipt ← parse_receipt codec raw name
        actual ← snapshot receipt.version
        refuse_if (actual != receipt.expected)
            (changed (path ++ (text "; retained version changed, review " ++ held_at name)))
        ok (insert receipt.version tt referenced)

  check_receipts : List Text → Map (Unit {0}) → Result (Map (Unit {0}))
  unfolding check_receipt
  check_receipts [] referenced = ok referenced
  check_receipts (name ∷ names) referenced = do
    referenced' ← check_receipt name referenced
    check_receipts names referenced'

  -- An ignored receipt owns the version that it names.
  owns : Text → Text → Bool
  owns name id = elim (do raw ← read_internal held id max_receipt; parse_receipt codec raw id) [
    | err _ ↦ false
    | ok receipt ↦ receipt.version == name
  ]

  check_data : Map (Unit {0}) → List Text → Result (Unit {0})
  unfolding owns
  check_data referenced [] = ok tt
  check_data referenced (name ∷ names) = do
    refuse_if (not (is_json name || contains name referenced) && not (any (owns name) ignored)) (
        changed
          (text "unreferenced recovery data " ++ (name ++ text "; inspect it before syncing")))
    check_data referenced names

  unfoldable pub check_recovery_except : Result (Unit {0})
  unfolding check_receipts check_data recovery_names
  check_recovery_except = do
    used ← recovery_usage held
    refuse_if (ltb max_recovery_bytes used.0 || ltb max_recovery_entries used.1) (
        ClixError.usage (
          text
            "pin recovery storage is over its limit; use clix pin list and review retained versions"))
    names ← recovery_names held
    referenced ← check_receipts names []
    check_data referenced names
