-- ===== src/History/Facts.antt =====
-- history.rs: what a published fact may say, and who may sign it.
use clix.Types.{
  BodyId, JobStatus, failed, job_eq, queued, schedule_eq, status_eq, waiting_body, waiting_capacity,
  weekday_eq,
}
use clix.Error.{Result, err, ok, protocol, refuse_if, ◌>>=◌, ◌>>◌}
use clix.Prelude.{
  Bool, Option, Text, all, false, int_eq, is_some, leb, length, ltb, nat_eq, none, not, some, text,
  text_eq, texts_eq, true, ℕ, ◌!=◌, ◌&&◌, ◌==◌, ◌||◌,
}
use clix.Limits
use clix.History.{
  Certificate, Fact, Invocation, OutputRef, Record, Role, SignedFact, captured_output_eq,
  certificate_eq, legacy_observer, origin, output_ref_eq, role_eq, runner, signed_fact_eq,
}
use clix.History.Keys.{
  fact_bytes, invocation_hash, known_key, stream_bytes, validate_invocation, verify,
}
use clix.State.{Host, Store}

is_hex_digit : ℕ → Bool
is_hex_digit b = leb 48 b && leb b 57 || leb 65 b && leb b 70 || leb 97 b && leb b 102

-- A digest of 64 hexadecimal digits, of a stream within its limit.
unfoldable pub check_output : OutputRef → Result (Unit {0})
unfolding is_hex_digit
check_output o =
    refuse_if (ltb stream_bytes o.bytes || length o.sha256 != 64 || not (all is_hex_digit o.sha256))
      (protocol (text "invalid history output digest or size"))

-- What an origin may say of its own delivery.
unfoldable pub is_origin_status : JobStatus → Bool
is_origin_status queued = true
is_origin_status waiting_body = true
is_origin_status waiting_capacity = true
is_origin_status (failed _) = true
is_origin_status _ = false

-- What a runner never says.
unfoldable pub is_waiting : JobStatus → Bool
is_waiting queued = true
is_waiting waiting_body = true
is_waiting waiting_capacity = true
is_waiting _ = false

module _ (h : Host) where
  -- The key that must have signed, by the fact's role.
  fact_key : Store → Invocation → Fact → Role → Result Text
  fact_key s i f origin = do
    refuse_if
        (is_some i.legacy_observer
          || not (is_origin_status f.status)
          || f.stdout.bytes != 0
          || f.stderr.bytes != 0)
        (protocol (text "origin cannot publish a runner outcome"))
    ok i.origin_key
  fact_key s i f runner = do
    refuse_if (is_some i.legacy_observer || is_waiting f.status)
        (protocol (text "invalid runner fact"))
    ok i.runner_key
  fact_key s i f legacy_observer = elim i.legacy_observer [
    | none ↦ err (protocol (text "missing legacy observer"))
    | some observer ↦ known_key h s observer
  ]

  unfoldable pub validate_fact : Store → Certificate → SignedFact → Role → Result (Unit {0})
  unfolding fact_key
  validate_fact s c signed role = do
    let f = signed.fact
    refuse_if (f.role != role || f.invocation != invocation_hash h c || f.revision == 0)
        (protocol (text "history fact is bound to a different invocation or role"))
    check_output f.stdout
    check_output f.stderr
    key ← fact_key s c.invocation f role
    Limits.status f.status
    verify h (fact_bytes h f) signed.signature key

  validate_optional : Store → Certificate → Option SignedFact → Role → Result (Unit {0})
  validate_optional s c none role = ok tt
  validate_optional s c (some f) role = validate_fact s c f role

  validate_facts : Store → Record → Option BodyId → Result (Unit {0})
  unfolding validate_optional
  validate_facts s r none = do
    validate_optional s r.certificate r.origin origin
    validate_optional s r.certificate r.runner runner
  validate_facts s r (some _) = do
    refuse_if (is_some r.runner)
        (protocol (text "legacy history is an observation, not a runner signature"))
    validate_optional s r.certificate r.origin legacy_observer

  unfoldable pub validate_record : Store → Record → Result (Unit {0})
  unfolding validate_facts
  validate_record s r = do
    validate_invocation h s r.certificate
    validate_facts s r r.certificate.invocation.legacy_observer
