-- ===== src/History/Keys.antt =====
-- history.rs: identities and signatures. What is signed is the domain, the kind, a zero byte and
-- the value's JSON.
use clix.Types.{
  BodyId, Job, Peer, bodies_eq, bool_eq, job_eq, patterns_eq, schedule_eq, status_eq, time_eq,
  weekday_eq,
}
use clix.Error.{Result, err, ok, protocol, refuse_if, ◌>>=◌, ◌>>◌}
use clix.Prelude.{
  Bool, Option, Text, [], false, find, get, hex, if◌then◌else◌, int_eq, is_some, length, nat_eq,
  none, not, some, text, text_eq, texts_eq, true, ℕ, ◌!=◌, ◌&&◌, ◌++◌, ◌==◌, ◌||◌, ◌∷◌,
}
use clix.Limits
use clix.History.{
  CapturedOutput, Certificate, Fact, History, Invocation, OutputRef, captured_output_eq,
  certificate_eq, output_ref_eq, role_eq, signed_fact_eq,
}
use clix.State.{Host, Store, next_u64}

abbrev pub stream_bytes : ℕ
stream_bytes = 4194304

domain : Text
domain = text "Clix history v1" ++ (0 ∷ [])

signed_bytes : Text → Text → Text
unfolding domain
signed_bytes kind value = domain ++ (kind ++ (0 ∷ value))

unfoldable pub matches_job : Certificate → Job → Bool
matches_job c j =
    c.invocation.id == j.id
    && c.invocation.from == j.from
    && c.invocation.body == j.body
    && c.invocation.argv == j.argv

unfoldable pub next_change : History → Result (ℕ × History)
next_change history = elim (next_u64 history.clock) [
  | none ↦ err (protocol (text "history sequence exhausted"))
  | some n ↦ ok (n, record history { clock = n })
]

module _ (h : Host) where
  -- `Sha256::digest`, in hexadecimal.
  unfoldable pub hash : Text → Text
  hash bytes = hex (h.digest bytes)

  -- `OutputRef::of`.
  unfoldable pub output_ref : Text → OutputRef
  output_ref bytes = record { bytes = length bytes; sha256 = hash bytes }

  unfoldable pub invocation_bytes : Invocation → Text
  unfolding signed_bytes
  invocation_bytes i = signed_bytes (text "invocation") (h.json_invocation i)

  unfoldable pub fact_bytes : Fact → Text
  unfolding signed_bytes
  fact_bytes f = signed_bytes (text "fact") (h.json_fact f)

  unfoldable pub invocation_hash : Certificate → Text
  invocation_hash c = hash (invocation_bytes c.invocation)

  unfoldable pub signing_key : Store → Result Text
  signing_key s =
      if length s.owner_sk == 32
      then ok s.owner_sk
      else err (protocol (text "invalid local history identity"))

  unfoldable pub public_key : Store → Result Text
  public_key s = do key ← signing_key s; ok (h.public_of key)

  unfoldable pub known_key : Store → BodyId → Result Text
  known_key s name =
      if name == s.body_name then public_key s else elim (find (λ p. p.name == name) s.peers) [
        | some p ↦ ok p.owner_pk
        | none ↦ err (protocol (text "history includes an author that is not explicitly paired"))
      ]

  unfoldable pub verify : Text → Text → Text → Result (Unit {0})
  verify message sig key = do
    refuse_if (length key != 32) (protocol (text "invalid history public key"))
    refuse_if (not (h.is_point key)) (protocol (text "invalid history public key"))
    refuse_if (not (h.is_signature sig)) (protocol (text "invalid history signature length"))
    refuse_if (not (h.verify_strict key message sig))
        (protocol (text "history signature did not verify"))

  unfoldable pub check_retry : Invocation → Option Text → Result (Unit {0})
  check_retry i none = ok tt
  check_retry i (some id) = do
    Limits.identifier id
    refuse_if (id == i.id) (protocol (text "a retry must have a new job ID"))

  -- Whose signature an invocation needs.
  unfoldable pub signer : Store → Invocation → Option BodyId → Result Text
  signer s i none = do
    from_key ← known_key s i.from
    refuse_if (from_key != i.origin_key)
        (protocol (text "history identity differs from the paired key"))
    body_key ← known_key s i.body
    refuse_if (body_key != i.runner_key)
        (protocol (text "history identity differs from the paired key"))
    ok i.origin_key
  signer s i (some observer) =
      if observer == i.from || observer == i.body
      then (do
        key ← known_key s observer
        refuse_if ((if observer == i.from then i.origin_key else i.runner_key) != key)
            (protocol (text "legacy observer identity differs from its paired key"))
        ok key)
      else err (protocol (text "legacy observer was not a job participant"))

  unfoldable pub validate_invocation : Store → Certificate → Result (Unit {0})
  unfolding check_retry signer
  validate_invocation s c = do
    Limits.invocation c.invocation.id c.invocation.argv
    check_retry c.invocation c.invocation.retry_of
    key ← signer s c.invocation c.invocation.legacy_observer
    verify (invocation_bytes c.invocation) c.signature key

  unfoldable pub authorize_execution : Store → Peer → Certificate → Result (Unit {0})
  authorize_execution s peer c = do
    validate_invocation s c
    refuse_if
        (is_some c.invocation.legacy_observer
          || c.invocation.from != peer.name
          || c.invocation.origin_key != peer.owner_pk
          || c.invocation.body != s.body_name)
        (protocol (text "history relay is not execution authority"))
    key ← public_key s
    refuse_if (c.invocation.runner_key != key)
        (protocol (text "history relay is not execution authority"))

  -- A key that is not known is left empty in a legacy certificate.
  key_for : Store → BodyId → Bool → Result Text
  key_for s name false = known_key s name
  key_for s name true = elim (known_key s name) [ ok k ↦ ok k | err _ ↦ ok [] ]

  unfoldable pub certificate : Store → Job → Bool → Result Certificate
  unfolding key_for
  certificate s job legacy = do
    origin_key ← key_for s job.from legacy
    runner_key ← key_for s job.body legacy
    let invocation : Invocation = record {
      id = job.id;
      from = job.from;
      origin_key = origin_key;
      body = job.body;
      runner_key = runner_key;
      argv = job.argv;
      retry_of = get job.id s.retry_links;
      legacy_observer = if legacy then some s.body_name else none;
    }
    key ← signing_key s
    ok (record { invocation = invocation; signature = h.sign key (invocation_bytes invocation) })

  unfoldable pub output_matches : CapturedOutput → Fact → Bool
  output_matches o f = output_ref o.stdout == f.stdout && output_ref o.stderr == f.stderr
