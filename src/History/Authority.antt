-- ===== src/History/Authority.antt =====
-- history.rs, `authorize_execution`: whose signature lets a command run here.
use clix.Prelude.{
  Option, Text, arith, int_eq, is_some, nat_eq, none, some, subst, text, text_eq, texts_eq, true,
  ◌!=◌, ◌||◌, ◌≡◌,
}
use clix.Types.{
  BodyId, Peer, bodies_eq, bool_eq, job_eq, patterns_eq, schedule_eq, status_eq, time_eq,
  weekday_eq,
}
use clix.Error.{>>=-eq-ok, ok, protocol, refuse_if}
use clix.Limits
use clix.State.{Host, Store}
use clix.History.{
  Certificate, Invocation, captured_output_eq, certificate_eq, output_ref_eq, role_eq,
  signed_fact_eq,
}
use clix.History.Keys.{
  authorize_execution, check_retry, invocation_bytes, public_key, signer, validate_invocation,
  verify,
}

-- The peer itself has signed this command, for this machine, with the key it was paired with.
pub record IsAuthorized (h : Host) (s : Store) (peer : Peer) (c : Certificate) : Type 0 where
  pub modern : c.invocation.legacy_observer ≡ none
  pub from : c.invocation.from ≡ peer.name
  pub body : c.invocation.body ≡ s.body_name
  pub origin_key : c.invocation.origin_key ≡ peer.owner_pk
  pub runner_key : public_key h s ≡ ok c.invocation.runner_key
  pub plain : Limits.invocation c.invocation.id c.invocation.argv ≡ ok tt
  pub signed : h.verify_strict peer.owner_pk (invocation_bytes h c.invocation) c.signature ≡ true

module _ (h : Host) where
  verify-signed :
      (message sig key : Text)
      → verify h message sig key ≡ ok tt
      → h.verify_strict key message sig ≡ true
  unfolding verify
  verify-signed message sig key e = ground arith

  signer-origin :
      (s : Store) (i : Invocation) (o : Option BodyId) (key : Text)
      → o ≡ none
      → signer h s i o ≡ ok key
      → key ≡ i.origin_key
  unfolding signer
  signer-origin s i none key n e = ground arith
  signer-origin s i (some observer) key n e = absurd (cc n)

  validate_invocation-signed :
      (s : Store) (c : Certificate)
      → c.invocation.legacy_observer ≡ none
      → validate_invocation h s c ≡ ok tt
      → (Limits.invocation c.invocation.id c.invocation.argv ≡ ok tt)
        × (h.verify_strict c.invocation.origin_key (invocation_bytes h c.invocation) c.signature
            ≡ true)
  unfolding validate_invocation
  validate_invocation-signed s c n e =
      let i = c.invocation in
      let (_, plain, e₁) = >>=-eq-ok (Limits.invocation i.id i.argv) _ e in
      let (_, _, e₂) = >>=-eq-ok (check_retry h i i.retry_of) _ e₁ in
      let (key, signed_by, e₃) = >>=-eq-ok (signer h s i i.legacy_observer) _ e₂ in
      (
        plain,
        subst (λ k. h.verify_strict k (invocation_bytes h i) c.signature ≡ true)
            (signer-origin s i i.legacy_observer key n signed_by)
            (verify-signed (invocation_bytes h i) c.signature key e₃),
      )

  -- A command that a peer is authorised to run here is one that the peer itself has signed, with
  -- the key it was paired with, for this very machine and its present key; the certificate is no
  -- legacy one.
  pub authorize_execution-IsAuthorized :
      (s : Store) (peer : Peer) (c : Certificate)
      → authorize_execution h s peer c ≡ ok tt
      → IsAuthorized h s peer c
  unfolding authorize_execution
  authorize_execution-IsAuthorized s peer c e =
      let (_, valid, e₁) = >>=-eq-ok (validate_invocation h s c) _ e in
      let i = c.invocation in
      let bad =
        is_some i.legacy_observer
        || i.from != peer.name
        || i.origin_key != peer.owner_pk
        || i.body != s.body_name in
      let (_, terms, e₂) =
        >>=-eq-ok (refuse_if bad (protocol (text "history relay is not execution authority"))) _
          e₁ in
      let (key, own, e₃) = >>=-eq-ok (public_key h s) _ e₂ in
      let modern : i.legacy_observer ≡ none = ground arith in
      let origin : i.origin_key ≡ peer.owner_pk = ground arith in
      let (plain, signed) = validate_invocation-signed s c modern valid in
      record {
        modern = modern;
        from = ground arith;
        body = ground arith;
        origin_key = origin;
        runner_key = ground arith;
        plain = plain;
        signed =
            subst (λ k. h.verify_strict k (invocation_bytes h i) c.signature ≡ true) origin signed;
      }
