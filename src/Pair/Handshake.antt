-- ===== src/Pair/Handshake.antt =====
-- pair.rs: the two sides of a pairing, and what they say of it when it does not finish.
pub mod Honest
use clix.Error.{ClixError, Result, display, err, io, ok, refuse_if, unreachable, usage, ◌>>=◌, ◌>>◌}
use clix.Prelude.{
  Bool, List, Option, Text, false, if◌then◌else◌, int_eq, is_some, nat_eq, none, some, text,
  text_eq, texts_eq, true, ◌!=◌, ◌++◌, ◌||◌,
}
use clix.Types.{
  Peer, bodies_eq, bool_eq, job_eq, patterns_eq, schedule_eq, status_eq, time_eq, weekday_eq,
}
use clix.State.{Host, Store}
use clix.Store.{Sidecar, Sys, update}
use clix.Pair.{
  Confirmation, PairIdentity, confirmation_eq, local_identity, owner_pk, pair_identity_eq,
  peer_from, update_peer, validate_peer,
}

pub record Progress : Type 0 where
  pub local_peer : Option Text
  pub local_saved : Bool
  pub remote_may_trust : Bool

unfoldable pub no_progress : Progress
no_progress = record { local_peer = none; local_saved = false; remote_may_trust = false }

unfoldable pub trust_may_exist : Progress → Bool
trust_may_exist p = is_some p.local_peer || p.remote_may_trust

-- What is known of the trust that a pairing leaves behind, for the report.
unfoldable pub known_trust : Progress → Option Text
known_trust p = elim p.local_peer [
  | some name ↦ some (
      if p.local_saved
      then text "This machine now trusts " ++ name
      else text "Pairing state may have been saved for " ++ name)
  | none ↦
      if p.remote_may_trust
      then some (text "The other machine may already trust this machine")
      else none
]

unfoldable pub plain_error : ClixError → ClixError
plain_error unreachable = io (text "pairing did not finish; check the phrase and connection")
plain_error e = e

unfoldable pub reported : Option Text → ClixError → ClixError
reported none e = e
reported (some trust) e = usage (
    trust
    ++ (text ", but pairing confirmation did not finish: "
        ++ (display e ++ text ". Check clix status on both machines.")))

unfoldable pub report : Progress → Result Peer → Result Peer
report p (ok peer) = ok peer
report p (err e) = err (reported (known_trust p) (plain_error e))

unfoldable pub phrase_mismatch : ClixError
phrase_mismatch = io (text "phrase did not match")

-- The outcomes of the calls that a side waits for, in their order, of which one that runs out of time
-- fails: the key exchange, the authenticated messages, and the address of the other end.
pub record Exchange : Type 0 where
  pub hello : Result (Unit {0})
  pub answer : Result (Unit {0})
  pub key : Result (Unit {0})
  pub identity : Result PairIdentity
  pub send_identity : Result (Unit {0})
  pub confirmation : Result Confirmation
  pub send_confirmation : Result (Unit {0})
  pub address : Option Text

unfoldable pub confirm : Exchange → Confirmation → Result (Unit {0})
confirm x expected = do
  confirmed ← x.confirmation
  refuse_if (confirmed != expected) phrase_mismatch

module _ (h : Host) (is_weak : Text → Bool) (commands : List Text) where
  check_local : Store → PairIdentity → Result (Unit {0})
  check_local s mine =
      let changed_error =
        usage (text "local identity changed during pairing; start a new phrase") in
      if s.body_name != mine.name then err changed_error else do
        pk ← owner_pk h is_weak commands s.owner_sk
        refuse_if (pk != mine.owner_pk) changed_error

  saved : Progress → Sidecar × Result (Unit {0}) → Sidecar × Progress × Result (Unit {0})
  saved p (m, err e) = (m, p, err e)
  saved p (m, ok _) = (m, record p { local_saved = true }, ok tt)

  unfoldable pub peer_edit : Peer → Store → Result (Store × Unit {0})
  peer_edit peer s = do next ← update_peer h is_weak commands peer s; ok (next, tt)

  persist_checked :
      Sys → Sidecar → Peer → Progress → Result (Unit {0}) → Sidecar × Progress × Result (Unit {0})
  unfolding saved
  persist_checked sys m peer p (err e) = (m, p, err e)
  persist_checked sys m peer p (ok _) =
      saved (record p { local_peer = some peer.name }) (update h sys m (peer_edit peer))

  unfoldable pub persist_peer :
      Sys → Sidecar → PairIdentity → Peer → Progress → Sidecar × Progress × Result (Unit {0})
  unfolding persist_checked check_local
  persist_peer sys m mine peer p = persist_checked sys m peer p (check_local m.store mine)

  -- The last message, after the peer was saved or not.
  unfoldable pub conclude :
      Result (Unit {0})
      → Bool
      → Peer
      → Sidecar × Progress × Result (Unit {0})
      → Sidecar × Progress × Result Peer
  conclude sent told peer (m, p, err e) = (m, p, err e)
  conclude sent told peer (m, p, ok _) =
      (m, record p { remote_may_trust = p.remote_may_trust || told }, sent >> ok peer)

  -- `seen` is the state when the other's identity came, and `m` the one when the peer is saved.
  listen_agreed :
      Exchange
      → Sys
      → Sidecar
      → PairIdentity
      → PairIdentity
      → Peer
      → Result (Unit {0})
      → Sidecar × Progress × Result Peer
  listen_agreed x sys m mine remote peer (err e) =
      (m, record no_progress { remote_may_trust = true }, err e)
  listen_agreed x sys m mine remote peer (ok _) =
      conclude x.send_confirmation false peer
        (persist_peer sys m mine peer (record no_progress { remote_may_trust = true }))

  -- What comes before the other's identity is accepted; `before` is what a side does between the key
  -- and the other's identity.
  unfoldable pub meet :
      Exchange
      → Result (Unit {0})
      → Store
      → Text
      → Option Text
      → Result (PairIdentity × PairIdentity × Peer)
  meet x before seen addr fallback = do
    mine ← local_identity h is_weak commands seen addr
    x.hello
    x.answer
    x.key
    before
    remote ← x.identity
    let peer = peer_from remote fallback
    validate_peer h is_weak commands seen peer
    ok (mine, remote, peer)

  listen_met :
      Exchange
      → Sys
      → Sidecar
      → Result (PairIdentity × PairIdentity × Peer)
      → Sidecar × Progress × Result Peer
  unfolding listen_agreed
  listen_met x sys m (err e) = (m, no_progress, err e)
  listen_met x sys m (ok (mine, remote, peer)) =
      listen_agreed x sys m mine remote peer
        (x.send_identity >> confirm x (record { joiner = remote; listener = mine }))

  unfoldable pub handshake_listen :
      Exchange → Sys → Store → Sidecar → Text → Sidecar × Progress × Result Peer
  unfolding listen_met
  handshake_listen x sys seen m addr = listen_met x sys m (meet x (ok tt) seen addr x.address)

  join_met :
      Exchange
      → Sys
      → Sidecar
      → Result (PairIdentity × PairIdentity × Peer)
      → Sidecar × Progress × Result Peer
  join_met x sys m (err e) = (m, no_progress, err e)
  join_met x sys m (ok (mine, remote, peer)) =
      conclude (x.send_confirmation >> confirm x (record { joiner = mine; listener = remote })) true
        peer (persist_peer sys m mine peer no_progress)

  unfoldable pub handshake_join :
      Exchange → Sys → Store → Sidecar → Text → Text → Sidecar × Progress × Result Peer
  unfolding join_met
  handshake_join x sys seen m dial_addr addr =
      join_met x sys m (meet x x.send_identity seen addr (some dial_addr))

  unfoldable pub finish_listen : Sidecar × Progress × Result Peer → Sidecar × Result Peer
  finish_listen (m, p, r) = (m, report p r)

  unfoldable pub complete_listen : Exchange → Sys → Store → Sidecar → Text → Sidecar × Result Peer
  complete_listen x sys seen m addr = finish_listen (handshake_listen x sys seen m addr)
