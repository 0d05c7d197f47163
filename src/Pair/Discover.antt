-- ===== src/Pair/Discover.antt =====
-- pair.rs, `pair_join_any`: dialling the machines that may be listening, one after the other.
use clix.State.{Host}
use clix.Error.{ClixError, Result, err, io, ok, ◌>>◌}
use clix.Prelude.{Bool, List, Option, Text, [], if◌then◌else◌, some, text, unwrap_or, ◌∷◌}
use clix.Types.{Peer}
use clix.Store.{Sidecar, Sys}
use clix.Pair.Handshake.{
  Exchange, Progress, handshake_join, known_trust, plain_error, reported, trust_may_exist,
}

-- A machine that may answer, and what happens when it is dialled.
pub record Candidate : Type 0 where
  pub addr : Text
  pub dial : Result (Unit {0})
  pub exchange : Exchange
  pub sys : Sys
  pub pinned : Result (Unit {0})

module _ (h : Host) (is_weak : Text → Bool) (commands : List Text) where
  -- The next machine is tried only where no trust can have come of this attempt.
  unfoldable pub after_attempt :
      Result (Unit {0})
      → Sidecar × Progress × Result Peer
      → (Sidecar → ClixError → Sidecar × Result Peer)
      → Sidecar × Result Peer
  after_attempt pinned (m, p, ok peer) next = (m, pinned >> ok peer)
  after_attempt pinned (m, p, err e) next =
      let reported_error = err (reported (known_trust p) (plain_error e)) in
      if trust_may_exist p
      then (m, reported_error)
      else next m (reported (known_trust p) (plain_error e))

  unfoldable pub pair_join_any :
      Sidecar → Text → List Candidate → Option ClixError → Sidecar × Result Peer
  pair_join_any m addr [] last_error =
      (m, err (unwrap_or (io (text "no online Tailscale peers")) last_error))
  pair_join_any m addr (c ∷ candidates) last_error = elim c.dial [
    | err e ↦ pair_join_any m addr candidates (some e)
    | ok _ ↦
        after_attempt c.pinned
          (handshake_join h is_weak commands c.exchange c.sys m.store m c.addr addr)
          (λ m e. pair_join_any m addr candidates (some e))
  ]
