-- ===== src/Pair/Handshake/Honest.antt =====
-- pair.rs, `handshake_listen` and `handshake_join`: what a pairing leaves behind.
use clix.Error.{>>=-eq-ok, ClixError, Result, err, ok, ok-injective, refuse_if-ok}
use clix.Prelude.{
  Bool, List, Option, Text, any, ap, arith, false, inl, inr, int_eq, is_some, last, nat_eq, refl,
  some, subst, text_eq, texts_eq, true, ◌!=◌, ◌∙◌, ◌≡◌, ◌⊎◌,
}
use clix.Types.{
  Peer, bodies_eq, bool_eq, job_eq, patterns_eq, schedule_eq, status_eq, time_eq, weekday_eq,
}
use clix.State.{Host, Store}
use clix.Store.{Sidecar, Sys, update}
use clix.Store.Durable.{published, rejected, unsaved, unsynced, update-Updated}
use clix.Pair.{
  Confirmation, Confirmation-discrete, PairIdentity, confirmation_eq, local_identity,
  pair_identity_eq, peer_from, same_peer, update_peer, validate_peer,
}
use clix.Pair.Trusts.{update_peer-Trusts}
use clix.Pair.Handshake.{
  Exchange, Progress, check_local, conclude, confirm, handshake_join, handshake_listen, join_met,
  listen_agreed, listen_met, meet, no_progress, peer_edit, persist_checked, persist_peer,
  phrase_mismatch, saved, trust_may_exist,
}

-- A state that changed is not concealed, and a peer that is reported has been saved.
pub record Honest (m : Sidecar) (after : Sidecar × Progress × Result Peer) : Type 0 where
  pub revealed : (after.0 ≡ m) ⊎ (trust_may_exist after.1 ≡ true)
  pub finished :
      (peer : Peer)
      → after.2 ≡ ok peer
      → (any (same_peer peer) after.0.store.peers ≡ true) × (after.1.local_saved ≡ true)

-- A peer was saved, or none was reported saved.
record Persisted (m : Sidecar) (peer : Peer) (after : Sidecar × Progress × Result (Unit {0}))
    : Type 0 where
  shown : (after.0 ≡ m) ⊎ (is_some after.1.local_peer ≡ true)
  done_means :
      after.2 ≡ ok tt
      → (any (same_peer peer) after.0.store.peers ≡ true) × (after.1.local_saved ≡ true)

unchanged-Honest : (m : Sidecar) (p : Progress) (e : ClixError) → Honest m (m, p, err e)
unchanged-Honest m p e = record { revealed = inl refl; finished = λ peer q. absurd (ground arith) }

module _ (h : Host) (is_weak : Text → Bool) (commands : List Text) where
  update-listed :
      (sys : Sys) (m : Sidecar) (peer : Peer)
      → (update h sys m (peer_edit h is_weak commands peer)).1 ≡ ok tt
      → any (same_peer peer) (update h sys m (peer_edit h is_weak commands peer)).0.store.peers
        ≡ true
  unfolding peer_edit
  update-listed sys m peer e = elim (update-Updated h sys m (peer_edit h is_weak commands peer)) [
    | rejected e' same _ ↦ cc
    | unsaved e' same _ ↦ cc
    | unsynced e' s next v bytes same _ _ _ ↦ cc
    | published s v bytes _ _ edited st _ ↦
        let (next, made, rest) = >>=-eq-ok (update_peer h is_weak commands peer m.store) _ edited in
        let trusts = update_peer-Trusts h is_weak commands peer m.store next made in
        let same : next ≡ s = ap (λ t. t.0) (ok-injective rest) in
        subst (λ ps. any (same_peer peer) ps ≡ true)
          (ap (λ (t : Store). t.peers) same ∙ st.kept.peers) trusts.listed
  ]

  saved-Persisted :
      (m : Sidecar) (peer : Peer) (p : Progress) (r : Sidecar × Result (Unit {0}))
      → is_some p.local_peer ≡ true
      → (r.1 ≡ ok tt → any (same_peer peer) r.0.store.peers ≡ true)
      → Persisted m peer (saved h is_weak commands p r)
  unfolding saved
  saved-Persisted m peer p (m', err e) l listed = record {
    shown = inr l;
    done_means = λ q. absurd (ground arith);
  }
  saved-Persisted m peer p (m', ok _) l listed = record {
    shown = inr l;
    done_means = λ _. (listed refl, refl);
  }

  persist_checked-Persisted :
      (sys : Sys) (m : Sidecar) (peer : Peer) (p : Progress) (r : Result (Unit {0}))
      → Persisted m peer (persist_checked h is_weak commands sys m peer p r)
  unfolding persist_checked
  persist_checked-Persisted sys m peer p (err e) = record {
    shown = inl refl;
    done_means = λ q. absurd (ground arith);
  }
  persist_checked-Persisted sys m peer p (ok _) =
      saved-Persisted m peer (record p { local_peer = some peer.name }) _ refl
        (update-listed sys m peer)

  conclude-Honest :
      (sent : Result (Unit {0})) (told : Bool) (m : Sidecar) (peer : Peer)
      (after : Sidecar × Progress × Result (Unit {0}))
      → Persisted m peer after
      → Honest m (conclude h is_weak commands sent told peer after)
  unfolding conclude trust_may_exist
  conclude-Honest sent told m peer (m', p, err e) done_so = record {
    revealed = elim (done_so.shown) [ inl same ↦ inl same | inr l ↦ inr (ground arith) ];
    finished = λ q r. absurd (ground arith);
  }
  conclude-Honest sent told m peer (m', p, ok _) done_so = record {
    revealed = elim (done_so.shown) [ inl same ↦ inl same | inr l ↦ inr (ground arith) ];
    finished = λ q r.
        let (_, _, last) = >>=-eq-ok sent _ r in
        let (listed, known) = done_so.done_means refl in
        (subst (λ t. any (same_peer t) m'.store.peers ≡ true) (ok-injective last) listed, known);
  }

  -- The listener's state has not changed, or the joiner's confirmation names these two machines.
  abbrev pub Agreed : Exchange → Store → Text → Sidecar → Sidecar × Progress × Result Peer → Type 0
  Agreed x seen addr m after =
      (after.0 ≡ m)
      ⊎ ((mine : PairIdentity) × (remote : PairIdentity) × (local_identity h is_weak commands seen
              addr
            ≡ ok mine)
          × (x.identity ≡ ok remote)
          × (x.confirmation ≡ ok (record { joiner = remote; listener = mine })))

  confirm-ok :
      (x : Exchange) (expected : Confirmation) (u : Unit {0})
      → confirm x expected ≡ ok u
      → x.confirmation ≡ ok expected
  unfolding confirm
  confirm-ok x expected u e =
      let (confirmed, came, rest) = >>=-eq-ok x.confirmation _ e in
      let same = refuse_if-ok (confirmed != expected) phrase_mismatch u rest in
      elim (Confirmation-discrete confirmed expected) [
        | yes p ↦ came ∙ ap ok p
        | no n ↦ absurd (ground arith)
      ]

  meet-ok :
      (x : Exchange) (before : Result (Unit {0})) (seen : Store) (addr : Text)
      (fallback : Option Text) (mine remote : PairIdentity) (peer : Peer)
      → meet h is_weak commands x before seen addr fallback ≡ ok (mine, remote, peer)
      → (local_identity h is_weak commands seen addr ≡ ok mine) × (x.identity ≡ ok remote)
  unfolding meet
  meet-ok x before seen addr fallback mine remote peer e =
      let (own, known, rest) = >>=-eq-ok (local_identity h is_weak commands seen addr) _ e in
      let (_, _, rest₂) = >>=-eq-ok x.hello _ rest in
      let (_, _, rest₃) = >>=-eq-ok x.answer _ rest₂ in
      let (_, _, rest₄) = >>=-eq-ok x.key _ rest₃ in
      let (_, _, rest₅) = >>=-eq-ok before _ rest₄ in
      let (found, came, rest₆) = >>=-eq-ok x.identity _ rest₅ in
      let (_, _, final) =
        >>=-eq-ok (validate_peer h is_weak commands seen (peer_from found fallback)) _ rest₆ in
      let same = ok-injective final in (known ∙ ap (λ t. ok t.0) same, came ∙ ap (λ t. ok t.1) same)

  listen_agreed-Honest :
      (x : Exchange) (sys : Sys) (m : Sidecar) (mine remote : PairIdentity) (peer : Peer)
      (agreed : Result (Unit {0}))
      → Honest m (listen_agreed h is_weak commands x sys m mine remote peer agreed)
  unfolding listen_agreed persist_peer
  listen_agreed-Honest x sys m mine remote peer (err e) = unchanged-Honest m _ e
  listen_agreed-Honest x sys m mine remote peer (ok _) =
      conclude-Honest x.send_confirmation false m peer _
        (persist_checked-Persisted sys m peer _ (check_local h is_weak commands m.store mine))

  listen_agreed-Agreed :
      (x : Exchange) (sys : Sys) (seen : Store) (addr : Text) (m : Sidecar)
      (mine remote : PairIdentity) (peer : Peer) (agreed : Result (Unit {0}))
      → (agreed ≡ ok tt → x.confirmation ≡ ok (record { joiner = remote; listener = mine }))
      → (local_identity h is_weak commands seen addr ≡ ok mine) × (x.identity ≡ ok remote)
      → Agreed x seen addr m (listen_agreed h is_weak commands x sys m mine remote peer agreed)
  unfolding listen_agreed
  listen_agreed-Agreed x sys seen addr m mine remote peer (err e) told met = inl refl
  listen_agreed-Agreed x sys seen addr m mine remote peer (ok _) told met =
      inr (mine, remote, met.0, met.1, told refl)

  listen_met-Honest :
      (x : Exchange) (sys : Sys) (m : Sidecar) (met : Result (PairIdentity × PairIdentity × Peer))
      → Honest m (listen_met h is_weak commands x sys m met)
  unfolding listen_met
  listen_met-Honest x sys m (err e) = unchanged-Honest m no_progress e
  listen_met-Honest x sys m (ok (mine, remote, peer)) =
      listen_agreed-Honest x sys m mine remote peer _

  listen_met-Agreed :
      (x : Exchange) (sys : Sys) (seen : Store) (m : Sidecar) (addr : Text)
      (met : Result (PairIdentity × PairIdentity × Peer))
      → meet h is_weak commands x (ok tt) seen addr x.address ≡ met
      → Agreed x seen addr m (listen_met h is_weak commands x sys m met)
  unfolding listen_met
  listen_met-Agreed x sys seen m addr (err e) p = inl refl
  listen_met-Agreed x sys seen m addr (ok (mine, remote, peer)) p =
      listen_agreed-Agreed x sys seen addr m mine remote peer _
        (λ q.
          let (_, _, rest) = >>=-eq-ok x.send_identity _ q in
          confirm-ok x (record { joiner = remote; listener = mine }) tt rest)
        (meet-ok x (ok tt) seen addr x.address mine remote peer p)

  join_met-Honest :
      (x : Exchange) (sys : Sys) (m : Sidecar) (met : Result (PairIdentity × PairIdentity × Peer))
      → Honest m (join_met h is_weak commands x sys m met)
  unfolding join_met persist_peer
  join_met-Honest x sys m (err e) = unchanged-Honest m no_progress e
  join_met-Honest x sys m (ok (mine, remote, peer)) = conclude-Honest _ true m peer _ (
      persist_checked-Persisted sys m peer no_progress
        (check_local h is_weak commands m.store mine))

  -- However a handshake ends on either side, a state that changed is one whose trust the report
  -- tells of, and a peer that is returned is listed in the state and known to be saved. The
  -- listener changes its state only where the joiner confirmed both the identity that it sent and
  -- the listener's.
  pub handshakes-Honest :
      (x : Exchange) (sys : Sys) (seen : Store) (m : Sidecar) (dial_addr addr : Text)
      → Honest m (handshake_listen h is_weak commands x sys seen m addr)
        × Agreed x seen addr m (handshake_listen h is_weak commands x sys seen m addr)
        × Honest m (handshake_join h is_weak commands x sys seen m dial_addr addr)
  unfolding handshake_listen handshake_join
  handshakes-Honest x sys seen m dial_addr addr = (
    listen_met-Honest x sys m _,
    listen_met-Agreed x sys seen m addr _ refl,
    join_met-Honest x sys m _,
  )
