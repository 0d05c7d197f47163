-- ===== src/Pair/Trusts.antt =====
-- pair.rs, `update_peer`: what saving a peer does to the peers of a machine.
use clix.Error.{>>=-eq-ok, ok, ok-injective, refuse_if, refuse_if-ok, usage}
use clix.Prelude.{
  Bool, List, Option, Text, Text-discrete, [], all, any, ap, arith, choose-cases, false, find, inl,
  inr, int_eq, length, map, nat_eq, none, not, refl, some, subst, sym, text, text_eq, texts_eq,
  true, update_first, ◌!=◌, ◌&&◌, ◌++◌, ◌==◌, ◌||◌, ◌∙◌, ◌∷◌, ◌≡◌, ◌⊎◌,
}
use clix.Types.{
  Peer, bodies_eq, bool_eq, job_eq, patterns_eq, schedule_eq, status_eq, time_eq, weekday_eq,
}
use clix.State.{Host, Store}
use clix.Pair.{
  clashes, confirmation_eq, owner_pk, pair_identity_eq, put_found, put_peer, same_peer, update_peer,
  validate_name, validate_peers, validate_store,
}

-- No two peers have a name or a key in common.
abbrev pub unambiguous : List Peer → Bool
unambiguous [] = true
unambiguous (p ∷ peers) = not (any (clashes p) peers) && unambiguous peers

abbrev pub identity_of : Peer → Text × Text
identity_of p = (p.name, p.owner_pk)

abbrev pub identities : List Peer → List (Text × Text)
identities peers = map identity_of peers

-- The peers after one was saved.
pub record Trusts (peer : Peer) (before after : Store) : Type 0 where
  pub listed : any (same_peer peer) after.peers ≡ true
  pub kept :
      (identities after.peers ≡ identities before.peers)
      ⊎ (identities after.peers ≡ identities before.peers ++ (identity_of peer ∷ []))
  pub distinct : unambiguous after.peers ≡ true
  pub not_itself : all (λ (p : Peer). p.name != after.body_name) after.peers ≡ true

identities-update_first :
    (peer : Peer) (peers : List Peer)
    → identities (update_first (clashes peer) (λ p. record p { addr = peer.addr }) peers)
      ≡ identities peers
unfolding update_first
identities-update_first peer [] = refl
identities-update_first peer (p ∷ peers) = ground (arith, identities-update_first peer peers)

identities-append :
    (peer : Peer) (peers : List Peer)
    → identities (peers ++ (peer ∷ [])) ≡ identities peers ++ (identity_of peer ∷ [])
identities-append peer [] = refl
identities-append peer (p ∷ peers) = ap (λ t. identity_of p ∷ t) (identities-append peer peers)

any-same_peer-append :
    (peer : Peer) (peers : List Peer) → any (same_peer peer) (peers ++ (peer ∷ [])) ≡ true
unfolding same_peer
any-same_peer-append peer [] = ground arith
any-same_peer-append peer (p ∷ peers) = ground (arith, any-same_peer-append peer peers)

any-same_peer-update_first :
    (peer existing : Peer) (peers : List Peer)
    → find (clashes peer) peers ≡ some existing
    → existing.name ≡ peer.name
    → existing.owner_pk ≡ peer.owner_pk
    → any (same_peer peer) (update_first (clashes peer) (λ p. record p { addr = peer.addr }) peers)
      ≡ true
unfolding find update_first same_peer
any-same_peer-update_first peer existing [] f n k = absurd (ground arith)
any-same_peer-update_first peer existing (p ∷ peers) f n k =
    ground (arith, any-same_peer-update_first peer existing peers)

put_found-ok :
    (peer : Peer) (peers next : List Peer) (found : Option Peer)
    → find (clashes peer) peers ≡ found
    → put_found peer peers found ≡ ok next
    → (any (same_peer peer) next ≡ true)
      × ((identities next ≡ identities peers)
          ⊎ (identities next ≡ identities peers ++ (identity_of peer ∷ [])))
unfolding put_found
put_found-ok peer peers next none f e =
    let same = ok-injective e in
    (
      subst (λ t. any (same_peer peer) t ≡ true) same (any-same_peer-append peer peers),
      inr (ap identities (sym same) ∙ identities-append peer peers),
    )
put_found-ok peer peers next (some existing) f e =
    elim (choose-cases (existing.name != peer.name || existing.owner_pk != peer.owner_pk) _ _ _ e) [
      | inl (_, refused) ↦ absurd (ground arith)
      | inr (same, put) ↦
          let next_is = ok-injective put in
          (
            subst (λ t. any (same_peer peer) t ≡ true) next_is
                (any-same_peer-update_first peer existing peers f (ground arith) (ground arith)),
            inl (ap identities (sym next_is) ∙ identities-update_first peer peers),
          )
    ]

put_peer-ok :
    (peer : Peer) (peers next : List Peer)
    → put_peer peer peers ≡ ok next
    → (any (same_peer peer) next ≡ true)
      × ((identities next ≡ identities peers)
          ⊎ (identities next ≡ identities peers ++ (identity_of peer ∷ [])))
unfolding put_peer
put_peer-ok peer peers next e = put_found-ok peer peers next (find (clashes peer) peers) refl e

module _ (h : Host) (is_weak : Text → Bool) (commands : List Text) where
  -- What one peer passes, and the peers after it.
  record Passes (body_name local_pk : Text) (names keys : List Text) (p : Peer) (peers : List Peer)
      : Type 0 where
    new_name : any (λ n. n == p.name) names ≡ false
    new_key : any (λ k. k == p.owner_pk) keys ≡ false
    other_name : (p.name != body_name) ≡ true
    rest :
        validate_peers h is_weak commands body_name local_pk
          (p.name ∷ names)
          (p.owner_pk ∷ keys)
          peers
        ≡ ok tt

  validate_peers-Passes :
      (body_name local_pk : Text) (names keys : List Text) (p : Peer) (peers : List Peer)
      → validate_peers h is_weak commands body_name local_pk names keys (p ∷ peers) ≡ ok tt
      → Passes body_name local_pk names keys p peers
  unfolding validate_peers
  validate_peers-Passes body_name local_pk names keys p peers e =
      let (_, _, rest) = >>=-eq-ok (validate_name p.name) _ e in
      let (_, _, rest₂) =
        >>=-eq-ok
          (refuse_if (length p.owner_pk != 32 || not (h.is_point p.owner_pk))
            (usage (text "invalid paired identity")))
          _ rest in
      let (u, clear, rest₃) =
        >>=-eq-ok
          (refuse_if
            (is_weak p.owner_pk
              || (p.name == body_name
                  || (p.owner_pk == local_pk
                      || (any (λ n. n == p.name) names || any (λ k. k == p.owner_pk) keys))))
            (usage (text "ambiguous paired names or identities; owner must resolve pairing state")))
          _ rest₂ in
      let passed = refuse_if-ok _ _ u clear in
      record {
        new_name = ground arith;
        new_key = ground arith;
        other_name = ground arith;
        rest = rest₃;
      }

  validate_peers-apart :
      (body_name local_pk : Text) (names keys : List Text) (p : Peer) (peers : List Peer)
      → any (λ n. n == p.name) names ≡ true
      → any (λ k. k == p.owner_pk) keys ≡ true
      → validate_peers h is_weak commands body_name local_pk names keys peers ≡ ok tt
      → any (clashes p) peers ≡ false
  unfolding clashes
  validate_peers-apart body_name local_pk names keys p [] a b e = refl
  validate_peers-apart body_name local_pk names keys p (q ∷ peers) a b e =
      let passed = validate_peers-Passes body_name local_pk names keys q peers e in
      let later : any (clashes p) peers ≡ false =
        validate_peers-apart body_name local_pk (q.name ∷ names) (q.owner_pk ∷ keys) p peers
          (ground arith) (ground arith) passed.rest in
      elim (Text-discrete q.name p.name) [
        | yes s ↦
            let taken : any (λ n. n == q.name) names ≡ true = rw s a in
            let new_name = passed.new_name in cc
        | no n ↦ elim (Text-discrete q.owner_pk p.owner_pk) [
          | yes s ↦
              let taken : any (λ k. k == q.owner_pk) keys ≡ true = rw s b in
              let new_key = passed.new_key in cc
          | no n' ↦ ground arith
        ]
      ]

  validate_peers-unambiguous :
      (body_name local_pk : Text) (names keys : List Text) (peers : List Peer)
      → validate_peers h is_weak commands body_name local_pk names keys peers ≡ ok tt
      → (unambiguous peers ≡ true) × (all (λ (p : Peer). p.name != body_name) peers ≡ true)
  validate_peers-unambiguous body_name local_pk names keys [] e = (refl, refl)
  validate_peers-unambiguous body_name local_pk names keys (p ∷ peers) e =
      let passed = validate_peers-Passes body_name local_pk names keys p peers e in
      let (apart, others) =
        validate_peers-unambiguous body_name local_pk (p.name ∷ names) (p.owner_pk ∷ keys) peers
          passed.rest in
      let other_name = passed.other_name in
      let differs =
        validate_peers-apart body_name local_pk (p.name ∷ names) (p.owner_pk ∷ keys) p peers
          (ground arith) (ground arith) passed.rest in
      (ground arith, ground arith)

  -- A machine that saves a peer lists it by its name and key; no peer that it had has lost its name
  -- or its key, and none was added but this one; no two peers share a name or a key, and none has
  -- the machine's own name.
  pub update_peer-Trusts :
      (peer : Peer) (s next : Store)
      → update_peer h is_weak commands peer s ≡ ok next
      → Trusts peer s next
  unfolding update_peer validate_store
  update_peer-Trusts peer s next e =
      let (peers, put, rest) = >>=-eq-ok (put_peer peer s.peers) _ e in
      let put_next : Store = record s { peers = peers } in
      let (u, valid, rest₂) = >>=-eq-ok (validate_store h is_weak commands put_next) _ rest in
      let (_, _, named) = >>=-eq-ok (validate_name s.body_name) _ valid in
      let (local_pk, _, checked) = >>=-eq-ok (owner_pk h is_weak commands s.owner_sk) _ named in
      let (listed, kept) = put_peer-ok peer s.peers peers put in
      let (distinct, not_itself) =
        validate_peers-unambiguous s.body_name local_pk [] [] peers checked in
      subst (Trusts peer s) (ok-injective rest₂)
        (record { listed = listed; kept = kept; distinct = distinct; not_itself = not_itself })
