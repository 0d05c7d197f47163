-- ===== src/Pair.antt =====
-- pair.rs: how two machines come to trust each other. This file holds the identities, their
-- validation, and the edit that saves a peer.
pub mod Trusts
pub mod Handshake
pub mod Discover
use clix.Error.{Result, err, io, ok, refuse_if, usage, ◌>>=◌, ◌>>◌}
use clix.Prelude.{
  Bool, Eq, List, Option, Text, [], all, any, false, find, if◌then◌else◌, int_eq, is_empty, leb,
  length, ltb, nat_eq, none, not, retain, some, split_on, take, text, text_eq, texts_eq,
  update_first, ℕ, ℕ_discrete, ◌!=◌, ◌&&◌, ◌++◌, ◌==◌, ◌||◌, ◌∷◌,
}
use clix.Types.{
  Peer, bodies_eq, bool_eq, job_eq, patterns_eq, schedule_eq, status_eq, time_eq, weekday_eq,
}
use clix.State.{Host, Store}

pub record PairIdentity : Type 0 where
  pub name : Text
  pub owner_pk : Text
  pub addr : Option Text

unfoldable pub PairIdentity-discrete : Discrete PairIdentity
PairIdentity-discrete = hlevel ℕ_discrete

instance abbrev pub pair_identity_eq : Eq PairIdentity
pair_identity_eq = record { dec = PairIdentity-discrete }

pub record Confirmation : Type 0 where
  pub joiner : PairIdentity
  pub listener : PairIdentity

unfoldable pub Confirmation-discrete : Discrete Confirmation
Confirmation-discrete = hlevel ℕ_discrete

instance abbrev pub confirmation_eq : Eq Confirmation
confirmation_eq = record { dec = Confirmation-discrete }

is_alphanumeric : ℕ → Bool
is_alphanumeric b = leb 48 b && leb b 57 || (leb 65 b && leb b 90 || leb 97 b && leb b 122)

is_name_byte : ℕ → Bool
is_name_byte b = is_alphanumeric b || (b == b'-' || b == b'_')

starts_alphanumeric : Text → Bool
starts_alphanumeric [] = false
starts_alphanumeric (b ∷ bs) = is_alphanumeric b

unfoldable pub validate_name : Text → Result (Unit {0})
unfolding is_name_byte is_alphanumeric starts_alphanumeric
validate_name name =
    refuse_if
      (not (starts_alphanumeric name) || (ltb 63 (length name) || not (all is_name_byte name)))
      (usage (
        text "machine name must start with a letter or digit and contain 1"
        ++ (0xe2 ∷ 0x80 ∷ 0x93 ∷ text "63 letters, digits, hyphens or underscores")))

trim_start : Text → Text
trim_start [] = []
trim_start (b ∷ bs) = if is_alphanumeric b then b ∷ bs else trim_start bs

first_label : Text → Text
first_label raw = elim (split_on b'.' raw) [ [] ↦ raw | label ∷ _ ↦ label ]

-- A host name as a machine's name.
unfoldable pub sanitize_name : Text → Text
unfolding trim_start first_label is_name_byte is_alphanumeric
sanitize_name raw =
    let capped = take 63 (trim_start (retain is_name_byte (first_label raw))) in
    if is_empty capped then text "clix" else capped

unfoldable pub peer_from : PairIdentity → Option Text → Peer
peer_from identity fallback = record {
  name = identity.name;
  owner_pk = identity.owner_pk;
  addr = elim identity.addr [ none ↦ fallback | some a ↦ if is_empty a then fallback else some a ];
}

unfoldable pub same_peer : Peer → Peer → Bool
same_peer peer p = p.name == peer.name && p.owner_pk == peer.owner_pk

unfoldable pub clashes : Peer → Peer → Bool
clashes peer p = p.name == peer.name || p.owner_pk == peer.owner_pk

put_found : Peer → List Peer → Option Peer → Result (List Peer)
unfolding clashes
put_found peer peers none = ok (peers ++ (peer ∷ []))
put_found peer peers (some existing) =
    if existing.name != peer.name || existing.owner_pk != peer.owner_pk
    then err (usage (text "that name or identity is already paired; refusing to replace it"))
    else ok (update_first (clashes peer) (λ p. record p { addr = peer.addr }) peers)

-- The peers with this one among them.
unfoldable pub put_peer : Peer → List Peer → Result (List Peer)
unfolding put_found
put_peer peer peers = put_found peer peers (find (clashes peer) peers)

-- `is_weak` says which keys are of small order, and `commands` are the names of the owner's commands;
-- both come from other crates.
module _ (h : Host) (is_weak : Text → Bool) (commands : List Text) where
  unfoldable pub owner_pk : Text → Result Text
  owner_pk sk = do
    refuse_if (length sk != 32) (io (text "owner key is not a valid ed25519 secret"))
    ok (h.public_of sk)

  unfoldable pub refuse_command_name : Text → Text → Result (Unit {0})
  refuse_command_name name whose = refuse_if (any (λ c. c == name) commands) (
      usage (
        whose
        ++ (text " is named '"
            ++ (name
                ++ text
                    "', which matches a Clix command; choose another name with clix pair --name"))))

  -- The names and the keys of the peers that come before.
  unfoldable pub validate_peers :
      Text → Text → List Text → List Text → List Peer → Result (Unit {0})
  validate_peers body_name local_pk names keys [] = ok tt
  validate_peers body_name local_pk names keys (p ∷ peers) = do
    validate_name p.name
    refuse_if (length p.owner_pk != 32 || not (h.is_point p.owner_pk))
        (usage (text "invalid paired identity"))
    refuse_if
        (is_weak p.owner_pk
          || (p.name == body_name
              || (p.owner_pk == local_pk
                  || (any (λ n. n == p.name) names || any (λ k. k == p.owner_pk) keys))))
        (usage (text "ambiguous paired names or identities; owner must resolve pairing state"))
    validate_peers body_name local_pk (p.name ∷ names) (p.owner_pk ∷ keys) peers

  unfoldable pub validate_store : Store → Result (Unit {0})
  validate_store s = do
    validate_name s.body_name
    local_pk ← owner_pk s.owner_sk
    validate_peers s.body_name local_pk [] [] s.peers

  unfoldable pub update_peer : Peer → Store → Result Store
  update_peer peer s = do
    peers ← put_peer peer s.peers
    let next : Store = record s { peers = peers }
    validate_store next
    ok next

  unfoldable pub validate_peer : Store → Peer → Result (Unit {0})
  validate_peer s peer = do
    if any (same_peer peer) s.peers
        then ok tt
        else refuse_command_name peer.name (text "the other machine")
    _ ← update_peer peer s
    ok tt

  unfoldable pub local_identity : Store → Text → Result PairIdentity
  local_identity s addr = do
    validate_name s.body_name
    pk ← owner_pk s.owner_sk
    ok (record { name = s.body_name; owner_pk = pk; addr = some addr })
