-- ===== src/State.antt =====
-- store.rs: the state that one machine keeps, `Store`, and its durable copy; and what the program
-- calls without implementing it, as the record `Host`.
pub mod Frame
pub mod Known
use clix.Prelude.{
  Bool, List, Map, Option, Text, [], get, if◌then◌else◌, insert, is_some, ltb, none, some, ℕ, ◌+◌,
  ◌∷◌,
}
use clix.Types.{Grant, Job, OutboundRequest, Peer, Request, RequestReceipt}
use clix.History.{Fact, History, Invocation, Published}

pub record Fingerprint : Type 0 where
  pub hash : Text
  pub mode : ℕ

pub record PinIndex : Type 0 where
  pub peers : Map (Map Fingerprint)
  pub last_sync : Option ℕ
  pub hashes : Map Text
  pub last_error : Option Text

pub record Store : Type 0 where
  pub dir : Text
  pub write_error : Option Text
  pub body_name : Text
  pub owner_sk : Text
  pub peers : List Peer
  pub grants : List Grant
  pub jobs : List Job
  pub requests : List Request
  pub outbound_requests : List OutboundRequest
  pub request_receipts : List RequestReceipt
  pub pin_index : PinIndex
  pub history : History
  pub retry_links : Map Text
  pub job_certificates : Map Text
  pub legacy_jobs : Map (Unit {0})
  pub output_pruned : Map (Unit {0})
  pub history_pruned : Map (Unit {0})
  pub format_version : ℕ
  pub pin_enabled : Bool
  pub pin_dir : Option Text

-- Cryptography and JSON, which the program takes from other crates. `public_of` is the public key
-- of a 32-byte seed, `is_point` and `is_signature` say which byte strings ed25519 accepts as a key
-- and as a signature. Serialising an invocation, a fact or the trust list cannot fail; serialising
-- a store hands its bytes to the writer in pieces and may fail after some of them.
pub record Host : Type 0 where
  pub digest : Text → Text
  pub public_of : Text → Text
  pub sign : Text → Text → Text
  pub is_point : Text → Bool
  pub is_signature : Text → Bool
  pub verify_strict : Text → Text → Text → Bool
  pub json_invocation : Invocation → Text
  pub json_fact : Fact → Text
  pub json_trust : List (Text × Text) → Text
  pub json_text : Text → Text
  pub json_published : Published → Text
  pub json_store : Store → List Text × Option Text

-- A `BTreeSet` is a map to nothing.
unfoldable pub contains : Text → Map (Unit {0}) → Bool
contains k s = is_some (get k s)

-- `for k in keys { set.insert(k) }`.
unfoldable pub extend : List Text → Map (Unit {0}) → Map (Unit {0})
extend [] s = s
extend (k ∷ ks) s = extend ks (insert k tt s)

-- `checked_add(1)` on a `u64`.
unfoldable pub next_u64 : ℕ → Option ℕ
next_u64 n = if ltb (n + 1) 18446744073709551616 then some (n + 1) else none
