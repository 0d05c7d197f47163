-- ===== src/State/Frame.antt =====
-- What the bookkeeping of an update leaves alone: everything but the history, the output payloads
-- and the marks of what was pruned.
use clix.Error.{ok}
use clix.Types.{Job}
use clix.Prelude.{[], arith, map, ◌≡◌}
use clix.State.{Store}

-- A job without its output.
abbrev pub bare : Job → Job
bare j = record j { stdout = []; stderr = [] }

pub record Kept (a b : Store) : Type 0 where
  pub dir : a.dir ≡ b.dir
  pub write_error : a.write_error ≡ b.write_error
  pub body_name : a.body_name ≡ b.body_name
  pub owner_sk : a.owner_sk ≡ b.owner_sk
  pub peers : a.peers ≡ b.peers
  pub grants : a.grants ≡ b.grants
  pub jobs : map bare a.jobs ≡ map bare b.jobs
  pub requests : a.requests ≡ b.requests
  pub outbound_requests : a.outbound_requests ≡ b.outbound_requests
  pub request_receipts : a.request_receipts ≡ b.request_receipts
  pub pin_index : a.pin_index ≡ b.pin_index
  pub pin_enabled : a.pin_enabled ≡ b.pin_enabled
  pub retry_links : a.retry_links ≡ b.retry_links

pub Kept-refl : (a : Store) → Kept a a
Kept-refl a = ground arith

pub Kept-trans : {a b c : Store} → Kept a b → Kept b c → Kept a c
Kept-trans p q = ground arith

pub ok-Kept : (s s' : Store) → ok s ≡ ok s' → Kept s s'
ok-Kept s s' e = ground arith
