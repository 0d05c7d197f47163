-- ===== src/Storage/Prune/Budget.antt =====
-- storage.rs: what passes the checks of an update is within the limits.

use clix.Prelude.{Bool-cases, Text, arith, inl, inr, length, ltb, ℕ, ◌≡◌, ◌≤◌, ◌⊎◌}
use clix.Error.{>>=-eq-ok, ok}
use clix.State.{Store}
use clix.Storage.{
  candidates, max_grants, max_history, max_jobs, max_outbound_requests, max_peers,
  max_pending_requests, max_request_receipts, output_budget, output_bytes,
}
use clix.Storage.Prune.{check_counts, count_limit, fit_budget, prepare, shrink}

-- A count is within its limit, or has not grown.
abbrev pub InLimit : (next old most : ℕ) → Type 0
InLimit next old most = (next ≤ most) ⊎ (next ≤ old)

pub record InLimits (next old : Store) : Type 0 where
  pub jobs : InLimit (length next.jobs) (length old.jobs) max_jobs
  pub entries : InLimit (length next.history.entries) (length old.history.entries) max_history
  pub receipts :
      InLimit (length next.request_receipts) (length old.request_receipts) max_request_receipts
  pub requests : InLimit (length next.requests) (length old.requests) max_pending_requests
  pub outbound :
      InLimit (length next.outbound_requests) (length old.outbound_requests) max_outbound_requests
  pub peers : InLimit (length next.peers) (length old.peers) max_peers
  pub grants : InLimit (length next.grants) (length old.grants) max_grants

count_limit-InLimit :
    (name : Text) (next old most : ℕ)
    → count_limit name next old most ≡ ok tt
    → InLimit next old most
unfolding count_limit
count_limit-InLimit name next old most e = elim (Bool-cases (ltb most next)) [
  | inr t ↦ inl (ground arith)
  | inl t ↦ inr (ground arith)
]

check_counts-InLimits : (next old : Store) → check_counts next old ≡ ok tt → InLimits next old
unfolding check_counts
check_counts-InLimits next old e =
    let (_, a, e₁) = >>=-eq-ok (count_limit _ (length next.jobs) (length old.jobs) max_jobs) _ e in
    let (_, b, e₂) =
      >>=-eq-ok
        (count_limit _ (length next.history.entries) (length old.history.entries) max_history) _
        e₁ in
    let (_, c, e₃) =
      >>=-eq-ok
        (count_limit _ (length next.request_receipts) (length old.request_receipts)
          max_request_receipts)
        _ e₂ in
    let (_, d, e₄) =
      >>=-eq-ok (count_limit _ (length next.requests) (length old.requests) max_pending_requests) _
        e₃ in
    let (_, f, e₅) =
      >>=-eq-ok
        (count_limit _ (length next.outbound_requests) (length old.outbound_requests)
          max_outbound_requests)
        _ e₄ in
    let (_, g, e₆) =
      >>=-eq-ok (count_limit _ (length next.peers) (length old.peers) max_peers) _ e₅ in
    record {
      jobs = count_limit-InLimit _ _ _ _ a;
      entries = count_limit-InLimit _ _ _ _ b;
      receipts = count_limit-InLimit _ _ _ _ c;
      requests = count_limit-InLimit _ _ _ _ d;
      outbound = count_limit-InLimit _ _ _ _ f;
      peers = count_limit-InLimit _ _ _ _ g;
      grants = count_limit-InLimit _ _ _ _ e₆;
    }

fit_budget_bound : (s s' : Store) → fit_budget s ≡ ok s' → output_bytes s' ≤ output_budget
unfolding fit_budget
fit_budget_bound s s' e =
    let (t, _, rest) = >>=-eq-ok (shrink s (candidates s)) _ e in
    elim (Bool-cases (ltb output_budget (output_bytes t))) [
      | inl x ↦ absurd (ground arith)
      | inr x ↦ ground arith
    ]

-- A state that passes the checks of an update holds at most 16 MiB of output, and each of its
-- counted lists is within its limit unless the update did not lengthen it.
pub prepare_bound :
    (next old s' : Store)
    → prepare next old ≡ ok s'
    → (output_bytes s' ≤ output_budget) × InLimits next old
unfolding prepare
prepare_bound next old s' e =
    let (_, counts, rest) = >>=-eq-ok (check_counts next old) _ e in
    (
      elim (Bool-cases (ltb output_budget (output_bytes next))) [
        | inl t ↦ fit_budget_bound next s' (rw t at rest)
        | inr t ↦ ground arith
      ],
      check_counts-InLimits next old counts,
    )
