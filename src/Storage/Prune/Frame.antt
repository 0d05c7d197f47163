-- ===== src/Storage/Prune/Frame.antt =====
-- storage.rs: pruning and the checks of an update keep every job, with its status, and everything
-- that is not history.
use clix.Types.{
  Job, bodies_eq, bool_eq, job_eq, patterns_eq, schedule_eq, status_eq, time_eq, weekday_eq,
}
use clix.Error.{>>=-eq-ok, ok}
use clix.Prelude.{
  Bool, Bool-cases, List, Text, [], arith, inl, inr, int_eq, leb, length, ltb, map, nat_eq, refl,
  take, text_eq, texts_eq, update_first, ℕ, ◌-◌, ◌==◌, ◌∷◌, ◌≡◌,
}
use clix.State.{Store}
use clix.State.Frame.{Kept, Kept-refl, Kept-trans, bare, ok-Kept}
use clix.Storage.{Candidate, Payload, candidates, local, output_budget, output_bytes, replica}
use clix.Storage.Prune.{
  check_counts, clear_local, fit_budget, mark_pruned, prepare, prune, remove_payload,
  remove_payloads, shrink,
}

bare-clear :
    (p : Job → Bool) (js : List Job)
    → map bare js ≡ map bare (update_first p (λ j. record j { stdout = []; stderr = [] }) js)
unfolding update_first
bare-clear p [] = refl
bare-clear p (j ∷ js) = ground (arith, bare-clear p js)

clear_local-Kept :
    (s : Store) (payload : Payload) (key : Text) (s' : Store)
    → clear_local s payload ≡ ok (key, s')
    → Kept s s'
unfolding clear_local
clear_local-Kept s (local id) key s' e = ground (arith, bare-clear (λ j. j.id == id) s.jobs)
clear_local-Kept s (replica k) key s' e = ground arith

mark-Kept : (s s' : Store) (key : Text) → mark_pruned s key ≡ ok s' → Kept s s'
unfolding mark_pruned
mark-Kept s s' key e = ground arith

remove_payload-Kept :
    (s : Store) (payload : Payload) (s' : Store) → remove_payload s payload ≡ ok s' → Kept s s'
unfolding remove_payload
remove_payload-Kept s payload s' e =
    let (p, first, rest) = >>=-eq-ok (clear_local s payload) _ e in
    Kept-trans (clear_local-Kept s payload p.0 p.1 first) (mark-Kept p.1 s' p.0 rest)

remove_payloads-Kept :
    (s : Store) (cs : List Candidate) (s' : Store) → remove_payloads s cs ≡ ok s' → Kept s s'
unfolding remove_payloads
remove_payloads-Kept s [] s' e = ground (arith, Kept-refl s)
remove_payloads-Kept s (c ∷ cs) s' e =
    let (t, first, rest) = >>=-eq-ok (remove_payload s c.payload) _ e in
    Kept-trans (remove_payload-Kept s c.payload t first) (remove_payloads-Kept t cs s' rest)

shrink-Kept : (s : Store) (cs : List Candidate) (s' : Store) → shrink s cs ≡ ok s' → Kept s s'
unfolding shrink
shrink-Kept s [] s' e = ground (arith, Kept-refl s)
shrink-Kept s (c ∷ cs) s' e = elim (Bool-cases (leb (output_bytes s) output_budget)) [
  | inl t ↦ ok-Kept s s' (rw t at e)
  | inr t ↦
      let (r, first, rest) = >>=-eq-ok (remove_payload s c.payload) _ (rw t at e) in
      Kept-trans (remove_payload-Kept s c.payload r first) (shrink-Kept r cs s' rest)
]

-- Explicit pruning that succeeds keeps every job with its status, every grant, request and receipt.
pub prune-Kept : (s : Store) (keep n : ℕ) (s' : Store) → prune s keep ≡ ok (n, s') → Kept s s'
unfolding prune
prune-Kept s keep n s' e =
    let (t, first, rest) =
      >>=-eq-ok (remove_payloads s (take (length (candidates s) - keep) (candidates s))) _ e in
    ground
      (arith, remove_payloads-Kept s (take (length (candidates s) - keep) (candidates s)) t first)

fit_budget-Kept : (s s' : Store) → fit_budget s ≡ ok s' → Kept s s'
unfolding fit_budget
fit_budget-Kept s s' e =
    let (t, first, rest) = >>=-eq-ok (shrink s (candidates s)) _ e in
    ground (arith, shrink-Kept s (candidates s) t first)

pub prepare-Kept : (next old s' : Store) → prepare next old ≡ ok s' → Kept next s'
unfolding prepare
prepare-Kept next old s' e =
    let (_, _, rest) = >>=-eq-ok (check_counts next old) _ e in
    elim (Bool-cases (ltb output_budget (output_bytes next))) [
      | inl t ↦ fit_budget-Kept next s' (rw t at rest)
      | inr t ↦ ok-Kept next s' (rw t at rest)
    ]
