-- ===== src/Job/Remote/Final.antt =====
-- job.rs: an answer or a failure that comes late.
use clix.Prelude.{
  Option, arith, find, int_eq, nat_eq, none, refl, some, sym, text_eq, texts_eq, true, ◌==◌, ◌∙◌,
  ◌≡◌,
}
use clix.Types.{
  BodyId, Job, bodies_eq, bool_eq, job_eq, patterns_eq, schedule_eq, status_eq, time_eq, weekday_eq,
}
use clix.Error.{>>=-eq-ok, ClixError, Result, err, ok, ok-injective}
use clix.Limits
use clix.State.{Host, Store}
use clix.Store.{Sidecar, Sys}
use clix.Job.{is_terminal}
use clix.Job.Remote.{
  apply_considered, apply_peer_result, considered, delivery_failed, fail_found, judge,
}

judge-final :
    (peer : BodyId) (incoming j : Job)
    → is_terminal j.status ≡ true
    → judge peer incoming j ≡ ok none
unfolding judge
judge-final peer incoming j t = ground arith

considered-final :
    (s : Store) (peer : BodyId) (incoming j : Job) (o : Option Job)
    → find (λ x. x.id == incoming.id) s.jobs ≡ some j
    → is_terminal j.status ≡ true
    → considered s peer incoming ≡ ok o
    → o ≡ none
unfolding considered
considered-final s peer incoming j o f t e =
    let (_, _, rest) = >>=-eq-ok (Limits.result incoming) _ e in
    sym (ok-injective (sym (judge-final peer incoming j t) ∙ (rw f at rest)))

module _ (h : Host) (sys : Sys) (m : Sidecar) where
  apply_considered-none :
      (incoming : Job) (r : Result (Option Job))
      → ((o : Option Job) → r ≡ ok o → o ≡ none)
      → (apply_considered h sys m incoming r).0 ≡ m
  unfolding apply_considered
  apply_considered-none incoming (err e) n = refl
  apply_considered-none incoming (ok none) n = refl
  apply_considered-none incoming (ok (some j)) n = absurd (cc (n (some j) refl))

  fail_found-final :
      (e : ClixError) (o : Option Job) (j : Job)
      → o ≡ some j
      → is_terminal j.status ≡ true
      → (fail_found h sys m e o).0 ≡ m
  unfolding fail_found
  fail_found-final e none j p t = absurd (cc p)
  fail_found-final e (some x) j p t = ground arith

  -- Where a job is found here and is over, neither an unsigned answer about it nor a failed
  -- delivery changes the state or the state file.
  pub late_answer :
      (peer : BodyId) (incoming j : Job) (e : ClixError)
      → find (λ x. x.id == incoming.id) m.store.jobs ≡ some j
      → is_terminal j.status ≡ true
      → ((apply_peer_result h sys m peer incoming).0 ≡ m)
        × ((delivery_failed h sys m incoming.id e).0 ≡ m)
  unfolding apply_peer_result delivery_failed
  late_answer peer incoming j e f t = (
    apply_considered-none incoming (considered m.store peer incoming)
        (λ o. considered-final m.store peer incoming j o f t),
    fail_found-final e (find (λ x. x.id == incoming.id) m.store.jobs) j f t,
  )
