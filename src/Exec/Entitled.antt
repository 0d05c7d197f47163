-- ===== src/Exec/Entitled.antt =====
-- exec.rs, `submit`: what entitles a command to the process that it starts.
use clix.Store.Durable.{published, rejected, unsaved, unsynced, update-Updated}
use clix.Types.{BodyId, Grant, Job, Moment}
use clix.Error.{>>=-eq-ok, ClixError, Result, err, ok, ok-injective}
use clix.Prelude.{
  Option, Option-cases, Text, ap, arith, inl, inr, none, refl, some, subst, sym, ◌∙◌, ◌≡◌, ◌≤◌,
}
use clix.Limits.{Limits, take_child}
use clix.State.{Host, Store}
use clix.Store.{Sidecar, update}
use clix.Grant.{check_args, check_at}
use clix.Grant.Check.{IsFirst, Permits, check_at_iff, some_injective}
use clix.Exec.{
  Accepted, Clock, Delivery, accept, add_request, admit, argv_head, before_admission, bind,
  conclude, grant_run, judge_permit, new_job, permit, proceed, refuse, start, submit, unchanged,
}
use clix.Exec.Admission.{Same, bind-Same}

-- The owner's grant permits the command, to this machine and now, and the job is the command's.
pub record Entitled (s : Store) (now : Moment) (d : Delivery) (g : Grant) (j : Job) : Type 0 where
  pub permitted : Permits s (argv_head d.argv) d.from now g
  pub arguments : check_args g d.argv ≡ ok tt
  pub from : j.from ≡ d.from
  pub argv : j.argv ≡ d.argv
  pub id : j.id ≡ d.id

Permits-Same :
    (a b : Store) (name : Text) (from : BodyId) (now : Moment) (g : Grant)
    → Same a b
    → Permits b name from now g
    → Permits a name from now g
Permits-Same a b name from now g same p = record {
  found = subst (IsFirst name g) same.grants p.found;
  unreserved = p.unreserved;
  names = p.names;
  in_time = p.in_time;
  on_schedule = p.on_schedule;
}

-- A run that is granted: its job, and the slot that it takes.
grant_run-ok :
    (limits slots : Limits) (s s' : Store) (d : Delivery) (g g' : Grant) (a : Accepted)
    → grant_run limits s d g' ≡ ok (s', a)
    → a.granted ≡ some (g, slots)
    → (g' ≡ g)
      × (a.job.from ≡ d.from)
      × (a.job.argv ≡ d.argv)
      × (a.job.id ≡ d.id)
      × (take_child limits ≡ ok slots)
unfolding grant_run new_job
grant_run-ok limits slots s s' d g g' a e granted =
    let (slots', taken, rest) = >>=-eq-ok (take_child limits) _ e in
    let same = ap (λ t. t.1) (ok-injective rest) in
    let pair = some_injective (ap (λ (x : Accepted). x.granted) same ∙ granted) in
    (
      ap (λ t. t.0) pair,
      sym (ap (λ (x : Accepted). x.job.from) same),
      sym (ap (λ (x : Accepted). x.job.argv) same),
      sym (ap (λ (x : Accepted). x.job.id) same),
      taken ∙ ap (λ t. ok t.1) pair,
    )

refuse-none :
    (random : Result Text) (s s' : Store) (d : Delivery) (e : ClixError) (a : Accepted)
    → refuse random s d e ≡ ok (s', a)
    → a.granted ≡ none
unfolding refuse
refuse-none random s s' d e a r =
    let (t, _, rest) = >>=-eq-ok (add_request random s d e) _ r in
    sym (ap (λ (x : Store × Accepted). x.1.granted) (ok-injective rest))

judge_permit-granted :
    (random : Result Text) (limits slots : Limits) (s s' : Store) (d : Delivery) (r : Result Grant)
    (g : Grant) (a : Accepted)
    → judge_permit random limits s d r ≡ ok (s', a)
    → a.granted ≡ some (g, slots)
    → (r ≡ ok g)
      × (a.job.from ≡ d.from)
      × (a.job.argv ≡ d.argv)
      × (a.job.id ≡ d.id)
      × (take_child limits ≡ ok slots)
unfolding judge_permit
judge_permit-granted random limits slots s s' d (ok g') g a e granted =
    let (same, from, argv, id, taken) = grant_run-ok limits slots s s' d g g' a e granted in
    (ap ok same, from, argv, id, taken)
judge_permit-granted random limits slots s s' d (err x) g a e granted =
    absurd (let no_run = refuse-none random s s' d x a e in cc)

take_child-mesh_exec :
    (limits slots : Limits) → take_child limits ≡ ok slots → slots.mesh_exec ≡ limits.mesh_exec
unfolding take_child
take_child-mesh_exec limits slots e = ground arith

module _ (h : Host) (clock : Clock) (m : Sidecar) (limits : Limits) (d : Delivery) where
  admit-Entitled :
      (s s' : Store) (a : Accepted) (g : Grant) (slots : Limits)
      → clock.now.day ≤ 31
      → admit h clock limits d s ≡ ok (s', a)
      → a.granted ≡ some (g, slots)
      → Entitled s clock.now d g a.job
  unfolding admit permit
  admit-Entitled s s' a g slots day e granted =
      let (t, bound, rest) = >>=-eq-ok (bind h s d.certificate) _ e in
      let same = bind-Same h s d.certificate t bound in
      let (may, from, argv, id, _) =
        judge_permit-granted clock.random limits slots t s' d (permit clock.now t d) g a rest
          granted in
      let (g', found, rest₂) = >>=-eq-ok (check_at t (argv_head d.argv) d.from clock.now) _ may in
      let (u, listed, final) = >>=-eq-ok (check_args g' d.argv) _ rest₂ in
      let own = ok-injective final in
      record {
        permitted =
            Permits-Same s t (argv_head d.argv) d.from clock.now g same
              ((check_at_iff t (argv_head d.argv) d.from clock.now g day).0 (found ∙ ap ok own));
        arguments = subst (λ x. check_args x d.argv ≡ ok tt) own listed;
        from = from;
        argv = argv;
        id = id;
      }

  admit-slots :
      (s s' : Store) (a : Accepted) (g : Grant) (slots : Limits)
      → admit h clock limits d s ≡ ok (s', a)
      → a.granted ≡ some (g, slots)
      → take_child limits ≡ ok slots
  unfolding admit
  admit-slots s s' a g slots e granted =
      let (t, bound, rest) = >>=-eq-ok (bind h s d.certificate) _ e in
      let (_, _, _, _, taken) =
        judge_permit-granted clock.random limits slots t s' d (permit clock.now t d) g a rest
          granted in
      taken

  -- An update that gives a result gives the edit's.
  admitted :
      (a : Accepted)
      → (update h clock.sys m (admit h clock limits d)).1 ≡ ok a
      → (s' : Store) × (admit h clock limits d m.store ≡ ok (s', a))
  admitted a p = elim (update-Updated h clock.sys m (admit h clock limits d)) [
    | rejected e q _ ↦ absurd (cc (sym p ∙ q))
    | unsaved e q _ ↦ absurd (cc (sym p ∙ q))
    | unsynced e s next v bytes q _ _ _ ↦ absurd (cc (sym p ∙ q))
    | published s v bytes q _ edited st disk ↦
        (s, edited ∙ ap (λ x. ok (s, x)) (sym (ok-injective (sym p ∙ q))))
  ]

  conclude-granted :
      (m' : Sidecar) (r : Result Accepted) (g : Grant) (j : Job)
      → (conclude m' limits r).started ≡ some (g, j)
      → (a : Accepted) × (slots : Limits) × (r ≡ ok a) × (a.granted ≡ some (g, slots)) × (a.job ≡ j)
  unfolding conclude unchanged start
  conclude-granted m' (err e) g j p = absurd cc
  conclude-granted m' (ok a) g j p = elim (Option-cases a.granted) [
    | inl n ↦ absurd (ground arith)
    | inr ((g', slots), y) ↦ (a, slots, refl, ground arith, ground arith)
  ]

  proceed-Entitled :
      (r : Result (Option Job)) (g : Grant) (j : Job)
      → clock.now.day ≤ 31
      → (proceed h clock m limits d r).started ≡ some (g, j)
      → Entitled m.store clock.now d g j
  unfolding proceed accept unchanged
  proceed-Entitled (err e) g j day p = absurd (cc p)
  proceed-Entitled (ok (some x)) g j day p = absurd (cc p)
  proceed-Entitled (ok none) g j day p =
      let u = update h clock.sys m (admit h clock limits d) in
      let (a, slots, q, granted, same) = conclude-granted u.0 u.1 g j p in
      let (s', edited) = admitted a q in
      subst (Entitled m.store clock.now d g) same
        (admit-Entitled m.store s' a g slots day edited granted)

  -- A process that a submission starts is the command's, by a grant that permits it.
  pub submit-Entitled :
      (g : Grant) (j : Job)
      → clock.now.day ≤ 31
      → (submit h clock m limits d).started ≡ some (g, j)
      → Entitled m.store clock.now d g j
  unfolding submit
  submit-Entitled g j day p = proceed-Entitled (before_admission h m.store d) g j day p

  conclude-mesh_exec :
      (m' : Sidecar) (r : Result Accepted)
      → (update h clock.sys m (admit h clock limits d)).1 ≡ r
      → (conclude m' limits r).limits.mesh_exec ≡ limits.mesh_exec
  unfolding conclude unchanged start
  conclude-mesh_exec m' (err e) p = refl
  conclude-mesh_exec m' (ok a) p = elim (Option-cases a.granted) [
    | inl n ↦ ground arith
    | inr ((g, slots), y) ↦
        let (s', edited) = admitted a p in
        let taken = admit-slots m.store s' a g slots edited y in
        let kept = take_child-mesh_exec limits slots taken in ground arith
  ]

  proceed-mesh_exec :
      (r : Result (Option Job)) → (proceed h clock m limits d r).limits.mesh_exec ≡ limits.mesh_exec
  unfolding proceed accept unchanged
  proceed-mesh_exec (err e) = refl
  proceed-mesh_exec (ok (some x)) = refl
  proceed-mesh_exec (ok none) = conclude-mesh_exec _ _ refl

  -- A submission takes no slot of the mesh's.
  pub submit-mesh_exec : (submit h clock m limits d).limits.mesh_exec ≡ limits.mesh_exec
  unfolding submit
  submit-mesh_exec = proceed-mesh_exec (before_admission h m.store d)
