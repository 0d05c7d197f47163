-- ===== src/Exec/Reservation.antt =====
-- exec.rs: a single-use grant while its run lasts, and after it.
use clix.Grant.Check.{check_at-found}
use clix.State.{Store}
use clix.Exec.{reserve}
use clix.Grant.{check_at, check_found, check_option}
use clix.Error.{err, grant_busy, ok}
use clix.Exec.Finish.{is_reserved, release}
use clix.Prelude.{
  List, Text, [], arith, false, find, int_eq, nat_eq, none, refl, remove_first, some, text_eq,
  texts_eq, true, update_first, ◌==◌, ◌∷◌, ◌≡◌,
}
use clix.Types.{
  BodyId, Grant, Moment, bodies_eq, bool_eq, job_eq, patterns_eq, schedule_eq, status_eq, time_eq,
  weekday_eq,
}

abbrev pub held : Text → Text → List Grant → List Grant
held name id gs =
    update_first (λ (x : Grant). x.tool == name) (λ x. record x { reservation = some id }) gs

held-find :
    (name id : Text) (gs : List Grant) (g : Grant)
    → find (λ (x : Grant). x.tool == name) gs ≡ some g
    → find (λ (x : Grant). x.tool == name) (held name id gs)
      ≡ some (record g { reservation = some id })
unfolding find update_first
held-find name id [] g e = absurd (cc e)
held-find name id (x ∷ gs) g e = ground (arith, held-find name id gs g)

release-held :
    (name id : Text) (gs : List Grant) (g : Grant)
    → find (λ (x : Grant). x.tool == name) gs ≡ some g
    → g.reservation ≡ none
    → release name id (some false) (held name id gs) ≡ gs
unfolding find update_first release is_reserved
release-held name id [] g e r = refl
release-held name id (x ∷ gs) g e r = ground (arith, release-held name id gs g)

remove-held :
    (name id : Text) (gs : List Grant) (g : Grant)
    → find (λ (x : Grant). x.tool == name) gs ≡ some g
    → release name id (some true) (held name id gs)
      ≡ remove_first (λ (x : Grant). x.tool == name) gs
unfolding find update_first remove_first release is_reserved
remove-held name id [] g e = refl
remove-held name id (x ∷ gs) g e = ground (arith, remove-held name id gs g)

-- Where a single-use grant lets a run through and the run reserves it, everyone is told that it is
-- busy; a failure gives the grants back as they were, a success removes the grant, and an unknown
-- outcome leaves it reserved.
pub reserve-release :
    (s : Store) (from : BodyId) (now : Moment) (g : Grant) (id : Text)
    → check_at s g.tool from now ≡ ok g
    → g.once ≡ true
    → let s' = reserve id g s in
      ((who : BodyId) (then : Moment) → check_at s' g.tool who then ≡ err (grant_busy g.tool))
      × (release g.tool id (some false) s'.grants ≡ s.grants)
      × (release g.tool id (some true) s'.grants
          ≡ remove_first (λ (x : Grant). x.tool == g.tool) s.grants)
      × (release g.tool id none s'.grants ≡ s'.grants)
unfolding check_at check_option check_found reserve release
reserve-release s from now g id e o =
    let (first, unreserved) = check_at-found s g.tool from now g e in
    let held_now = held-find g.tool id s.grants g first in
    rw o (
      λ who then. rw held_now refl,
      release-held g.tool id s.grants g first unreserved,
      remove-held g.tool id s.grants g first,
      refl,
    )
