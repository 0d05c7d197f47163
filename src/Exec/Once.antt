-- ===== src/Exec/Once.antt =====
-- exec.rs, `submit`: an id is spent by the submission that accepts it, in memory and on disk.
use clix.Store.Durable.{published, rejected, unsaved, unsynced, update-Updated}
use clix.Storage.{encode}
use clix.State.Known.{known, known-Kept, known_in}
use clix.Types.{Grant, Job}
use clix.Error.{Result, err, ok, ok-injective}
use clix.Prelude.{
  Option, Text, Text-discrete, ap, arith, none, refl, some, subst, sym, ◌∙◌, ◌≡◌, ◌≢◌,
}
use clix.Limits.{Limits}
use clix.State.{Host, Store}
use clix.State.Frame.{bare}
use clix.Store.{Sidecar, update}
use clix.Exec.{
  Accepted, Clock, Delivery, accept, admit, before_admission, conclude, proceed, start, store_job,
  submit, unchanged,
}
use clix.Exec.Spent.{IsSpent, IsSpent-Kept, IsSpent-same, KeepsSpent, update-IsSpent}
use clix.Exec.Admission.{Admits, admit-Admits, store_job-known_ne, store_job-known_self}

Admits-known_self :
    (d : Delivery) (s s' : Store) (a : Accepted)
    → Admits d s s' a
    → known d.id s' ≡ some (bare a.job)
Admits-known_self d s s' a ad =
    ap (known d.id) ad.result
    ∙ subst (λ k. known k (store_job a.job ad.base) ≡ some (bare a.job)) ad.id
        (store_job-known_self ad.base a.job)

Admits-IsSpent_self :
    (d : Delivery) (s s' : Store) (a : Accepted) → Admits d s s' a → IsSpent d.id s'
Admits-IsSpent_self d s s' a ad = record {
  job = bare a.job;
  at = Admits-known_self d s s' a ad;
  left = ad.left;
}

Admits-IsSpent :
    (id : Text) (d : Delivery) (s s' : Store) (a : Accepted)
    → Admits d s s' a
    → IsSpent id s
    → IsSpent id s'
Admits-IsSpent id d s s' a ad sp = elim (Text-discrete d.id id) [
  | yes e ↦ subst (λ k. IsSpent k s') e (Admits-IsSpent_self d s s' a ad)
  | no n ↦ IsSpent-same id s s' (other (λ e. n (sym ad.id ∙ e))) sp
]
  where
    other : a.job.id ≢ id → known id s' ≡ known id s
    other ne =
        ap (known id) ad.result
        ∙ store_job-known_ne id ad.base a.job ne
        ∙ ap (known_in id) ad.base_jobs

conclude_started :
    (m : Sidecar) (limits : Limits) (r : Result Accepted) (g : Grant) (j : Job)
    → (conclude m limits r).started ≡ some (g, j)
    → (a : Accepted) × (r ≡ ok a) × (a.job ≡ j)
unfolding conclude unchanged start
conclude_started m limits (err e) g j p = absurd (cc p)
conclude_started m limits (ok a) g j p = (a, refl, ground arith)

conclude_sidecar :
    (m : Sidecar) (limits : Limits) (r : Result Accepted) → (conclude m limits r).sidecar ≡ m
unfolding conclude start unchanged
conclude_sidecar m limits (err e) = refl
conclude_sidecar m limits (ok a) = ground arith

-- What a start leaves behind.
pub record Started (h : Host) (d : Delivery) (j : Job) (m : Sidecar) : Type 0 where
  pub bytes : Text
  pub saved : m.disk ≡ some bytes
  pub encoded : encode h m.store ≡ ok bytes
  pub spent : IsSpent d.id m.store
  pub stored : known d.id m.store ≡ some (bare j)

module _ (h : Host) (clock : Clock) (m : Sidecar) (limits : Limits) (d : Delivery) where
  admit-KeepsSpent : (id : Text) → KeepsSpent id m.store (admit h clock limits d)
  admit-KeepsSpent id s a e sp =
      Admits-IsSpent id d m.store s a (admit-Admits h clock limits d m.store s a e) sp

  proceed-IsSpent :
      (id : Text) (r : Result (Option Job))
      → IsSpent id m.store
      → IsSpent id (proceed h clock m limits d r).sidecar.store
  unfolding proceed accept unchanged
  proceed-IsSpent id (err e) sp = sp
  proceed-IsSpent id (ok (some j)) sp = sp
  proceed-IsSpent id (ok none) sp =
      rw (conclude_sidecar _ limits _)
        (update-IsSpent h id clock.sys m (admit h clock limits d) (admit-KeepsSpent id) sp)

  -- A spent id is still spent after any submission, of this or another command.
  pub submit-IsSpent :
      (id : Text) → IsSpent id m.store → IsSpent id (submit h clock m limits d).sidecar.store
  unfolding submit
  submit-IsSpent id sp = proceed-IsSpent id (before_admission h m.store d) sp

  update-Started :
      (a : Accepted)
      → (update h clock.sys m (admit h clock limits d)).1 ≡ ok a
      → Started h d a.job (update h clock.sys m (admit h clock limits d)).0
  update-Started a p = elim (update-Updated h clock.sys m (admit h clock limits d)) [
    | rejected e q _ ↦ absurd (cc (sym p ∙ q))
    | unsaved e q _ ↦ absurd (cc (sym p ∙ q))
    | unsynced e s next v bytes q _ _ _ ↦ absurd (cc (sym p ∙ q))
    | published s v bytes q _ edited st disk ↦
        let ad = admit-Admits h clock limits d m.store s v edited in
        let same = ok-injective (sym p ∙ q) in
        record {
          bytes = bytes;
          saved = disk;
          encoded = st.encoded;
          spent = IsSpent-Kept d.id s _ st.kept (Admits-IsSpent_self d m.store s v ad);
          stored =
              known-Kept d.id st.kept
              ∙ Admits-known_self d m.store s v ad
              ∙ ap (λ (x : Accepted). some (bare x.job)) (sym same);
        }
  ]

  proceed-Started :
      (r : Result (Option Job)) (g : Grant) (j : Job)
      → (proceed h clock m limits d r).started ≡ some (g, j)
      → Started h d j (proceed h clock m limits d r).sidecar
  unfolding proceed accept unchanged
  proceed-Started (err e) g j p = absurd (cc p)
  proceed-Started (ok (some x)) g j p = absurd (cc p)
  proceed-Started (ok none) g j p =
      let u = update h clock.sys m (admit h clock limits d) in
      let (a, q, same) = conclude_started u.0 limits u.1 g j p in
      rw (conclude_sidecar u.0 limits u.1)
        (subst (λ x. Started h d x u.0) same (update-Started a q))

  -- Where a submission starts a process for a job, the state file already holds the encoding of the
  -- state in memory, the job stands in that state as it was started, and its id is spent.
  pub submit_saved :
      (g : Grant) (j : Job)
      → (submit h clock m limits d).started ≡ some (g, j)
      → Started h d j (submit h clock m limits d).sidecar
  unfolding submit
  submit_saved g j p = proceed-Started (before_admission h m.store d) g j p
