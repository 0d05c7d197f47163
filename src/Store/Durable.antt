-- ===== src/Store/Durable.antt =====
-- store.rs, `update`: the state in memory and the state on disk.

use clix.Error.{>>=-eq-ok, ClixError, Result, display, err, is_ok, ok, ok-injective}
use clix.Prelude.{
  List, Option, Text, [], ap, arith, false, length, none, refl, some, subst, ℕ, ◌∙◌, ◌∷◌, ◌≡◌,
}
use clix.State.{Host, Store}
use clix.State.Frame.{Kept, Kept-trans}
use clix.History.Refresh.{refresh_owned}
use clix.History.Refresh.Frame.{refresh_owned-Kept}
use clix.History.Normalize.{normalize_output}
use clix.History.Normalize.Frame.{normalize_output-Kept}
use clix.Storage.{encode}
use clix.Storage.Prune.{prepare}
use clix.Storage.Prune.Frame.{prepare-Kept}
use clix.Storage.Charge.{reserve_completion}
use clix.Store.{
  Sidecar, Sys, before_rename, ensure_writable, format_version, publish_state, replace_file,
  save_encoded, save_staged, stage, staged, update,
}

-- What is saved for an edited state: the bookkeeping keeps what the edit wrote.
pub record Staged (h : Host) (edited next : Store) (bytes : Text) : Type 0 where
  pub kept : Kept edited next
  pub encoded : encode h next ≡ ok bytes

-- How an update can end.
pub data Updated (h : Host) {T : Type 0} (m m' : Sidecar) (edit : Store → Result (Store × T))
    (r : Result T) : Type 0 where
  -- Before the save: nothing has changed.
  rejected : (e : ClixError) → r ≡ err e → m' ≡ m → Updated h m m' edit r
  -- In the save, before the rename: only the mark of the failure is new.
  unsaved :
      (e : ClixError)
      → r ≡ err e
      → m' ≡ record { store = record m.store { write_error = some (display e) }; disk = m.disk }
      → Updated h m m' edit r
  -- In the save, after the rename: the file holds the new state, and the old one stays in memory.
  unsynced :
      (e : ClixError) (s next : Store) (v : T) (bytes : Text)
      → r ≡ err e
      → edit m.store ≡ ok (s, v)
      → Staged h s next bytes
      → m' ≡ record { store = record m.store { write_error = some (display e) }; disk = some bytes }
      → Updated h m m' edit r
  -- Saved and published.
  published :
      (s : Store) (v : T) (bytes : Text)
      → r ≡ ok v
      → m.store.write_error ≡ none
      → edit m.store ≡ ok (s, v)
      → Staged h s m'.store bytes
      → m'.disk ≡ some bytes
      → Updated h m m' edit r

restamp-Kept : (s s' : Store) (n : ℕ) → Kept s s' → Kept s (record s' { format_version = n })
restamp-Kept s s' n k = ground arith

ensure_writable-none : (s : Store) → ensure_writable s ≡ ok tt → s.write_error ≡ none
unfolding ensure_writable
ensure_writable-none s e = ground arith

module _ (h : Host) {T : Type 0} (sys : Sys) where
  Staged-of :
      (s s₃ next : Store) (b bytes : Text) (v v' : T)
      → Kept s s₃
      → encode h s₃ ≡ ok b
      → ◌≡◌ {A = Result (Store × Text × T)} (ok (s₃, b, v)) (ok (next, bytes, v'))
      → Staged h s next bytes × (v ≡ v')
  Staged-of s s₃ next b bytes v v' kept enc e =
      let same = ok-injective e in
      (
        record {
          kept = subst (Kept s) (ap (λ t. t.0) same) kept;
          encoded = rw (← ap (λ t. t.0) same, ← ap (λ t. t.1) same) enc;
        },
        ap (λ t. t.2) same,
      )

  stage-Staged :
      (old s : Store) (v : T) (next : Store) (bytes : Text) (v' : T)
      → stage h sys old (s, v) ≡ ok (next, bytes, v')
      → Staged h s next bytes × (v ≡ v')
  unfolding stage
  stage-Staged old s v next bytes v' e =
      let (s₁, refresh, rest) = >>=-eq-ok (refresh_owned h sys.epoch_random (some old) s) _ e in
      let s₂ = normalize_output (record s₁ { format_version = format_version }) in
      let (s₃, fits, rest₃) = >>=-eq-ok (prepare s₂ old) _ rest in
      let (b, enc, rest₄) = >>=-eq-ok (encode h s₃) _ rest₃ in
      let (_, _, final) = >>=-eq-ok (reserve_completion h s₃ old (length b)) _ rest₄ in
      let kept : Kept s s₃ =
        Kept-trans
          (restamp-Kept s s₁ format_version
            (refresh_owned-Kept h sys.epoch_random (some old) s s₁ refresh))
          (Kept-trans (normalize_output-Kept (record s₁ { format_version = format_version }))
            (prepare-Kept s₂ old s₃ fits)) in
      Staged-of s s₃ next b bytes v v' kept enc final

  publish-Updated :
      (m : Sidecar) (edit : Store → Result (Store × T)) (s next : Store) (v : T) (bytes : Text)
      (before synced : Result (Unit {0}))
      → m.store.write_error ≡ none
      → edit m.store ≡ ok (s, v)
      → Staged h s next bytes
      → let saved = replace_file before synced bytes m.disk in
        Updated h m (publish_state m next v saved).0 edit (publish_state m next v saved).1
  unfolding publish_state replace_file
  publish-Updated m edit s next v bytes (err e') synced w e st = unsaved e' refl refl
  publish-Updated m edit s next v bytes (ok _) (err e') w e st =
      unsynced e' s next v bytes refl e st refl
  publish-Updated m edit s next v bytes (ok _) (ok _) w e st = published s v bytes refl w e st refl

  save_staged-Updated :
      (m : Sidecar) (edit : Store → Result (Store × T)) (r : Result (Store × Text × T))
      → staged h sys m.store edit ≡ r
      → Updated h m (save_staged sys m r).0 edit (save_staged sys m r).1
  unfolding staged save_staged save_encoded
  save_staged-Updated m edit (err e) p = rejected e refl refl
  save_staged-Updated m edit (ok (next, bytes, v')) p =
      let (_, writable, p₁) = >>=-eq-ok (ensure_writable m.store) _ p in
      let ((s, v), edited, p₂) = >>=-eq-ok (edit m.store) _ p₁ in
      let (st, same) = stage-Staged m.store s v next bytes v' p₂ in
      publish-Updated m edit s next v' bytes (before_rename sys) sys.sync_dir
        (ensure_writable-none m.store writable) (rw (← same) edited) st

  -- An update ends in one of four ways: refused with nothing changed; failed before the state file
  -- was replaced, marking the state unwritable; failed after it was replaced, marking it too and
  -- leaving the new state on disk; or saved, and then the file holds the encoding of the state in
  -- memory, which is the edited state but for the bookkeeping of history and outputs.
  pub update-Updated :
      (m : Sidecar) (edit : Store → Result (Store × T))
      → Updated h m (update h sys m edit).0 edit (update h sys m edit).1
  unfolding update
  update-Updated m edit = save_staged-Updated m edit (staged h sys m.store edit) refl

  -- A state with the mark of a failed save refuses an update.
  update-marked :
      (m : Sidecar) (edit : Store → Result (Store × T)) (reason : Text)
      → m.store.write_error ≡ some reason
      → ((update h sys m edit).0 ≡ m) × (is_ok (update h sys m edit).1 ≡ false)
  unfolding update ensure_writable
  update-marked m edit reason w = ground arith

  -- An update whose save fails leaves the mark.
  publish_state-marked :
      (m : Sidecar) (next : Store) (v : T) (saved : Option Text × Result (Unit {0}))
      → is_ok (publish_state m next v saved).1 ≡ false
      → (reason : Text) × ((publish_state m next v saved).0.store
          ≡ record m.store { write_error = some reason })
  unfolding publish_state
  publish_state-marked m next v (disk, ok _) fails = absurd (ground arith)
  publish_state-marked m next v (disk, err e) fails = (display e, refl)

-- Every one of a sequence of updates is refused and changes nothing.
unfoldable pub AllRefused :
    Host → {T : Type 0} → Sidecar → List (Sys × (Store → Result (Store × T))) → Type 0
AllRefused h m [] = Unit
AllRefused h m ((sys, edit) ∷ later) =
    let after = update h sys m edit in
    (is_ok after.1 ≡ false) × (after.0 ≡ m) × AllRefused h after.0 later

marked-AllRefused :
    (h : Host) {T : Type 0} (m : Sidecar) (later : List (Sys × (Store → Result (Store × T))))
    (reason : Text)
    → m.store.write_error ≡ some reason
    → AllRefused h m later
unfolding AllRefused
marked-AllRefused h m [] reason w = tt
marked-AllRefused h m ((sys, edit) ∷ later) reason w =
    let (same, refused) = update-marked h sys m edit reason w in
    (
      refused,
      same,
      marked-AllRefused h (update h sys m edit).0 later reason
          (ap (λ (x : Sidecar). x.store.write_error) same ∙ w),
    )

-- Where an update was accepted and encoded but did not succeed, since its save failed, every one of
-- any sequence of later updates is refused and changes nothing, whatever it edits and whatever the
-- system then allows.
pub update_stopped :
    (h : Host) {T : Type 0} (sys : Sys) (m : Sidecar) (edit : Store → Result (Store × T))
    (next : Store) (bytes : Text) (v : T) (later : List (Sys × (Store → Result (Store × T))))
    → staged h sys m.store edit ≡ ok (next, bytes, v)
    → is_ok (update h sys m edit).1 ≡ false
    → AllRefused h (update h sys m edit).0 later
unfolding update
update_stopped h sys m edit next bytes v later ready fails =
    let (reason, marked) =
      publish_state-marked h sys m next v (save_encoded sys bytes m.disk)
        (subst (λ r. is_ok (save_staged sys m r).1 ≡ false) ready fails) in
    marked-AllRefused h _ later reason (
      ap (λ r. (save_staged sys m r).0.store.write_error) ready
      ∙ ap (λ (x : Store). x.write_error) marked)
