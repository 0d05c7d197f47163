-- ===== src/Pin/Serve/Committed.antt =====
-- pin.rs, `rpc_commit`: what a commit that succeeds records.
use clix.Error.{>>=-eq-ok, Result, err, ok, ok-injective, refuse_if, refuse_if-ok}
use clix.Prelude.{
  Text, [], ap, arith, false, get, get-insert-other, get-insert-same, hex, int_eq, nat_eq, none,
  not, refl, subst, sym, text, text_eq, texts_eq, true, unwrap_or, ℕ, ◌!=◌, ◌∙◌, ◌≡◌,
}
use clix.Types.{
  Peer, bodies_eq, bool_eq, job_eq, patterns_eq, schedule_eq, status_eq, time_eq, weekday_eq,
}
use clix.State.{Host, PinIndex, Store}
use clix.State.Frame.{Kept}
use clix.Store.{Sidecar, Sys, update}
use clix.Store.Durable.{published, rejected, unsaved, unsynced, update-Updated}
use clix.Pin.{
  Manifest, Manifest-discrete, baseline, changed, ensure_enabled, fingerprint_eq, manifest_eq,
  version_eq, without_excluded,
}
use clix.Pin.Tree.{Files}
use clix.Pin.Scan.{Entries}
use clix.Pin.Recovery.{Codec, recovery_state_eq}
use clix.Pin.Serve.{commit_in, commit_manifest, record_sync, recorded, rpc_commit, scan}

-- What a machine knows after recording a manifest for the peer of the key `pk`.
pub record Recorded (pk : Text) (manifest : Manifest) (before after : Store) : Type 0 where
  pub for_peer : baseline after pk ≡ without_excluded manifest
  pub for_others :
      (k : Text) → ¬ (hex pk ≡ k) → get k after.pin_index.peers ≡ get k before.pin_index.peers
  pub no_error : after.pin_index.last_error ≡ none

recorded-Recorded :
    (now : ℕ) (pk : Text) (manifest : Manifest) (s after : Store)
    → Kept (recorded now pk manifest s) after
    → Recorded pk manifest s after
unfolding recorded baseline
recorded-Recorded now pk manifest s after kept = record {
  for_peer =
      ap (λ (i : PinIndex). without_excluded (unwrap_or [] (get (hex pk) i.peers)))
        (sym kept.pin_index)
      ∙ ap (λ v. without_excluded (unwrap_or [] v))
          (get-insert-same (hex pk) manifest s.pin_index.peers);
  for_others = λ k n.
      ap (λ (i : PinIndex). get k i.peers) (sym kept.pin_index)
      ∙ get-insert-other (hex pk) k manifest s.pin_index.peers n;
  no_error = ap (λ (i : PinIndex). i.last_error) (sym kept.pin_index);
}

same_manifest : (a b : Manifest) → (a != b) ≡ false → a ≡ b
same_manifest a b e = elim (Manifest-discrete a b) [ yes p ↦ p | no n ↦ absurd (ground arith) ]

module _ (h : Host) (codec : Codec) (sys : Sys) (now : ℕ) where
  record_sync-Recorded :
      (m : Sidecar) (pk : Text) (manifest : Manifest)
      → let after = record_sync h sys now m pk manifest in
        after.1 ≡ ok tt → Recorded pk manifest m.store after.0.store
  unfolding record_sync
  record_sync-Recorded m pk manifest e =
      elim (update-Updated h sys m (λ s. ok (recorded now pk manifest s, tt))) [
        | rejected e' same _ ↦ cc
        | unsaved e' same _ ↦ cc
        | unsynced e' s next v bytes same _ _ _ ↦ cc
        | published s v bytes _ _ edited st _ ↦ recorded-Recorded now pk manifest m.store _ (
            subst (λ t. Kept t (update h sys m (λ s. ok (recorded now pk manifest s, tt))).0.store)
              (sym (ap (λ t. t.0) (ok-injective edited))) st.kept)
      ]

  -- What a commit that succeeds says of the request, of the tree and of the state after it.
  pub record Committed (m after : Sidecar) (peer : Peer) (asked : Result Manifest) (held : Files)
      (entries : Entries) : Type 0 where
    pub manifest : Manifest
    pub as_asked : asked ≡ ok manifest
    pub enabled : m.store.pin_enabled ≡ true
    pub as_found : scan h codec held entries ≡ ok manifest
    pub recorded_for : Recorded peer.owner_pk manifest m.store after.store

  commit_manifest-ok :
      (opened : Result (Unit {0})) (s : Store) (asked : Result Manifest) (held : Files)
      (entries : Entries) (manifest : Manifest)
      → commit_manifest h codec opened s asked held entries ≡ ok manifest
      → (asked ≡ ok manifest) × (s.pin_enabled ≡ true) × (scan h codec held entries ≡ ok manifest)
  unfolding commit_manifest ensure_enabled
  commit_manifest-ok opened s asked held entries manifest e =
      let (u, on, rest) = >>=-eq-ok (ensure_enabled s) _ e in
      let (wanted, read_as, rest₂) = >>=-eq-ok asked _ rest in
      let (_, _, rest₃) = >>=-eq-ok opened _ rest₂ in
      let (found, scanned, rest₄) = >>=-eq-ok (scan h codec held entries) _ rest₃ in
      let (u', agrees, final) =
        >>=-eq-ok (refuse_if (found != wanted) (changed (text "(tree changed before commit)"))) _
          rest₄ in
      let same = ok-injective final in
      let equal : found ≡ wanted = same_manifest found wanted (refuse_if-ok _ _ u' agrees) in
      (
        read_as ∙ ap ok same,
        ground (arith, refuse_if-ok (not s.pin_enabled) _ u on),
        scanned ∙ ap ok (equal ∙ same),
      )

  commit_in-Committed :
      (opened : Result (Unit {0})) (m : Sidecar) (peer : Peer) (asked wanted : Result Manifest)
      (held : Files) (entries : Entries)
      → commit_manifest h codec opened m.store asked held entries ≡ wanted
      → (commit_in h codec sys now m peer wanted).1 ≡ ok tt
      → Committed m (commit_in h codec sys now m peer wanted).0 peer asked held entries
  unfolding commit_in
  commit_in-Committed opened m peer asked (err e) held entries p q = absurd (ground arith)
  commit_in-Committed opened m peer asked (ok manifest) held entries p q =
      let (as_asked, on, as_found) =
        commit_manifest-ok opened m.store asked held entries manifest p in
      record {
        manifest = manifest;
        as_asked = as_asked;
        enabled = on;
        as_found = as_found;
        recorded_for = record_sync-Recorded m peer.owner_pk manifest q;
      }

  -- A commit that succeeds was asked for a manifest that the tree has, with pin on; the state then
  -- records that manifest for this peer, less what pin excludes, and what it recorded for the other
  -- peers has not changed.
  pub rpc_commit-Committed :
      (opened : Result (Unit {0})) (m : Sidecar) (peer : Peer) (asked : Result Manifest)
      (held : Files) (entries : Entries)
      → let after = rpc_commit h codec sys now opened m peer asked held entries in
        after.1 ≡ ok tt → Committed m after.0 peer asked held entries
  unfolding rpc_commit
  rpc_commit-Committed opened m peer asked held entries q =
      commit_in-Committed opened m peer asked _ held entries refl q
