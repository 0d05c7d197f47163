-- ===== src/Pin/Serve/Guarded.antt =====
-- pin.rs, `rpc_put`: when a peer's request changes anything.
use clix.Error.{
  >>=-eq-ok, ClixError, Result, err, ok, ok-injective, protocol, refuse_if, refuse_if-ok,
}
use clix.Prelude.{
  Bool, List, Option, Text, [], ap, arith, false, get, if◌then◌else◌, inl, inr, int_eq, is_none,
  nat_eq, none, not, refl, some, subst, sym, text, text_eq, texts_eq, true, ◌!=◌, ◌++◌, ◌==◌, ◌||◌,
  ◌∙◌, ◌≡◌, ◌≢◌, ◌⊎◌,
}
use clix.Types.{
  Peer, bodies_eq, bool_eq, job_eq, patterns_eq, schedule_eq, status_eq, time_eq, weekday_eq,
}
use clix.State.{Fingerprint, Host, Store}
use clix.Store.{ensure_writable}
use clix.Pin.{
  Change, Version-discrete, baseline, changed, conflict, ensure_enabled, fingerprint_eq,
  manifest_eq, valid_path, version_eq,
}
use clix.Pin.Tree.{Files, read, version_of}
use clix.Pin.Rename.{Outside}
use clix.Pin.Guards.{check_content}
use clix.Pin.Recovery.{Codec, recovery_state_eq}
use clix.Pin.Recovery.Check.{check_recovery_except}
use clix.Pin.Apply.{apply, apply_locked, apply_under, carry_out, done_with, prepare}
use clix.Pin.Apply.Elsewhere.{apply-other}
use clix.Pin.Serve.{PutRequest, needed, precondition, put_change, put_in, read_content, rpc_put}

pub choose-else : {T : Type 0} (b : Bool) (x y z : T) → (if b then x else y) ≡ z → x ≢ z → y ≡ z
choose-else true x y z e n = absurd (n e)
choose-else false x y z e n = e

same_version : (a b : Option Fingerprint) → (a != b) ≡ false → a ≡ b
same_version a b e = elim (Version-discrete a b) [ yes p ↦ p | no n ↦ absurd (ground arith) ]

prepare-current :
    (h : Host) (codec : Codec) (o : Outside) (root : Text) (c : Change) (content : Option Text)
    (store : Store) (ignored : List Text) (held : Files) (next : Bool × Text)
    → prepare h codec o root c content store ignored held ≡ ok (some next)
    → (found : Option (Fingerprint × Text)) × (read h o.first c.path ≡ ok found)
      × (version_of found ≡ c.expected)
unfolding prepare
prepare-current h codec o root c content store ignored held next e =
    let (_, _, rest) = >>=-eq-ok (ensure_writable store) _ e in
    let (_, _, rest₂) = >>=-eq-ok (check_recovery_except h codec ignored held) _ rest in
    let (_, _, rest₃) = >>=-eq-ok (check_content h c.new content) _ rest₂ in
    let (found, seen, rest₄) = >>=-eq-ok (read h o.first c.path) _ rest₃ in
    let going_on = choose-else (version_of found == c.new) _ _ _ rest₄ (λ p. ground arith) in
    let (u, agrees, _) =
      >>=-eq-ok (refuse_if (version_of found != c.expected) (changed c.path)) _ going_on in
    (found, seen, same_version _ _ (refuse_if-ok _ _ u agrees))

-- A request that may write: pin is on here, the path that it names is one that pin accepts, and what
-- was found at it is what this machine recorded at its last synchronisation with the peer, and what
-- the request expects.
pub record Allowed (h : Host) (o : Outside) (s : Store) (peer : Peer) (req : PutRequest)
    (files : Files) : Type 0 where
  pub path : Text
  pub asked : req.path ≡ some path
  pub enabled : s.pin_enabled ≡ true
  pub acceptable : valid_path path ≡ ok tt
  pub found : Option (Fingerprint × Text)
  pub seen : read h o.first path ≡ ok found
  pub recorded_here : version_of found ≡ get path (baseline s peer.owner_pk)
  pub expected : req.expected ≡ some (ok (version_of found))
  -- No other path has changed.
  pub elsewhere : (k : Text) → ¬ (path ≡ k) → get k files ≡ get k o.at_rename

needed-ok : {T : Type 0} (e : ClixError) (f : Option T) (t : T) → needed e f ≡ ok t → f ≡ some t
unfolding needed
needed-ok e none t p = absurd (ground arith)
needed-ok e (some x) t p = ap some (ok-injective p)

precondition-ok :
    (f : Option (Result (Option Fingerprint))) (v : Option Fingerprint)
    → precondition f ≡ ok v
    → f ≡ some (ok v)
unfolding precondition
precondition-ok none v p = absurd (ground arith)
precondition-ok (some r) v p = ap some p

-- What `put_change` has checked.
put_change-ok :
    (s : Store) (peer : Peer) (req : PutRequest) (c : Change) (bytes : Option Text)
    → put_change s peer req ≡ ok (c, bytes)
    → (req.path ≡ some c.path)
      × (s.pin_enabled ≡ true)
      × (req.expected ≡ some (ok c.expected))
      × (valid_path c.path ≡ ok tt)
      × (get c.path (baseline s peer.owner_pk) ≡ c.expected)
unfolding put_change ensure_enabled
put_change-ok s peer req c bytes e =
    let (u, on, rest) = >>=-eq-ok (ensure_enabled s) _ e in
    let (path, named, rest₂) =
      >>=-eq-ok (needed (protocol (text "missing pin path")) req.path) _ rest in
    let (_, _, rest₃) =
      >>=-eq-ok
        (refuse_if (is_none req.expected || is_none req.new)
          (protocol (text "pin write requires version preconditions")))
        _ rest₂ in
    let (expected, wanted, rest₄) = >>=-eq-ok (precondition req.expected) _ rest₃ in
    let (new, _, rest₅) = >>=-eq-ok (precondition req.new) _ rest₄ in
    let (_, valid, rest₆) = >>=-eq-ok (valid_path path) _ rest₅ in
    let (u', agrees, rest₇) =
      >>=-eq-ok
        (refuse_if (get path (baseline s peer.owner_pk) != expected)
          (conflict path peer.name (s.body_name ++ text " (local change since last sync)")))
        _ rest₆ in
    let (content, _, final) = >>=-eq-ok (read_content req.content) _ rest₇ in
    let change = ap (λ t. t.0) (ok-injective final) in
    let same_path = ap (λ (d : Change). d.path) change in
    (
      needed-ok _ req.path path named ∙ ap some same_path,
      ground (arith, refuse_if-ok (not s.pin_enabled) _ u on),
      precondition-ok req.expected expected wanted
          ∙ ap (λ (d : Change). some (ok d.expected)) change,
      subst (λ t. valid_path t ≡ ok tt) same_path valid,
      subst (λ t. get t (baseline s peer.owner_pk) ≡ c.expected) same_path
          (same_version _ _ (refuse_if-ok _ _ u' agrees) ∙ ap (λ (d : Change). d.expected) change),
    )

Untouched : Outside → Files → Files × Files × Result (Unit {0}) → Type 0
Untouched o held after = (after.0 ≡ o.at_rename) × (after.1 ≡ held)

done_with-Untouched :
    (o : Outside) (held : Files) (after : Files × Files × Result (Option Text))
    → (after.0 ≡ o.at_rename) × (after.1 ≡ held)
    → Untouched o held (done_with after)
unfolding done_with Untouched
done_with-Untouched o held (files, held', err e) p = p
done_with-Untouched o held (files, held', ok _) p = p

-- An application changes nothing, or it found at the path what the change expects.
carry_out-Untouched :
    (h : Host) (codec : Codec) (o : Outside) (root : Text) (c : Change) (content : Option Text)
    (store : Store) (held : Files) (ready : Result (Option (Bool × Text)))
    → prepare h codec o root c content store [] held ≡ ready
    → Untouched o held (done_with (carry_out h codec o root c content store [] held ready))
      ⊎ ((found : Option (Fingerprint × Text)) × (read h o.first c.path ≡ ok found)
          × (version_of found ≡ c.expected))
unfolding carry_out Untouched done_with
carry_out-Untouched h codec o root c content store held (err e) p = inl (refl, refl)
carry_out-Untouched h codec o root c content store held (ok none) p = inl (refl, refl)
carry_out-Untouched h codec o root c content store held (ok (some next)) p =
    inr (prepare-current h codec o root c content store [] held next p)

apply_under-Untouched :
    (h : Host) (codec : Codec) (o : Outside) (root : Text) (c : Change) (content : Option Text)
    (store : Store) (held : Files) (locked : Result (Unit {0}))
    → Untouched o held (apply_under h codec o root c content store held locked)
      ⊎ ((found : Option (Fingerprint × Text)) × (read h o.first c.path ≡ ok found)
          × (version_of found ≡ c.expected))
unfolding apply_under Untouched apply_locked
apply_under-Untouched h codec o root c content store held (err e) = inl (refl, refl)
apply_under-Untouched h codec o root c content store held (ok _) =
    carry_out-Untouched h codec o root c content store held
      (prepare h codec o root c content store [] held) refl

module _ (h : Host) (codec : Codec) (o : Outside) (opened : Result Text) (s : Store) (peer : Peer)
    (held : Files) where
  put_in-Allowed :
      (req : PutRequest) (wanted : Result (Change × Option Text)) (opened : Result Text)
      → put_change s peer req ≡ wanted
      → Untouched o held (put_in h codec o opened s held wanted)
        ⊎ Allowed h o s peer req (put_in h codec o opened s held wanted).0
  unfolding put_in apply Untouched
  put_in-Allowed req (err e) opened p = inl (refl, refl)
  put_in-Allowed req (ok wanted) (err e) p = inl (refl, refl)
  put_in-Allowed req (ok (c, bytes)) (ok root) p =
      let (named, on, wanted_here, valid, agreed) = put_change-ok s peer req c bytes p in
      elim (apply_under-Untouched h codec o root c bytes s held o.locked) [
        | inl same ↦ inl same
        | inr (found, seen, expected) ↦ inr (record {
          path = c.path;
          asked = named;
          enabled = on;
          acceptable = valid;
          found = found;
          seen = seen;
          recorded_here = expected ∙ sym agreed;
          expected = wanted_here ∙ ap (λ v. some (ok v)) (sym expected);
          elsewhere = λ k n. apply-other h codec o root c bytes s held k n;
        })
      ]

  -- A peer's request to write leaves the tree and the recovery directory alone, unless pin is on
  -- here, the path that the request names is acceptable, and what is found at that path when the
  -- change is prepared is both what this machine recorded at its last synchronisation with that
  -- peer and what the request expects; and then no other path of the tree is changed.
  pub rpc_put-Allowed :
      (req : PutRequest)
      → let after = rpc_put h codec o opened s peer req held in
        ((after.0 ≡ o.at_rename) × (after.1 ≡ held)) ⊎ Allowed h o s peer req after.0
  unfolding rpc_put Untouched
  rpc_put-Allowed req = put_in-Allowed req (put_change s peer req) opened refl
