-- ===== src/Pin/Plan/Merge.antt =====
-- pin.rs, `plan`: a three-way merge.
use clix.Pin.Plan.Paths.{
  contains-above, contains-extend-false, contains-false-∷, get-absent, is_sorted-extend,
}
use clix.Pin.Plan.{all_paths, plan, plan_paths, put_selected, select}
use clix.Error.{>>=-eq-ok, ok}
use clix.Types.{
  bodies_eq, bool_eq, job_eq, patterns_eq, schedule_eq, status_eq, time_eq, weekday_eq,
}
use clix.Prelude.{
  Bool-cases, List, Map, Option, Text, Text-discrete, [], above, ap, arith, false, get, get-insert,
  inl, inr, int_eq, is_sorted, nat_eq, none, refl, retain, some, subst, subst₂, sym, text_eq,
  texts_eq, true, ◌++◌, ◌==◌, ◌∙◌, ◌∷◌, ◌≡◌, ◌≢◌,
}
use clix.State.{Fingerprint, contains}
use clix.Pin.{
  Change, Manifest, Version-discrete, fingerprint_eq, keys_of, manifest_eq, valid_path, version_eq,
}

-- What a plan says of one path: the changes for it, and the version it merges to, by the versions
-- of this side, of the other, and of the last agreement.
pub data Settled (k : Text) (l r agreed : Option Fingerprint) (planned : List Change)
    (merged : Option Fingerprint) : Type 0 where
  same : l ≡ r → planned ≡ [] → merged ≡ l → Settled k l r agreed planned merged
  pulled :
      l ≢ r
      → l ≡ agreed
      → planned ≡ record { path = k; expected = l; new = r; to_remote = false } ∷ []
      → merged ≡ r
      → Settled k l r agreed planned merged
  pushed :
      l ≢ r
      → l ≢ agreed
      → r ≡ agreed
      → planned ≡ record { path = k; expected = r; new = l; to_remote = true } ∷ []
      → merged ≡ l
      → Settled k l r agreed planned merged

abbrev pub changes_for : Text → List Change → List Change
changes_for k changes = retain (λ c. c.path == k) changes

changes_for-append :
    (k : Text) (xs ys : List Change)
    → changes_for k (xs ++ ys) ≡ changes_for k xs ++ changes_for k ys
unfolding retain
changes_for-append k [] ys = refl
changes_for-append k (x ∷ xs) ys = ground (arith, changes_for-append k xs ys)

changes_for-append-left :
    (k : Text) (xs ys : List Change)
    → changes_for k xs ≡ []
    → changes_for k (xs ++ ys) ≡ changes_for k ys
changes_for-append-left k xs ys e = changes_for-append k xs ys ∙ ap (λ cs. cs ++ changes_for k ys) e

changes_for-append-right :
    (k : Text) (xs ys : List Change)
    → changes_for k ys ≡ []
    → changes_for k (xs ++ ys) ≡ changes_for k xs
unfolding retain
changes_for-append-right k [] ys e = e
changes_for-append-right k (x ∷ xs) ys e = ground (arith, changes_for-append-right k xs ys e)

get-put_selected :
    (k : Text) (v : Option Fingerprint) (m : Manifest)
    → get k m ≡ none
    → get k (put_selected k v m) ≡ v
unfolding put_selected
get-put_selected k none m h = h
get-put_selected k (some fp) m h = ground (arith, get-insert k k fp m)

get-put_selected-other :
    (p k : Text) (v : Option Fingerprint) (m : Manifest)
    → ¬ (p ≡ k)
    → get k (put_selected p v m) ≡ get k m
unfolding put_selected
get-put_selected-other p k none m n = refl
get-put_selected-other p k (some fp) m n = ground (arith, get-insert p k fp m)

module _ (mine theirs base : Manifest) (a b : Text) where
  abbrev pub SettledIn : Text → List Change → Manifest → Type 0
  SettledIn k changes merged =
      Settled k (get k mine) (get k theirs) (get k base) (changes_for k changes) (get k merged)

  select-Settled :
      (k : Text) (cs : List Change) (v : Option Fingerprint)
      → select mine theirs base a b k ≡ ok (cs, v)
      → Settled k (get k mine) (get k theirs) (get k base) (changes_for k cs) v
  unfolding select retain
  select-Settled k cs v e = elim (Version-discrete (get k mine) (get k theirs)) [
    | yes p ↦ same p (ground arith) (ground arith)
    | no p ↦ elim (Version-discrete (get k mine) (get k base)) [
      | yes q ↦ pulled p q (ground arith) (ground arith)
      | no q ↦ elim (Version-discrete (get k theirs) (get k base)) [
        | yes r ↦ pushed p q r (ground arith) (ground arith)
        | no r ↦ absurd (ground arith)
      ]
    ]
  ]

  changes_for-select :
      (p k : Text) (cs : List Change) (v : Option Fingerprint)
      → ¬ (p ≡ k)
      → select mine theirs base a b p ≡ ok (cs, v)
      → changes_for k cs ≡ []
  unfolding select retain
  changes_for-select p k cs v n e = ground arith

  -- The rest of the loop leaves a path alone that it does not come to.
  plan_paths-outside :
      (k : Text) (paths : Map (Unit {0})) (cs : List Change) (m : Manifest) (changes : List Change)
      (merged : Manifest)
      → contains k paths ≡ false
      → plan_paths mine theirs base a b paths cs m ≡ ok (changes, merged)
      → (changes_for k changes ≡ changes_for k cs) × (get k merged ≡ get k m)
  unfolding plan_paths
  plan_paths-outside k [] cs m changes merged c e = (ground arith, ground arith)
  plan_paths-outside k ((p, u) ∷ paths) cs m changes merged c e =
      let (_, _, rest) = >>=-eq-ok (valid_path p) _ e in
      let ((planned, v), chosen, rest') = >>=-eq-ok (select mine theirs base a b p) _ rest in
      let (differs, later) = contains-false-∷ k p u paths c in
      let (same_changes, same_merged) =
        plan_paths-outside k paths (cs ++ planned) (put_selected p v m) changes merged later
          rest' in
      let silent = changes_for-select p k planned v differs chosen in
      (
        same_changes ∙ changes_for-append-right k cs planned silent,
        same_merged ∙ get-put_selected-other p k v m differs,
      )

  plan_paths-here :
      (k : Text) (v : Option Fingerprint) (paths : Map (Unit {0})) (cs planned : List Change)
      (m : Manifest) (changes : List Change) (merged : Manifest)
      → above k paths ≡ true
      → changes_for k cs ≡ []
      → get k m ≡ none
      → select mine theirs base a b k ≡ ok (planned, v)
      → plan_paths mine theirs base a b paths (cs ++ planned) (put_selected k v m)
        ≡ ok (changes, merged)
      → SettledIn k changes merged
  plan_paths-here k v paths cs planned m changes merged after none_yet unset chosen rest =
      let (same_changes, same_merged) =
        plan_paths-outside k paths (cs ++ planned) (put_selected k v m) changes merged
          (contains-above k paths after) rest in
      subst₂ (λ planned' v'. Settled k (get k mine) (get k theirs) (get k base) planned' v')
        (sym (same_changes ∙ changes_for-append-left k cs planned none_yet))
        (sym (same_merged ∙ get-put_selected k v m unset)) (select-Settled k planned v chosen)

  plan_paths-Settled :
      (k : Text) (paths : Map (Unit {0})) (cs : List Change) (m : Manifest) (changes : List Change)
      (merged : Manifest)
      → contains k paths ≡ true
      → is_sorted paths ≡ true
      → changes_for k cs ≡ []
      → get k m ≡ none
      → plan_paths mine theirs base a b paths cs m ≡ ok (changes, merged)
      → SettledIn k changes merged
  unfolding plan_paths is_sorted contains get
  plan_paths-Settled k [] cs m changes merged c s none_yet unset e = absurd (ground arith)
  plan_paths-Settled k ((p, u) ∷ paths) cs m changes merged c s none_yet unset e =
      let (_, _, rest) = >>=-eq-ok (valid_path p) _ e in
      let ((planned, v), chosen, rest') = >>=-eq-ok (select mine theirs base a b p) _ rest in
      elim (Text-discrete p k) [
        | yes here ↦
            subst (λ t. SettledIn t changes merged) here
              (plan_paths-here p v paths cs planned m changes merged (ground arith)
                (subst (λ t. changes_for t cs ≡ []) (sym here) none_yet)
                (subst (λ t. get t m ≡ none) (sym here) unset) chosen rest')
        | no differs ↦
            plan_paths-Settled k paths (cs ++ planned) (put_selected p v m) changes merged
              (ground arith) (ground arith)
              (changes_for-append-left k cs planned none_yet
                ∙ changes_for-select p k planned v differs chosen)
              (get-put_selected-other p k v m differs ∙ unset) rest'
      ]

  pub is_sorted-all_paths : is_sorted (all_paths mine theirs base) ≡ true
  unfolding all_paths is_sorted
  is_sorted-all_paths =
      is_sorted-extend (keys_of base) _
        (is_sorted-extend (keys_of theirs) _ (is_sorted-extend (keys_of mine) [] refl))

  -- A path that none of the three manifests lists.
  pub record Unlisted (k : Text) : Type 0 where
    pub not_here : get k mine ≡ none
    pub not_there : get k theirs ≡ none
    pub not_agreed : get k base ≡ none

  pub unlisted : (k : Text) → contains k (all_paths mine theirs base) ≡ false → Unlisted k
  unfolding all_paths
  unlisted k c =
      let without_base = contains-extend-false k (keys_of base) _ c in
      record {
        not_here = get-absent k mine _ (contains-extend-false k (keys_of theirs) _ without_base);
        not_there = get-absent k theirs _ without_base;
        not_agreed = get-absent k base _ c;
      }

  pub plan-Settled :
      (k : Text) (changes : List Change) (merged : Manifest)
      → plan mine theirs base a b ≡ ok (changes, merged)
      → SettledIn k changes merged
  unfolding plan get retain
  plan-Settled k changes merged e = elim (Bool-cases (contains k (all_paths mine theirs base))) [
    | inl c ↦ plan_paths-Settled k _ [] [] changes merged c is_sorted-all_paths refl refl e
    | inr c ↦
        let (same_changes, same_merged) = plan_paths-outside k _ [] [] changes merged c e in
        let u = unlisted k c in
        same (u.not_here ∙ sym u.not_there) same_changes (same_merged ∙ sym u.not_here)
  ]
