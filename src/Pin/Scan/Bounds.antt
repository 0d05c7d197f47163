-- ===== src/Pin/Scan/Bounds.antt =====
-- pin.rs, `Tree::scan`: what a manifest contains, and that another machine accepts it.
use clix.Types.{
  bodies_eq, bool_eq, job_eq, patterns_eq, schedule_eq, status_eq, time_eq, weekday_eq,
}
use clix.Error.{>>=-eq-ok, is_ok, ok, ok-injective, refuse_if, refuse_if-ok}
use clix.Prelude.{
  Bool, Option, Text, [], all, ap, arith, choose-cases, false, if◌then◌else◌, inl, inr, insert,
  int_eq, is_empty, leb, length, ltb, nat_eq, none, not, refl, retain, some, split_on, subst, sym,
  text_eq, texts_eq, true, ℕ, ◌&&◌, ◌++◌, ◌+◌, ◌==◌, ◌||◌, ◌∷◌, ◌≡◌, ◌≤◌,
}
use clix.State.{Fingerprint, Host}
use clix.Pin.{
  Manifest, check_paths, excluded, fingerprint_eq, keys_of, manifest_eq, max_pin_entries, recovery,
  valid_path, validate_listing, version_eq, without_excluded,
}
use clix.Pin.Tree.{File, read_node, regular}
use clix.Pin.Scan.{
  Entries, Entry, child_path, directory, end, entry, file, found_file, scan_dir, scan_entry,
  scan_file, special, too_large,
}

abbrev pub all_valid : Manifest → Bool
all_valid m = all (λ e. is_ok (valid_path e.0)) m

-- A scan's state: valid paths, no more than were counted, and no more than pin takes.
record Small (state : Manifest × ℕ) : Type 0 where
  valid : all_valid state.0 ≡ true
  counted : length state.0 ≤ state.1
  few : state.1 ≤ max_pin_entries

all_valid-insert :
    (path : Text) (f : Fingerprint) (m : Manifest)
    → is_ok (valid_path path) ≡ true
    → all_valid m ≡ true
    → all_valid (insert path f m) ≡ true
unfolding insert
all_valid-insert path f [] v h = ground arith
all_valid-insert path f ((j, g) ∷ m) v h = ground (arith, all_valid-insert path f m)

length-insert :
    (path : Text) (f : Fingerprint) (m : Manifest) → length (insert path f m) ≤ length m + 1
unfolding insert
length-insert path f [] = omega arith
length-insert path f ((j, g) ∷ m) = ground (arith, length-insert path f m)

counted_one :
    (out : Manifest) (count : ℕ)
    → Small (out, count)
    → count + 1 ≤ max_pin_entries
    → Small (out, count + 1)
counted_one out count small room = record {
  valid = small.valid;
  counted = let few = small.counted in omega arith;
  few = room;
}

-- One more file, where one more entry has been counted.
found_file-Small :
    (path : Text) (out : Manifest) (count : ℕ) (found : Option (Fingerprint × Text))
    (next : Manifest × ℕ)
    → is_ok (valid_path path) ≡ true
    → Small (out, count)
    → count + 1 ≤ max_pin_entries
    → found_file path (out, count + 1) found ≡ ok next
    → Small next
unfolding found_file
found_file-Small path out count none next v small room e = absurd (ground arith)
found_file-Small path out count (some (f, _)) next v small room e =
    subst Small (ok-injective e) (record {
      valid = all_valid-insert path f out v small.valid;
      counted = let fewer = small.counted in omega (arith, length-insert path f out);
      few = room;
    })

module _ (h : Host) where
  scan_file-Small :
      (path : Text) (f : File) (out : Manifest) (count : ℕ) (next : Manifest × ℕ)
      → Small (out, count)
      → count + 1 ≤ max_pin_entries
      → scan_file h path f (out, count + 1) ≡ ok next
      → Small next
  unfolding scan_file
  scan_file-Small path f out count next small room e =
      let (_, valid, rest) = >>=-eq-ok (valid_path path) _ e in
      let (found, _, rest₂) = >>=-eq-ok (read_node h path (some (regular f))) _ rest in
      found_file-Small path out count found next (ap is_ok valid) small room rest₂

  mutual
    unfolding scan_entry

    scan_entry-Small :
        (path : Text) (node : Entry) (out : Manifest) (count : ℕ) (next : Manifest × ℕ)
        → Small (out, count)
        → count + 1 ≤ max_pin_entries
        → scan_entry h path node (out, count + 1) ≡ ok next
        → Small next
    scan_entry-Small path (file f) out count next small room e =
        scan_file-Small path f out count next small room e
    scan_entry-Small path (directory d) out count next small room e =
        scan_dir-Small d path (out, count + 1) next (counted_one out count small room) e
    scan_entry-Small path special out count next small room e = absurd (ground arith)

    scan_dir-Small :
        (d : Entries) (prefix : Text) (state next : Manifest × ℕ)
        → Small state
        → scan_dir h d prefix state ≡ ok next
        → Small next
    scan_dir-Small end prefix state next small e = subst Small (ok-injective e) small
    scan_dir-Small (entry none node rest) prefix state next small e = absurd (ground arith)
    scan_dir-Small (entry (some name) node rest) prefix (out, count) next small e =
        elim (choose-cases (is_empty prefix && name == recovery) _ _ _ e) [
          | inl (_, skipped) ↦ scan_dir-Small rest prefix (out, count) next small skipped
          | inr (_, taken) ↦
              let (u, fits, rest₁) =
                >>=-eq-ok
                  (refuse_if
                    (ltb max_pin_entries (count + 1)
                      || not (is_empty prefix) && leb 64 (length (split_on b'/' prefix)))
                    too_large)
                  _ taken in
              let room : count + 1 ≤ max_pin_entries =
                let few = refuse_if-ok _ _ u fits in ground arith in
              let (after, scanned, rest₂) =
                >>=-eq-ok
                  (if excluded (child_path prefix name)
                    then ok (out, count + 1)
                    else scan_entry h (child_path prefix name) node (out, count + 1))
                  _ rest₁ in
              scan_dir-Small rest prefix after next
                (elim (choose-cases (excluded (child_path prefix name)) _ _ _ scanned) [
                  | inl (_, same) ↦
                      subst Small (ok-injective same) (counted_one out count small room)
                  | inr (_, entered) ↦
                      scan_entry-Small (child_path prefix name) node out count after small room
                        entered
                ])
                rest₂
        ]

-- What a scan finds, for the peers.
pub record Scanned (m : Manifest) : Type 0 where
  pub paths_valid : all_valid m ≡ true
  pub few_enough : length m ≤ max_pin_entries

without_excluded-valid : (m : Manifest) → all_valid m ≡ true → without_excluded m ≡ m
unfolding without_excluded retain valid_path
without_excluded-valid [] v = refl
without_excluded-valid ((path, f) ∷ m) v = ground (arith, without_excluded-valid m)

check_paths-valid :
    (a b : Manifest)
    → all_valid a ≡ true
    → all_valid b ≡ true
    → check_paths (keys_of a ++ keys_of b) ≡ ok tt
unfolding check_paths keys_of
check_paths-valid [] [] p q = refl
check_paths-valid [] ((path, f) ∷ b) p q = ground (arith, check_paths-valid [] b)
check_paths-valid ((path, f) ∷ a) b p q = ground (arith, check_paths-valid a b)

pub scan_dir-Scanned :
    (h : Host) (entries : Entries) (found : Manifest × ℕ)
    → scan_dir h entries [] ([], 0) ≡ ok found
    → Scanned found.0
scan_dir-Scanned h entries found e =
    let small =
      scan_dir-Small h entries [] ([], 0) found
        (record { valid = refl; counted = omega arith; few = omega arith }) e in
    record {
      paths_valid = small.valid;
      few_enough = let a = small.counted in let b = small.few in omega arith;
    }

validate_listing-Scanned :
    (files before : Manifest)
    → Scanned files
    → Scanned before
    → validate_listing (record { files = files; baseline_of = before })
      ≡ ok (record { files = files; baseline_of = before })
unfolding validate_listing keys_of
validate_listing-Scanned files before p q =
    let small : (ltb max_pin_entries (length files) || ltb max_pin_entries (length before))
        ≡ false =
      let a = p.few_enough in let b = q.few_enough in ground arith in
    rw
      (
        small,
        without_excluded-valid files p.paths_valid,
        without_excluded-valid before q.paths_valid,
        check_paths-valid files before p.paths_valid q.paths_valid,
      )
      refl

-- A machine accepts the listing of another as it is: a manifest that a scan found, with one that an
-- earlier scan found as the record of the last synchronisation.
pub scan_dir-validate_listing :
    (h : Host) (entries earlier_entries : Entries) (found earlier : Manifest × ℕ)
    → scan_dir h entries [] ([], 0) ≡ ok found
    → scan_dir h earlier_entries [] ([], 0) ≡ ok earlier
    → validate_listing (record { files = found.0; baseline_of = without_excluded earlier.0 })
      ≡ ok (record { files = found.0; baseline_of = earlier.0 })
scan_dir-validate_listing h entries earlier_entries found earlier p q =
    let before = scan_dir-Scanned h earlier_entries earlier q in
    subst
      (λ b.
        validate_listing (record { files = found.0; baseline_of = b })
        ≡ ok (record { files = found.0; baseline_of = earlier.0 }))
      (sym (without_excluded-valid earlier.0 before.paths_valid))
      (validate_listing-Scanned found.0 earlier.0 (scan_dir-Scanned h entries found p) before)
