-- ===== src/History/Ingest/Frame.antt =====
-- history.rs, `ingest`: what another machine's record can change.
use clix.Prelude.{
  Bool, Text, arith, false, get, int_eq, is_none, nat_eq, text, text_eq, texts_eq, true, ◌!=◌, ◌+◌,
  ◌||◌, ◌≡◌,
}
use clix.Types.{
  bodies_eq, bool_eq, job_eq, patterns_eq, schedule_eq, status_eq, time_eq, weekday_eq,
}
use clix.Error.{>>=-eq-ok, ok, protocol, refuse_if}
use clix.History.{
  Entry, Published, captured_output_eq, certificate_eq, output_ref_eq, role_eq, signed_fact_eq,
}
use clix.History.Keys.{invocation_hash, next_change}
use clix.History.Facts.{validate_record}
use clix.History.Ingest.{
  check_published, entry_for, ingest, merge_output, merge_record, store_entry,
}
use clix.State.{Host, Store, next_u64}

-- Only the history's entries and clock may differ, and only where a change is reported.
pub record OnlyHistory (s s' : Store) (changed : Bool) : Type 0 where
  pub rest : s' ≡ record s { history = s'.history }
  pub history :
      s'.history ≡ record s.history { clock = s'.history.clock; entries = s'.history.entries }
  pub quiet : changed ≡ false → s' ≡ s
  pub counted : changed ≡ true → s'.history.clock ≡ s.history.clock + 1

store_entry-OnlyHistory :
    (s : Store) (key : Text) (entry : Entry) (changed c : Bool) (s' : Store)
    → store_entry s key entry changed ≡ ok (s', c)
    → OnlyHistory s s' c
unfolding store_entry next_change next_u64
store_entry-OnlyHistory s key entry false c s' e = record {
  rest = ground arith;
  history = ground arith;
  quiet = λ _. ground arith;
  counted = λ t. absurd (ground arith);
}
store_entry-OnlyHistory s key entry true c s' e = record {
  rest = ground arith;
  history = ground arith;
  quiet = λ t. absurd (ground arith);
  counted = λ t. ground arith;
}

-- An import that succeeds had a valid record and changes nothing but the history's entries and
-- clock; the clock goes up by one where a change is reported, and nothing differs where none is.
pub ingest-OnlyHistory :
    (h : Host) (s : Store) (p : Published) (s' : Store) (c : Bool)
    → ingest h s p ≡ ok (s', c)
    → (validate_record h s p.record_of ≡ ok tt) × OnlyHistory s s' c
unfolding ingest
ingest-OnlyHistory h s p s' c e =
    let (_, valid, e₁) = >>=-eq-ok (validate_record h s p.record_of) _ e in
    let (_, _, e₂) = >>=-eq-ok (check_published h p.record_of p.output) _ e₁ in
    let key = invocation_hash h p.record_of.certificate in
    let entry = entry_for s key p.record_of.certificate in
    let (_, _, e₃) =
      >>=-eq-ok
        (refuse_if (entry.record_of.certificate != p.record_of.certificate)
          (protocol (text "different certificate for the same invocation")))
        _ e₂ in
    let ((merged, changed), _, e₄) = >>=-eq-ok (merge_record entry.record_of p.record_of) _ e₃ in
    let out = merge_output h s key p.output (record entry { record_of = merged }) in
    (
      valid,
      store_entry-OnlyHistory s key out.0 (changed || out.1 || is_none (get key s.history.entries))
          c s' e₄,
    )
