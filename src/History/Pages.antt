-- ===== src/History/Pages.antt =====
-- history.rs, `page`: a neighbour reads the history in pages, in the order of change.
pub mod Bounds
use clix.Types.{
  bodies_eq, bool_eq, job_eq, patterns_eq, schedule_eq, status_eq, time_eq, weekday_eq,
}
use clix.Error.{Result, err, ok, protocol, ◌>>=◌}
use Prim.Native.Nat.{min}
use clix.Prelude.{
  Bool, List, Option, Text, [], false, if◌then◌else◌, int_eq, leb, length, ltb, map, nat_eq, retain,
  text, text_eq, texts_eq, true, unwrap_or, ℕ, ◌!=◌, ◌&&◌, ◌++◌, ◌+◌, ◌==◌, ◌||◌, ◌∷◌,
}
use clix.History.{
  Entry, Page, Published, captured_output_eq, certificate_eq, output_ref_eq, role_eq,
  signed_fact_eq,
}
use clix.History.Reply.{export_entry}
use clix.State.{Host, Store}

abbrev pub page_rows : ℕ
page_rows = 16

abbrev pub page_bytes : ℕ
page_bytes = 50331648

insert_by_change : Entry → List Entry → List Entry
insert_by_change e [] = e ∷ []
insert_by_change e (d ∷ ds) =
    if ltb e.change d.change then e ∷ d ∷ ds else d ∷ insert_by_change e ds

sort_by_change : List Entry → List Entry → List Entry
unfolding insert_by_change
sort_by_change sorted [] = sorted
sort_by_change sorted (e ∷ es) = sort_by_change (insert_by_change e sorted) es

-- The entries changed after one point and up to another, in order.
scanned : Store → ℕ → ℕ → List Entry
unfolding sort_by_change
scanned s after high = sort_by_change [] (
    retain (λ e. ltb after e.change && leb e.change high)
      (map (λ (p : Text × Entry). p.1) s.history.entries))

-- The rows taken so far, the bytes they need and the last one's place.
pub record Filling : Type 0 where
  pub rows : List Published
  pub size : ℕ
  pub next : ℕ

module _ (h : Host) where
  fill : Store → Filling → List Entry → Result Filling
  fill s p [] = ok p
  fill s p (e ∷ es) =
      let row = export_entry h s e in
      let bytes = length (h.json_published row) in
      let rest =
        fill s (record { rows = p.rows ++ (row ∷ []); size = p.size + bytes; next = e.change })
          es in
      if ltb page_bytes bytes
      then err (protocol (text "one history record exceeds the page budget"))
      else if length p.rows == page_rows || ltb page_bytes (p.size + bytes)
      then ok p
      else rest

  finish_page : Store → Bool → ℕ → ℕ → Filling → Page
  finish_page s reset high total p =
      let complete = length p.rows == total in
      record {
        epoch = s.history.epoch;
        reset = reset;
        high = high;
        next = if complete then high else p.next;
        complete = complete;
        entries = p.rows;
      }

  read_page : Store → Bool → ℕ → ℕ → Result Page
  unfolding scanned fill finish_page
  read_page s reset after high =
      let entries = scanned s after high in
      if ltb high after
      then err (protocol (text "history cursor is beyond the scan boundary"))
      else (do
        p ← fill s (record { rows = []; size = 0; next = after }) entries
        ok (finish_page s reset high (length entries) p))

  unfoldable pub page : Store → Text → ℕ → Option ℕ → Result Page
  unfolding read_page
  page s epoch after high =
      let clock = s.history.clock in
      if epoch != s.history.epoch || ltb clock after
      then read_page s true 0 clock
      else read_page s false after (min (unwrap_or clock high) clock)
