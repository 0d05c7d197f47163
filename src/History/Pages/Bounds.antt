-- ===== src/History/Pages/Bounds.antt =====
-- history.rs, `page`: the bounds of a page.
use clix.History.Reply.{export_entry}
use clix.Types.{
  bodies_eq, bool_eq, job_eq, patterns_eq, schedule_eq, status_eq, time_eq, weekday_eq,
}
use clix.Prelude.{
  Bool, Bool-cases, List, Option, Text, [], arith, false, inl, inr, int_eq, length, length-append,
  ltb, nat_eq, refl, subst, text_eq, texts_eq, true, unwrap_or, ℕ, ◌!=◌, ◌++◌, ◌+◌, ◌==◌, ◌||◌, ◌∷◌,
  ◌≡◌, ◌≤◌,
}
use Prim.Native.Nat.{min}
use clix.Error.{>>=-eq-ok, ok, ok-injective}
use clix.History.{
  Entry, Page, Published, captured_output_eq, certificate_eq, output_ref_eq, role_eq,
  signed_fact_eq,
}
use clix.History.Pages.{Filling, fill, finish_page, page, page_bytes, page_rows, read_page, scanned}
use clix.State.{Host, Store}

abbrev pub rows_bytes : Host → List Published → ℕ
rows_bytes h [] = 0
rows_bytes h (p ∷ ps) = length (h.json_published p) + rows_bytes h ps

rows_bytes-append :
    (h : Host) (ps : List Published) (p : Published)
    → rows_bytes h (ps ++ (p ∷ [])) ≡ rows_bytes h ps + length (h.json_published p)
rows_bytes-append h [] p = omega arith
rows_bytes-append h (q ∷ ps) p = omega (arith, rows_bytes-append h ps p)

pub record IsFilling (h : Host) (p : Filling) : Type 0 where
  pub at_most : length p.rows ≤ page_rows
  pub in_budget : p.size ≤ page_bytes
  pub counted : p.size ≡ rows_bytes h p.rows

module _ (h : Host) (s : Store) where
  fill-IsFilling :
      (p : Filling) (es : List Entry) (q : Filling)
      → IsFilling h p
      → fill h s p es ≡ ok q
      → IsFilling h q
  unfolding fill
  fill-IsFilling p [] q i e = subst (IsFilling h) (ok-injective e) i
  fill-IsFilling p (x ∷ es) q i e =
      let row = export_entry h s x in
      let bytes = length (h.json_published row) in
      elim (Bool-cases (ltb page_bytes bytes)) [
        | inl t ↦ absurd (ground arith)
        | inr t ↦
            elim (Bool-cases (length p.rows == page_rows || ltb page_bytes (p.size + bytes))) [
              | inl u ↦ subst (IsFilling h) (ok-injective (rw (t, u) at e)) i
              | inr u ↦
                  fill-IsFilling
                    (record { rows = p.rows ++ (row ∷ []); size = p.size + bytes; next = x.change })
                    es q
                    (record {
                      at_most = ground (arith, length-append p.rows (row ∷ []), i.at_most);
                      in_budget = ground arith;
                      counted = ground (arith, rows_bytes-append h p.rows row, i.counted);
                    })
                    (rw (t, u) at e)
            ]
      ]

  read_page-bound :
      (reset : Bool) (after high : ℕ) (p : Page)
      → read_page h s reset after high ≡ ok p
      → (length p.entries ≤ page_rows) × (rows_bytes h p.entries ≤ page_bytes)
  unfolding read_page finish_page
  read_page-bound reset after high p e = elim (Bool-cases (ltb high after)) [
    | inl t ↦ absurd (ground arith)
    | inr t ↦
        let empty : Filling = record { rows = []; size = 0; next = after } in
        let (q, filled, rest) = >>=-eq-ok (fill h s empty (scanned s after high)) _ (rw t at e) in
        let i =
          fill-IsFilling empty (scanned s after high) q
            (record { at_most = omega arith; in_budget = omega arith; counted = refl }) filled in
        ground (arith, i.at_most, i.in_budget, i.counted)
  ]

  -- A page that is given out has at most 16 rows, whose JSON together is at most 48 MiB.
  pub page-bound :
      (epoch : Text) (after : ℕ) (high : Option ℕ) (p : Page)
      → page h s epoch after high ≡ ok p
      → (length p.entries ≤ page_rows) × (rows_bytes h p.entries ≤ page_bytes)
  unfolding page
  page-bound epoch after high p e =
      elim (Bool-cases (epoch != s.history.epoch || ltb s.history.clock after)) [
        | inl t ↦ read_page-bound true 0 s.history.clock p (rw t at e)
        | inr t ↦
            read_page-bound false after (min (unwrap_or s.history.clock high) s.history.clock) p
              (rw t at e)
      ]
