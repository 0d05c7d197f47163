-- ===== src/Limits/Line/Frames.antt =====
-- limits.rs, `limited_line`: lines that are sent one after another are read one after another.
use clix.Prelude.{
  Bool, Option-cases, Text, [], any, arith, false, inl, inr, int_eq, length, length-append, nat_eq,
  some, suc, text_eq, true, zero, ℕ, ◌++◌, ◌+◌, ◌<◌, ◌==◌, ◌∷◌, ◌≡◌,
}
use clix.Limits.Line.{
  Ending, broken, closed, finish_line, is_utf8, limited_line, line, read_until, settle, silent,
  strip_newline,
}

abbrev pub has_newline : Text → Bool
has_newline s = any (λ b. b == 10) s

read_until-line :
    (room : ℕ) (s rest : Text)
    → has_newline s ≡ false
    → length s < room
    → read_until room (s ++ (10 ∷ rest))
      ≡ record { bytes = s ++ (10 ∷ []); rest = rest; stopped = true }
unfolding read_until
read_until-line zero s rest h l = absurd (omega arith)
read_until-line (suc room) [] rest h l = ground arith
read_until-line (suc room) (b ∷ s) rest h l = ground (arith, read_until-line room s rest)

strip_newline-line : (s : Text) → strip_newline (s ++ (10 ∷ [])) ≡ some s
unfolding strip_newline
strip_newline-line [] = ground arith
strip_newline-line (b ∷ []) = ground arith
strip_newline-line (b ∷ c ∷ s) = rw (strip_newline-line (c ∷ s))

finish_line-line :
    (limit : ℕ) (s : Text)
    → length s < limit
    → is_utf8 s ≡ true
    → finish_line limit (s ++ (10 ∷ [])) ≡ line s
unfolding finish_line
finish_line-line limit [] l u = ground (arith, strip_newline-line [])
finish_line-line limit (b ∷ s) l u =
    ground (arith, strip_newline-line (b ∷ s), length-append s (10 ∷ []))

-- A line of valid UTF-8 with no newline in it, shorter than the limit, is read whole, and what was
-- sent after its newline is left for the next read, however the input ends.
pub limited_line_next :
    (limit : ℕ) (s rest : Text) (ending : Ending)
    → has_newline s ≡ false
    → length s < limit
    → is_utf8 s ≡ true
    → limited_line limit (s ++ (10 ∷ rest)) ending ≡ (line s, rest)
unfolding limited_line
limited_line_next limit s rest ending h l u =
    rw (read_until-line (limit + 1) s rest h (omega arith), limited_line)
      (rw (finish_line-line limit s l u))

length-strip_newline : (s t : Text) → strip_newline s ≡ some t → length s ≡ length t + 1
unfolding strip_newline
length-strip_newline [] t h = cc
length-strip_newline (b ∷ []) t h = ground arith
length-strip_newline (b ∷ c ∷ s) t h = elim (Option-cases (strip_newline (c ∷ s))) [
  | inl e ↦ ground arith
  | inr (r, e) ↦ ground (arith, length-strip_newline (c ∷ s) r)
]

finish_line_bound :
    (limit : ℕ) (bytes s : Text)
    → finish_line limit bytes ≡ line s
    → (length s < limit) × (is_utf8 s ≡ true)
unfolding finish_line
finish_line_bound limit bytes s h = elim (Option-cases (strip_newline bytes)) [
  | inl e ↦ ground arith
  | inr (r, e) ↦ ground (arith, length-strip_newline bytes r)
]

settle_bound :
    (limit : ℕ) (bytes s : Text) (ending : Ending) (stopped : Bool)
    → settle limit bytes ending stopped ≡ line s
    → (length s < limit) × (is_utf8 s ≡ true)
unfolding settle
settle_bound limit bytes s ending true h = finish_line_bound limit bytes s h
settle_bound limit bytes s closed false h = finish_line_bound limit bytes s h
settle_bound limit bytes s silent false h = cc
settle_bound limit bytes s (broken e) false h = cc

-- A line that is accepted is valid UTF-8 and, with its newline, no longer than the limit.
pub limited_line_bound :
    (limit : ℕ) (input s : Text) (ending : Ending)
    → (limited_line limit input ending).0 ≡ line s
    → (length s < limit) × (is_utf8 s ≡ true)
unfolding limited_line
limited_line_bound limit input s ending h =
    settle_bound limit _ s ending (read_until (limit + 1) input).stopped h
