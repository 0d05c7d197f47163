-- ===== src/Limits/Line.antt =====
-- limits.rs, `limited_line`: one bounded line of an owner's request. The client is the bytes that
-- it sends before the deadline and what it does after them; `from_utf8` is the standard library's
-- validity test.
pub mod Frames
use clix.Types.{
  bodies_eq, bool_eq, job_eq, patterns_eq, schedule_eq, status_eq, time_eq, weekday_eq,
}
use clix.Prelude.{
  Bool, Option, Text, [], false, if◌then◌else◌, int_eq, is_empty, leb, length, ltb, nat_eq, none,
  some, suc, text_eq, texts_eq, true, zero, ℕ, ◌&&◌, ◌+◌, ◌==◌, ◌∷◌,
}

pub data Ending : Type 0 where
  closed silent : Ending
  broken : Text → Ending

pub data LineError : Type 0 where
  timed_out too_long_line incomplete not_utf8 : LineError
  transport_failed : Text → LineError

pub data Read : Type 0 where
  line : Text → Read
  end_of_input : Read
  refused : LineError → Read

-- The lead byte of a character: how many bytes follow, and the range of the first of them.
lead : ℕ → Option (ℕ × ℕ × ℕ)
lead b =
    if ltb b 128
    then some (0, 0, 0)
    else if ltb b 194
    then none
    else if ltb b 224
    then some (1, 128, 191)
    else if b == 224
    then some (2, 160, 191)
    else if b == 237
    then some (2, 128, 159)
    else if ltb b 240
    then some (2, 128, 191)
    else if b == 240
    then some (3, 144, 191)
    else if ltb b 244
    then some (3, 128, 191)
    else if b == 244
    then some (3, 128, 143)
    else none

utf8_from : ℕ → ℕ → ℕ → Text → Bool
unfolding lead
utf8_from zero lo hi [] = true
utf8_from (suc n) lo hi [] = false
utf8_from zero lo hi (b ∷ bs) = elim (lead b) [
  | none ↦ false
  | some (n, lo', hi') ↦ utf8_from n lo' hi' bs
]
utf8_from (suc n) lo hi (b ∷ bs) = leb lo b && leb b hi && utf8_from n 128 191 bs

unfoldable pub is_utf8 : Text → Bool
unfolding utf8_from
is_utf8 bs = utf8_from 0 0 0 bs

-- `read_until(b'\n')` under `take(room)`: the bytes read, the bytes left, and whether it stopped by
-- itself rather than for want of input.
pub record Taken : Type 0 where
  pub bytes : Text
  pub rest : Text
  pub stopped : Bool

unfoldable pub read_until : ℕ → Text → Taken
read_until zero input = record { bytes = []; rest = input; stopped = true }
read_until (suc room) [] = record { bytes = []; rest = []; stopped = false }
read_until (suc room) (b ∷ input) =
    let t = read_until room input in
    if b == 10
    then record { bytes = b ∷ []; rest = input; stopped = true }
    else record { bytes = b ∷ t.bytes; rest = t.rest; stopped = t.stopped }

-- `bytes.pop()` where the last byte is a newline; `none` where it is not.
unfoldable pub strip_newline : Text → Option Text
strip_newline [] = none
strip_newline (b ∷ []) = if b == 10 then some [] else none
strip_newline (b ∷ c ∷ bs) = elim (strip_newline (c ∷ bs)) [ none ↦ none | some s ↦ some (b ∷ s) ]

finish_line : ℕ → Text → Read
finish_line limit bytes =
    if is_empty bytes
    then end_of_input
    else if ltb limit (length bytes)
    then refused too_long_line
    else elim (strip_newline bytes) [
      | none ↦ refused incomplete
      | some s ↦ if is_utf8 s then line s else refused not_utf8
    ]

-- What came of a read: the bytes that arrived, or the way the client failed to send them.
settle : ℕ → Text → Ending → Bool → Read
unfolding finish_line
settle limit bytes ending true = finish_line limit bytes
settle limit bytes closed false = finish_line limit bytes
settle limit bytes silent false = refused timed_out
settle limit bytes (broken e) false = refused (transport_failed e)

unfoldable pub limited_line : ℕ → Text → Ending → Read × Text
unfolding settle
limited_line limit input ending =
    let t = read_until (limit + 1) input in (settle limit t.bytes ending t.stopped, t.rest)
