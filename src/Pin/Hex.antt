-- ===== src/Pin/Hex.antt =====
-- pin.rs, `unhex`: file contents as they travel between machines.
use clix.Types.{
  bodies_eq, bool_eq, job_eq, patterns_eq, schedule_eq, status_eq, time_eq, weekday_eq,
}
use clix.Error.{ClixError, Result, err, ok, protocol, refuse_if, ◌>>=◌, ◌>>◌}
use clix.Prelude.{
  Bool, Option, Text, [], all, arith, hex, hex_digit, if◌then◌else◌, int_eq, leb, length, ltb,
  nat_eq, none, refl, some, text, text_eq, texts_eq, true, ℕ, ◌!=◌, ◌%◌, ◌&&◌, ◌*◌, ◌+◌, ◌-◌, ◌/◌,
  ◌<◌, ◌||◌, ◌∷◌, ◌≡◌, ◌≤◌,
}
use clix.Pin.{fingerprint_eq, manifest_eq, max_file, version_eq}

-- `char::to_digit(16)` of a byte.
unfoldable pub to_digit : ℕ → Option ℕ
to_digit b =
    if leb 48 b && leb b 57
    then some (b - 48)
    else if leb 97 b && leb b 102
    then some (b - 87)
    else if leb 65 b && leb b 70
    then some (b - 55)
    else none

invalid_content : ClixError
invalid_content = protocol (text "invalid pin content")

-- One pair of digits, before the bytes that follow it.
unhex_pair : Option ℕ → Option ℕ → Result Text → Result Text
unfolding invalid_content
unhex_pair (some h) (some l) rest = do bytes ← rest; ok ((h * 16 + l) % 256 ∷ bytes)
unhex_pair (some h) none rest = err invalid_content
unhex_pair none l rest = err invalid_content

-- `chunks_exact(2)`: a last odd digit is left out.
unfoldable pub unhex_pairs : Text → Result Text
unfolding unhex_pair
unhex_pairs [] = ok []
unhex_pairs (_ ∷ []) = ok []
unhex_pairs (h ∷ l ∷ rest) = unhex_pair (to_digit h) (to_digit l) (unhex_pairs rest)

unfoldable pub unhex : Text → Result Text
unfolding invalid_content
unhex s = do
  refuse_if (length s % 2 != 0 || ltb (max_file * 2) (length s)) invalid_content
  unhex_pairs s

-- Every byte is one.
unfoldable pub is_bytes : Text → Bool
is_bytes bs = all (λ b. ltb b 256) bs

to_digit-hex_digit : (d : ℕ) → d < 16 → to_digit (hex_digit d) ≡ some d
unfolding to_digit hex_digit
to_digit-hex_digit d h = ground arith

length-hex : (bs : Text) → length (hex bs) ≡ 2 * length bs
unfolding hex
length-hex [] = refl
length-hex (b ∷ bs) = omega (arith, length-hex bs)

byte_of_digits : (b : ℕ) → b < 256 → (b / 16 * 16 + b % 16) % 256 ≡ b
byte_of_digits b h = omega arith

unhex_pairs-hex : (bs : Text) → is_bytes bs ≡ true → unhex_pairs (hex bs) ≡ ok bs
unfolding unhex_pairs unhex_pair hex is_bytes
unhex_pairs-hex [] h = refl
unhex_pairs-hex (b ∷ bs) h =
    let small : b < 256 = ground arith in
    let rest = unhex_pairs-hex bs (ground arith) in
    rw
      (
        to_digit-hex_digit (b / 16) (omega arith),
        to_digit-hex_digit (b % 16) (omega arith),
        rest,
        byte_of_digits b small,
      )
      refl

-- What `unhex` reads back from `hex` is the content itself, for bytes and up to the largest file.
pub unhex-hex : (bs : Text) → is_bytes bs ≡ true → length bs ≤ max_file → unhex (hex bs) ≡ ok bs
unfolding unhex
unhex-hex bs h fits = ground (arith, length-hex bs, unhex_pairs-hex bs h)
