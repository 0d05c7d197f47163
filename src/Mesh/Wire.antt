-- ===== src/Mesh/Wire.antt =====
-- mesh.rs: what is sent arrives.

use clix.Error.{
  >>=-eq-ok, ClixError, Result, capacity, display, err, ok, ok-injective, pin_conflict, protocol,
  refuse_if, refuse_if-ok, unreachable,
}
use clix.Prelude.{
  Text, Text-discrete, [], ap, arith, drop, false, length, length-append, ltb, refl, subst, take,
  text, ℕ, ℕ_discrete, ◌%◌, ◌*◌, ◌++◌, ◌+◌, ◌/◌, ◌∙◌, ◌∷◌, ◌≡◌, ◌≤◌,
}
use clix.Mesh.{
  Reply, be_bytes, call_reply, conflict_of, either_error, field, max_frame, no_fields, read_content,
  read_frame, received, refusal, reply_to, send_refusal, too_long, write_frame,
}

-- An error as the other machine sees it.
abbrev pub as_seen : ClixError → ClixError
as_seen (capacity reason) = capacity reason
as_seen unreachable = unreachable
as_seen (pin_conflict path a b) = pin_conflict path a b
as_seen e = protocol (display e)

take-length-append : (xs ys : Text) → take (length xs) (xs ++ ys) ≡ xs
take-length-append [] ys = refl
take-length-append (x ∷ xs) ys = ap (λ t. x ∷ t) (take-length-append xs ys)

drop-length-append : (xs ys : Text) → drop (length xs) (xs ++ ys) ≡ ys
drop-length-append [] ys = refl
drop-length-append (x ∷ xs) ys = drop-length-append xs ys

from_be_bytes :
    (n : ℕ)
    → n ≤ max_frame
    → ((n / 16777216) % 256) * 16777216
        + ((n / 65536) % 256) * 65536
        + ((n / 256) % 256) * 256
        + n % 256
      ≡ n
from_be_bytes n h = omega arith

length-before : (xs ys : Text) → ltb (length (xs ++ ys)) (length xs) ≡ false
length-before xs ys = let total = length-append xs ys in ground (arith, total)

read_content-append :
    (content rest : Text)
    → length content ≤ max_frame
    → read_content (length content) (content ++ rest) ≡ ok (content, rest)
unfolding read_content
read_content-append content rest fits =
    let small : ltb max_frame (length content) ≡ false = ground arith in
    rw
      (
        small,
        length-before content rest,
        take-length-append content rest,
        drop-length-append content rest,
      )
      refl

-- A frame that was written is read back, and what follows it in the stream is left.
pub read_frame-write_frame :
    (content sent rest : Text)
    → write_frame content ≡ ok sent
    → read_frame (sent ++ rest) ≡ ok (content, rest)
unfolding write_frame read_frame be_bytes
read_frame-write_frame content sent rest e =
    let (u, fits, made) = >>=-eq-ok (refuse_if (ltb max_frame (length content)) too_long) _ e in
    let small = refuse_if-ok _ _ u fits in
    let short : length content ≤ max_frame = ground arith in
    subst (λ t. read_frame (t ++ rest) ≡ ok (content, rest)) (ok-injective made)
      (ap (λ n. read_content n (content ++ rest)) (from_be_bytes (length content) short)
        ∙ read_content-append content rest short)

received-reply_to : (e : ClixError) → received (reply_to e) ≡ err (as_seen e)
unfolding received reply_to refusal conflict_of field either_error no_fields text
    clix.Prelude.Text-discrete clix.Prelude.ℕ_discrete
received-reply_to (capacity reason) = refl
received-reply_to unreachable = refl
received-reply_to (pin_conflict path a b) = refl
received-reply_to _ = refl

-- Where the JSON of a refusal is read as it was written, and the frame could be sent, the caller
-- gets the error that the server had, if it is a lack of capacity, an unreachable machine or a pin
-- conflict, and otherwise a protocol error with its text, whatever follows the frame in the stream.
pub call_reply-send_refusal :
    (print : Reply → Text) (parse : Text → Result Reply) (e : ClixError) (sent rest : Text)
    → parse (print (reply_to e)) ≡ ok (reply_to e)
    → send_refusal print e ≡ ok sent
    → call_reply parse (sent ++ rest) ≡ err (as_seen e)
unfolding call_reply send_refusal
call_reply-send_refusal print parse e sent rest reads sends =
    rw (read_frame-write_frame (print (reply_to e)) sent rest sends, reads) (received-reply_to e)
