-- ===== src/Mesh.antt =====
-- mesh.rs: the frames that carry a message between two machines, and the replies.
pub mod Wire
pub mod Dispatch
use clix.Error.{
  ClixError, Result, capacity, display, err, ok, pin_conflict, protocol, refuse_if, unreachable,
  ◌>>=◌, ◌>>◌,
}
use clix.Prelude.{
  Bool, Option, Text, [], drop, find, if◌then◌else◌, int_eq, is_some_and, length, ltb, nat_eq, none,
  some, take, text, text_eq, texts_eq, true, unwrap_or, ℕ, ◌%◌, ◌&&◌, ◌*◌, ◌++◌, ◌+◌, ◌/◌, ◌==◌,
  ◌∷◌,
}
use clix.Types.{
  Job, Peer, bodies_eq, bool_eq, job_eq, patterns_eq, schedule_eq, status_eq, time_eq, weekday_eq,
}
use clix.State.{Store}

abbrev pub max_frame : ℕ
max_frame = 67108864

too_long : ClixError
too_long = protocol (text "Clix message exceeds 64 MiB")

-- `to_be_bytes` of a `u32`.
unfoldable pub be_bytes : ℕ → Text
be_bytes n = (n / 16777216) % 256 ∷ (n / 65536) % 256 ∷ (n / 256) % 256 ∷ n % 256 ∷ []

-- The bytes that are sent.
unfoldable pub write_frame : Text → Result Text
unfolding too_long
write_frame content = do
  refuse_if (ltb max_frame (length content)) too_long
  ok (be_bytes (length content) ++ content)

read_content : ℕ → Text → Result (Text × Text)
unfolding too_long
read_content len stream =
    if ltb max_frame len
    then err too_long
    else if ltb (length stream) len
    then err unreachable
    else ok (take len stream, drop len stream)

-- A message and what follows it in the stream; a stream that ends before is a lost connection.
unfoldable pub read_frame : Text → Result (Text × Text)
unfolding read_content
read_frame (a ∷ b ∷ c ∷ d ∷ stream) = read_content (a * 16777216 + b * 65536 + c * 256 + d) stream
read_frame _ = err unreachable

-- The fields of a reply's JSON object that the caller looks at: whether `ok` is false, and texts.
pub record Reply : Type 0 where
  pub refused : Bool
  pub kind : Option Text
  pub error : Option Text
  pub path : Option Text
  pub a : Option Text
  pub b : Option Text

no_fields : Reply
no_fields = record { refused = true; kind = none; error = none; path = none; a = none; b = none }

-- The reply of `serve_conn` to a request that failed.
unfoldable pub reply_to : ClixError → Reply
unfolding no_fields
reply_to (capacity reason) = record no_fields { kind = some (text "capacity"); error = some reason }
reply_to unreachable = record no_fields {
  kind = some (text "unreachable");
  error = some (text "machine is unreachable");
}
reply_to (pin_conflict path a b) = record no_fields {
  kind = some (text "pin_conflict");
  path = some path;
  a = some a;
  b = some b;
}
reply_to e = record no_fields { error = some (display e) }

field : Option Text → Result Text
field none = err (protocol (text "invalid conflict response"))
field (some t) = ok t

conflict_of : Reply → Result ClixError
unfolding field
conflict_of r = do path ← field r.path; a ← field r.a; b ← field r.b; ok (pin_conflict path a b)

either_error : Result ClixError → ClixError
either_error (err e) = e
either_error (ok e) = e

-- The error that `call` makes of a refusal.
refusal : Reply → ClixError
unfolding conflict_of either_error
refusal r =
    if is_some_and (λ k. k == text "capacity") r.kind
    then capacity (unwrap_or (text "peer is at capacity") r.error)
    else if is_some_and (λ k. k == text "unreachable") r.kind
    then unreachable
    else if is_some_and (λ k. k == text "pin_conflict") r.kind
    then either_error (conflict_of r)
    else protocol (unwrap_or (text "peer rejected request") r.error)

unfoldable pub received : Reply → Result Reply
unfolding refusal
received r = if r.refused then err (refusal r) else ok r

-- What `call` makes of the stream that answers it; `parse` reads JSON.
unfoldable pub call_reply : (Text → Result Reply) → Text → Result Reply
call_reply parse stream = do frame ← read_frame stream; reply ← parse frame.0; received reply

-- What `serve_conn` sends for a request that failed; `print` writes JSON.
unfoldable pub send_refusal : (Reply → Text) → ClixError → Result Text
send_refusal print e = write_frame (print (reply_to e))

-- `job_get`: a job that the peer asked this machine to run.
unfoldable pub job_get : Store → Peer → Option Text → Result (Option Job)
job_get s peer none = err (protocol (text "missing job ID"))
job_get s peer (some id) =
    ok (find (λ (j : Job). j.id == id && (j.from == peer.name && j.body == s.body_name)) s.jobs)
