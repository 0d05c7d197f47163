-- ===== src/Storage/Encoding.antt =====
-- storage.rs, `encode`: what may become the state file.

use clix.Prelude.{
  Bool-cases, List, Option, Text, [], arith, inl, inr, length, length-append, ltb, none, some,
  subst, sym, ◌++◌, ◌+◌, ◌∙◌, ◌∷◌, ◌≡◌, ◌≤◌,
}
use mathlib.Core.List.{append_assoc, append-nil}
use clix.Error.{ok}
use clix.State.{Host, Store}
use clix.Storage.{encode, state_bytes, write_all, written}

abbrev pub concat : List Text → Text
concat [] = []
concat (s ∷ ss) = s ++ concat ss

write_all-concat :
    (bytes : Text) (pieces : List Text) (b : Text)
    → length bytes ≤ state_bytes
    → write_all bytes pieces ≡ some b
    → (b ≡ bytes ++ concat pieces) × (length b ≤ state_bytes)
unfolding write_all
write_all-concat bytes [] b l e =
    let same : bytes ≡ b = ground arith in
    (sym same ∙ sym (append-nil bytes), subst (λ x. length x ≤ state_bytes) same l)
write_all-concat bytes (p ∷ ps) b l e =
    elim (Bool-cases (ltb state_bytes (length bytes + length p))) [
      | inl t ↦ absurd (cc (rw t at e))
      | inr t ↦
          let fits : length (bytes ++ p) ≤ state_bytes = ground (arith, length-append bytes p) in
          let (same, bound) = write_all-concat (bytes ++ p) ps b fits (rw t at e) in
          (same ∙ append_assoc bytes p (concat ps), bound)
    ]

written-ok : (w failure : Option Text) (b : Text) → written w failure ≡ ok b → w ≡ some b
unfolding written
written-ok none failure b e = absurd (cc e)
written-ok (some x) (some y) b e = absurd (cc e)
written-ok (some x) none b e = ground arith

-- A state that is encoded gives all of the serialiser's bytes, in order, and they are at most 128
-- MiB.
pub encode-concat :
    (h : Host) (s : Store) (b : Text)
    → encode h s ≡ ok b
    → (b ≡ concat (h.json_store s).0) × (length b ≤ state_bytes)
unfolding encode
encode-concat h s b e =
    write_all-concat [] (h.json_store s).0 b (omega arith)
      (written-ok (write_all [] (h.json_store s).0) (h.json_store s).1 b e)
