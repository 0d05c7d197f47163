-- ===== src/Ids/Shape.antt =====
-- job.rs, `new_id`: every identifier that the program makes is one that its validator admits.
use Prim.Native.Nat.{bit_and, bit_or}
use clix.Types.{job_eq, schedule_eq, status_eq, weekday_eq}
use clix.Error.{ok}
use clix.Prelude.{
  Text, [], arith, drop, false, get_or, hex, int_eq, length, length-append, length-drop, length-set,
  length-take-le, nat_eq, refl, set, take, text_eq, ℕ, ◌*◌, ◌++◌, ◌+◌, ◌∙◌, ◌∷◌, ◌≡◌, ◌≤◌,
}
use clix.Limits.{contains_nul, id_bytes, identifier}
use clix.Limits.Invocation.{IsPlain, IsPlain-identifier}
use clix.Limits.{contains_nul, id_bytes, identifier}
use clix.Ids.{dash, format_id, new_id, set_version}

length-hex : (b : Text) → length (hex b) ≡ 2 * length b
unfolding hex
length-hex [] = refl
length-hex (x ∷ xs) = omega (arith, length-hex xs)

contains_nul-hex : (b : Text) → contains_nul (hex b) ≡ false
unfolding hex contains_nul
contains_nul-hex [] = refl
contains_nul-hex (x ∷ xs) = ground (arith, contains_nul-hex xs)

contains_nul-append :
    (a b : Text) → contains_nul a ≡ false → contains_nul b ≡ false → contains_nul (a ++ b) ≡ false
unfolding contains_nul
contains_nul-append [] b p q = q
contains_nul-append (x ∷ a) b p q = ground (arith, contains_nul-append a b)

contains_nul-dash : (b : Text) → contains_nul b ≡ false → contains_nul (dash ∷ b) ≡ false
unfolding contains_nul dash
contains_nul-dash b h = ground arith

format_id-contains_nul : (b : Text) → contains_nul (format_id b) ≡ false
unfolding format_id
format_id-contains_nul b =
    search (contains_nul-append, contains_nul-dash, contains_nul-hex) depth 12

length-dashed :
    (a b : Text) (n m : ℕ)
    → length a ≡ n
    → length b ≡ m
    → length (hex a ++ (dash ∷ b)) ≡ 2 * n + 1 + m
length-dashed a b n m p q = omega (arith, length-append (hex a) (dash ∷ b), length-hex a)

-- A piece of the 16 bytes.
length-slice : (n k : ℕ) (b : Text) → n + k ≤ length b → length (take n (drop k b)) ≡ n
length-slice n k b h = length-take-le n (drop k b) (omega (arith, length-drop k b))

length-format_id : (b : Text) → length b ≡ 16 → length (format_id b) ≡ 36
unfolding format_id
length-format_id b h = length-dashed _ _ 4 27 (length-take-le 4 b (omega arith)) (
    length-dashed _ _ 2 22 (length-slice 2 4 b (omega arith)) (
      length-dashed _ _ 2 17 (length-slice 2 6 b (omega arith)) (
        length-dashed _ _ 2 12 (length-slice 2 8 b (omega arith))
          (omega (arith, length-hex (take 6 (drop 10 b)), length-slice 6 10 b (omega arith))))))

length-set_version : (b : Text) → length (set_version b) ≡ length b
unfolding set_version
length-set_version b =
    let b' = set b 6 (bit_or (bit_and (get_or b 6 0) 0x0f) 0x40) in
    length-set b' 8 (bit_or (bit_and (get_or b' 8 0) 0x3f) 0x80) ∙ length-set b 6 _

-- Reading 16 random bytes gives an identifier of 36 bytes, which the validator of identifiers
-- admits.
pub new_id-identifier :
    (b : Text)
    → length b ≡ 16
    → (id : Text) × (new_id (ok b) ≡ ok id) × (length id ≡ 36) × (identifier id ≡ ok tt)
unfolding new_id
new_id-identifier b h = (format_id (set_version b), refl, size, IsPlain-identifier _ plain)
  where
    size : length (format_id (set_version b)) ≡ 36
    size = length-format_id _ (length-set_version b ∙ h)

    plain : IsPlain 1 id_bytes (format_id (set_version b))
    plain = record {
      at_least = omega (arith, size);
      at_most = omega (arith, size);
      no_nul = format_id-contains_nul (set_version b);
    }
