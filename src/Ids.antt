-- ===== src/Ids.antt =====
-- job.rs, `new_id`: a version 4 UUID from 16 random bytes.
pub mod Shape
use Prim.Native.Nat.{bit_and, bit_or}
use clix.Prelude.{Text, drop, get_or, hex, int_eq, nat_eq, set, take, text_eq, ℕ, ◌++◌, ◌∷◌}
use clix.Error.{Result, ok, ◌>>=◌, ◌>>◌}

dash : ℕ
dash = b'-'

-- `{:02x}` of the bytes, with the dashes after the fourth, sixth, eighth and tenth.
unfoldable pub format_id : Text → Text
unfolding dash
format_id b =
    hex (take 4 b)
    ++ (dash ∷ hex (take 2 (drop 4 b))
        ++ (dash ∷ hex (take 2 (drop 6 b))
            ++ (dash ∷ hex (take 2 (drop 8 b)) ++ (dash ∷ hex (take 6 (drop 10 b))))))

set_version : Text → Text
set_version b =
    let b' = set b 6 (bit_or (bit_and (get_or b 6 0) 0x0f) 0x40) in
    set b' 8 (bit_or (bit_and (get_or b' 8 0) 0x3f) 0x80)

-- The argument is what reading 16 bytes of /dev/urandom gave.
unfoldable pub new_id : Result Text → Result Text
unfolding set_version
new_id random = do buf ← random; ok (format_id (set_version buf))
