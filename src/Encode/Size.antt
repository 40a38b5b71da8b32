-- ===== src/Encode/Size.antt =====
-- `pb_get_encoded_size` and `pb_encode_delimited` of nanopb/pb_encode.c, from what `pb_encode` writes.
use pincushion.Prelude.{ℕ, ◌^◌, ◌<◌, ◌≡◌, List, ◌++◌, length}
use pincushion.Prelude.{some}
use pincushion.Ostream.Write.{Emits}
use pincushion.Field.{Field}
use pincushion.Varint.{varint_bytes}
use pincushion.Encode.{Env}
use pincushion.Encode.Message.{pb_encode, pb_get_encoded_size, pb_encode_delimited}
use pincushion.Encode.Sizing.{submessage-Emits}
use native.Mathlib.Nat.{zero-add}

pub size_counted :
    (env : Env) (depth : ℕ) (fields : List Field) (src_struct : ℕ) (bytes : List ℕ)
    → length bytes < 2 ^ 64
    → Emits (pb_encode env depth fields src_struct) bytes
    → pb_get_encoded_size env depth fields src_struct ≡ some (length bytes)
unfolding pb_get_encoded_size
size_counted env depth fields src_struct bytes small em =
    let counted = rw zero-add at (em.counts 0 0 (rw zero-add small)) in
    rw (counted, pb_get_encoded_size)

-- The length that `pb_encode_delimited` writes is that of the message behind it: where `pb_encode` writes
-- `bytes`, fewer than 2 ^ 64, it writes the varint of their number and then the bytes, on a stream that counts
-- and into a buffer with room; a buffer without room makes it return false, where the sizes are below 2 ^ 63.
pub pb_encode_delimited-Emits :
    (env : Env) (depth : ℕ) (fields : List Field) (src_struct : ℕ) (bytes : List ℕ)
    → length bytes < 2 ^ 64
    → Emits (pb_encode env depth fields src_struct) bytes
    → Emits (pb_encode_delimited env depth fields src_struct) (varint_bytes (length bytes) ++ bytes)
unfolding pb_encode_delimited
pb_encode_delimited-Emits env depth fields src_struct bytes small em =
    submessage-Emits (pb_encode env depth fields src_struct) bytes small em
