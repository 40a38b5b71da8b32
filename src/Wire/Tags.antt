-- ===== src/Wire/Tags.antt =====
-- `pb_encode_tag` and `pb_decode_tag`.
use pincushion.Prelude.{ℕ, suc, ◌+◌, ◌*◌, ◌^◌, ◌<◌, ◌≡◌, refl, arith, List, ◌∷◌, ◌++◌}
use pincushion.Prelude.{length, Option, String, ok, fail, true, false}
use pincushion.Prelude.{bit_and-mask, bit_or-disjoint, bit_or_comm}
use pincushion.Istream.{Istream}
use pincushion.Istream.Read.{over, pb_readbyte-cons}
use pincushion.Varint.{varint_bytes, pb_decode_varint32, pb_decode_varint32_eof}
use pincushion.Varint.RoundTrip32.{pb_decode_varint32-varint_bytes}
use pincushion.Wire.{tag_value, pb_decode_tag}

tag_value-sum :
    (wiretype field_number : ℕ)
    → wiretype < 8
    → field_number < 2 ^ 29
    → tag_value wiretype field_number ≡ wiretype + field_number * 8
unfolding tag_value
tag_value-sum wiretype field_number hw hf =
    ground
      (arith, bit_or_comm (field_number * 8) wiretype, bit_or-disjoint 3 wiretype field_number hw)

-- With `eof` or without, the same is decoded.
eof_irrelevant : (s : Istream) → (pb_decode_varint32_eof s).0 ≡ pb_decode_varint32 s
unfolding pb_decode_varint32
eof_irrelevant s = refl

-- From a buffer that starts with the bytes `pb_encode_tag` writes for a wire type below 8 and a
-- field number from 1 to 2 ^ 29 - 1, `pb_decode_tag` reads both, and does not report the end of
-- the message.
pub pb_decode_tag-tag_value :
    (wiretype field_number : ℕ) (rest : List ℕ) (n : ℕ) (msg : Option String)
    → wiretype < 8
    → 0 < field_number
    → field_number < 2 ^ 29
    → let bytes = varint_bytes (tag_value wiretype field_number) in
      pb_decode_tag (over (bytes ++ rest) (length bytes + n) msg)
      ≡ (ok (record { wire_type = wiretype; tag = field_number }) (over rest n msg), false)
unfolding pb_decode_tag
pb_decode_tag-tag_value wiretype field_number rest n msg hw pos hf =
    let value = tag_value wiretype field_number in
    let sum = tag_value-sum wiretype field_number hw hf in
    ground (
      arith,
      sum,
      eof_irrelevant (over (varint_bytes value ++ rest) (length (varint_bytes value) + n) msg),
      pb_decode_varint32-varint_bytes value rest n msg (omega (arith, sum)),
      bit_and-mask 3 value,
    )

-- A zero byte ends a message: `pb_decode_tag` takes it from a buffer and fails with `eof` set,
-- and records no message.
pub pb_decode_tag-zero :
    (rest : List ℕ) (n : ℕ) (msg : Option String)
    → pb_decode_tag (over (0 ∷ rest) (suc n) msg) ≡ (fail (over rest n msg), true)
unfolding pb_decode_tag pb_decode_varint32_eof
pb_decode_tag-zero rest n msg = ground (arith, pb_readbyte-cons 0 rest n msg)
