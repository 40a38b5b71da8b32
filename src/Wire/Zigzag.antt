-- ===== src/Wire/Zigzag.antt =====
-- `pb_encode_svarint` and `pb_decode_svarint`.
use pincushion.Prelude.{ℕ, suc, ◌+◌, ◌-◌, ◌*◌, ◌^◌, ◌<◌, ◌≡◌, arith, List, ◌++◌, length, Option}
use pincushion.Prelude.{String, ok, bit_and-mask}
use pincushion.Istream.Read.{over}
use pincushion.Varint.{varint_bytes}
use pincushion.Varint.RoundTrip.{pb_decode_varint-varint_bytes}
use pincushion.Wire.{zigzag, unzigzag, pb_decode_svarint}

-- The signed integers that the bit patterns of an int64_t stand for; `negsuc n` is -(n + 1).
pub data ℤ : Type 0 where
  pos : ℕ → ℤ
  negsuc : ℕ → ℤ

-- The bit pattern of an integer that an int64_t holds.
abbrev pub pattern64 : ℤ → ℕ
pattern64 (pos n) = n
pattern64 (negsuc n) = 2 ^ 64 - suc n

abbrev pub IsInt64 : ℤ → Type 0
IsInt64 (pos n) = n < 2 ^ 63
IsInt64 (negsuc n) = n < 2 ^ 63

-- The numbering of the format: 0, -1, 1, -2, 2, ...
abbrev pub zigzag_number : ℤ → ℕ
zigzag_number (pos n) = 2 * n
zigzag_number (negsuc n) = 2 * n + 1

-- For every int64_t, the shifts and complements of `pb_encode_svarint` give its number in the
-- order 0, -1, 1, -2, 2 of the format.
pub zigzag-zigzag_number : (z : ℤ) → IsInt64 z → zigzag (pattern64 z) ≡ zigzag_number z
unfolding zigzag
zigzag-zigzag_number (pos n) h = ground arith
zigzag-zigzag_number (negsuc n) h = ground arith

pub unzigzag-zigzag : (v : ℕ) → v < 2 ^ 64 → unzigzag (zigzag v) ≡ v
unfolding zigzag unzigzag
unzigzag-zigzag v h = ground (arith, bit_and-mask 1 (zigzag v))

zigzag-lt : (v : ℕ) → v < 2 ^ 64 → zigzag v < 2 ^ 64
unfolding zigzag
zigzag-lt v h = ground arith

-- From a buffer that starts with the bytes `pb_encode_svarint` writes for an int64_t,
-- `pb_decode_svarint` reads it, and stops behind it.
pub pb_decode_svarint-zigzag :
    (v : ℕ) (rest : List ℕ) (n : ℕ) (msg : Option String)
    → v < 2 ^ 64
    → pb_decode_svarint
        (over (varint_bytes (zigzag v) ++ rest) (length (varint_bytes (zigzag v)) + n) msg)
      ≡ ok v (over rest n msg)
unfolding pb_decode_svarint
pb_decode_svarint-zigzag v rest n msg h = ground (
  arith,
  pb_decode_varint-varint_bytes (zigzag v) rest n msg (zigzag-lt v h),
  unzigzag-zigzag v h,
)
