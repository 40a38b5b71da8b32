-- ===== src/Wire.antt =====
-- The wire format of nanopb below fields: zigzag and fixed integers, tags, strings and skipping
-- (pb_encode.c and pb_decode.c, "Helper functions"). A value of an intN_t is its bit pattern.
pub mod Zigzag
pub mod Fixed
pub mod Tags
pub mod Skip
pub mod Substream
pub mod Advance
use pincushion.Prelude.{ℕ, zero, suc, ◌+◌, ◌-◌, ◌^◌, Bool, true, false, List, [], ◌∷◌, length}
use pincushion.Prelude.{ltb, leb, ◌==◌, if◌then◌else◌, bit_and, bit_or, u8, u32, u64, get_or}
use pincushion.Prelude.{◌<<<◌, ◌>>>◌, Outcome, ok, fail, pure, ◌>>=◌, ◌>>◌, ◌*◌}
use pincushion.Istream.{Istream, Read, pb_read, pb_read_null}
use pincushion.Istream
use pincushion.Ostream.{Write, pb_write}
use pincushion.Varint.{pb_decode_varint, pb_decode_varint32, pb_decode_varint32_eof}
use pincushion.Varint.{pb_skip_varint, pb_encode_varint}

-- `~` on uint64_t
abbrev pub complement64 : ℕ → ℕ
complement64 x = 2 ^ 64 - 1 - x

-- `value < 0` on int64_t
abbrev pub negative64 : ℕ → Bool
negative64 value = leb (2 ^ 63) value

unfoldable pub zigzag : ℕ → ℕ
zigzag value = if negative64 value then complement64 (u64 (value <<< 1)) else u64 (value <<< 1)

unfoldable pub pb_encode_svarint : ℕ → Write
unfolding zigzag
pb_encode_svarint value = pb_encode_varint (zigzag value)

unfoldable pub unzigzag : ℕ → ℕ
unzigzag value = if bit_and value 1 == 0 then value >>> 1 else complement64 (value >>> 1)

unfoldable pub pb_decode_svarint : Read ℕ
unfolding unzigzag
pb_decode_svarint = pb_decode_varint >>= λ value. pure (unzigzag value)

-- `(pb_byte_t)((val >> k) & 0xFF)`
abbrev pub byte_of : ℕ → ℕ → ℕ
byte_of val k = u8 (bit_and (val >>> k) 0xff)

unfoldable pub fixed32_bytes : ℕ → List ℕ
fixed32_bytes val = u8 (bit_and val 0xff) ∷ byte_of val 8 ∷ byte_of val 16 ∷ byte_of val 24 ∷ []

unfoldable pub pb_encode_fixed32 : ℕ → Write
unfolding fixed32_bytes
pb_encode_fixed32 val = pb_write (fixed32_bytes val) 4

unfoldable pub fixed64_bytes : ℕ → List ℕ
fixed64_bytes val =
    u8 (bit_and val 0xff)
    ∷ byte_of val 8
    ∷ byte_of val 16
    ∷ byte_of val 24
    ∷ byte_of val 32
    ∷ byte_of val 40
    ∷ byte_of val 48
    ∷ byte_of val 56
    ∷ []

unfoldable pub pb_encode_fixed64 : ℕ → Write
unfolding fixed64_bytes
pb_encode_fixed64 val = pb_write (fixed64_bytes val) 8

unfoldable pub join32 : List ℕ → ℕ
join32 bytes =
    bit_or
      (bit_or (bit_or (u32 (get_or bytes 0 0 <<< 0)) (u32 (get_or bytes 1 0 <<< 8)))
        (u32 (get_or bytes 2 0 <<< 16)))
      (u32 (get_or bytes 3 0 <<< 24))

unfoldable pub pb_decode_fixed32 : Read ℕ
unfolding join32
pb_decode_fixed32 = pb_read 4 >>= λ bytes. pure (join32 bytes)

unfoldable pub join64 : List ℕ → ℕ
join64 bytes =
    let at = λ (i : ℕ). u64 (get_or bytes i 0 <<< (8 * i)) in
    bit_or
      (bit_or (bit_or (bit_or (bit_or (bit_or (bit_or (at 0) (at 1)) (at 2)) (at 3)) (at 4)) (at 5))
        (at 6))
      (at 7)

unfoldable pub pb_decode_fixed64 : Read ℕ
unfolding join64
pb_decode_fixed64 = pb_read 8 >>= λ bytes. pure (join64 bytes)

-- pb_wire_type_t. The decoder casts three bits to it, so other values occur.
abbrev pub wt_varint : ℕ
wt_varint = 0

abbrev pub wt_64bit : ℕ
wt_64bit = 1

abbrev pub wt_string : ℕ
wt_string = 2

abbrev pub wt_32bit : ℕ
wt_32bit = 5

unfoldable pub tag_value : ℕ → ℕ → ℕ
tag_value wiretype field_number = bit_or (u64 (field_number <<< 3)) wiretype

unfoldable pub pb_encode_tag : ℕ → ℕ → Write
unfolding tag_value
pb_encode_tag wiretype field_number = pb_encode_varint (tag_value wiretype field_number)

pub record Tag : Type 0 where
  pub wire_type : ℕ
  pub tag : ℕ

split_tag : ℕ → Istream → Outcome Istream Tag × Bool
split_tag temp s =
    if temp == 0
    then (fail s, true)
    else (ok (record { wire_type = bit_and temp 7; tag = temp >>> 3 }) s, false)

-- `pb_decode_tag`. The second part is the value of `eof` on return.
unfoldable pub pb_decode_tag : Istream → Outcome Istream Tag × Bool
unfolding split_tag
pb_decode_tag s =
    let (outcome, eof) = pb_decode_varint32_eof s in
    elim outcome [ fail t ↦ (fail t, eof) | ok temp t ↦ split_tag temp t ]

unfoldable pub pb_skip_string : Read (Unit {0})
pb_skip_string = pb_decode_varint32 >>= λ size. pb_read_null size >>= λ _. pure tt

unfoldable pub pb_skip_field : ℕ → Read (Unit {0})
unfolding pb_skip_string
pb_skip_field wire_type =
    if wire_type == wt_varint
    then pb_skip_varint
    else if wire_type == wt_64bit
    then (pb_read_null 8 >>= λ _. pure tt)
    else if wire_type == wt_string
    then pb_skip_string
    else if wire_type == wt_32bit
    then (pb_read_null 4 >>= λ _. pure tt)
    else Istream.return_error "invalid wire_type"

limit_stream : ℕ → Read Istream
limit_stream size s =
    if ltb s.bytes_left size
    then Istream.return_error "parent stream too short" s
    else ok (record s { bytes_left = size }) (record s { bytes_left = s.bytes_left - size })

-- `pb_make_string_substream`: the substream, a copy of the stream with a length of its own.
unfoldable pub pb_make_string_substream : Read Istream
unfolding limit_stream
pb_make_string_substream = pb_decode_varint32 >>= limit_stream

adopt : Istream → Read (Unit {0})
adopt sub s = ok tt (record s { source = sub.source; errmsg = sub.errmsg })

-- `pb_close_string_substream` skips what is left of the substream and hands its state back.
unfoldable pub pb_close_string_substream : Istream → Read (Unit {0})
unfolding adopt
pb_close_string_substream sub s =
    if sub.bytes_left == 0
    then adopt sub s
    else elim (pb_read_null sub.bytes_left sub) [ fail _ ↦ fail s | ok _ sub' ↦ adopt sub' s ]

-- `pb_encode_string`
unfoldable pub pb_encode_string : List ℕ → ℕ → Write
pb_encode_string buffer size = pb_encode_varint size >> pb_write buffer size
