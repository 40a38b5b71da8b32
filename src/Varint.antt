-- ===== src/Varint.antt =====
-- The base 128 integers of nanopb: `pb_decode_varint`, `pb_decode_varint32` and `pb_skip_varint`
-- of pb_decode.c, `pb_encode_varint` of pb_encode.c.
pub mod Encode
pub mod RoundTrip
pub mod RoundTrip32
pub mod Skip
pub mod Wraps
pub mod Accept
pub mod Advance
use pincushion.Prelude.{ℕ, zero, suc, ◌+◌, ◌-◌, ◌^◌, ◌≤◌, Bool, true, false, ◌&&◌, ◌||◌, not}
use pincushion.Prelude.{List, [], ◌∷◌, length, ltb, leb, ◌==◌, if◌then◌else◌, bit_and, bit_or}
use pincushion.Prelude.{u8, u32, u64, ◌<<<◌, ◌>>>◌, Outcome, ok, fail, pure, ◌>>=◌, ◌>>◌}
use pincushion.Istream.{Istream, Read, pb_read, pb_readbyte}
use pincushion.Istream
use pincushion.Ostream.{Write, pb_write}

-- `result |= (uint64_t)(byte & 0x7F) << bitpos`
abbrev pub add_group : ℕ → ℕ → ℕ → ℕ
add_group result byte bitpos = bit_or result (u64 (bit_and byte 0x7f <<< bitpos))

-- The loop of `pb_decode_varint`. The eleventh round returns at its first test, so the loop
-- never gets to the end of eleven units of fuel.
unfoldable pub decode_varint_loop : ℕ → ℕ → ℕ → Read ℕ
decode_varint_loop zero bitpos result = fail
decode_varint_loop (suc fuel) bitpos result =
    if leb 64 bitpos
    then Istream.return_error "varint overflow"
    else (pb_readbyte >>= λ byte.
        let result' = add_group result byte bitpos in
        let rest = decode_varint_loop fuel (u8 (bitpos + 7)) result' in
        if bit_and byte 0x80 == 0 then pure result' else rest)

unfoldable pub pb_decode_varint : Read ℕ
unfolding decode_varint_loop
pb_decode_varint = decode_varint_loop 11 0 0

-- `result |= (uint32_t)(byte & 0x7F) << bitpos`
abbrev pub add_group32 : ℕ → ℕ → ℕ → ℕ
add_group32 result byte bitpos = bit_or result (u32 (bit_and byte 0x7f <<< bitpos))

-- The test of a byte at bit 32 or above, where only a sign extension may stand.
unfoldable pub overflows32 : ℕ → ℕ → ℕ → Bool
overflows32 bitpos byte result =
    let sign_extension = if ltb bitpos 63 then 0xff else 0x01 in
    not (bit_and byte 0x7f == 0) && (result >>> 31 == 0 || not (byte == sign_extension))

-- What follows the do-while loop.
unfoldable pub finish_varint32 : ℕ → ℕ → ℕ → Read ℕ
finish_varint32 bitpos byte result =
    if bitpos == 35 && not (bit_and byte 0x70 == 0)
    then Istream.return_error "varint overflow"
    else pure result

-- The do-while loop of `pb_decode_varint32_eof`. Each round takes a byte, so `bytes_left` units of
-- fuel are enough; with none left there is no byte left either.
unfoldable pub decode_varint32_loop : ℕ → ℕ → ℕ → Read ℕ
unfolding overflows32 finish_varint32
decode_varint32_loop zero bitpos result = Istream.return_error "end-of-stream"
decode_varint32_loop (suc fuel) bitpos result = pb_readbyte >>= λ byte.
    if leb 32 bitpos && overflows32 bitpos byte result
    then Istream.return_error "varint overflow"
    else let result' = if leb 32 bitpos then result else add_group32 result byte bitpos in
      let bitpos' = u8 (bitpos + 7) in
      let rest = decode_varint32_loop fuel bitpos' result' in
      if bit_and byte 0x80 == 0 then finish_varint32 bitpos' byte result' else rest

unfoldable pub decode_varint32_rest : ℕ → Read ℕ
decode_varint32_rest byte s =
    if bit_and byte 0x80 == 0
    then pure byte s
    else decode_varint32_loop s.bytes_left 7 (bit_and byte 0x7f) s

-- `pb_decode_varint32_eof`. The second part is what it stores through `eof`, if anything.
unfoldable pub pb_decode_varint32_eof : Istream → Outcome Istream ℕ × Bool
unfolding decode_varint32_rest
pb_decode_varint32_eof s = elim (pb_readbyte s) [
  | fail t ↦ (fail t, t.bytes_left == 0)
  | ok byte t ↦ (decode_varint32_rest byte t, false)
]

unfoldable pub pb_decode_varint32 : Read ℕ
unfolding pb_decode_varint32_eof
pb_decode_varint32 s = (pb_decode_varint32_eof s).0

first_byte : List ℕ → ℕ
first_byte = elim [ [] ↦ 0 | x ∷ _ ↦ x ]

unfoldable pub skip_varint_loop : ℕ → Read (Unit {0})
unfolding first_byte
skip_varint_loop zero = Istream.return_error "end-of-stream"
skip_varint_loop (suc fuel) = pb_read 1 >>= λ bytes.
    let rest = skip_varint_loop fuel in
    if bit_and (first_byte bytes) 0x80 == 0 then pure tt else rest

-- Each round takes a byte, as in `decode_varint32_loop`.
unfoldable pub pb_skip_varint : Read (Unit {0})
unfolding skip_varint_loop
pb_skip_varint s = skip_varint_loop s.bytes_left s

-- The loop that fills `buffer`; a uint64_t has at most ten groups of seven bits.
unfoldable pub groups : ℕ → ℕ → List ℕ
groups zero value = []
groups (suc fuel) value =
    let rest = groups fuel (value >>> 7) in
    if value == 0 then [] else u8 (bit_or (bit_and value 0x7f) 0x80) ∷ rest

-- `buffer[i-1] &= 0x7F`
unfoldable pub unset_last_top_bit : List ℕ → List ℕ
unset_last_top_bit [] = []
unset_last_top_bit (b ∷ []) = bit_and b 0x7f ∷ []
unset_last_top_bit (b ∷ c ∷ rest) = b ∷ unset_last_top_bit (c ∷ rest)

-- The bytes that `pb_encode_varint` hands to `pb_write`.
unfoldable pub varint_bytes : ℕ → List ℕ
unfolding groups unset_last_top_bit
varint_bytes value = if leb value 0x7f then u8 value ∷ [] else unset_last_top_bit (groups 10 value)

unfoldable pub pb_encode_varint : ℕ → Write
unfolding varint_bytes
pb_encode_varint value = pb_write (varint_bytes value) (length (varint_bytes value))
