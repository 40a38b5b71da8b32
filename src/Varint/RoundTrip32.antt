-- ===== src/Varint/RoundTrip32.antt =====
-- `pb_decode_varint32` on what `pb_encode_varint` writes for a uint32_t.
use pincushion.Prelude.{ℕ, zero, suc, ◌+◌, ◌*◌, ◌/◌, ◌%◌, ◌^◌, ◌≤◌, ◌<◌, ◌≡◌, arith}
use pincushion.Prelude.{List, ◌∷◌, ◌++◌, length, Option, String}
use pincushion.Prelude.{low_seven, top_bit, bit_or-disjoint, bit_and-0x70, ok}
use pincushion.Istream.Read.{over, pb_readbyte-cons}
use pincushion.Varint.{add_group32, decode_varint32_loop, pb_decode_varint32, varint_bytes}
use pincushion.Varint.Encode.{base128, length-base128, base128-room, varint_bytes-base128}
use pincushion.Varint.RoundTrip.{groups_sum, shift_seven}
use native.Mathlib.Numerals.{one-add}
use native.Mathlib.Decide.{dec_lt}
use native.Mathlib.Nat.{suc-add}

add_group32_lem :
    (result byte bitpos : ℕ)
    → result < 2 ^ bitpos
    → byte % 128 * 2 ^ bitpos < 2 ^ 32
    → add_group32 result byte bitpos ≡ result + byte % 128 * 2 ^ bitpos
add_group32_lem result byte bitpos low fits =
    ground (arith, low_seven byte, bit_or-disjoint bitpos result (byte % 128) low)

module _ (f b result bitpos : ℕ) (rest : List ℕ) (n : ℕ) (msg : Option String) (hb : b < 128)
    (hp : bitpos < 32) (low : result < 2 ^ bitpos) (fits : b * 2 ^ bitpos < 2 ^ 32) where
  last_byte :
      decode_varint32_loop (suc f) bitpos result (over (b ∷ rest) (suc n) msg)
      ≡ ok (result + b * 2 ^ bitpos) (over rest n msg)
  unfolding decode_varint32_loop
  last_byte = ground (
    arith,
    pb_readbyte-cons b rest n msg,
    top_bit b (omega arith),
    add_group32_lem result b bitpos low,
    bit_and-0x70 b,
  )

  inner_byte :
      decode_varint32_loop (suc f) bitpos result (over ((b + 128) ∷ rest) (suc n) msg)
      ≡ decode_varint32_loop f (bitpos + 7) (result + b * 2 ^ bitpos) (over rest n msg)
  unfolding decode_varint32_loop
  inner_byte = ground (
    arith,
    pb_readbyte-cons (b + 128) rest n msg,
    top_bit (b + 128) (omega arith),
    add_group32_lem result (b + 128) bitpos low,
  )

-- `w` is what is still to be read, and counts from bit `bitpos` on.
loop-base128 :
    (k f w result bitpos : ℕ) (rest : List ℕ) (n : ℕ) (msg : Option String)
    → length (base128 k w) ≤ f
    → w < 128 ^ suc k
    → bitpos + 7 * k < 32
    → result < 2 ^ bitpos
    → w * 2 ^ bitpos < 2 ^ 32
    → decode_varint32_loop f bitpos result
        (over (base128 k w ++ rest) (length (base128 k w) + n) msg)
      ≡ ok (result + w * 2 ^ bitpos) (over rest n msg)
unfolding base128
loop-base128 k zero w result bitpos rest n msg hf hw hp low fits =
    absurd (omega (arith, length-base128 k w))
loop-base128 zero (suc f) w result bitpos rest n msg hf hw hp low fits =
    rw one-add (last_byte f w result bitpos rest n msg (omega arith) (omega arith) low fits)
loop-base128 (suc k) (suc f) w result bitpos rest n msg hf hw hp low fits = elim (dec_lt w 128) [
  | yes small ↦
      let last = last_byte f w result bitpos rest n msg small (omega arith) low fits in
      ground (arith, one-add n, last)
  | no large ↦
      let r = result + w % 128 * 2 ^ bitpos in
      let tail = base128 k (w / 128) in
      let split = groups_sum bitpos w in
      let next =
        inner_byte f (w % 128) result bitpos (tail ++ rest) (length tail + n) msg (omega arith)
          (omega arith) low (omega (arith, split)) in
      let others =
        loop-base128 k f (w / 128) r (bitpos + 7) rest n msg (ground arith) (omega arith)
          (omega arith) (grind (arith, shift_seven bitpos)) (omega (arith, split)) in
      ground (arith, next, others, split, suc-add (length tail) n)
]

start :
    (v : ℕ) (rest : List ℕ) (n : ℕ) (msg : Option String)
    → v < 2 ^ 32
    → pb_decode_varint32 (over (base128 4 v ++ rest) (length (base128 4 v) + n) msg)
      ≡ ok v (over rest n msg)
unfolding base128 pb_decode_varint32
start v rest n msg h = elim (dec_lt v 128) [
  | yes small ↦ ground (arith, one-add n, pb_readbyte-cons v rest n msg, top_bit v (omega arith))
  | no large ↦
      let tail = base128 3 (v / 128) in
      let first = v % 128 + 128 in
      let others =
        loop-base128 3 (length tail + n) (v / 128) (v % 128) 7 rest n msg (omega arith)
          (omega arith) (omega arith) (omega arith) (omega arith) in
      ground (
        arith,
        pb_readbyte-cons first (tail ++ rest) (length tail + n) msg,
        top_bit first (omega arith),
        low_seven first,
        others,
        suc-add (length tail) n,
      )
]

-- From a buffer that starts with the bytes `pb_encode_varint` writes for a number below 2 ^ 32,
-- `pb_decode_varint32` reads that number, and stops behind it.
pub pb_decode_varint32-varint_bytes :
    (v : ℕ) (rest : List ℕ) (n : ℕ) (msg : Option String)
    → v < 2 ^ 32
    → pb_decode_varint32 (over (varint_bytes v ++ rest) (length (varint_bytes v) + n) msg)
      ≡ ok v (over rest n msg)
pb_decode_varint32-varint_bytes v rest n msg h =
    rw (varint_bytes-base128 v (omega arith), base128-room 9 4 v (omega arith) (omega arith))
      (start v rest n msg h)
