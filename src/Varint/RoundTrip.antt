-- ===== src/Varint/RoundTrip.antt =====
-- `pb_decode_varint` on what `pb_encode_varint` writes.
use pincushion.Prelude.{ℕ, zero, suc, ◌+◌, ◌*◌, ◌/◌, ◌%◌, ◌^◌, ◌<◌, ◌≡◌, ap, arith}
use pincushion.Prelude.{List, ◌∷◌, ◌++◌, length, Option, String}
use pincushion.Prelude.{low_seven, top_bit, bit_or-disjoint, ok}
use pincushion.Istream.Read.{over, pb_readbyte-cons}
use pincushion.Varint.{add_group, decode_varint_loop, pb_decode_varint, varint_bytes}
use pincushion.Varint.Encode.{base128, varint_bytes-base128}
use native.Mathlib.Nat.{div-add-mod}
use native.Mathlib.Numerals.{towards_suc, one-add}
use native.Mathlib.Decide.{dec_lt}
use native.Mathlib.Nat.{suc-add}

-- A group above the bits that are already there is added.
pub add_group_lem :
    (result byte bitpos : ℕ)
    → result < 2 ^ bitpos
    → byte % 128 * 2 ^ bitpos < 2 ^ 64
    → add_group result byte bitpos ≡ result + byte % 128 * 2 ^ bitpos
add_group_lem result byte bitpos low fits =
    ground (arith, low_seven byte, bit_or-disjoint bitpos result (byte % 128) low)

pub shift_seven : (s : ℕ) → 2 ^ (s + 7) ≡ 128 * 2 ^ s
shift_seven s = simp towards_suc (omega arith)

-- The last byte of a number, and a byte with the top bit set.
pub last_byte :
    (f b result bitpos : ℕ) (rest : List ℕ) (n : ℕ) (msg : Option String)
    → b < 128
    → bitpos < 64
    → result < 2 ^ bitpos
    → b * 2 ^ bitpos < 2 ^ 64
    → decode_varint_loop (suc f) bitpos result (over (b ∷ rest) (suc n) msg)
      ≡ ok (result + b * 2 ^ bitpos) (over rest n msg)
unfolding decode_varint_loop
last_byte f b result bitpos rest n msg hb hp low fits = ground (
  arith,
  pb_readbyte-cons b rest n msg,
  top_bit b (omega arith),
  add_group_lem result b bitpos low,
)

pub inner_byte :
    (f b result bitpos : ℕ) (rest : List ℕ) (n : ℕ) (msg : Option String)
    → b < 128
    → bitpos < 64
    → result < 2 ^ bitpos
    → b * 2 ^ bitpos < 2 ^ 64
    → decode_varint_loop (suc f) bitpos result (over ((b + 128) ∷ rest) (suc n) msg)
      ≡ decode_varint_loop f (bitpos + 7) (result + b * 2 ^ bitpos) (over rest n msg)
unfolding decode_varint_loop
inner_byte f b result bitpos rest n msg hb hp low fits = ground (
  arith,
  pb_readbyte-cons (b + 128) rest n msg,
  top_bit (b + 128) (omega arith),
  add_group_lem result (b + 128) bitpos low,
)

-- What a number amounts to at a bit: its lowest group there, and the others seven bits above.
pub groups_sum :
    (bitpos value : ℕ)
    → value % 128 * 2 ^ bitpos + value / 128 * 2 ^ (bitpos + 7) ≡ value * 2 ^ bitpos
groups_sum bitpos value =
    rw shift_seven (omega (arith, ap (λ (n : ℕ). n * 2 ^ bitpos) (div-add-mod value 128)))

-- `w` is what is still to be read, and counts from bit `bitpos` on.
decode-base128 :
    (k f w result bitpos : ℕ) (rest : List ℕ) (n : ℕ) (msg : Option String)
    → k < f
    → w < 128 ^ suc k
    → bitpos + 7 * k < 64
    → result < 2 ^ bitpos
    → w * 2 ^ bitpos < 2 ^ 64
    → decode_varint_loop f bitpos result (over (base128 k w ++ rest) (length (base128 k w) + n) msg)
      ≡ ok (result + w * 2 ^ bitpos) (over rest n msg)
unfolding base128
decode-base128 k zero w result bitpos rest n msg hf hw hp low fits = absurd (omega arith)
decode-base128 zero (suc f) w result bitpos rest n msg hf hw hp low fits =
    rw one-add (last_byte f w result bitpos rest n msg (omega arith) (omega arith) low fits)
decode-base128 (suc k) (suc f) w result bitpos rest n msg hf hw hp low fits = elim (dec_lt w 128) [
  | yes small ↦
      let last = last_byte f w result bitpos rest n msg small (omega arith) low fits in
      ground (arith, one-add n, last)
  | no large ↦
      let r = result + w % 128 * 2 ^ bitpos in
      let tail = base128 k (w / 128) in
      let split = groups_sum bitpos w in
      let next =
        inner_byte f (w % 128) result bitpos (tail ++ rest) (length tail + n) msg (omega arith)
          (omega arith) low (omega (arith, split)) in
      let others =
        decode-base128 k f (w / 128) r (bitpos + 7) rest n msg (omega arith) (omega arith)
          (omega arith) (grind (arith, shift_seven bitpos)) (omega (arith, split)) in
      ground (arith, next, others, split, suc-add (length tail) n)
]

-- From a buffer that starts with the bytes `pb_encode_varint` writes for a number below 2 ^ 64,
-- `pb_decode_varint` reads that number, and stops behind it.
pub pb_decode_varint-varint_bytes :
    (v : ℕ) (rest : List ℕ) (n : ℕ) (msg : Option String)
    → v < 2 ^ 64
    → pb_decode_varint (over (varint_bytes v ++ rest) (length (varint_bytes v) + n) msg)
      ≡ ok v (over rest n msg)
unfolding pb_decode_varint
pb_decode_varint-varint_bytes v rest n msg h =
    rw (varint_bytes-base128 v h) (ground (arith, decode-base128 9 11 v 0 0 rest n msg))
