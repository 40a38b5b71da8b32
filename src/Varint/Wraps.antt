-- ===== src/Varint/Wraps.antt =====
-- Numbers with more groups than fit: `pb_decode_varint32`, whose `bitpos` of eight bits wraps, and `pb_decode_varint`.
use pincushion.Prelude.{ℕ, zero, suc, ◌+◌, ◌*◌, ◌<◌, ◌≡◌, refl, ◌∙◌, arith, List, ◌∷◌, ◌++◌, u8}
use pincushion.Prelude.{replicate, Option, String, All, ok, fail, low_seven, top_bit}
use pincushion.Prelude.{bit_or-disjoint}
use pincushion.Istream.Read.{over, pb_readbyte-cons}
use pincushion.Varint.{pb_decode_varint, decode_varint32_loop, decode_varint32_rest}
use pincushion.Varint.{pb_decode_varint32}
use pincushion.Istream.{first_message}
use pincushion.Varint.Accept.{Continues, pb_decode_varint-Continues}
use pincushion.Varint.{pb_decode_varint32_eof, overflows32, finish_varint32}
use native.Mathlib.Nat.{zero-add, suc-add}

-- `bitpos` after a number of rounds.
bitpos_after : ℕ → ℕ → ℕ
bitpos_after zero bitpos = bitpos
bitpos_after (suc k) bitpos = bitpos_after k (u8 (bitpos + 7))

-- A group of zeros in front of others.
zero_group :
    (fuel bitpos : ℕ) (rest : List ℕ) (n : ℕ) (msg : Option String)
    → decode_varint32_loop (suc fuel) bitpos 0 (over (128 ∷ rest) (suc n) msg)
      ≡ decode_varint32_loop fuel (u8 (bitpos + 7)) 0 (over rest n msg)
unfolding decode_varint32_loop overflows32
zero_group fuel bitpos rest n msg = ground (arith, pb_readbyte-cons 128 rest n msg)

zero_groups :
    (k fuel bitpos : ℕ) (rest : List ℕ) (n : ℕ) (msg : Option String)
    → decode_varint32_loop (k + fuel) bitpos 0 (over (replicate k 128 ++ rest) (k + n) msg)
      ≡ decode_varint32_loop fuel (bitpos_after k bitpos) 0 (over rest n msg)
unfolding bitpos_after
zero_groups zero fuel bitpos rest n msg = rw (zero-add fuel, zero-add n) refl
zero_groups (suc k) fuel bitpos rest n msg =
    rw (suc-add k fuel, suc-add k n)
      (zero_group (k + fuel) bitpos (replicate k 128 ++ rest) (k + n) msg
        ∙ zero_groups k fuel (u8 (bitpos + 7)) rest n msg)

last_group :
    (b : ℕ) (rest : List ℕ) (n : ℕ) (msg : Option String)
    → b < 128
    → decode_varint32_loop (suc n) 3 0 (over (b ∷ rest) (suc n) msg) ≡ ok (b * 8) (over rest n msg)
unfolding decode_varint32_loop finish_varint32
last_group b rest n msg h = ground (
  arith,
  pb_readbyte-cons b rest n msg,
  low_seven b,
  top_bit b (omega arith),
  bit_or-disjoint 3 0 b (omega arith),
)

opens :
    (behind : List ℕ) (k : ℕ) (msg : Option String)
    → pb_decode_varint32 (over (128 ∷ behind) (suc k) msg)
      ≡ decode_varint32_loop k 7 0 (over behind k msg)
unfolding pb_decode_varint32 pb_decode_varint32_eof decode_varint32_rest
opens behind k msg = ground (arith, pb_readbyte-cons 128 behind k msg)

-- After 37 bytes 0x80, `pb_decode_varint32` accepts any last byte from a buffer and returns eight times that byte, since
-- its `bitpos` has wrapped to 3; `pb_decode_varint` refuses the same bytes with "varint overflow", unless there
-- is an earlier message, which stays.
pub pb_decode_varint32-pb_decode_varint :
    (b : ℕ) (rest : List ℕ) (n : ℕ) (msg : Option String)
    → b < 128
    → let bytes = replicate 37 128 ++ (b ∷ rest) in
      let left = replicate 27 128 ++ (b ∷ rest) in
      (pb_decode_varint32 (over bytes (38 + n) msg) ≡ ok (b * 8) (over rest n msg))
      × (pb_decode_varint (over bytes (38 + n) msg)
          ≡ fail (over left (28 + n) (first_message msg "varint overflow")))
unfolding bitpos_after
pb_decode_varint32-pb_decode_varint b rest n msg h =
    let behind = replicate 36 128 ++ (b ∷ rest) in
    let left = replicate 27 128 ++ (b ∷ rest) in
    let first : 38 + n ≡ suc (36 + suc n) = omega arith in
    let ten : 38 + n ≡ 10 + (28 + n) = omega arith in
    let each : All Continues (replicate 10 128) = omega arith in
    (
      rw first (
          opens behind (36 + suc n) msg
          ∙ zero_groups 36 (suc n) 7 (b ∷ rest) (suc n) msg
          ∙ last_group b rest n msg h),
      rw ten ((pb_decode_varint-Continues (replicate 10 128) left (28 + n) msg each).0 refl),
    )
