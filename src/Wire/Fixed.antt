-- ===== src/Wire/Fixed.antt =====
-- `pb_encode_fixed32`, `pb_encode_fixed64` and their decoders: little-endian words.
use pincushion.Prelude.{ℕ, ◌+◌, ◌*◌, ◌/◌, ◌^◌, ◌%◌, ◌<◌, ◌≤◌, ◌≡◌, refl, arith, List, ◌++◌}
use pincushion.Prelude.{length, u8, Option, String, ok, bit_and, bit_or, bit_and-mask}
use pincushion.Prelude.{bit_or-disjoint}
use pincushion.Istream.Read.{over, pb_read-append}
use native.Mathlib.Nat.{mod-lt, mod-eq_of_lt}
use pincushion.Wire.{byte_of, fixed32_bytes, fixed64_bytes, join32, join64}
use pincushion.Wire.{pb_decode_fixed32, pb_decode_fixed64}

low_byte : (a : ℕ) → bit_and a 0xff ≡ a % 256
low_byte a = bit_and-mask 8 a

-- Eight more bits joined to `k` lower ones; `m` is the modulus of the width.
join_byte :
    (k m low x : ℕ)
    → low < 2 ^ k
    → x % 256 * 2 ^ k < m
    → bit_or low (u8 (bit_and x 0xff) * 2 ^ k % m) ≡ low + x % 256 * 2 ^ k
join_byte k m low x lt fits =
    rw (low_byte x, mod-eq_of_lt (mod-lt x {m = 256} (omega arith)), mod-eq_of_lt fits)
      (bit_or-disjoint k low (x % 256) lt)

-- The bytes of `v` joined one by one.
module _ (v : ℕ) where
  from_0 : (m : ℕ) → 2 ^ 8 ≤ m → u8 (bit_and v 0xff) * 2 ^ 0 % m ≡ v % 2 ^ 8
  from_0 m h =
      rw (low_byte v, mod-eq_of_lt (mod-lt v {m = 256} (omega arith)))
        (let small : v % 256 * 2 ^ 0 < m = omega arith in rw (mod-eq_of_lt small) (omega arith))

  from_8 : (m : ℕ) → 2 ^ 16 ≤ m → bit_or (v % 2 ^ 8) (byte_of v 8 * 2 ^ 8 % m) ≡ v % 2 ^ 16
  from_8 m h = omega (arith, join_byte 8 m (v % 2 ^ 8) (v / 2 ^ 8) (omega arith) (omega arith))

  from_16 : (m : ℕ) → 2 ^ 24 ≤ m → bit_or (v % 2 ^ 16) (byte_of v 16 * 2 ^ 16 % m) ≡ v % 2 ^ 24
  from_16 m h = omega (arith, join_byte 16 m (v % 2 ^ 16) (v / 2 ^ 16) (omega arith) (omega arith))

  from_24 : (m : ℕ) → 2 ^ 32 ≤ m → bit_or (v % 2 ^ 24) (byte_of v 24 * 2 ^ 24 % m) ≡ v % 2 ^ 32
  from_24 m h = omega (arith, join_byte 24 m (v % 2 ^ 24) (v / 2 ^ 24) (omega arith) (omega arith))

  from_32 : (m : ℕ) → 2 ^ 40 ≤ m → bit_or (v % 2 ^ 32) (byte_of v 32 * 2 ^ 32 % m) ≡ v % 2 ^ 40
  from_32 m h = omega (arith, join_byte 32 m (v % 2 ^ 32) (v / 2 ^ 32) (omega arith) (omega arith))

  from_40 : (m : ℕ) → 2 ^ 48 ≤ m → bit_or (v % 2 ^ 40) (byte_of v 40 * 2 ^ 40 % m) ≡ v % 2 ^ 48
  from_40 m h = omega (arith, join_byte 40 m (v % 2 ^ 40) (v / 2 ^ 40) (omega arith) (omega arith))

  from_48 : (m : ℕ) → 2 ^ 56 ≤ m → bit_or (v % 2 ^ 48) (byte_of v 48 * 2 ^ 48 % m) ≡ v % 2 ^ 56
  from_48 m h = omega (arith, join_byte 48 m (v % 2 ^ 48) (v / 2 ^ 48) (omega arith) (omega arith))

  from_56 : (m : ℕ) → 2 ^ 64 ≤ m → bit_or (v % 2 ^ 56) (byte_of v 56 * 2 ^ 56 % m) ≡ v % 2 ^ 64
  from_56 m h = omega (arith, join_byte 56 m (v % 2 ^ 56) (v / 2 ^ 56) (omega arith) (omega arith))

pub join32-fixed32_bytes : (v : ℕ) → v < 2 ^ 32 → join32 (fixed32_bytes v) ≡ v
unfolding join32 fixed32_bytes
join32-fixed32_bytes v h =
    let m = 2 ^ 32 in
    rw
      (
        from_0 v m (omega arith),
        from_8 v m (omega arith),
        from_16 v m (omega arith),
        from_24 v m (omega arith),
      )
      (omega arith)

pub join64-fixed64_bytes : (v : ℕ) → v < 2 ^ 64 → join64 (fixed64_bytes v) ≡ v
unfolding join64 fixed64_bytes
join64-fixed64_bytes v h =
    let m = 2 ^ 64 in
    rw
      (
        from_0 v m (omega arith),
        from_8 v m (omega arith),
        from_16 v m (omega arith),
        from_24 v m (omega arith),
        from_32 v m (omega arith),
        from_40 v m (omega arith),
        from_48 v m (omega arith),
        from_56 v m (omega arith),
      )
      (omega arith)

pub length-fixed32_bytes : (v : ℕ) → length (fixed32_bytes v) ≡ 4
unfolding fixed32_bytes
length-fixed32_bytes v = refl

pub length-fixed64_bytes : (v : ℕ) → length (fixed64_bytes v) ≡ 8
unfolding fixed64_bytes
length-fixed64_bytes v = refl

-- From a buffer that starts with the bytes `pb_encode_fixed32` writes for a uint32_t,
-- `pb_decode_fixed32` reads it, and stops behind it.
pub pb_decode_fixed32-fixed32_bytes :
    (v : ℕ) (rest : List ℕ) (n : ℕ) (msg : Option String)
    → v < 2 ^ 32
    → pb_decode_fixed32 (over (fixed32_bytes v ++ rest) (4 + n) msg) ≡ ok v (over rest n msg)
unfolding pb_decode_fixed32
pb_decode_fixed32-fixed32_bytes v rest n msg h = ground (
  arith,
  pb_read-append (fixed32_bytes v) rest n msg,
  length-fixed32_bytes v,
  join32-fixed32_bytes v h,
)

-- From a buffer that starts with the bytes `pb_encode_fixed64` writes for a uint64_t,
-- `pb_decode_fixed64` reads it, and stops behind it.
pub pb_decode_fixed64-fixed64_bytes :
    (v : ℕ) (rest : List ℕ) (n : ℕ) (msg : Option String)
    → v < 2 ^ 64
    → pb_decode_fixed64 (over (fixed64_bytes v ++ rest) (8 + n) msg) ≡ ok v (over rest n msg)
unfolding pb_decode_fixed64
pb_decode_fixed64-fixed64_bytes v rest n msg h = ground (
  arith,
  pb_read-append (fixed64_bytes v) rest n msg,
  length-fixed64_bytes v,
  join64-fixed64_bytes v h,
)
