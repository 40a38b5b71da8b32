-- ===== src/Base64/Sextets.antt =====
-- Three bytes, the four groups of six bits that they are cut into, and the bytes put together again.
use pincushion.Prelude.{ℕ, ◌+◌, ◌*◌, ◌/◌, ◌%◌, ◌<◌, ◌≡◌, arith, IsByte, u8, ◌<<<◌, ◌>>>◌}
use pincushion.Prelude.{bit_and, bit_or, bit_and-mask, bit_or-disjoint, bit_or_comm}
use pincushion.Base64.{output0, output1, output2, output3}

module _ (a b c : ℕ) (ha : IsByte a) (hb : IsByte b) (hc : IsByte c) where
  pub outputs-lt : (output0 a < 64) × (output1 a b < 64) × (output2 b c < 64) × (output3 c < 64)
  outputs-lt = ground (arith, bit_and-mask 2 a, bit_and-mask 4 b, bit_and-mask 6 c)

  pub one : output1 a b ≡ a % 4 * 16 + b / 16
  one = ground (arith, bit_and-mask 2 a)

  pub two : output2 b c ≡ b % 16 * 4 + c / 64
  two = ground (arith, bit_and-mask 4 b)

  pub three : output3 c ≡ c % 64
  three = ground (arith, bit_and-mask 6 c)

  pub first_byte : u8 (bit_or (u8 (output0 a <<< 2)) (output1 a b >>> 4)) ≡ a
  first_byte =
      ground (arith, one, bit_or_comm (a / 4 * 4) (a % 4), bit_or-disjoint 2 (a % 4) (a / 4))

  pub second_byte : u8 (bit_or (u8 (bit_and (output1 a b) 0x0f <<< 4)) (output2 b c >>> 2)) ≡ b
  second_byte = ground (
    arith,
    one,
    two,
    bit_and-mask 4 (output1 a b),
    bit_or_comm (b / 16 * 16) (b % 16),
    bit_or-disjoint 4 (b % 16) (b / 16),
  )

  pub third_byte : u8 (bit_or (u8 (bit_and (output2 b c) 0x03 <<< 6)) (output3 c)) ≡ c
  third_byte = ground (
    arith,
    two,
    bit_and-mask 2 (output2 b c),
    bit_and-mask 6 c,
    bit_or_comm (c / 64 * 64) (c % 64),
    bit_or-disjoint 6 (c % 64) (c / 64),
  )

-- The bits that a shorter last group leaves over are zeros.
pub rest_of_one : (a : ℕ) → u8 (bit_and (output1 a 0) 0x0f <<< 4) ≡ 0
rest_of_one a = ground (arith, bit_and-mask 2 a, bit_and-mask 4 (output1 a 0))

pub rest_of_two : (b : ℕ) → u8 (bit_and (output2 b 0) 0x03 <<< 6) ≡ 0
rest_of_two b = ground (arith, bit_and-mask 4 b, bit_and-mask 2 (output2 b 0))
