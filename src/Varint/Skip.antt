-- ===== src/Varint/Skip.antt =====
-- `pb_skip_varint` on what `pb_encode_varint` writes.
use pincushion.Prelude.{ℕ, zero, suc, ◌+◌, ◌/◌, ◌%◌, ◌^◌, ◌≤◌, ◌<◌, ◌≡◌, arith}
use pincushion.Prelude.{List, [], ◌∷◌, ◌++◌, length, Option, String, top_bit, ok}
use pincushion.Istream.{pb_read}
use pincushion.Istream.Read.{over, pb_read-append}
use pincushion.Varint.{skip_varint_loop, pb_skip_varint, varint_bytes}
use pincushion.Varint.Encode.{base128, varint_bytes-base128, length-base128}
use native.Mathlib.Decide.{dec_lt}
use native.Mathlib.Numerals.{one-add}
use native.Mathlib.Nat.{suc-add}

module _ (f b : ℕ) (rest : List ℕ) (n : ℕ) (msg : Option String) where
  one_byte : pb_read 1 (over (b ∷ rest) (suc n) msg) ≡ ok (b ∷ []) (over rest n msg)
  one_byte = rw one-add at (pb_read-append (b ∷ []) rest n msg)

  last_byte :
      b < 128 → skip_varint_loop (suc f) (over (b ∷ rest) (suc n) msg) ≡ ok tt (over rest n msg)
  unfolding skip_varint_loop
  last_byte h = ground (arith, one_byte, top_bit b (omega arith))

  inner_byte :
      128 ≤ b
      → b < 256
      → skip_varint_loop (suc f) (over (b ∷ rest) (suc n) msg)
        ≡ skip_varint_loop f (over rest n msg)
  unfolding skip_varint_loop
  inner_byte lo hi = ground (arith, one_byte, top_bit b hi)

skip-base128 :
    (k f w : ℕ) (rest : List ℕ) (n : ℕ) (msg : Option String)
    → w < 128 ^ suc k
    → length (base128 k w) ≤ f
    → skip_varint_loop f (over (base128 k w ++ rest) (length (base128 k w) + n) msg)
      ≡ ok tt (over rest n msg)
unfolding base128
skip-base128 k zero w rest n msg hw hf = absurd (omega (arith, length-base128 k w))
skip-base128 zero (suc f) w rest n msg hw hf = rw one-add (last_byte f w rest n msg (omega arith))
skip-base128 (suc k) (suc f) w rest n msg hw hf = elim (dec_lt w 128) [
  | yes small ↦ ground (arith, one-add n, last_byte f w rest n msg small)
  | no large ↦
      let tail = base128 k (w / 128) in
      ground (
        arith,
        suc-add (length tail) n,
        inner_byte f (w % 128 + 128) (tail ++ rest) (length tail + n) msg (omega arith)
            (omega arith),
        skip-base128 k f (w / 128) rest n msg (omega arith) (ground arith),
      )
]

-- In a buffer that starts with the bytes `pb_encode_varint` writes for a number below 2 ^ 64,
-- `pb_skip_varint` stops behind them.
pub pb_skip_varint-varint_bytes :
    (v : ℕ) (rest : List ℕ) (n : ℕ) (msg : Option String)
    → v < 2 ^ 64
    → pb_skip_varint (over (varint_bytes v ++ rest) (length (varint_bytes v) + n) msg)
      ≡ ok tt (over rest n msg)
unfolding pb_skip_varint
pb_skip_varint-varint_bytes v rest n msg h =
    rw (varint_bytes-base128 v h)
      (skip-base128 9 (length (base128 9 v) + n) v rest n msg (omega arith) (omega arith))
