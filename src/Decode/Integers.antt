-- ===== src/Decode/Integers.antt =====
-- The decoders of integer fields, on what the encoders of pb_encode.c write for such fields.
use pincushion.Prelude.{ℕ, ◌+◌, ◌*◌, ◌/◌, ◌%◌, ◌^◌, ◌-◌, ◌≤◌, ◌<◌, ◌≡◌, refl, arith}
use pincushion.Prelude.{List, ◌++◌, length, Option, String, ok, Bool-cases, ==_iff, inl, inr}
use mathlib.Core.Logic.{◌↔◌}
use native.Mathlib.Decide.{dec_lt}
use pincushion.Prelude.{true, false, ◌==◌, ◌>>=◌}
use pincushion.Memory.{Memory, store}
use pincushion.Istream.Read.{over}
use pincushion.Varint.{varint_bytes}
use pincushion.Varint.RoundTrip.{pb_decode_varint-varint_bytes}
use pincushion.Field.{Field}
use native.Mathlib.Nat.{mod-lt, mod-eq_of_lt, le-div_iff_mul-le, mul-le-mul}
use pincushion.Decode.{State, Heap, too_large, store_integer, store_by_data_size}
use pincushion.Decode.{clamp_unsigned, pb_dec_uvarint, return_error}

-- For an `array_size` that is not 0, the test of `allocate_field` in front of the multiplication
-- is exact: it refuses the sizes whose product does not fit a size_t, and no others.
pub too_large_lem :
    (data_size array_size : ℕ)
    → 0 < array_size
    → (too_large data_size array_size ≡ true → 2 ^ 64 ≤ array_size * data_size)
      × (too_large data_size array_size ≡ false → array_size * data_size < 2 ^ 64)
unfolding too_large
too_large_lem data_size array_size pos =
    let most : (data_size ≤ (2 ^ 64 - 1) / array_size) ↔ (data_size * array_size ≤ 2 ^ 64 - 1) =
      le-div_iff_mul-le {k = array_size} {x = data_size} {y = 2 ^ 64 - 1} pos in
    let half : (data_size ≤ 2 ^ 32 - 1
        → array_size ≤ 2 ^ 32 - 1
        → data_size * array_size ≤ (2 ^ 32 - 1) * (2 ^ 32 - 1)) =
      λ a b. mul-le-mul a b in
    let quotient = (2 ^ 64 - 1) / array_size in
    (
      λ e.
          let less : quotient < data_size = ground arith in
          elim (dec_lt (2 ^ 64 - 1) (data_size * array_size)) [
            | yes p ↦ omega arith
            | no p ↦ let le = most.1 (omega arith) in absurd (omega (arith, le))
          ],
      λ e. elim (dec_lt quotient data_size) [
        | no p ↦ let le = most.0 (omega arith) in omega (arith, le)
        | yes p ↦
            let small : (data_size < 2 ^ 32) × (array_size < 2 ^ 32) = ground arith in
            let le = half (omega (arith, small.0)) (omega (arith, small.1)) in omega (arith, le)
      ],
    )

-- A state on given bytes.
abbrev pub on : List ℕ → ℕ → Option String → Memory → Heap → State
on bytes n msg m h = record { stream = over bytes n msg; memory = m; heap = h }

-- The sizes of C integers.
pub data IsWidth : ℕ → Type 0 where
  one : IsWidth 1
  two : IsWidth 2
  four : IsWidth 4
  eight : IsWidth 8

pub by_width :
    (clamp : ℕ → ℕ → ℕ) (dest value : ℕ) {size : ℕ}
    → IsWidth size
    → store_by_data_size clamp dest value size ≡ store_integer clamp dest value size
unfolding store_by_data_size
by_width clamp dest value one = refl
by_width clamp dest value two = refl
by_width clamp dest value four = refl
by_width clamp dest value eight = refl

pub width-pos : {size : ℕ} → IsWidth size → 0 < 256 ^ size
width-pos one = omega arith
width-pos two = omega arith
width-pos four = omega arith
width-pos eight = omega arith

-- A store of a value that the integer holds, and of one that it does not.
module _ (clamp : ℕ → ℕ → ℕ) (dest value size : ℕ) (s : State) where
  abbrev after : State
  after = record s { memory = store s.memory dest size value }

  pub stored : clamp size value ≡ value → store_integer clamp dest value size s ≡ ok tt after
  unfolding store_integer
  stored e = ground (arith, e)

  refused :
      (clamp size value ≡ value → ⊥)
      → store_integer clamp dest value size s ≡ return_error "integer too large" after
  unfolding store_integer
  refused e = elim (Bool-cases (clamp size value == value)) [
    | inl y ↦ absurd (e ((==_iff (clamp size value) value).0 y))
    | inr n ↦ rw n
  ]

exceeds : (v k : ℕ) → 0 < k → k ≤ v → v % k ≡ v → ⊥
exceeds v k pos le e = let lt = mod-lt v pos in omega (arith, lt, e)

module _ (field : Field) (dest : ℕ) (rest : List ℕ) (n : ℕ) (msg : Option String) (m : Memory)
    (h : Heap) where
  -- `pb_dec_uvarint` on a buffer that starts with what `pb_encode_varint` writes for a number
  -- below 2 ^ 64: the number is stored in as many bytes as the field has, which are 1, 2, 4 or
  -- 8; the call succeeds if it fits them, and fails with "integer too large" if not. The stream
  -- is behind the number.
  pub pb_dec_uvarint-varint_bytes :
      (v : ℕ)
      → IsWidth field.data_size
      → v < 2 ^ 64
      → let size = field.data_size in
        let s = on (varint_bytes v ++ rest) (length (varint_bytes v) + n) msg m h in
        let t = on rest n msg (store m dest size v) h in
        (v < 256 ^ size → pb_dec_uvarint field dest s ≡ ok tt t)
        × (256 ^ size ≤ v → pb_dec_uvarint field dest s ≡ return_error "integer too large" t)
  unfolding pb_dec_uvarint clamp_unsigned
  pb_dec_uvarint-varint_bytes v width hv =
      let read = pb_decode_varint-varint_bytes v rest n msg hv in
      let size = field.data_size in
      let s = on rest n msg m h in
      (
        λ fits.
            rw (read, ◌>>=◌, by_width clamp_unsigned dest v width)
              (stored clamp_unsigned dest v size s (mod-eq_of_lt fits)),
        λ over.
            rw (read, ◌>>=◌, by_width clamp_unsigned dest v width)
              (refused clamp_unsigned dest v size s
                (exceeds v (256 ^ size) (width-pos width) over)),
      )
