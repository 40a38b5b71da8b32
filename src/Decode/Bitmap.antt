-- ===== src/Decode/Bitmap.antt =====
-- The words of the bitmap of required fields in `pb_decode_noinit` of nanopb/pb_decode.c.
use pincushion.Prelude.{ℕ, ◌+◌, ◌-◌, ◌^◌, ◌≤◌, ◌<◌, ◌≡◌, ◌≢◌, refl, arith, Bool, true, false}
use pincushion.Prelude.{◌||◌, List, [], ◌∷◌, All}
use pincushion.Prelude.{◌==◌, ==_iff, Bool-cases, inl, inr, ◌↔◌, bit_or}
use pincushion.Prelude.{◌>>>◌}
use pincushion.Prelude.{bit, bit-bit_or, bit-zero, bit-same, bit-other, bit_or-lt, all_ones}
use pincushion.Prelude.{bit-all_ones, bit_and-mask, every_below, every_below_sound}
use native.Mathlib.Decide.{dec_lt, ℕ_discrete}
use native.Mathlib.Nat.{pow-le-pow_right}
use pincushion.Decode.Message.{mark}

-- Whether an index is in a list.
unfoldable pub member : ℕ → List ℕ → Bool
member k [] = false
member k (j ∷ js) = (k == j) || member k js

-- The bitmap after required fields with these indices, the last one first.
unfoldable pub marks : List ℕ → List ℕ
marks [] = 0 ∷ 0 ∷ []
marks (j ∷ js) = mark (marks js) j

unfoldable pub one : Bool → ℕ
one true = 1
one false = 0

-- A word that has a bit for each of 32 indices from `base` on.
pub record Word (js : List ℕ) (base w : ℕ) : Type 0 where
  pub bounded : w < 2 ^ 32
  pub bits : (i : ℕ) → i < 32 → bit w i ≡ one (member (base + i) js)

pub record Bitmap (js : List ℕ) : Type 0 where
  pub low : ℕ
  pub high : ℕ
  pub words : marks js ≡ low ∷ high ∷ []
  pub first : Word js 0 low
  pub second : Word js 32 high

power-lt : (i : ℕ) → i < 32 → 2 ^ i < 2 ^ 32
power-lt i h =
    let le : 2 ^ i ≤ 2 ^ 31 =
      pow-le-pow_right {n = 2} (omega arith) {i = i} {j = 31} (omega arith) in
    omega arith

-- The word that gets a bit, and the other one.
set_bit :
    (js : List ℕ) (base w i : ℕ)
    → i < 32
    → Word js base w
    → Word ((base + i) ∷ js) base (bit_or w (2 ^ i))
unfolding member one
set_bit js base w i h word = record {
  bounded = bit_or-lt 32 w (2 ^ i) word.bounded (power-lt i h);
  bits = λ k hk. elim (ℕ_discrete k i) [
    | yes e ↦ ground (arith, bit-bit_or k w (2 ^ i), bit-same i, word.bits k hk)
    | no ne ↦ ground (arith, bit-bit_or k w (2 ^ i), bit-other i k ne, word.bits k hk)
  ];
}

keep_word :
    (js : List ℕ) (base w j : ℕ)
    → ((i : ℕ) → i < 32 → base + i ≢ j)
    → Word js base w
    → Word (j ∷ js) base w
unfolding member one
keep_word js base w j other word = record {
  bounded = word.bounded;
  bits = λ k hk. ground (arith, other k hk, word.bits k hk);
}

module _ (js : List ℕ) (j low high : ℕ) where
  mark-low : j < 32 → mark (low ∷ high ∷ []) j ≡ bit_or low (2 ^ j) ∷ high ∷ []
  unfolding mark
  mark-low h = ground (arith, bit_and-mask 5 j, power-lt j h)

  mark-high : 32 ≤ j → j < 64 → mark (low ∷ high ∷ []) j ≡ low ∷ bit_or high (2 ^ (j - 32)) ∷ []
  unfolding mark
  mark-high h k = ground (arith, bit_and-mask 5 j, power-lt (j - 32) (omega arith))

no_marks : (base : ℕ) → Word [] base 0
unfolding member one
no_marks base = record { bounded = omega arith; bits = λ i h. bit-zero i }

add_mark : (js : List ℕ) (j : ℕ) → j < 64 → Bitmap js → Dec (j < 32) → Bitmap (j ∷ js)
unfolding marks
add_mark js j h b (yes lt) =
    let place : 0 + j ≡ j = omega arith in
    let first = set_bit js 0 b.low j lt b.first in
    record {
      low = bit_or b.low (2 ^ j);
      high = b.high;
      words = rw b.words (mark-low js j b.low b.high lt);
      first = rw place at first;
      second = keep_word js 32 b.high j (λ i hi e. omega arith) b.second;
    }
add_mark js j h b (no ge) =
    let place : 32 + (j - 32) ≡ j = omega arith in
    let second = set_bit js 32 b.high (j - 32) (omega arith) b.second in
    record {
      low = b.low;
      high = bit_or b.high (2 ^ (j - 32));
      words = rw b.words (mark-high js j b.low b.high (omega arith) h);
      first = keep_word js 0 b.low j (λ i hi e. omega arith) b.first;
      second = rw place at second;
    }

pub bitmap : (js : List ℕ) → All (λ j. j < 64) js → Bitmap js
unfolding marks
bitmap [] h = record { low = 0; high = 0; words = refl; first = no_marks 0; second = no_marks 32 }
bitmap (j ∷ js) h = add_mark js j h.0 (bitmap js h.1) (dec_lt j 32)

-- A word is full up to `n` exactly if its first `n` indices are in the list, and no other index is.
pub full :
    (js : List ℕ) (base w n : ℕ)
    → n ≤ 32
    → ((i : ℕ) → n ≤ i → i < 32 → member (base + i) js ≡ false)
    → Word js base w
    → (w ≡ 2 ^ n - 1) ↔ ((i : ℕ) → i < n → member (base + i) js ≡ true)
unfolding one
full js base w n le none word = (
  λ e i h.
      let b = word.bits i (omega arith) in
      elim (Bool-cases (member (base + i) js)) [
        | inl yes_ ↦ yes_
        | inr no_ ↦ absurd (ground (arith, bit-all_ones n i h))
      ],
  λ all.
      all_ones 32 n w word.bounded le (λ i h. ground (arith, word.bits i (omega arith), all i h))
        (λ i h k. ground (arith, word.bits i k, none i h k)),
)

remaining_table : every_below 32 (λ r. (2 ^ 32 - 1) >>> (32 - r) == 2 ^ r - 1) ≡ true
unfolding every_below
remaining_table = refl

pub remaining : (r : ℕ) → r < 32 → (2 ^ 32 - 1) >>> (32 - r) ≡ 2 ^ r - 1
remaining r h =
    (==_iff _ _).0
      (every_below_sound 32 (λ r. (2 ^ 32 - 1) >>> (32 - r) == 2 ^ r - 1) remaining_table r h)
