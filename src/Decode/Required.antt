-- ===== src/Decode/Required.antt =====
-- The test of the bitmap of required fields at the end of `pb_decode_noinit` of nanopb/pb_decode.c.
use pincushion.Prelude.{ℕ, ◌+◌, ◌-◌, ◌^◌, ◌≤◌, ◌<◌, ◌≡◌, refl, arith, Bool, true, false}
use pincushion.Prelude.{◌&&◌, List, [], ◌∷◌, All, min}
use pincushion.Prelude.{◌==◌, ==_iff, if◌then◌else◌, Bool-cases, inl, inr, ◌↔◌, bit_and}
use pincushion.Prelude.{◌>>>◌}
use pincushion.Prelude.{bit-all_ones, bit_and-mask}
use native.Mathlib.Decide.{dec_lt}
use pincushion.Decode.Entry.{all_seen, whole_words}
use pincushion.Decode.Bitmap.{member, marks, one, bitmap, full, remaining}

after_one : (a rest : Bool) → ((if a then true else false) && rest) ≡ (a && rest)
after_one true rest = refl
after_one false rest = refl

after_two : (a b : Bool) → ((if a then (if b then true else false) else false) && true) ≡ (a && b)
after_two true true = refl
after_two true false = refl
after_two false b = refl

and_iff : (a b : Bool) → ((a && b) ≡ true) ↔ ((a ≡ true) × (b ≡ true))
and_iff true b = (λ e. (refl, e), λ e. e.1)
and_iff false b = (λ e. (e, absurd (ground arith)), λ e. e.0)

-- The test of the remaining bits of a word.
last_word :
    (w n : ℕ)
    → (n ≡ 0 → w ≡ 0)
    → ((if n == 0 then true else w == 2 ^ n - 1) ≡ true) ↔ (w ≡ 2 ^ n - 1)
last_word w n none = elim (Bool-cases (n == 0)) [
  | inl e ↦ let zero_ = (==_iff n 0).0 e in rw (e, zero_) (λ _. none zero_, λ _. refl)
  | inr e ↦ rw e (==_iff _ _)
]

module _ (low high count : ℕ) where
  abbrev words : List ℕ
  words = low ∷ high ∷ []

  seen-none :
      count < 32 → all_seen words count ≡ (if count == 0 then true else low == 2 ^ count - 1)
  unfolding all_seen whole_words
  seen-none h =
      let q : count >>> 5 ≡ 0 = omega arith in
      let r : bit_and count 31 ≡ count = omega (arith, bit_and-mask 5 count) in
      rw (q, r, remaining count h) refl

  seen-one :
      32 ≤ count
      → count < 64
      → all_seen words count
        ≡ ((low == 2 ^ 32 - 1) && (if count - 32 == 0 then true else high == 2 ^ (count - 32) - 1))
  unfolding all_seen whole_words
  seen-one h k =
      let q : count >>> 5 ≡ 1 = omega arith in
      let r : bit_and count 31 ≡ count - 32 = omega (arith, bit_and-mask 5 count) in
      rw (q, r, remaining (count - 32) (omega arith))
        (after_one (low == 2 ^ 32 - 1)
          (if count - 32 == 0 then true else high == 2 ^ (count - 32) - 1))

  seen-two : count ≡ 64 → all_seen words count ≡ ((low == 2 ^ 32 - 1) && (high == 2 ^ 32 - 1))
  unfolding all_seen whole_words
  seen-two h = rw h (after_two (low == 2 ^ 32 - 1) (high == 2 ^ 32 - 1))

  small :
      high ≡ 0
      → (count ≡ 0 → low ≡ 0)
      → ((if count == 0 then true else low == 2 ^ count - 1) ≡ true)
        ↔ ((low ≡ 2 ^ count - 1) × (high ≡ 2 ^ 0 - 1))
  small no_high no_low =
      let word = last_word low count no_low in (λ t. (word.0 t, no_high), λ t. word.1 t.0)

  middle :
      (count - 32 ≡ 0 → high ≡ 0)
      → (((low == 2 ^ 32 - 1) && (if count - 32 == 0 then true else high == 2 ^ (count - 32) - 1))
          ≡ true)
        ↔ ((low ≡ 2 ^ 32 - 1) × (high ≡ 2 ^ (count - 32) - 1))
  middle no_high =
      let both =
        and_iff (low == 2 ^ 32 - 1)
          (if count - 32 == 0 then true else high == 2 ^ (count - 32) - 1) in
      let word = last_word high (count - 32) no_high in
      (
        λ t. ((==_iff _ _).0 (both.0 t).0, word.0 (both.0 t).1),
        λ t. both.1 ((==_iff _ _).1 t.0, word.1 t.1),
      )

  large :
      (((low == 2 ^ 32 - 1) && (high == 2 ^ 32 - 1)) ≡ true)
      ↔ ((low ≡ 2 ^ 32 - 1) × (high ≡ 2 ^ (64 - 32) - 1))
  large = (λ t. ground arith, λ t. ground arith)

  -- The test of the bitmap, with a word past the count that has no bit.
  seen-words :
      count ≤ 64
      → (count ≤ 32 → high ≡ 0)
      → (count ≡ 0 → low ≡ 0)
      → (all_seen words count ≡ true)
        ↔ ((low ≡ 2 ^ min count 32 - 1) × (high ≡ 2 ^ (count - 32) - 1))
  seen-words le no_high no_low = elim (dec_lt count 32) [
    | yes lt ↦
        let m : min count 32 ≡ count = omega arith in
        let z : count - 32 ≡ 0 = omega arith in
        rw (seen-none lt, m, z) (small (no_high (omega arith)) no_low)
    | no ge ↦ elim (dec_lt count 64) [
      | yes lt ↦
          let m : min count 32 ≡ 32 = omega arith in
          rw (seen-one (omega arith) lt, m) (middle (λ e. no_high (omega arith)))
      | no ge' ↦ let m : count ≡ 64 = omega arith in rw (seen-two m, m) large
    ]
  ]

by_bit : (b : Bool) {n : ℕ} → n ≡ one b → n ≡ 1 → b ≡ true
unfolding one
by_bit true e h = refl
by_bit false e h = absurd (omega arith)

module _ (low high count : ℕ) where
  -- The words that pass the test.
  low_full :
      0 < count → count ≤ 64 → all_seen (low ∷ high ∷ []) count ≡ true → low ≡ 2 ^ min count 32 - 1
  low_full pos le e = elim (dec_lt count 32) [
    | yes lt ↦
        let m : min count 32 ≡ count = omega arith in
        let t = (seen-none low high count lt) in
        rw m ((last_word low count (λ z. absurd (omega arith))).0 (rw t at e))
    | no ge ↦
        let m : min count 32 ≡ 32 = omega arith in
        elim (dec_lt count 64) [
          | yes lt ↦
              let t = seen-one low high count (omega arith) lt in
              rw m ((==_iff low (2 ^ 32 - 1)).0 ((and_iff (low == 2 ^ 32 - 1) _).0 (rw t at e)).0)
          | no ge' ↦
              let t = seen-two low high count (omega arith) in
              rw m ((==_iff low (2 ^ 32 - 1)).0 ((and_iff (low == 2 ^ 32 - 1) _).0 (rw t at e)).0)
        ]
  ]

  high_full :
      32 < count
      → count ≤ 64
      → all_seen (low ∷ high ∷ []) count ≡ true
      → high ≡ 2 ^ (count - 32) - 1
  high_full pos le e = elim (dec_lt count 64) [
    | yes lt ↦
        let t = seen-one low high count (omega arith) lt in
        (last_word high (count - 32) (λ z. absurd (omega arith))).0
          ((and_iff (low == 2 ^ 32 - 1) _).0 (rw t at e)).1
    | no ge ↦
        let m : count - 32 ≡ 32 = omega arith in
        let t = seen-two low high count (omega arith) in
        rw m ((==_iff high (2 ^ 32 - 1)).0 ((and_iff (low == 2 ^ 32 - 1) _).0 (rw t at e)).1)
  ]

member-above :
    (js : List ℕ) (count k : ℕ) → All (λ j. j < count) js → count ≤ k → member k js ≡ false
unfolding member
member-above [] count k h le = refl
member-above (j ∷ js) count k h le = ground (arith, member-above js count k h.1 le, h.0)

All-below : (js : List ℕ) (m n : ℕ) → m ≤ n → All (λ j. j < m) js → All (λ j. j < n) js
All-below [] m n le h = tt
All-below (j ∷ js) m n le h = (omega (arith, h.0), All-below js m n le h.1)

module _ (js : List ℕ) (count : ℕ) where
  -- The two words together have a bit for each index.
  halves :
      (((i : ℕ) → i < min count 32 → member (0 + i) js ≡ true)
        × ((i : ℕ) → i < count - 32 → member (32 + i) js ≡ true))
      ↔ ((k : ℕ) → k < count → member k js ≡ true)
  halves = (
    λ h k lt. elim (dec_lt k 32) [
      | yes p ↦
          let place : 0 + k ≡ k = omega arith in let at = h.0 k (omega arith) in rw place at at
      | no p ↦
          let place : 32 + (k - 32) ≡ k = omega arith in
          let at = h.1 (k - 32) (omega arith) in rw place at at
    ],
    λ h. (λ i lt. h (0 + i) (omega arith), λ i lt. h (32 + i) (omega arith)),
  )

  -- For up to 64 required fields, the test at the end of `pb_decode_noinit` passes exactly if the index of each of them
  -- was marked in `fields_seen`, in any order and any number of times, where no other index was.
  pub all_seen-marks :
      count ≤ 64
      → All (λ j. j < count) js
      → (all_seen (marks js) count ≡ true) ↔ ((k : ℕ) → k < count → member k js ≡ true)
  all_seen-marks le below =
      let b = bitmap js (All-below js count 64 le below) in
      let first =
        full js 0 b.low (min count 32) (omega arith)
          (λ i h k. member-above js count (0 + i) below (omega arith)) b.first in
      let second =
        full js 32 b.high (count - 32) (omega arith)
          (λ i h k. member-above js count (32 + i) below (omega arith)) b.second in
      let words =
        seen-words b.low b.high count le
          (λ e.
            let none : count - 32 ≡ 0 = omega arith in
            let w = second.1 (λ i lt. absurd (omega arith)) in rw none at w)
          (λ e.
            let none : min count 32 ≡ 0 = omega arith in
            let w = first.1 (λ i lt. absurd (omega arith)) in rw none at w) in
      rw b.words (
        λ e. halves.0 (first.0 (words.0 e).0, second.0 (words.0 e).1),
        λ h. words.1 (first.1 (halves.1 h).0, second.1 (halves.1 h).1),
      )

  -- If the test passes, each of the required fields was marked, whatever others were.
  pub all_seen-member :
      count ≤ 64
      → All (λ j. j < 64) js
      → all_seen (marks js) count ≡ true
      → (k : ℕ) → k < count
      → member k js ≡ true
  all_seen-member le below e k lt =
      let b = bitmap js below in
      let seen = rw b.words at e in
      elim (dec_lt k 32) [
        | yes p ↦
            let w = low_full b.low b.high count (omega arith) le seen in
            let one_ = bit-all_ones (min count 32) k (omega arith) in
            let place : 0 + k ≡ k = omega arith in
            let bit_ = b.first.bits k p in by_bit (member k js) (rw place at rw w at bit_) one_
        | no p ↦
            let w = high_full b.low b.high count (omega arith) le seen in
            let one_ = bit-all_ones (count - 32) (k - 32) (omega arith) in
            let place : 32 + (k - 32) ≡ k = omega arith in
            let bit_ = b.second.bits (k - 32) (omega arith) in
            by_bit (member k js) (rw place at rw w at bit_) one_
      ]
