-- ===== src/Varint/Accept.antt =====
-- Which bytes `pb_decode_varint` accepts, and what number they are, shortest or not.
use pincushion.Prelude.{ℕ, zero, suc, ◌+◌, ◌*◌, ◌%◌, ◌^◌, ◌≤◌, ◌<◌, ◌≡◌, refl, ◌∙◌, arith}
use pincushion.Prelude.{List, [], ◌∷◌, ◌++◌, length, Option, String, ok, fail, All, bit_and}
use pincushion.Prelude.{u64}
use pincushion.Prelude.{every_below, every_below_sound, leb, true, top_bit, low_seven}
use pincushion.Prelude.{bit_or-disjoint, ◌<<<◌}
use pincushion.Istream.{pb_readbyte, first_message}
use pincushion.Istream.Read.{over, pb_readbyte-cons}
use pincushion.Varint.{decode_varint_loop, pb_decode_varint, add_group}
use pincushion.Varint.RoundTrip.{shift_seven, last_byte, inner_byte}
use native.Mathlib.Decide.{dec_lt}
use native.Mathlib.Nat.{suc-add, zero-add}

-- A byte with the top bit set, behind which the number goes on.
abbrev pub Continues : ℕ → Type 0
Continues b = (128 ≤ b) × (b < 256)

-- The number in base 128, lowest group first.
unfoldable pub number : List ℕ → ℕ
number [] = 0
number (b ∷ bytes) = b % 128 + 128 * number bytes

low_table : every_below 9 (λ i. leb (2 ^ (7 * i)) (2 ^ 56)) ≡ true
unfolding every_below
low_table = refl

low : (i : ℕ) → i < 9 → 2 ^ (7 * i) ≤ 2 ^ 56
low i h = ground (arith, every_below_sound 9 (λ i. leb (2 ^ (7 * i)) (2 ^ 56)) low_table i h)

-- The tenth byte, of which only the lowest bit fits.
tenth_byte :
    (f b result : ℕ) (rest : List ℕ) (n : ℕ) (msg : Option String)
    → b < 128
    → result < 2 ^ 63
    → decode_varint_loop (suc f) 63 result (over (b ∷ rest) (suc n) msg)
      ≡ ok ((result + b * 2 ^ 63) % 2 ^ 64) (over rest n msg)
unfolding decode_varint_loop
tenth_byte f b result rest n msg hb hr =
    let group : u64 (bit_and b 0x7f <<< 63) ≡ b % 2 * 2 ^ 63 = omega (arith, low_seven b) in
    ground (
      arith,
      pb_readbyte-cons b rest n msg,
      top_bit b (omega arith),
      group,
      bit_or-disjoint 63 result (b % 2) hr,
    )

any_last :
    (f i b result : ℕ) (rest : List ℕ) (n : ℕ) (msg : Option String)
    → b < 128
    → i ≤ 9
    → result < 2 ^ (7 * i)
    → decode_varint_loop (suc f) (7 * i) result (over (b ∷ rest) (suc n) msg)
      ≡ ok ((result + b * 2 ^ (7 * i)) % 2 ^ 64) (over rest n msg)
any_last f i b result rest n msg hb hi hr = elim (dec_lt i 9) [
  | yes p ↦
      let small : b * 2 ^ (7 * i) ≤ 127 * 2 ^ 56 = grind (arith, low i p) in
      let same : (result + b * 2 ^ (7 * i)) % 2 ^ 64 ≡ result + b * 2 ^ (7 * i) =
        omega (arith, low i p) in
      rw same (last_byte f b result (7 * i) rest n msg hb (omega arith) hr (omega arith))
  | no p ↦
      let nine : i ≡ 9 = omega arith in
      rw nine (tenth_byte f b result rest n msg hb (rw nine at hr))
]

-- A byte behind which the number goes on, below the tenth.
next_group :
    (f i c result : ℕ) (rest : List ℕ) (n : ℕ) (msg : Option String)
    → Continues c
    → i < 9
    → result < 2 ^ (7 * i)
    → (decode_varint_loop (suc f) (7 * i) result (over (c ∷ rest) (suc n) msg)
        ≡ decode_varint_loop f (7 * suc i) (result + c % 128 * 2 ^ (7 * i)) (over rest n msg))
      × (result + c % 128 * 2 ^ (7 * i) < 2 ^ (7 * suc i))
next_group f i c result rest n msg hc hi hr =
    let step : 7 * i + 7 ≡ 7 * suc i = omega arith in
    let group : c % 128 + 128 ≡ c = omega (arith, hc.0, hc.1) in
    let small : c % 128 * 2 ^ (7 * i) ≤ 127 * 2 ^ (7 * i) = grind arith in
    (
      rw (step, group) at
          (inner_byte f (c % 128) result (7 * i) rest n msg (omega arith) (omega arith) hr
            (omega (arith, small, low i hi))),
      rw (← step) (omega (arith, shift_seven (7 * i), small)),
    )

accepts :
    (front : List ℕ) (f i result last : ℕ) (rest : List ℕ) (n : ℕ) (msg : Option String)
    → All Continues front
    → last < 128
    → i + length front ≤ 9
    → length front < f
    → result < 2 ^ (7 * i)
    → decode_varint_loop f (7 * i) result (over (front ++ (last ∷ rest)) (length front + suc n) msg)
      ≡ ok ((result + number (front ++ (last ∷ [])) * 2 ^ (7 * i)) % 2 ^ 64) (over rest n msg)
unfolding number
accepts [] (suc f) i result last rest n msg _ hl hi hf hr =
    let alone : last % 128 + 128 * 0 ≡ last = omega arith in
    rw (alone, zero-add) (any_last f i last result rest n msg hl (omega arith) hr)
accepts [] zero i result last rest n msg _ hl hi hf hr = absurd (omega arith)
accepts (c ∷ front) zero i result last rest n msg _ hl hi hf hr = absurd (omega arith)
accepts (c ∷ front) (suc f) i result last rest n msg (hc, hs) hl hi hf hr =
    let group =
      next_group f i c result (front ++ (last ∷ rest)) (length front + suc n) msg hc (omega arith)
        hr in
    let others =
      accepts front f (suc i) _ last rest n msg hs hl (omega arith) (omega arith) group.1 in
    let v = number (front ++ (last ∷ [])) in
    let step : 7 * suc i ≡ 7 * i + 7 = omega arith in
    let sum : result + c % 128 * 2 ^ (7 * i) + v * 2 ^ (7 * suc i)
        ≡ result + (c % 128 + 128 * v) * 2 ^ (7 * i) =
      rw (step, shift_seven (7 * i)) (grind arith) in
    rw suc-add (group.0 ∙ rw sum at others)

-- From a buffer `pb_decode_varint` takes at most nine bytes with the top bit set and the first
-- one without: the value is their number in base 128, modulo 2 ^ 64, also where fewer bytes
-- would do or the tenth byte has more than its lowest bit.
pub pb_decode_varint-number :
    (front : List ℕ) (last : ℕ) (rest : List ℕ) (n : ℕ) (msg : Option String)
    → All Continues front
    → last < 128
    → length front ≤ 9
    → pb_decode_varint (over (front ++ (last ∷ rest)) (length front + suc n) msg)
      ≡ ok (number (front ++ (last ∷ [])) % 2 ^ 64) (over rest n msg)
unfolding pb_decode_varint
pb_decode_varint-number front last rest n msg hs hl hi =
    let value : 0 + number (front ++ (last ∷ [])) * 2 ^ 0 ≡ number (front ++ (last ∷ [])) =
      omega arith in
    rw value at
      (accepts front 11 0 0 last rest n msg hs hl (omega arith) (omega arith) (omega arith))

-- The rounds for bytes with the top bit set, whatever they add.
module _ (rest : List ℕ) (n : ℕ) (msg : Option String) where
  continues :
      (f i c result : ℕ) (rest' : List ℕ) (n' : ℕ)
      → Continues c
      → i ≤ 9
      → decode_varint_loop (suc f) (7 * i) result (over (c ∷ rest') (suc n') msg)
        ≡ decode_varint_loop f (7 * suc i) (add_group result c (7 * i)) (over rest' n' msg)
  unfolding decode_varint_loop
  continues f i c result rest' n' hc hi =
      ground (arith, pb_readbyte-cons c rest' n' msg, top_bit c (omega (arith, hc.1)), hc.0)

  overflows :
      (front : List ℕ) (f i result : ℕ)
      → All Continues front
      → i + length front ≡ 10
      → length front < f
      → decode_varint_loop f (7 * i) result (over (front ++ rest) (length front + n) msg)
        ≡ fail (over rest n (first_message msg "varint overflow"))
  overflows [] (suc f) i result _ hi hf = unfold decode_varint_loop in ground arith
  overflows [] zero i result _ hi hf = absurd (omega arith)
  overflows (c ∷ front) zero i result _ hi hf = absurd (omega arith)
  overflows (c ∷ front) (suc f) i result (hc, hs) hi hf = rw suc-add (
      continues f i c result (front ++ rest) (length front + n) hc (omega arith)
      ∙ overflows front f (suc i) _ hs (omega arith) (omega arith))

  truncated :
      (front : List ℕ) (f i result : ℕ)
      → All Continues front
      → i + length front ≤ 9
      → length front < f
      → decode_varint_loop f (7 * i) result (over (front ++ rest) (length front) msg)
        ≡ fail (over rest 0 (first_message msg "end-of-stream"))
  truncated [] (suc f) i result _ hi hf = unfold decode_varint_loop pb_readbyte in ground arith
  truncated [] zero i result _ hi hf = absurd (omega arith)
  truncated (c ∷ front) zero i result _ hi hf = absurd (omega arith)
  truncated (c ∷ front) (suc f) i result (hc, hs) hi hf =
      continues f i c result (front ++ rest) (length front) hc (omega arith)
      ∙ truncated front f (suc i) _ hs (omega arith) (omega arith)

-- Where no byte of a buffer ends the number, `pb_decode_varint` fails: behind ten bytes with the
-- top bit set, with the message "varint overflow", and at the end of a stream with fewer than
-- ten bytes left, all with the top bit set, with the message "end-of-stream". An earlier message
-- stays.
pub pb_decode_varint-Continues :
    (front rest : List ℕ) (n : ℕ) (msg : Option String)
    → All Continues front
    → (length front ≡ 10
        → pb_decode_varint (over (front ++ rest) (length front + n) msg)
          ≡ fail (over rest n (first_message msg "varint overflow")))
      × (length front < 10
          → pb_decode_varint (over (front ++ rest) (length front) msg)
            ≡ fail (over rest 0 (first_message msg "end-of-stream")))
unfolding pb_decode_varint
pb_decode_varint-Continues front rest n msg hs = (
  λ h. overflows rest n msg front 11 0 0 hs (omega arith) (omega arith),
  λ h. truncated rest n msg front 11 0 0 hs (omega arith) (omega arith),
)
