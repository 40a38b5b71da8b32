-- ===== src/Base64/RoundTrip.antt =====
-- `f_b64_pton` on the text that `f_b64_ntop` writes.
use pincushion.Prelude.{ℕ, ◌+◌, ◌*◌, ◌/◌, ◌^◌, ◌≤◌, ◌<◌, ◌≡◌, refl, ap, ◌∙◌, arith}
use pincushion.Prelude.{List, [], ◌∷◌, ◌++◌, length, length-append, some, All, IsByte}
use pincushion.Prelude.{ok, Outcome, ◌>>=◌, get_or-append, u8, bit_and, bit_or, ◌<<<◌, ◌>>>◌}
use pincushion.Base64.{Decoding, switch, scan, finish, f_b64_pton, f_b64_ntop, letter, pad64}
use pincushion.Base64.{output0, output1, output2, output3}
use pincushion.Base64.Alphabet.{strchr-letter, letter_plain}
use pincushion.Base64.Encode.{letters, quad, length-letters, f_b64_ntop-letters}
use pincushion.Base64.Switch.{at, switch_0, switch_1, switch_2, switch_3}
use pincushion.Base64.Sextets.{outputs-lt, first_byte, second_byte, third_byte, rest_of_one}
use pincushion.Base64.Sextets.{rest_of_two}
use mathlib.Core.List.{append-nil, append_assoc}

-- A letter goes through the switch, if that accepts it.
scan-letter :
    (targsize i : ℕ) (src : List ℕ) (d d' : Decoding)
    → i < 64
    → switch targsize i d ≡ ok tt d'
    → scan targsize (letter i ∷ src) d ≡ scan targsize src d'
unfolding scan
scan-letter targsize i src d d' h e = ground (arith, letter_plain i h, strchr-letter i h, e)

module _ (targsize : ℕ) where
  two_letters :
      (p q : ℕ) (front : List ℕ) (x y : ℕ) (w src : List ℕ)
      → p < 64
      → q < 64
      → length front + 1 < targsize
      → length front + 1 < 2 ^ 32
      → scan targsize (letter p ∷ letter q ∷ src) (at front (x ∷ y ∷ w) 0)
        ≡ scan targsize src (
            at
              (front ++ (u8 (bit_or (u8 (p <<< 2)) (q >>> 4)) ∷ []))
              (u8 (bit_and q 0x0f <<< 4) ∷ w)
              2)
  two_letters p q front x y w src hp hq room small =
      scan-letter targsize p _ _ _ hp (switch_0 targsize p front x small (y ∷ w) (omega arith))
      ∙ scan-letter targsize q _ _ _ hq (switch_1 targsize q front _ small y w room)

  third_letter :
      (r : ℕ) (front : List ℕ) (x y : ℕ) (w src : List ℕ)
      → r < 64
      → length front + 1 < targsize
      → length front + 1 < 2 ^ 32
      → scan targsize (letter r ∷ src) (at front (x ∷ y ∷ w) 2)
        ≡ scan targsize src
            (at (front ++ (u8 (bit_or x (r >>> 2)) ∷ [])) (u8 (bit_and r 0x03 <<< 6) ∷ w) 3)
  third_letter r front x y w src hr room small =
      scan-letter targsize r _ _ _ hr (switch_2 targsize r front x small y w room)

  fourth_letter :
      (t : ℕ) (front : List ℕ) (x : ℕ) (w src : List ℕ)
      → t < 64
      → length front < targsize
      → length front + 1 < 2 ^ 32
      → scan targsize (letter t ∷ src) (at front (x ∷ w) 3)
        ≡ scan targsize src (at (front ++ (u8 (bit_or x t) ∷ [])) w 0)
  fourth_letter t front x w src ht room small =
      scan-letter targsize t _ _ _ ht (switch_3 targsize t front x small w room)

  -- The first, the second and the third byte of a group.
  module _ (a b c : ℕ) (ha : IsByte a) (hb : IsByte b) (hc : IsByte c) (front : List ℕ)
      (small : length front + 3 < 2 ^ 32) where
    bounds : (output0 a < 64) × (output1 a b < 64) × (output2 b c < 64) × (output3 c < 64)
    bounds = outputs-lt a b c ha hb hc

    one_done :
        (x y : ℕ) (w src : List ℕ)
        → length front + 1 < targsize
        → scan targsize (letter (output0 a) ∷ letter (output1 a b) ∷ src) (at front (x ∷ y ∷ w) 0)
          ≡ scan targsize src (at (front ++ (a ∷ [])) (u8 (bit_and (output1 a b) 0x0f <<< 4) ∷ w) 2)
    one_done x y w src room =
        rw (first_byte a b c ha hb hc) at (
          two_letters (output0 a) (output1 a b) front x y w src bounds.0 bounds.1 room
            (omega arith))

    two_done :
        (x y z : ℕ) (w src : List ℕ)
        → length front + 2 < targsize
        → scan targsize
            (letter (output0 a) ∷ letter (output1 a b) ∷ letter (output2 b c) ∷ src)
            (at front (x ∷ y ∷ z ∷ w) 0)
          ≡ scan targsize src
              (at (front ++ (a ∷ b ∷ [])) (u8 (bit_and (output2 b c) 0x03 <<< 6) ∷ w) 3)
    two_done x y z w src room =
        let len = length-append front (a ∷ []) in
        one_done x y (z ∷ w) (letter (output2 b c) ∷ src) (omega arith)
        ∙ rw (second_byte a b c ha hb hc) at (
            third_letter (output2 b c) (front ++ (a ∷ [])) (u8 (bit_and (output1 a b) 0x0f <<< 4)) z
              w src bounds.2 (omega (arith, len)) (omega (arith, len)))
        ∙ ap (λ f. scan targsize src (at f (u8 (bit_and (output2 b c) 0x03 <<< 6) ∷ w) 3))
            (append_assoc front (a ∷ []) (b ∷ []))

    three_done :
        (x y z : ℕ) (w src : List ℕ)
        → length front + 2 < targsize
        → scan targsize (quad a b c ++ src) (at front (x ∷ y ∷ z ∷ w) 0)
          ≡ scan targsize src (at (front ++ (a ∷ b ∷ c ∷ [])) w 0)
    three_done x y z w src room =
        let len = length-append front (a ∷ b ∷ []) in
        two_done x y z w (letter (output3 c) ∷ src) room
        ∙ rw (third_byte a b c ha hb hc) at (
            fourth_letter (output3 c) (front ++ (a ∷ b ∷ []))
              (u8 (bit_and (output2 b c) 0x03 <<< 6)) w src bounds.3 (omega (arith, len))
              (omega (arith, len)))
        ∙ ap (λ f. scan targsize src (at f w 0)) (append_assoc front (a ∷ b ∷ []) (c ∷ []))

-- The pad characters at the end, behind one byte and behind two.
finish_one :
    (targsize : ℕ) (front w : List ℕ)
    → (scan targsize (pad64 ∷ pad64 ∷ []) >>= finish) (at front (0 ∷ w) 2)
      ≡ ok (length front) (at front (0 ∷ w) 2)
unfolding scan finish
finish_one targsize front w = ground (arith, get_or-append front 0 w 0)

finish_two :
    (targsize : ℕ) (front w : List ℕ)
    → (scan targsize (pad64 ∷ []) >>= finish) (at front (0 ∷ w) 3)
      ≡ ok (length front) (at front (0 ∷ w) 3)
unfolding scan finish
finish_two targsize front w = ground (arith, get_or-append front 0 w 0)

finish_all :
    (targsize : ℕ) (front w : List ℕ)
    → (scan targsize [] >>= finish) (at front w 0) ≡ ok (length front) (at front w 0)
unfolding scan finish
finish_all targsize front w = refl

-- The call returns the number of the bytes and has stored them at the start of the target.
abbrev pub Decodes : Outcome Decoding ℕ → List ℕ → Type 0
Decodes r bytes =
    (d : Decoding) × (back : List ℕ) × (r ≡ ok (length bytes) d) × (d.target ≡ some (bytes ++ back))

Decodes-letters :
    (targsize : ℕ) (src front w : List ℕ)
    → All IsByte src
    → length src < length w
    → length front + length w ≤ targsize
    → targsize < 2 ^ 31
    → Decodes ((scan targsize (letters src) >>= finish) (at front w 0)) (front ++ src)
unfolding letters
Decodes-letters targsize [] front w bytes room fits small =
    (at front w 0, w, rw append-nil (finish_all targsize front w), rw append-nil)
Decodes-letters targsize (a ∷ src) front [] bytes room fits small = absurd (omega arith)
Decodes-letters targsize (a ∷ src) front (x ∷ []) bytes room fits small = absurd (omega arith)
Decodes-letters targsize (a ∷ []) front (x ∷ y ∷ w) (ha, _) room fits small =
    let byte =
      one_done targsize a 0 0 ha (omega arith) (omega arith) front (omega arith) x y w
        (pad64 ∷ pad64 ∷ []) (omega arith) in
    (
      at (front ++ (a ∷ [])) (0 ∷ w) 2,
      0 ∷ w,
      rw (byte, rest_of_one a, ◌>>=◌) (finish_one targsize (front ++ (a ∷ [])) w),
      refl,
    )
Decodes-letters targsize (a ∷ b ∷ src) front (x ∷ y ∷ []) bytes room fits small =
    absurd (omega arith)
Decodes-letters targsize (a ∷ b ∷ []) front (x ∷ y ∷ z ∷ w) (ha, (hb, _)) room fits small =
    let bytes =
      two_done targsize a b 0 ha hb (omega arith) front (omega arith) x y z w (pad64 ∷ [])
        (omega arith) in
    (
      at (front ++ (a ∷ b ∷ [])) (0 ∷ w) 3,
      0 ∷ w,
      rw (bytes, rest_of_two b, ◌>>=◌) (finish_two targsize (front ++ (a ∷ b ∷ [])) w),
      refl,
    )
Decodes-letters targsize (a ∷ b ∷ c ∷ src) front (x ∷ y ∷ z ∷ w) (ha, (hb, (hc, rest))) room fits
      small =
    let group =
      three_done targsize a b c ha hb hc front (omega arith) x y z w (letters src) (omega arith) in
    let len = length-append front (a ∷ b ∷ c ∷ []) in
    let others =
      Decodes-letters targsize src (front ++ (a ∷ b ∷ c ∷ [])) w rest (omega arith)
        (omega (arith, len)) small in
    rw (group, ◌>>=◌) (rw (append_assoc front (a ∷ b ∷ c ∷ []) src) at others)

f_b64_pton-letters :
    (src target : List ℕ)
    → All IsByte src
    → length src < length target
    → length target < 2 ^ 31
    → Decodes (f_b64_pton (letters src) (some target) (length target)) src
unfolding f_b64_pton
f_b64_pton-letters src target bytes room small =
    Decodes-letters (length target) src [] target bytes room (omega arith) small

-- Any bytes, encoded by `f_b64_ntop` into a target with room for the text and a zero, are decoded again by
-- `f_b64_pton` to the start of a target with room for one byte more, of fewer than 2 ^ 31 bytes; it returns
-- their number.
pub f_b64_pton-f_b64_ntop :
    (src target : List ℕ) (targsize : ℕ)
    → All IsByte src
    → (length src + 2) / 3 * 4 < targsize
    → length src < length target
    → length target < 2 ^ 31
    → (encoded : List ℕ) × (f_b64_ntop src targsize ≡ ok tt encoded)
      × Decodes (f_b64_pton encoded (some target) (length target)) src
f_b64_pton-f_b64_ntop src target targsize bytes fits room small = (
  letters src,
  (f_b64_ntop-letters src targsize).0 (omega (arith, length-letters src)),
  f_b64_pton-letters src target bytes room small,
)
