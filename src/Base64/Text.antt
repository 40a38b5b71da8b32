-- ===== src/Base64/Text.antt =====
-- What `f_b64_ntop` writes is base 64, in terms of numbers of 24 bits.
use pincushion.Prelude.{ℕ, ◌+◌, ◌-◌, ◌*◌, ◌/◌, ◌%◌, ◌≤◌, ◌<◌, ◌≡◌, refl, sym, arith}
use pincushion.Prelude.{List, [], ◌∷◌, length, All, IsByte, ok, fail, true}
use pincushion.Prelude.{if◌then◌else◌, ltb, ◌==◌, ==_iff, every_below, every_below_sound}
use pincushion.Base64.{f_b64_ntop, letter, output0, output1, output2, output3}
use pincushion.Base64.Encode.{letters, f_b64_ntop-letters}
use pincushion.Base64.Sextets.{outputs-lt, one, two, three}

-- The character of six bits, by the ranges of the table of RFC 1521.
unfoldable pub character : ℕ → ℕ
character v =
    if ltb v 26
    then b'A' + v
    else if ltb v 52
    then b'a' + (v - 26)
    else if ltb v 62
    then b'0' + (v - 52)
    else if v == 62
    then b'+'
    else b'/'

-- Three bytes as one number, and the characters of its digits to the base 64 from the highest one on.
abbrev pub bits24 : ℕ → ℕ → ℕ → ℕ
bits24 a b c = a * 65536 + b * 256 + c

abbrev pub first_digit : ℕ → ℕ
first_digit bits = character (bits / 262144)

abbrev pub second_digit : ℕ → ℕ
second_digit bits = character (bits / 4096 % 64)

abbrev pub third_digit : ℕ → ℕ
third_digit bits = character (bits / 64 % 64)

abbrev pub fourth_digit : ℕ → ℕ
fourth_digit bits = character (bits % 64)

-- The base 64 text of a list of bytes, as RFC 1521 has it: four characters for three bytes; where one or
-- two bytes are left, zeros follow them, and `=` stands for the digits that have none of their bits.
unfoldable pub text : List ℕ → List ℕ
text [] = []
text (a ∷ []) = let bits = bits24 a 0 0 in first_digit bits ∷ second_digit bits ∷ b'=' ∷ b'=' ∷ []
text (a ∷ b ∷ []) =
    let bits = bits24 a b 0 in first_digit bits ∷ second_digit bits ∷ third_digit bits ∷ b'=' ∷ []
text (a ∷ b ∷ c ∷ src) =
    let bits = bits24 a b c in
    first_digit bits ∷ second_digit bits ∷ third_digit bits ∷ fourth_digit bits ∷ text src

table : every_below 64 (λ i. letter i == character i) ≡ true
unfolding every_below letter character
table = refl

letter-character : (i j : ℕ) → i < 64 → i ≡ j → letter i ≡ character j
letter-character i j h e =
    rw (sym e) ((==_iff _ _).0 (every_below_sound 64 (λ i. letter i == character i) table i h))

module _ (a b c : ℕ) (ha : IsByte a) (hb : IsByte b) (hc : IsByte c) where
  small : (output0 a < 64) × (output1 a b < 64) × (output2 b c < 64) × (output3 c < 64)
  small = outputs-lt a b c ha hb hc

  letter0 : letter (output0 a) ≡ first_digit (bits24 a b c)
  letter0 = letter-character _ _ small.0 (ground arith)

  letter1 : letter (output1 a b) ≡ second_digit (bits24 a b c)
  letter1 = letter-character _ _ small.1 (omega (arith, one a b c ha hb hc))

  letter2 : letter (output2 b c) ≡ third_digit (bits24 a b c)
  letter2 = letter-character _ _ small.2 (omega (arith, two a b c ha hb hc))

  letter3 : letter (output3 c) ≡ fourth_digit (bits24 a b c)
  letter3 = letter-character _ _ small.3 (omega (arith, three a b c ha hb hc))

letters-text : (src : List ℕ) → All IsByte src → letters src ≡ text src
unfolding letters text
letters-text [] h = refl
letters-text (a ∷ []) (ha, _) =
    let zero_byte : IsByte 0 = omega arith in
    rw (letter0 a 0 0 ha zero_byte zero_byte, letter1 a 0 0 ha zero_byte zero_byte) refl
letters-text (a ∷ b ∷ []) (ha, (hb, _)) =
    let zero_byte : IsByte 0 = omega arith in
    rw (letter0 a b 0 ha hb zero_byte, letter1 a b 0 ha hb zero_byte, letter2 a b 0 ha hb zero_byte)
      refl
letters-text (a ∷ b ∷ c ∷ src) (ha, (hb, (hc, rest))) =
    rw
      (
        letter0 a b c ha hb hc,
        letter1 a b c ha hb hc,
        letter2 a b c ha hb hc,
        letter3 a b c ha hb hc,
        letters-text src rest,
      )
      refl

-- `f_b64_ntop` writes the base 64 text of any bytes when that and a terminating zero fit the target;
-- otherwise it returns -1, and has not written past the target either.
pub f_b64_ntop-text :
    (src : List ℕ) (targsize : ℕ)
    → All IsByte src
    → (length (text src) < targsize → f_b64_ntop src targsize ≡ ok tt (text src))
      × (targsize ≤ length (text src)
          → (out : List ℕ) × (f_b64_ntop src targsize ≡ fail out) × (length out ≤ targsize))
f_b64_ntop-text src targsize bytes =
    rw (letters-text src bytes) at (f_b64_ntop-letters src targsize)
