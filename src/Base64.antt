-- ===== src/Base64.antt =====
-- FirebaseDatabase/.../SocketRocket/fbase64.c: `f_b64_ntop` and `f_b64_pton`. A text is the list of
-- its character codes up to the terminating zero, which the end of the list stands for.
pub mod Alphabet
mod Encode
pub mod Text
mod Switch
mod Sextets
pub mod RoundTrip
use Prim.Native.Char.{code}
use Prim.Native.String.{String}
use pincushion.Prelude.{ℕ, zero, suc, ◌+◌, ◌-◌, ◌*◌, ◌≤◌, Bool, true, false, ◌&&◌, ◌||◌, not}
use pincushion.Prelude.{Option}
use pincushion.Prelude.{none, some, List, [], ◌∷◌, ◌++◌, length, get_or, set, ltb, leb, ◌==◌}
use pincushion.Prelude.{u8}
use pincushion.Prelude.{u32, if◌then◌else◌, bit_and, bit_or, ◌<<<◌, ◌>>>◌, Outcome, ok, fail}
use pincushion.Prelude.{Action, pure, ◌>>=◌, ◌>>◌}

abbrev codes : String → List ℕ
codes String.[] = []
codes (String.◌∷◌ c s) = code c ∷ codes s

-- `Base64`
unfoldable pub alphabet : List ℕ
alphabet = codes "ABCDEFGHIJKLMNOPQRSTUVWXYZabcdefghijklmnopqrstuvwxyz0123456789+/"

-- `Pad64`
abbrev pub pad64 : ℕ
pad64 = b'='

-- `Base64[i]`
unfoldable pub letter : ℕ → ℕ
unfolding alphabet
letter i = get_or alphabet i 0

-- `output[0]` to `output[3]` for three bytes of input.
abbrev pub output0 : ℕ → ℕ
output0 a = a >>> 2

abbrev pub output1 : ℕ → ℕ → ℕ
output1 a b = u8 ((bit_and a 0x03 <<< 4) + (b >>> 4))

abbrev pub output2 : ℕ → ℕ → ℕ
output2 b c = u8 ((bit_and b 0x0f <<< 2) + (c >>> 6))

abbrev pub output3 : ℕ → ℕ
output3 c = bit_and c 0x3f

-- The object is `target` as far as it is written. `fail` is a return of -1; else the count is
-- the length of what is written, and the zero behind it is not counted.
abbrev pub Encoder : Type 0
Encoder = Action (List ℕ) (Unit {0})

unfoldable pub put_four : ℕ → List ℕ → Encoder
put_four targsize quad out = if ltb targsize (length out + 4) then fail out else ok tt (out ++ quad)

unfoldable pub terminate : ℕ → Encoder
terminate targsize out = if leb targsize (length out) then fail out else ok tt out

-- What follows the loop: one or two bytes are left, or none.
unfoldable pub ntop_rest : ℕ → List ℕ → Encoder
ntop_rest targsize [] = terminate targsize
ntop_rest targsize (a ∷ []) =
    put_four targsize (letter (output0 a) ∷ letter (output1 a 0) ∷ pad64 ∷ pad64 ∷ [])
    >> terminate targsize
ntop_rest targsize (a ∷ b ∷ _) =
    put_four targsize
      (letter (output0 a) ∷ letter (output1 a b) ∷ letter (output2 b 0) ∷ pad64 ∷ [])
    >> terminate targsize

-- The loop takes three bytes a round.
unfoldable pub ntop_loop : ℕ → List ℕ → Encoder
unfolding ntop_rest
ntop_loop targsize (a ∷ b ∷ c ∷ src) =
    put_four targsize
      (letter (output0 a) ∷ letter (output1 a b) ∷ letter (output2 b c) ∷ letter (output3 c) ∷ [])
    >> ntop_loop targsize src
ntop_loop targsize src = ntop_rest targsize src

unfoldable pub f_b64_ntop : List ℕ → ℕ → Outcome (List ℕ) (Unit {0})
unfolding ntop_loop
f_b64_ntop src targsize = ntop_loop targsize src []

-- `isspace` of the C locale.
unfoldable pub isspace : ℕ → Bool
isspace ch = ch == 32 || leb 9 ch && leb ch 13

position : List ℕ → ℕ → ℕ → Option ℕ
position [] ch i = none
position (x ∷ xs) ch i = let rest = position xs ch (i + 1) in if x == ch then some i else rest

-- `strchr(Base64, ch) - Base64`
unfoldable pub strchr : ℕ → Option ℕ
unfolding position alphabet
strchr ch = position alphabet ch 0

-- The variables of `f_b64_pton`; a target of `none` is NULL.
pub record Decoding : Type 0 where
  pub target : Option (List ℕ)
  pub tarindex : ℕ
  pub state : ℕ

abbrev pub Decoder : Type 0
Decoder = Action Decoding (Unit {0})

-- `target[tarindex] |= v`
abbrev or_into : List ℕ → ℕ → ℕ → List ℕ
or_into t i v = set t i (u8 (bit_or (get_or t i 0) v))

-- `if (target) { if (needed >= targsize) return (-1); ... }`, where `write` makes the stores.
store : ℕ → ℕ → (List ℕ → List ℕ) → Decoder
store targsize needed write d = elim d.target [
  | none ↦ ok tt d
  | some t ↦ if leb targsize needed then fail d else ok tt (record d { target = some (write t) })
]

-- `tarindex += step; state = next;`
advance : ℕ → ℕ → Decoder
advance step next d = ok tt (record d { tarindex = u32 (d.tarindex + step); state = next })

-- The switch on `state` for the character at `pos` of the alphabet.
unfoldable pub switch : ℕ → ℕ → Decoder
unfolding store advance
switch targsize pos d =
    let i = d.tarindex in
    let j = u32 (i + 1) in
    if d.state == 0
    then (store targsize i (λ t. set t i (u8 (pos <<< 2))) >> advance 0 1) d
    else if d.state == 1
    then (store targsize j (λ t. set (or_into t i (pos >>> 4)) j (u8 (bit_and pos 0x0f <<< 4)))
          >> advance 1 2)
        d
    else if d.state == 2
    then (store targsize j (λ t. set (or_into t i (pos >>> 2)) j (u8 (bit_and pos 0x03 <<< 6)))
          >> advance 1 3)
        d
    else if d.state == 3
    then (store targsize i (λ t. or_into t i pos) >> advance 1 0) d
    else ok tt d

take_char : ℕ → Option ℕ → Decoder
take_char targsize none = fail
take_char targsize (some pos) = switch targsize pos

-- The loop, up to the end of the text (`none`) or a pad character, with what follows that.
unfoldable pub scan : ℕ → List ℕ → Action Decoding (Option (List ℕ))
unfolding take_char isspace strchr switch
scan targsize [] = pure none
scan targsize (ch ∷ src) =
    let rest = scan targsize src in
    if ch == 0
    then pure none
    else if isspace ch
    then rest
    else if ch == pad64
    then pure (some src)
    else (take_char targsize (strchr ch) >> rest)

-- The text from the first character on that is no space.
skip_spaces : List ℕ → List ℕ
unfolding isspace
skip_spaces [] = []
skip_spaces (ch ∷ src) = if isspace ch then skip_spaces src else ch ∷ src

-- Nothing but spaces up to the end.
all_spaces : List ℕ → Bool
unfolding isspace
all_spaces [] = true
all_spaces (ch ∷ src) = let rest = all_spaces src in if ch == 0 then true else isspace ch && rest

extra_bits : Decoding → Bool
extra_bits d = elim d.target [ none ↦ false | some t ↦ not (get_or t d.tarindex 0 == 0) ]

-- `case 3:` after a pad character.
last_pad : List ℕ → Decoder
unfolding all_spaces extra_bits
last_pad src d = if not (all_spaces src) || extra_bits d then fail d else ok tt d

-- `case 2:` wants another pad character.
first_pad : List ℕ → Decoder
unfolding last_pad
first_pad [] = fail
first_pad (ch ∷ src) = if ch == pad64 then last_pad src else fail

-- What follows the loop.
unfoldable pub finish : Option (List ℕ) → Action Decoding ℕ
unfolding first_pad last_pad skip_spaces
finish none d = if d.state == 0 then ok d.tarindex d else fail d
finish (some src) d =
    if d.state == 2
    then (first_pad (skip_spaces src) >> pure d.tarindex) d
    else if d.state == 3
    then (last_pad src >> pure d.tarindex) d
    else fail d

-- `f_b64_pton`: `ok n` is a return of n, and `fail` a return of -1.
unfoldable pub f_b64_pton : List ℕ → Option (List ℕ) → ℕ → Outcome Decoding ℕ
unfolding scan finish
f_b64_pton src target targsize =
    (scan targsize src >>= finish) (record { target = target; tarindex = 0; state = 0 })
