-- ===== src/Decode/Words.antt =====
-- Words of the memory as the integer fields of nanopb write and read them.
use pincushion.Prelude.{ℕ, zero, suc, ◌+◌, ◌*◌, ◌/◌, ◌%◌, ◌^◌, ◌<◌, ◌≡◌, refl, ap, ◌∙◌}
use pincushion.Prelude.{arith}
use pincushion.Prelude.{List, ◌++◌, length, Option, String, ok, if◌then◌else◌, ◌==◌}
use pincushion.Prelude.{◌>>=◌}
use pincushion.Memory.{Memory, load, store, word_bytes, store_bytes}
use native.Mathlib.Nat.{mod-add-div', pow-suc}
use pincushion.Ostream.{Write}
use pincushion.Ostream.Write.{Emits}
use pincushion.Varint.{varint_bytes, pb_encode_varint}
use pincushion.Varint.RoundTrip.{pb_decode_varint-varint_bytes}
use pincushion.Wire.{zigzag, pb_encode_svarint}
use pincushion.Wire.Zigzag.{pb_decode_svarint-zigzag}
use pincushion.Field.{Field}
use pincushion.Encode.{sign_extend, pb_enc_varint, pb_enc_uvarint, pb_enc_svarint, by_data_size}
use pincushion.Encode.Sizing.{varint-Emits}
use pincushion.Decode.{State, Heap, clamp_signed, store_integer}
use pincushion.Decode.{pb_dec_varint, pb_dec_uvarint, pb_dec_svarint}
use pincushion.Decode.Integers.{on, IsWidth, one, two, four, eight, by_width, stored}
use pincushion.Decode.Integers.{pb_dec_uvarint-varint_bytes}

-- Every address holds a byte.
abbrev pub IsBytes : Memory → Type 0
IsBytes m = (p : ℕ) → m p < 256

pub load-lt :
    (m : Memory) (p : ℕ) {size : ℕ} → IsBytes m → IsWidth size → load m p size < 256 ^ size
unfolding load
load-lt m p h one = omega (arith, h p)
load-lt m p h two = omega (arith, h p, h (suc p))
load-lt m p h four = omega (arith, h p, h (suc p), h (suc (suc p)), h (suc (suc (suc p))))
load-lt m p h eight =
    let q = suc (suc (suc (suc p))) in
    omega (
      arith,
      h p,
      h (suc p),
      h (suc (suc p)),
      h (suc (suc (suc p))),
      h q,
      h (suc q),
      h (suc (suc q)),
      h (suc (suc (suc q))),
    )

-- A word of the memory, sign-extended, keeps its value where a decoder casts it.
extended-lt : (w : ℕ) {size : ℕ} → IsWidth size → w < 256 ^ size → sign_extend size w < 2 ^ 64
unfolding sign_extend
extended-lt w one h = ground arith
extended-lt w two h = ground arith
extended-lt w four h = ground arith
extended-lt w eight h = ground arith

extended-mod :
    (w : ℕ) {size : ℕ} → IsWidth size → w < 256 ^ size → sign_extend size w % 256 ^ size ≡ w
unfolding sign_extend
extended-mod w one h = ground arith
extended-mod w two h = ground arith
extended-mod w four h = ground arith
extended-mod w eight h = ground arith

clamped :
    (w : ℕ) {size : ℕ}
    → IsWidth size
    → w < 256 ^ size
    → clamp_signed size (sign_extend size w) ≡ sign_extend size w
unfolding clamp_signed
clamped w {size} width h = ap (sign_extend size) (extended-mod w width h)

svalue :
    (w : ℕ) {size : ℕ}
    → IsWidth size
    → w < 256 ^ size
    → (if size == 8 then sign_extend size w else clamp_signed 4 (sign_extend size w))
      ≡ sign_extend size w
unfolding clamp_signed sign_extend
svalue w one h = ground arith
svalue w two h = ground arith
svalue w four h = ground arith
svalue w eight h = refl

-- What a store of `size` bytes leaves out does not matter.
word_bytes-add : (size r k : ℕ) → word_bytes size (r + k * 256 ^ size) ≡ word_bytes size r
unfolding word_bytes
word_bytes-add zero r k = refl
word_bytes-add (suc size) r k =
    let shift : k * 256 ^ suc size ≡ 256 * (k * 256 ^ size) =
      omega (arith, ap (λ (x : ℕ). k * x) (pow-suc 256 size)) in
    let low : (r + k * 256 ^ suc size) % 256 ≡ r % 256 = omega (arith, shift) in
    let high : (r + k * 256 ^ suc size) / 256 ≡ r / 256 + k * 256 ^ size = omega (arith, shift) in
    rw (low, high, word_bytes-add size (r / 256) k)

store-mod : (m : Memory) (p size v w : ℕ) → v % 256 ^ size ≡ w → store m p size v ≡ store m p size w
unfolding store
store-mod m p size v w e =
    let part = word_bytes-add size (v % 256 ^ size) (v / 256 ^ size) in
    let whole : v % 256 ^ size + v / 256 ^ size * 256 ^ size ≡ v = mod-add-div' v (256 ^ size) in
    let low = rw whole at part in ap (λ bytes. store_bytes m p bytes) (rw e at low)

encode_by_width :
    (encode : ℕ → Write) {size : ℕ} → IsWidth size → by_data_size encode size ≡ encode size
unfolding by_data_size
encode_by_width encode one = refl
encode_by_width encode two = refl
encode_by_width encode four = refl
encode_by_width encode eight = refl

word-lt : {size : ℕ} → IsWidth size → (v : ℕ) → v < 256 ^ size → v < 2 ^ 64
word-lt one v h = omega arith
word-lt two v h = omega arith
word-lt four v h = omega arith
word-lt eight v h = omega arith

-- What the decoders do with the bytes that the encoders write for a word.
module _ (field : Field) (width : IsWidth field.data_size) (dest word : ℕ)
    (fits : word < 256 ^ field.data_size) (rest : List ℕ) (n : ℕ) (msg : Option String) (m : Memory)
    (h : Heap) where
  abbrev signed : ℕ
  signed = sign_extend field.data_size word

  abbrev extended : ℕ → State
  extended v = on rest n msg (store m dest field.data_size v) h

  signed_lt : signed < 2 ^ 64
  signed_lt = extended-lt word width fits

  signed_stored :
      store_integer clamp_signed dest signed field.data_size (on rest n msg m h)
      ≡ ok tt (extended word)
  signed_stored =
      stored clamp_signed dest signed field.data_size (on rest n msg m h) (clamped word width fits)
      ∙ ap (λ t. ok tt (on rest n msg t h))
          (store-mod m dest field.data_size signed word (extended-mod word width fits))

  pub pb_dec_uvarint-word :
      let bytes = varint_bytes word in
      pb_dec_uvarint field dest (on (bytes ++ rest) (length bytes + n) msg m h)
      ≡ ok tt (extended word)
  pb_dec_uvarint-word =
      (pb_dec_uvarint-varint_bytes field dest rest n msg m h word width (word-lt width word fits)).0
        fits

  pub pb_dec_varint-word :
      let bytes = varint_bytes signed in
      pb_dec_varint field dest (on (bytes ++ rest) (length bytes + n) msg m h)
      ≡ ok tt (extended word)
  unfolding pb_dec_varint
  pb_dec_varint-word =
      rw
        (
          pb_decode_varint-varint_bytes signed rest n msg signed_lt,
          ◌>>=◌,
          svalue word width fits,
          by_width clamp_signed dest signed width,
        )
        signed_stored

  pub pb_dec_svarint-word :
      let bytes = varint_bytes (zigzag signed) in
      pb_dec_svarint field dest (on (bytes ++ rest) (length bytes + n) msg m h)
      ≡ ok tt (extended word)
  unfolding pb_dec_svarint
  pb_dec_svarint-word =
      rw
        (
          pb_decode_svarint-zigzag signed rest n msg signed_lt,
          ◌>>=◌,
          by_width clamp_signed dest signed width,
        )
        signed_stored

-- What the encoders write for a word.
module _ (m : Memory) (field : Field) (width : IsWidth field.data_size) (src : ℕ) where
  pub pb_enc_uvarint-word :
      Emits (pb_enc_uvarint m field src) (varint_bytes (load m src field.data_size))
  unfolding pb_enc_uvarint
  pb_enc_uvarint-word =
      rw (encode_by_width (λ size. pb_encode_varint (load m src size)) width)
        (varint-Emits (load m src field.data_size))

  pub pb_enc_varint-word :
      Emits
        (pb_enc_varint m field src)
        (varint_bytes (sign_extend field.data_size (load m src field.data_size)))
  unfolding pb_enc_varint
  pb_enc_varint-word =
      rw (encode_by_width (λ size. pb_encode_varint (sign_extend size (load m src size))) width)
        (varint-Emits (sign_extend field.data_size (load m src field.data_size)))

  pub pb_enc_svarint-word :
      Emits
        (pb_enc_svarint m field src)
        (varint_bytes (zigzag (sign_extend field.data_size (load m src field.data_size))))
  unfolding pb_enc_svarint pb_encode_svarint
  pb_enc_svarint-word =
      rw
        (encode_by_width (λ size. pb_encode_varint (zigzag (sign_extend size (load m src size))))
          width)
        (varint-Emits (zigzag (sign_extend field.data_size (load m src field.data_size))))
