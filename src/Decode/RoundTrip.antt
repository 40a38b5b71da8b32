-- ===== src/Decode/RoundTrip.antt =====
-- Integer fields: what the encoder of a field writes, its decoder puts into memory.
use pincushion.Prelude.{ℕ, ◌+◌, ◌^◌, ◌≤◌, ◌<◌, ◌≡◌}
use pincushion.Prelude.{List, ◌++◌, length, Option, String, ok, ◌⊎◌}
use pincushion.Memory.{Memory, load, store, word_bytes}
use pincushion.Memory.Laws.{load-store, store_bytes-outside, length-word_bytes}
use pincushion.Ostream.{Write}
use pincushion.Ostream.Write.{Emits}
use pincushion.Varint.{varint_bytes}
use pincushion.Wire.{zigzag}
use pincushion.Field.{Field}
use pincushion.Encode.{sign_extend, pb_enc_varint, pb_enc_uvarint, pb_enc_svarint}
use pincushion.Decode.{Heap, Decode}
use pincushion.Decode.{pb_dec_varint, pb_dec_uvarint, pb_dec_svarint}
use pincushion.Decode.Integers.{on, IsWidth}
use pincushion.Decode.Words.{IsBytes, load-lt, pb_dec_varint-word, pb_dec_uvarint-word}
use pincushion.Decode.Words.{pb_dec_svarint-word, pb_enc_varint-word, pb_enc_uvarint-word}
use pincushion.Decode.Words.{pb_enc_svarint-word}

-- The encoder `enc` writes bytes from which the decoder `dec` makes, whatever follows them and wherever the
-- message is, a memory with the same word at `dest` as `m` has at `src`, and changes nothing
-- outside that word.
abbrev pub Restores : ℕ → Memory → ℕ → ℕ → Write → Decode (Unit {0}) → Type 0
Restores size m src dest enc dec =
    (bytes : List ℕ) × Emits enc bytes
    × ((rest : List ℕ) (n : ℕ) (msg : Option String) (m' : Memory) (h : Heap)
        → (t : Memory) × (dec (on (bytes ++ rest) (length bytes + n) msg m' h)
            ≡ ok tt (on rest n msg t h))
          × (load t dest size ≡ load m src size)
          × ((q : ℕ) → (q < dest) ⊎ (dest + size ≤ q) → t q ≡ m' q))

pub restored :
    (size : ℕ) (m : Memory) (src dest : ℕ) (enc : Write) (dec : Decode (Unit {0})) (bytes : List ℕ)
    → IsWidth size
    → load m src size < 256 ^ size
    → Emits enc bytes
    → ((rest : List ℕ) (n : ℕ) (msg : Option String) (m' : Memory) (h : Heap)
        → dec (on (bytes ++ rest) (length bytes + n) msg m' h)
          ≡ ok tt (on rest n msg (store m' dest size (load m src size)) h))
    → Restores size m src dest enc dec
unfolding store
restored size m src dest enc dec bytes width fits em runs =
    let v = load m src size in
    (
      bytes,
      em,
      λ rest n msg m' h. (
        store m' dest size v,
        runs rest n msg m' h,
        load-store m' dest size v fits,
        λ q out.
            store_bytes-outside m' dest (word_bytes size v) q (rw (length-word_bytes size v) out),
      ),
    )

module _ (m : Memory) (bytes : IsBytes m) (field : Field) (width : IsWidth field.data_size)
    (src dest : ℕ) where
  abbrev word : ℕ
  word = load m src field.data_size

  word_fits : word < 256 ^ field.data_size
  word_fits = load-lt m src bytes width

  -- `pb_dec_uvarint` restores every word of a memory of bytes that `pb_enc_uvarint` encoded, for
  -- fields of 1, 2, 4 and 8 bytes; it changes nothing outside the word.
  pub pb_dec_uvarint-pb_enc_uvarint :
      Restores field.data_size m src dest (pb_enc_uvarint m field src) (pb_dec_uvarint field dest)
  pb_dec_uvarint-pb_enc_uvarint =
      restored field.data_size m src dest _ (pb_dec_uvarint field dest) (varint_bytes word) width
        word_fits (pb_enc_uvarint-word m field width src)
        (pb_dec_uvarint-word field width dest word word_fits)

  -- `pb_dec_varint` restores every word of a memory of bytes that `pb_enc_varint` encoded, for
  -- signed integers of 1, 2, 4 and 8 bytes, which are written with their sign extended to 64
  -- bits; it changes nothing outside the word.
  pub pb_dec_varint-pb_enc_varint :
      Restores field.data_size m src dest (pb_enc_varint m field src) (pb_dec_varint field dest)
  pb_dec_varint-pb_enc_varint =
      restored field.data_size m src dest _ (pb_dec_varint field dest)
        (varint_bytes (sign_extend field.data_size word)) width word_fits
        (pb_enc_varint-word m field width src) (pb_dec_varint-word field width dest word word_fits)

  -- `pb_dec_svarint` restores every word of a memory of bytes that `pb_enc_svarint` encoded, for
  -- signed integers of 1, 2, 4 and 8 bytes, which are written in zigzag order; it changes
  -- nothing outside the word.
  pub pb_dec_svarint-pb_enc_svarint :
      Restores field.data_size m src dest (pb_enc_svarint m field src) (pb_dec_svarint field dest)
  pb_dec_svarint-pb_enc_svarint =
      restored field.data_size m src dest _ (pb_dec_svarint field dest)
        (varint_bytes (zigzag (sign_extend field.data_size word))) width word_fits
        (pb_enc_svarint-word m field width src)
        (pb_dec_svarint-word field width dest word word_fits)
