-- ===== src/Decode/Fixed.antt =====
-- Fields of 32 and 64 bits: what the encoder of a field writes, its decoder puts into memory.
use pincushion.Prelude.{ℕ, ◌+◌, ◌^◌, ◌<◌, ◌≡◌, ◌>>=◌, List, ◌++◌, length, Option, String, ok}
use pincushion.Memory.{Memory, load, store}
use pincushion.Field.{Field}
use pincushion.Wire.{fixed32_bytes, fixed64_bytes}
use pincushion.Wire.Fixed.{pb_decode_fixed32-fixed32_bytes, pb_decode_fixed64-fixed64_bytes}
use pincushion.Wire.Fixed.{length-fixed32_bytes, length-fixed64_bytes}
use pincushion.Encode.{pb_enc_fixed32, pb_enc_fixed64}
use pincushion.Encode.Sizing.{enc_fixed32-Emits, enc_fixed64-Emits}
use pincushion.Decode.{Heap, pb_dec_fixed32, pb_dec_fixed64}
use pincushion.Decode.Integers.{on, four, eight}
use pincushion.Decode.Words.{IsBytes, load-lt}
use pincushion.Decode.RoundTrip.{Restores, restored}

-- What the decoders do with the bytes of a word.
module _ (field : Field) (dest word : ℕ) (rest : List ℕ) (n : ℕ) (msg : Option String) (m : Memory)
    (h : Heap) where
  pub pb_dec_fixed32-word :
      word < 2 ^ 32
      → let bytes = fixed32_bytes word in
        pb_dec_fixed32 field dest (on (bytes ++ rest) (length bytes + n) msg m h)
        ≡ ok tt (on rest n msg (store m dest 4 word) h)
  unfolding pb_dec_fixed32
  pb_dec_fixed32-word small =
      rw (length-fixed32_bytes word, pb_decode_fixed32-fixed32_bytes word rest n msg small, ◌>>=◌)

  pub pb_dec_fixed64-word :
      word < 2 ^ 64
      → let bytes = fixed64_bytes word in
        pb_dec_fixed64 field dest (on (bytes ++ rest) (length bytes + n) msg m h)
        ≡ ok tt (on rest n msg (store m dest 8 word) h)
  unfolding pb_dec_fixed64
  pb_dec_fixed64-word small =
      rw (length-fixed64_bytes word, pb_decode_fixed64-fixed64_bytes word rest n msg small, ◌>>=◌)

module _ (m : Memory) (bytes : IsBytes m) (field : Field) (src dest : ℕ) where
  -- `pb_dec_fixed32` restores every word of four bytes that `pb_enc_fixed32` encoded from a
  -- memory of bytes, and changes nothing outside the word.
  pub pb_dec_fixed32-pb_enc_fixed32 :
      Restores 4 m src dest (pb_enc_fixed32 m field src) (pb_dec_fixed32 field dest)
  pb_dec_fixed32-pb_enc_fixed32 =
      let small = load-lt m src bytes four in
      restored 4 m src dest _ (pb_dec_fixed32 field dest) (fixed32_bytes (load m src 4)) four small
        (enc_fixed32-Emits m field src)
        (λ rest n msg m' h. pb_dec_fixed32-word field dest (load m src 4) rest n msg m' h small)

  -- `pb_dec_fixed64` restores every word of eight bytes that `pb_enc_fixed64` encoded from a
  -- memory of bytes, and changes nothing outside the word.
  pub pb_dec_fixed64-pb_enc_fixed64 :
      Restores 8 m src dest (pb_enc_fixed64 m field src) (pb_dec_fixed64 field dest)
  pb_dec_fixed64-pb_enc_fixed64 =
      let small = load-lt m src bytes eight in
      restored 8 m src dest _ (pb_dec_fixed64 field dest) (fixed64_bytes (load m src 8)) eight small
        (enc_fixed64-Emits m field src)
        (λ rest n msg m' h. pb_dec_fixed64-word field dest (load m src 8) rest n msg m' h small)
