-- ===== src/Struct/Numbers.antt =====
-- Fields of the five number types of nanopb/pb.h: their bytes on the wire, and what their encoders and decoders
-- do with them.
use pincushion.Prelude.{ℕ, ◌+◌, ◌^◌, ◌<◌, ◌≡◌, refl, arith, List, ◌++◌, length, ◌==◌}
use pincushion.Prelude.{if◌then◌else◌, some, ok, Option, String}
use pincushion.Memory.{Memory, load, store}
use pincushion.Ostream.Write.{Emits}
use pincushion.Varint.{varint_bytes}
use pincushion.Wire.{zigzag, fixed32_bytes, fixed64_bytes, wt_varint, wt_64bit, wt_32bit}
use pincushion.Field.{Field, ltype, ltype_extension, ltype_varint, ltype_uvarint}
use pincushion.Field.{ltype_svarint, ltype_fixed32, ltype_fixed64}
use pincushion.Encode.{sign_extend, Submessages, pb_encoders, wire_type_for}
use pincushion.Encode.Sizing.{enc_fixed32-Emits, enc_fixed64-Emits}
use pincushion.Decode.{Heap}
use pincushion.Decode.Integers.{IsWidth, on}
use pincushion.Decode.Static
use pincushion.Decode.Static.{pb_decoders}
use pincushion.Decode.Words.{pb_enc_varint-word, pb_enc_uvarint-word, pb_enc_svarint-word}
use pincushion.Decode.Words.{pb_dec_varint-word, pb_dec_uvarint-word, pb_dec_svarint-word}
use pincushion.Decode.Fixed.{pb_dec_fixed32-word, pb_dec_fixed64-word}

-- A field of one of the five number types, with a size that its C type has.
pub data IsNumber (f : Field) : Type 0 where
  varint : ltype f ≡ ltype_varint → IsWidth f.data_size → IsNumber f
  uvarint : ltype f ≡ ltype_uvarint → IsWidth f.data_size → IsNumber f
  svarint : ltype f ≡ ltype_svarint → IsWidth f.data_size → IsNumber f
  fixed32 : ltype f ≡ ltype_fixed32 → f.data_size ≡ 4 → IsNumber f
  fixed64 : ltype f ≡ ltype_fixed64 → f.data_size ≡ 8 → IsNumber f

-- The wire type of a number.
unfoldable pub wire_of : ℕ → ℕ
wire_of lt =
    if lt == ltype_fixed32 then wt_32bit else if lt == ltype_fixed64 then wt_64bit else wt_varint

-- The bytes of a number.
unfoldable pub number_bytes : Field → ℕ → List ℕ
number_bytes f word =
    if ltype f == ltype_varint
    then varint_bytes (sign_extend f.data_size word)
    else if ltype f == ltype_uvarint
    then varint_bytes word
    else if ltype f == ltype_svarint
    then varint_bytes (zigzag (sign_extend f.data_size word))
    else if ltype f == ltype_fixed32
    then fixed32_bytes word
    else fixed64_bytes word

pub number-wire : (f : Field) → IsNumber f → wire_type_for (ltype f) ≡ some (wire_of (ltype f))
unfolding wire_type_for wire_of
number-wire f (varint e w) = rw e refl
number-wire f (uvarint e w) = rw e refl
number-wire f (svarint e w) = rw e refl
number-wire f (fixed32 e w) = rw e refl
number-wire f (fixed64 e w) = rw e refl

pub number-extension : (f : Field) → IsNumber f → ltype f ≡ ltype_extension → ⊥
number-extension f (varint e w) h = absurd (omega arith)
number-extension f (uvarint e w) h = absurd (omega arith)
number-extension f (svarint e w) h = absurd (omega arith)
number-extension f (fixed32 e w) h = absurd (omega arith)
number-extension f (fixed64 e w) h = absurd (omega arith)

module _ (m : Memory) (subs : Submessages) (f : Field) (src : ℕ) where
  pub number-Emits :
      IsNumber f
      → Emits (pb_encoders m subs (ltype f) f src) (number_bytes f (load m src f.data_size))
  unfolding pb_encoders number_bytes
  number-Emits (varint e w) = rw e (pb_enc_varint-word m f w src)
  number-Emits (uvarint e w) = rw e (pb_enc_uvarint-word m f w src)
  number-Emits (svarint e w) = rw e (pb_enc_svarint-word m f w src)
  number-Emits (fixed32 e w) = simp (e, w) (enc_fixed32-Emits m f src)
  number-Emits (fixed64 e w) = simp (e, w) (enc_fixed64-Emits m f src)

pub wire_of-lt : (lt : ℕ) → wire_of lt < 8
unfolding wire_of
wire_of-lt lt = ground arith

module _ (subs : Static.Submessages) (f : Field) (dest word : ℕ) (fits : word < 256 ^ f.data_size)
    (rest : List ℕ) (n : ℕ) (msg : Option String) (m : Memory) (h : Heap) where
  pub number-decodes :
      IsNumber f
      → let bytes = number_bytes f word in
        pb_decoders subs (ltype f) f dest (on (bytes ++ rest) (length bytes + n) msg m h)
        ≡ ok tt (on rest n msg (store m dest f.data_size word) h)
  unfolding pb_decoders number_bytes
  number-decodes (varint e w) = rw e (pb_dec_varint-word f w dest word fits rest n msg m h)
  number-decodes (uvarint e w) = rw e (pb_dec_uvarint-word f w dest word fits rest n msg m h)
  number-decodes (svarint e w) = rw e (pb_dec_svarint-word f w dest word fits rest n msg m h)
  number-decodes (fixed32 e w) =
      let small = rw w at fits in simp (e, w) (pb_dec_fixed32-word f dest word rest n msg m h small)
  number-decodes (fixed64 e w) =
      let small = rw w at fits in simp (e, w) (pb_dec_fixed64-word f dest word rest n msg m h small)
