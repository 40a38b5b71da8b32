-- ===== src/Encode.antt =====
-- nanopb/pb_encode.c from "Encode a single field" on: the message encoder over a memory.
pub mod Array
pub mod Default
pub mod Message
pub mod Sizing
pub mod Size
pub mod Contained
pub mod ContainedArray
pub mod ContainedMessage
use pincushion.Prelude.{ℕ, zero, suc, ◌+◌, ◌*◌, ◌^◌, ◌-◌, ◌/◌, Bool, true, false, ◌&&◌, ◌||◌}
use pincushion.Prelude.{not, List, []}
use pincushion.Prelude.{◌∷◌, length, ltb, leb, ◌==◌, if◌then◌else◌, u64, Outcome, ok, fail}
use pincushion.Prelude.{◌>>◌}
use pincushion.Prelude.{Action, pure, final, Option, none, some}
use pincushion.Memory.{Memory, load, load_bytes, load_pointer, pointer_size}
use pincushion.Ostream.{Ostream, Write, Sink, sizing, pb_write, pb_ostream_sizing, is_sizing}
use pincushion.Ostream
use pincushion.Varint.{pb_encode_varint}
use pincushion.Wire.{pb_encode_svarint, pb_encode_fixed32, pb_encode_fixed64, pb_encode_tag}
use pincushion.Wire.{pb_encode_string, wt_varint, wt_64bit, wt_string, wt_32bit}
use pincushion.Field.{Field, FieldIter, Ptr, null, submsg, initial, ltype, htype, atype, pos}
use pincushion.Field.{pb_field_iter_begin, pb_field_iter_next, nonempty, last_field}
use pincushion.Field.{ltype_varint, ltype_uvarint, ltype_svarint, ltype_fixed32, ltype_fixed64}
use pincushion.Field.{ltype_last_packable, ltype_bytes, ltype_string, ltype_submessage}
use pincushion.Field.{ltype_extension, ltype_fixed_length_bytes, htype_required, htype_optional}
use pincushion.Field.{htype_repeated, htype_oneof, atype_static, atype_pointer, atype_callback}

-- `pb_extension_type_t`: its encode function, or NULL for the default, and the field in `arg`.
pub record ExtensionType : Type 0 where
  pub encode : Option (ℕ → Write)
  pub arg : Field

-- What the encoder reads: the memory, the field arrays and extension types that pointers in it lead
-- to, and the functions of the user that callback fields hold.
pub record Env : Type 0 where
  pub memory : Memory
  pub messages : ℕ → List Field
  pub extension_types : ℕ → ExtensionType
  pub callbacks : ℕ → Field → ℕ → Write

-- A word of `size` bytes sign-extended to the pattern of an int64_t.
unfoldable pub sign_extend : ℕ → ℕ → ℕ
sign_extend size v = if ltb v (256 ^ size / 2) then v else u64 (v + (2 ^ 64 - 256 ^ size))

-- PB_BYTES_ARRAY_T_ALLOCSIZE: the bytes stand behind a `pb_size_t`.
abbrev pub bytes_array_allocsize : ℕ → ℕ
bytes_array_allocsize n = u64 (n + 4)

-- The loop that stands for strnlen.
unfoldable pub strnlen : Memory → ℕ → ℕ → ℕ
strnlen m zero p = 0
strnlen m (suc max_size) p =
    let rest = suc (strnlen m max_size (p + 1)) in if m p == 0 then 0 else rest

-- Functions of type `pb_encoder_t` without the stream.
abbrev pub Encoder : Type 0
Encoder = Field → ℕ → Write

-- A run of `pb_encode` on the fields of a message type, at an address.
abbrev pub Submessages : Type 0
Submessages = ℕ → ℕ → Write

-- The chain of tests on `data_size`, which `pb_enc_varint`, `pb_enc_uvarint` and `pb_enc_svarint` share:
-- `encode` is run for the size of the C integer that is read.
unfoldable pub by_data_size : (ℕ → Write) → ℕ → Write
by_data_size encode data_size =
    if data_size == 1
    then encode 1
    else if data_size == 2
    then encode 2
    else if data_size == 4
    then encode 4
    else if data_size == 8
    then encode 8
    else Ostream.return_error "invalid data_size"

module _ (m : Memory) where
  unfoldable pub pb_enc_varint : Encoder
  pb_enc_varint field src =
      by_data_size (λ size. pb_encode_varint (sign_extend size (load m src size))) field.data_size

  unfoldable pub pb_enc_uvarint : Encoder
  pb_enc_uvarint field src =
      by_data_size (λ size. pb_encode_varint (load m src size)) field.data_size

  unfoldable pub pb_enc_svarint : Encoder
  pb_enc_svarint field src =
      by_data_size (λ size. pb_encode_svarint (sign_extend size (load m src size))) field.data_size

  unfoldable pub pb_enc_fixed32 : Encoder
  pb_enc_fixed32 field src = pb_encode_fixed32 (load m src 4)

  unfoldable pub pb_enc_fixed64 : Encoder
  pb_enc_fixed64 field src = pb_encode_fixed64 (load m src 8)

  unfoldable pub pb_enc_bytes : Encoder
  pb_enc_bytes field src =
      let size = load m src 4 in
      if src == 0
      then pb_encode_string [] 0
      else if atype field == atype_static && ltb field.data_size (bytes_array_allocsize size)
      then Ostream.return_error "bytes size exceeded"
      else pb_encode_string (load_bytes m (src + 4) size) size

  unfoldable pub string_size : Field → ℕ → ℕ
  string_size field src =
      let max_size = if atype field == atype_pointer then 2 ^ 64 - 1 else field.data_size in
      if src == 0 then 0 else strnlen m max_size src

  unfoldable pub pb_enc_string : Encoder
  pb_enc_string field src =
      pb_encode_string (load_bytes m src (string_size field src)) (string_size field src)

  unfoldable pub pb_enc_fixed_length_bytes : Encoder
  pb_enc_fixed_length_bytes field src =
      pb_encode_string (load_bytes m src field.data_size) field.data_size

-- The end of `pb_encode_submessage`, on the result of the second run of `pb_encode`.
take_over : Ostream → Ostream → Ostream
take_over s sub = record s {
  bytes_written = u64 (s.bytes_written + sub.bytes_written);
  sink = sub.sink;
  errmsg = sub.errmsg;
}

with_status : Outcome Ostream (Unit {0}) → Write
with_status (ok _ _) = pure tt
with_status (fail _) = fail

unfoldable pub finish_submessage :
    ℕ → Ostream → Outcome Ostream (Unit {0}) → Outcome Ostream (Unit {0})
unfolding take_over with_status
finish_submessage size s status =
    let sub = final status in
    if sub.bytes_written == size
    then with_status status (take_over s sub)
    else Ostream.return_error "submsg size changed" (take_over s sub)

-- `pb_encode_submessage` behind the length.
unfoldable pub submessage_body : Write → ℕ → Write
submessage_body message size s =
    if is_sizing s.sink
    then pb_write [] size s
    else if ltb s.max_size (u64 (s.bytes_written + size))
    then Ostream.return_error "stream full" s
    else finish_submessage size s
        (message (record { sink = s.sink; max_size = size; bytes_written = 0; errmsg = none }))

-- `pb_encode_submessage`, where `message` is the call `pb_encode(..., fields, src_struct)`.
unfoldable pub pb_encode_submessage : Write → Write
pb_encode_submessage message s = elim (message pb_ostream_sizing) [
  | fail sub ↦ fail (record s { errmsg = sub.errmsg })
  | ok _ sub ↦ (pb_encode_varint sub.bytes_written >> submessage_body message sub.bytes_written) s
]

-- `ptr` of a submessage field is NULL or leads to the fields; a default value there is an error of
-- the field description, on which C has no defined behaviour.
unfoldable pub encode_by_ptr : Submessages → Ptr → ℕ → Write
encode_by_ptr subs null src = Ostream.return_error "invalid field descriptor"
encode_by_ptr subs (submsg message) src = pb_encode_submessage (subs message src)
encode_by_ptr subs (initial _) src = fail

unfoldable pub pb_enc_submessage : Submessages → Encoder
unfolding encode_by_ptr
pb_enc_submessage subs field src = encode_by_ptr subs field.ptr src

-- The wire type that `pb_encode_tag_for_field` chooses.
unfoldable pub wire_type_for : ℕ → Option ℕ
wire_type_for lt =
    if lt == ltype_varint || lt == ltype_uvarint || lt == ltype_svarint
    then some wt_varint
    else if lt == ltype_fixed32
    then some wt_32bit
    else if lt == ltype_fixed64
    then some wt_64bit
    else if lt == ltype_bytes
        || lt == ltype_string
        || lt == ltype_submessage
        || lt == ltype_fixed_length_bytes
    then some wt_string
    else none

unfoldable pub encode_tag_or_error : Option ℕ → ℕ → Write
encode_tag_or_error none tag = Ostream.return_error "invalid field type"
encode_tag_or_error (some wiretype) tag = pb_encode_tag wiretype tag

unfoldable pub pb_encode_tag_for_field : Field → Write
unfolding encode_tag_or_error
pb_encode_tag_for_field field = encode_tag_or_error (wire_type_for (ltype field)) field.tag

-- PB_ENCODERS. A call through the NULL entry or past the table, which C does not define, fails.
unfoldable pub pb_encoders : Memory → Submessages → ℕ → Encoder
pb_encoders m subs lt field src =
    if lt == ltype_varint
    then pb_enc_varint m field src
    else if lt == ltype_uvarint
    then pb_enc_uvarint m field src
    else if lt == ltype_svarint
    then pb_enc_svarint m field src
    else if lt == ltype_fixed32
    then pb_enc_fixed32 m field src
    else if lt == ltype_fixed64
    then pb_enc_fixed64 m field src
    else if lt == ltype_bytes
    then pb_enc_bytes m field src
    else if lt == ltype_string
    then pb_enc_string m field src
    else if lt == ltype_submessage
    then pb_enc_submessage subs field src
    else if lt == ltype_fixed_length_bytes
    then pb_enc_fixed_length_bytes m field src
    else fail
