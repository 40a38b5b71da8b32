-- ===== src/Decode/Static.antt =====
-- nanopb/pb_decode.c: `pb_dec_submessage`, the table PB_DECODERS, and `decode_static_field`.
use pincushion.Prelude.{ℕ, zero, suc, ◌+◌, ◌*◌, Bool, true, false, ◌&&◌, u32, u64}
use pincushion.Prelude.{◌==◌, if◌then◌else◌, ltb, leb, Outcome, ok, fail, final, replicate}
use pincushion.Memory.{load, store_bytes}
use pincushion.Istream.{Istream}
use pincushion.Wire.{wt_string}
use pincushion.Field.{Field, FieldIter, Ptr, null, submsg, initial, ltype, htype, pos}
use pincushion.Field.{ltype_varint}
use pincushion.Field.{ltype_uvarint, ltype_svarint, ltype_fixed32, ltype_fixed64, ltype_bytes}
use pincushion.Field.{ltype_string}
use pincushion.Field.{ltype_submessage, ltype_fixed_length_bytes, ltype_last_packable}
use pincushion.Field.{htype_required}
use pincushion.Field.{htype_optional, htype_repeated, htype_oneof}
use pincushion.Decode.{State, Decode, return_error, pb_dec_varint, pb_dec_uvarint}
use pincushion.Decode.{pb_dec_svarint, pb_dec_fixed32}
use pincushion.Decode.{pb_dec_fixed64, pb_dec_bytes, pb_dec_string, pb_dec_fixed_length_bytes}
use pincushion.Decode.Env.{Env, fields_of, put, inside, with_substream, in_substream}
use pincushion.Decode.Env.{close_and_return}
use pincushion.Decode.Default.{pb_message_set_to_defaults}

-- Runs of `pb_decode` and of `pb_decode_noinit` on the fields of a message type, at an address.
pub record Submessages : Type 0 where
  pub decode : ℕ → ℕ → Decode (Unit {0})
  pub decode_noinit : ℕ → ℕ → Decode (Unit {0})

-- A function of type `pb_decoder_t` without the stream.
abbrev pub Decoder : Type 0
Decoder = Field → ℕ → Decode (Unit {0})

-- What `pb_dec_submessage` does in its substream, where `ptr` is not NULL.
unfoldable pub submessage_by_ptr : Submessages → Field → ℕ → Decode (Unit {0})
submessage_by_ptr subs field dest = elim field.ptr [
  | null ↦ fail
  | initial _ ↦ fail
  | submsg message ↦
      if htype field == htype_repeated
      then subs.decode message dest
      else subs.decode_noinit message dest
]

abbrev pub is_null : Ptr → Bool
is_null null = true
is_null (submsg _) = false
is_null (initial _) = false

-- `pb_dec_submessage`; the stream is behind the length when `ptr` is tested.
unfoldable pub pb_dec_submessage : Submessages → Decoder
unfolding submessage_by_ptr
pb_dec_submessage subs field dest =
    if is_null field.ptr
    then with_substream {A = Unit {0}} fail
        (λ parent status. return_error "invalid field descriptor" (inside parent (final status)))
    else in_substream (submessage_by_ptr subs field dest)

-- PB_DECODERS. A call through the NULL entry or past the table, which C does not define, fails.
unfoldable pub pb_decoders : Submessages → ℕ → Decoder
pb_decoders subs lt field dest =
    if lt == ltype_varint
    then pb_dec_varint field dest
    else if lt == ltype_uvarint
    then pb_dec_uvarint field dest
    else if lt == ltype_svarint
    then pb_dec_svarint field dest
    else if lt == ltype_fixed32
    then pb_dec_fixed32 field dest
    else if lt == ltype_fixed64
    then pb_dec_fixed64 field dest
    else if lt == ltype_bytes
    then pb_dec_bytes field dest
    else if lt == ltype_string
    then pb_dec_string field dest
    else if lt == ltype_submessage
    then pb_dec_submessage subs field dest
    else if lt == ltype_fixed_length_bytes
    then pb_dec_fixed_length_bytes field dest
    else fail

-- `(char*)start + iter->pos->data_size * size`, where both factors have 32 bits.
abbrev pub item_at : FieldIter → ℕ → ℕ → ℕ
item_at iter start size = u64 (start + u32 ((pos iter).data_size * size))

-- The loop over a packed array, on the substream. Each round takes a byte at least, so `bytes_left` rounds are enough.
unfoldable pub packed_loop : Decoder → FieldIter → ℕ → Decode (Unit {0})
packed_loop func iter zero s = ok tt s
packed_loop func iter (suc fuel) s =
    let size = load s.memory iter.p_size 4 in
    if ltb 0 s.stream.bytes_left && ltb size (pos iter).array_size
    then elim (func (pos iter) (item_at iter iter.p_data size) s) [
      | fail t ↦ fail t
      | ok _ t ↦
          packed_loop func iter fuel (put iter.p_size 4 (u32 (load t.memory iter.p_size 4 + 1)) t)
    ]
    else ok tt s

-- What follows the loop.
unfoldable pub finish_packed : Istream → Outcome State (Unit {0}) → Outcome State (Unit {0})
finish_packed parent status =
    if (final status).stream.bytes_left == 0
    then close_and_return parent status
    else return_error "array overflow" (inside parent (final status))

unfoldable pub decode_packed : Decoder → FieldIter → Decode (Unit {0})
unfolding finish_packed
decode_packed func iter =
    with_substream (λ s. packed_loop func iter s.stream.bytes_left s) finish_packed

-- The branch for a repeated field that is not packed.
unfoldable pub decode_item : Decoder → FieldIter → Decode (Unit {0})
decode_item func iter s =
    let size = load s.memory iter.p_size 4 in
    let s' = put iter.p_size 4 (u32 (size + 1)) s in
    if leb (pos iter).array_size size
    then return_error "array overflow" s'
    else func (pos iter) (item_at iter iter.p_data size) s'

-- "We memset to zero so that any callbacks are set to NULL. Then set any default values."
unfoldable pub reset_submessage : Env → ℕ → Field → ℕ → State → State
reset_submessage env depth field p s =
    let zeroed = store_bytes s.memory p (replicate field.data_size 0) in
    record s { memory = pb_message_set_to_defaults env depth (fields_of env field.ptr) p zeroed }

unfoldable pub decode_oneof : Env → ℕ → Decoder → FieldIter → Decode (Unit {0})
decode_oneof env depth func iter s =
    let field = pos iter in
    let s' = put iter.p_size 4 field.tag s in
    if ltype field == ltype_submessage
    then func field iter.p_data (reset_submessage env depth field iter.p_data s')
    else func field iter.p_data s'

unfoldable pub decode_static_field : Env → ℕ → Submessages → ℕ → FieldIter → Decode (Unit {0})
decode_static_field env depth subs wire_type iter s =
    let field = pos iter in
    let func = pb_decoders subs (ltype field) in
    if htype field == htype_required
    then func field iter.p_data s
    else if htype field == htype_optional
    then (if iter.p_size == iter.p_data
        then func field iter.p_data s
        else func field iter.p_data (put iter.p_size 1 1 s))
    else if htype field == htype_repeated
    then (if wire_type == wt_string && leb (ltype field) ltype_last_packable
        then decode_packed func iter s
        else decode_item func iter s)
    else if htype field == htype_oneof
    then decode_oneof env depth func iter s
    else return_error "invalid field type" s
