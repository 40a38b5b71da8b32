-- ===== src/Tests/Message.antt =====
-- nanopb/pb_decode.c on the bytes that pb_encode.c writes for a message of three fields.
use pincushion.Prelude.{◌≡◌, refl, length, ◌+◌, ◌*◌, ℕ, List, [], ◌∷◌, ok, fail, none, some}
use pincushion.Prelude.{Outcome, Bool, true}
use pincushion.Prelude.{false, String, Option}
use pincushion.Istream.{buf_read, callback, pb_read, pb_readbyte, pb_istream_from_buffer}
use pincushion.Varint.{decode_varint_loop, pb_decode_varint, decode_varint32_loop}
use pincushion.Varint.{decode_varint32_rest, pb_decode_varint32_eof, pb_decode_varint32}
use pincushion.Wire.{pb_decode_tag, pb_make_string_substream, pb_close_string_substream}
use pincushion.Memory.{load_bytes, load, store_bytes, word_bytes, store, load_pointer}
use pincushion.Field.{pb_field_iter_begin, advance, pb_field_iter_next, find_loop}
use pincushion.Field.{pb_field_iter_find}
use pincushion.Decode.{store_integer, store_by_data_size, clamp_unsigned, clamp_signed}
use pincushion.Decode.{pb_dec_varint, pb_dec_uvarint, read_to, place, terminated, pb_dec_string}
use pincushion.Decode.Env.{fields_of, each_field, close_and_return, with_substream}
use pincushion.Decode.Env.{in_substream}
use pincushion.Decode.Default.{init_data, set_static, set_message, pb_field_set_to_default}
use pincushion.Decode.Default.{pb_message_set_to_defaults}
use pincushion.Decode.Release.{release_submessages, release_items, release_message}
use pincushion.Decode.Release.{pb_release_single_field, pb_release}
use pincushion.Decode.Static.{submessage_by_ptr, pb_dec_submessage, pb_decoders}
use pincushion.Decode.Static.{decode_static_field}
use pincushion.Decode.Message.{decode_by_atype, decode_field, fixed_count_full}
use pincushion.Decode.Message.{note_fixed_count, mark, note_required, known_field}
use pincushion.Decode.Message.{decode_tagged, fields_loop}
use pincushion.Decode.Entry.{whole_words, all_seen, seek_end, required_count, check_required}
use pincushion.Decode.Entry.{check_fixed_count, decode_message, init_and_decode}
use pincushion.Decode.Entry.{pb_decode_noinit, pb_decode}
use pincushion.Field.{Field, submsg, null}
use pincushion.Decode.{State, exhausted}
use pincushion.Decode.Env.{Env}

abbrev pub number : Field
number = record {
  tag = 1;
  type = 0x01;
  data_offset = 0;
  size_offset = 0;
  data_size = 4;
  array_size = 0;
  ptr = null;
}

abbrev name : Field
name = record number { tag = 2; type = 0x06 }

abbrev inner_fields : List Field
inner_fields = number ∷ name ∷ []

abbrev inner : Field
inner = record number { tag = 3; type = 0x07; data_size = 8; ptr = submsg 0 }

abbrev pub outer_fields : List Field
outer_fields = number ∷ name ∷ inner ∷ []

abbrev pub env : Env
env = record {
  messages = λ _. inner_fields;
  extension_types = λ _. record { decode = none; arg = number };
  callbacks = λ _ _ _. fail;
  fixed_count_size = λ depth. 1000 + 4 * depth;
}

abbrev pub start : List ℕ → State
start bytes = record {
  stream = pb_istream_from_buffer bytes (length bytes);
  memory = λ _. 77;
  heap = exhausted;
}

returned : Outcome State (Unit {0}) → Bool × List ℕ × Option String
returned (ok _ s) = (true, load_bytes s.memory 100 16, s.stream.errmsg)
returned (fail s) = (false, load_bytes s.memory 100 16, s.stream.errmsg)

abbrev complete : List ℕ
complete = 8 ∷ 150 ∷ 1 ∷ 18 ∷ 2 ∷ 97 ∷ 98 ∷ 26 ∷ 5 ∷ 8 ∷ 7 ∷ 18 ∷ 1 ∷ 120 ∷ []

-- Without the number of the inner message.
abbrev incomplete : List ℕ
incomplete = 8 ∷ 150 ∷ 1 ∷ 18 ∷ 2 ∷ 97 ∷ 98 ∷ 26 ∷ 3 ∷ 18 ∷ 1 ∷ 120 ∷ []

decode_complete :
    returned (pb_decode env 2 outer_fields 100 (start complete))
    ≡ (true, 150 ∷ 0 ∷ 0 ∷ 0 ∷ 97 ∷ 98 ∷ 0 ∷ 0 ∷ 7 ∷ 0 ∷ 0 ∷ 0 ∷ 120 ∷ 0 ∷ 0 ∷ 0 ∷ [], none)
unfolding returned buf_read callback pb_read pb_readbyte pb_istream_from_buffer decode_varint_loop
    pb_decode_varint decode_varint32_loop decode_varint32_rest pb_decode_varint32_eof
    pb_decode_varint32 pb_decode_tag pb_make_string_substream pb_close_string_substream load_bytes
    load store_bytes word_bytes store load_pointer pb_field_iter_begin advance pb_field_iter_next
    find_loop pb_field_iter_find store_integer store_by_data_size clamp_unsigned clamp_signed
    pb_dec_varint pb_dec_uvarint read_to place terminated pb_dec_string fields_of each_field
    close_and_return with_substream in_substream init_data set_static set_message
    pb_field_set_to_default pb_message_set_to_defaults release_message pb_release_single_field
    pb_release submessage_by_ptr pb_dec_submessage pb_decoders decode_static_field decode_by_atype
    decode_field fixed_count_full note_fixed_count mark note_required known_field decode_tagged
    fields_loop whole_words all_seen seek_end required_count check_required check_fixed_count
    decode_message init_and_decode pb_decode_noinit pb_decode
decode_complete = refl

decode_incomplete :
    (returned (pb_decode env 2 outer_fields 100 (start incomplete))).2
    ≡ some "missing required field"
unfolding returned release_submessages release_items buf_read callback pb_read pb_readbyte
    pb_istream_from_buffer decode_varint_loop pb_decode_varint decode_varint32_loop
    decode_varint32_rest pb_decode_varint32_eof pb_decode_varint32 pb_decode_tag
    pb_make_string_substream pb_close_string_substream load_bytes load store_bytes word_bytes store
    load_pointer pb_field_iter_begin advance pb_field_iter_next find_loop pb_field_iter_find
    store_integer store_by_data_size clamp_unsigned clamp_signed pb_dec_varint pb_dec_uvarint
    read_to place terminated pb_dec_string fields_of each_field close_and_return with_substream
    in_substream init_data set_static set_message pb_field_set_to_default pb_message_set_to_defaults
    release_message pb_release_single_field pb_release submessage_by_ptr pb_dec_submessage
    pb_decoders decode_static_field decode_by_atype decode_field fixed_count_full note_fixed_count
    mark note_required known_field decode_tagged fields_loop whole_words all_seen seek_end
    required_count check_required check_fixed_count decode_message init_and_decode pb_decode_noinit
    pb_decode
decode_incomplete = refl
