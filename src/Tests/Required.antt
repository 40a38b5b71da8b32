-- ===== src/Tests/Required.antt =====
-- The theorems on required and on unknown fields at concrete inputs.
use pincushion.Prelude.{ℕ, suc, zero, ◌+◌, ◌-◌, ◌^◌, ◌<◌, ◌≡◌, refl, arith, [], ◌∷◌, ◌++◌}
use pincushion.Prelude.{length, min, Bool, false, none, final}
use pincushion.Varint.{varint_bytes}
use pincushion.Wire.{tag_value}
use pincushion.Wire.Skip.{integer}
use pincushion.Field.{Field, field_at, is_wanted}
use pincushion.Field.Walk.{IsArray, walk, Finds}
use pincushion.Decode.{State, exhausted}
use pincushion.Decode.Integers.{on}
use pincushion.Decode.Message.{fields_loop, find_extension_field}
use pincushion.Decode.Entry.{first_progress, decode_message, required_count}
use pincushion.Decode.RequiredRuns.{Complete, required_of}
use pincushion.Decode.SeenFields.{Result}
use pincushion.Decode.RequiredRuns.{decode_message-Complete}
use pincushion.Decode.Termination.{Runs, fields_loop-Runs}
use pincushion.Decode.RequiredCount.{required_before, required_count-walk}
use pincushion.Decode.Unknown.{is_extension, find_extension_field-Finds, standing}
use pincushion.Decode.Unknown.{fields_loop-unknown}
use pincushion.Tests.Message.{number, env, start, outer_fields}
use pincushion.Tests.Decoder.{no_messages, env-Callbacks, env-Extensions, no_messages-Nested}
use pincushion.Istream.{buf_read, callback, pb_read, pb_readbyte, pb_istream_from_buffer}
use pincushion.Varint.{decode_varint_loop, pb_decode_varint, decode_varint32_loop}
use pincushion.Varint.{decode_varint32_rest, pb_decode_varint32_eof, pb_decode_varint32}
use pincushion.Wire.{pb_decode_tag, pb_make_string_substream, pb_close_string_substream}
use pincushion.Memory.{load, store_bytes, word_bytes, store, load_pointer}
use pincushion.Field.{pb_field_iter_begin, advance, pb_field_iter_next, find_loop}
use pincushion.Field.{pb_field_iter_find}
use pincushion.Decode.{store_integer, store_by_data_size, clamp_unsigned, clamp_signed}
use pincushion.Decode.RequiredBits.{BitsOf, run-BitsOf}
use pincushion.Decode.{pb_dec_varint, pb_dec_uvarint, read_to, place, terminated, pb_dec_string}
use pincushion.Decode.Env.{fields_of, each_field, close_and_return, with_substream}
use pincushion.Decode.Env.{in_substream}
use pincushion.Decode.Default.{init_data, set_static, set_message, pb_field_set_to_default}
use pincushion.Decode.Default.{pb_message_set_to_defaults}
use pincushion.Decode.Release.{release_message}
use pincushion.Decode.Release.{pb_release_single_field, pb_release}
use pincushion.Decode.Static.{submessage_by_ptr, pb_dec_submessage, pb_decoders}
use pincushion.Decode.Static.{decode_static_field}
use pincushion.Decode.Message.{decode_by_atype, decode_field, fixed_count_full}
use pincushion.Decode.Message.{note_fixed_count, mark, note_required, known_field}
use pincushion.Decode.Message.{decode_tagged, fields_loop}
use pincushion.Decode.Entry.{whole_words, all_seen, seek_end, required_count, check_required}
use pincushion.Decode.Entry.{check_fixed_count, decode_message, init_and_decode}
use pincushion.Decode.Entry.{pb_decode_noinit, pb_decode}

abbrev one_number : State
one_number = start (8 ∷ 150 ∷ 1 ∷ [])

decode_message-Complete_example : Complete env 1 no_messages (number ∷ []) 100 one_number
unfolding decode_message buf_read callback pb_read pb_readbyte pb_istream_from_buffer
    decode_varint_loop pb_decode_varint decode_varint32_loop decode_varint32_rest
    pb_decode_varint32_eof pb_decode_varint32 pb_decode_tag pb_make_string_substream
    pb_close_string_substream load store_bytes word_bytes store load_pointer pb_field_iter_begin
    advance pb_field_iter_next find_loop pb_field_iter_find store_integer store_by_data_size
    clamp_unsigned clamp_signed pb_dec_varint pb_dec_uvarint read_to place terminated pb_dec_string
    fields_of each_field close_and_return with_substream in_substream init_data set_static
    set_message pb_field_set_to_default pb_message_set_to_defaults release_message
    pb_release_single_field pb_release submessage_by_ptr pb_dec_submessage pb_decoders
    decode_static_field decode_by_atype decode_field fixed_count_full note_fixed_count mark
    note_required known_field decode_tagged fields_loop whole_words all_seen seek_end required_count
    check_required check_fixed_count init_and_decode pb_decode_noinit pb_decode
decode_message-Complete_example =
    decode_message-Complete env 1 no_messages (number ∷ []) 100 env-Callbacks env-Extensions
      no_messages-Nested one_number
      (final (decode_message env 1 no_messages (number ∷ []) 100 one_number)) refl

abbrev one_run :
    Runs env 1 no_messages
      (first_progress (number ∷ []) 100)
      one_number
      (fields_loop env 1 no_messages 4 (first_progress (number ∷ []) 100) one_number)
unfolding pb_istream_from_buffer
one_run =
    fields_loop-Runs env 1 no_messages env-Callbacks env-Extensions no_messages-Nested 4
      (first_progress (number ∷ []) 100) one_number (omega arith)

run-BitsOf_example :
    Result
      (λ p. BitsOf (required_of env 1 no_messages one_run) p.fields_seen)
      (fields_loop env 1 no_messages 4 (first_progress (number ∷ []) 100) one_number)
run-BitsOf_example = run-BitsOf env 1 no_messages one_run refl

outer_IsArray : IsArray outer_fields
outer_IsArray =
    ((λ e. absurd (omega arith)), ((λ e. absurd (omega arith)), ((λ e. absurd (omega arith)), tt)))

required_count-walk_example :
    required_count (walk outer_fields 100 1) ≡ min 64 (required_before outer_fields 3)
required_count-walk_example = required_count-walk outer_fields 100 outer_IsArray 1 (omega arith)

find_extension_field-Finds_example :
    Finds outer_fields 100 outer_IsArray is_extension 1
      (find_extension_field (walk outer_fields 100 1))
find_extension_field-Finds_example =
    find_extension_field-Finds outer_fields 100 outer_IsArray 1 (omega arith)

-- What holds of the three fields.
each :
    (P : Field → Bool)
    → P (field_at outer_fields 0) ≡ false
    → P (field_at outer_fields 1) ≡ false
    → P (field_at outer_fields 2) ≡ false
    → (j : ℕ) → j < 3
    → P (field_at outer_fields j) ≡ false
each P a b c zero h = a
each P a b c (suc zero) h = b
each P a b c (suc (suc zero)) h = c
each P a b c (suc (suc (suc j))) h = absurd (omega arith)

-- Field 9 with the number 300.
fields_loop-unknown_example :
    let q = first_progress outer_fields 100 in
    let extension = each is_extension refl refl refl in
    let tag = varint_bytes (tag_value 0 9) in
    let content = varint_bytes 300 in
    fields_loop env 1 no_messages 2
      (standing outer_fields 100 1 outer_IsArray (omega arith) env 1 no_messages q extension)
      (on
        (tag ++ (content ++ (7 ∷ [])))
        (length tag + (length content + 0))
        none
        (λ _. 77)
        exhausted)
    ≡ fields_loop env 1 no_messages 1
        (record q { iter = walk outer_fields 100 1; extension_range_start = 2 ^ 32 - 1 })
        (on (7 ∷ []) 0 none (λ _. 77) exhausted)
fields_loop-unknown_example =
    fields_loop-unknown outer_fields 100 1 outer_IsArray (omega arith) env 1 no_messages
      (first_progress outer_fields 100) (each is_extension refl refl refl) 9 1 (7 ∷ []) 0 none
      (λ _. 77) exhausted (integer 300 (omega arith)) (omega arith) (omega arith) (omega arith)
      (each (is_wanted 9) refl refl refl)
