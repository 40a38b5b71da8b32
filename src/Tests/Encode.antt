-- ===== src/Tests/Encode.antt =====
-- nanopb/pb_encode.c and pb_common.c on a message of three fields, the last a message itself.
use pincushion.Prelude.{ℕ, ◌-◌, ◌≡◌, refl, arith, List, [], ◌∷◌, ◌++◌, get_or}
use pincushion.Prelude.{none, ok, pure}
use pincushion.Memory.{Memory}
use pincushion.Ostream.Write.{pure-Emits}
use pincushion.Ostream.Write.{Emits, Emits-seq, storing}
use pincushion.Field.{is_wanted, Field, null, submsg}
use pincushion.Field.Walk.{Finds, walk, IsArray, pb_field_iter_find-Finds}
use pincushion.Encode.{Env}
use pincushion.Encode.Sizing.{varint-Emits}
use pincushion.Encode.Size.{pb_encode_delimited-Emits}
use pincushion.Ostream.{pb_write, pb_ostream_from_buffer, callback}
use pincushion.Memory.{load, load_bytes, load_pointer}
use pincushion.Field.{pb_field_iter_begin, pb_field_iter_next, advance, prev_size, inside_union}
use pincushion.Field.{pb_field_iter_find}
use pincushion.Varint.{pb_encode_varint, groups, unset_last_top_bit, varint_bytes}
use pincushion.Wire.{pb_encode_tag, tag_value, pb_encode_string}
use pincushion.Encode.{encode_by_ptr, encode_tag_or_error, finish_submessage, pb_enc_submessage}
use pincushion.Encode.{pb_enc_string, pb_enc_uvarint, by_data_size, pb_encode_submessage}
use pincushion.Encode.{string_size, strnlen, submessage_body, pb_encode_tag_for_field}
use pincushion.Encode.{wire_type_for, pb_encoders}
use pincushion.Encode.Message.{pb_encode, encode_fields, encode_one, encode_field}
use pincushion.Encode.Message.{encode_basic_field, data_of}
use pincushion.Encode.Message.{pb_encode_delimited}

abbrev number : Field
number = record {
  tag = 1;
  type = 0x01;
  data_offset = 0;
  size_offset = 0;
  data_size = 4;
  array_size = 0;
  ptr = null;
}

abbrev name : Field
name = record number { tag = 2; type = 0x06 }

abbrev inner_fields : List Field
inner_fields = number ∷ name ∷ []

abbrev inner : Field
inner = record number { tag = 3; type = 0x07; data_size = 8; ptr = submsg 0 }

abbrev outer_fields : List Field
outer_fields = number ∷ name ∷ inner ∷ []

-- From address 100 on: 150, "ab", then 7 and "x".
abbrev sample : Memory
sample p = get_or (150 ∷ 0 ∷ 0 ∷ 0 ∷ 97 ∷ 98 ∷ 0 ∷ 0 ∷ 7 ∷ 0 ∷ 0 ∷ 0 ∷ 120 ∷ 0 ∷ []) (p - 100) 0

abbrev env : Env
env = record {
  memory = sample;
  messages = λ _. inner_fields;
  extension_types = λ _. record { encode = none; arg = number };
  callbacks = λ _ _ _. pure tt;
}

abbrev sample_bytes : List ℕ
sample_bytes = 8 ∷ 150 ∷ 1 ∷ 18 ∷ 2 ∷ 97 ∷ 98 ∷ 26 ∷ 5 ∷ 8 ∷ 7 ∷ 18 ∷ 1 ∷ 120 ∷ []

encodes :
    pb_encode env 2 outer_fields 100 (pb_ostream_from_buffer 14)
    ≡ ok tt (storing sample_bytes 14 14)
unfolding pb_write pb_ostream_from_buffer callback load load_bytes load_pointer pb_field_iter_begin
    pb_field_iter_next advance prev_size inside_union pb_encode_varint groups unset_last_top_bit
    varint_bytes pb_encode_tag tag_value pb_encode_string encode_by_ptr encode_tag_or_error
    finish_submessage pb_enc_submessage pb_enc_string pb_enc_uvarint by_data_size
    pb_encode_submessage string_size strnlen submessage_body pb_encode_tag_for_field wire_type_for
    pb_encoders pb_encode encode_fields encode_one encode_field encode_basic_field data_of
encodes = refl

-- The first field alone, in front of which its length of three is written.
number-Emits : Emits (pb_encode env 1 (number ∷ []) 100) (8 ∷ 150 ∷ 1 ∷ [])
unfolding pb_encode pb_field_iter_begin encode_fields encode_one encode_field encode_basic_field
    pb_encode_tag_for_field encode_tag_or_error wire_type_for pb_encode_tag tag_value pb_encoders
    pb_enc_uvarint by_data_size load data_of pb_field_iter_next varint_bytes groups
    unset_last_top_bit
number-Emits = Emits-seq (Emits-seq (varint-Emits 8) (varint-Emits 150)) pure-Emits

pb_encode_delimited-Emits_example :
    Emits (pb_encode_delimited env 1 (number ∷ []) 100) (varint_bytes 3 ++ (8 ∷ 150 ∷ 1 ∷ []))
pb_encode_delimited-Emits_example =
    pb_encode_delimited-Emits env 1 (number ∷ []) 100 (8 ∷ 150 ∷ 1 ∷ []) (omega arith) number-Emits

outer_IsArray : IsArray outer_fields
outer_IsArray = (ground arith, (ground arith, (ground arith, tt)))

pb_field_iter_find-Finds_example :
    Finds outer_fields 100 outer_IsArray
      (is_wanted 1)
      2
      (pb_field_iter_find (walk outer_fields 100 2) 1)
pb_field_iter_find-Finds_example =
    pb_field_iter_find-Finds outer_fields 100 outer_IsArray 1 2 (omega arith)
