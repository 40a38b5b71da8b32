-- ===== src/Tests/Struct.antt =====
-- The theorems on structs whose fields are required, at a message with a number, a string, bytes and a message.
use pincushion.Prelude.{ℕ, zero, suc, ◌+◌, ◌-◌, ◌^◌, ◌<◌, ◌≡◌, refl, sym, arith, List, [], ◌∷◌}
use pincushion.Prelude.{◌++◌}
use pincushion.Prelude.{length, All, ok, none, get_or, inl, min, if◌then◌else◌}
use mathlib.Core.Path.{subst}
use pincushion.Memory.{Memory, load, load_bytes, store}
use pincushion.Prelude.{some, ◌≤◌}
use pincushion.Ostream.{pb_ostream_from_buffer}
use pincushion.Ostream.Write.{Emits, storing, Full}
use pincushion.Struct.Size.{encoding, pb_get_encoded_size-values_bytes}
use pincushion.Varint.{varint_bytes, groups, unset_last_top_bit}
use pincushion.Wire.{tag_value}
use pincushion.Field.{Field, field_at, null, submsg}
use pincushion.Encode
use pincushion.Encode.{strnlen}
use pincushion.Encode.Message.{pb_encode, pb_encode_delimited, pb_get_encoded_size}
use pincushion.Decode.{exhausted, return_error}
use pincushion.Decode.Integers.{on, two, four}
use pincushion.Decode.Entry.{pb_decode, pb_decode_noinit, pb_decode_delimited, decode_message}
use pincushion.Prelude.{every_below}
use pincushion.Struct.{IsRequired, IsDistinct, extent}
use pincushion.Struct.Numbers.{IsNumber, uvarint, svarint, wire_of, number_bytes}
use pincushion.Struct.Entries.{Entry, AreEntries, entry_bytes, put_entries, present}
use pincushion.Struct.Entries.{decode_message-entries}
use pincushion.Struct.Values.{Values, number, text, message, empty, field, is_number, is_string}
use pincushion.Struct.Values.{is_bytes, is_message, struct_values, get_field, get_fields}
use pincushion.Struct.Values.{content_bytes, fields_bytes, values_bytes, IsMessage}
use pincushion.Struct.Values.{delimited}
use pincushion.Struct.Stays.{AllClear}
use pincushion.Struct.Encode.{pb_encode-Emits}
use pincushion.Struct.RoundTrip.{Restores, pb_decode_noinit-values_bytes, written, Copied}
use pincushion.Struct.RoundTrip.{pb_decode-pb_encode, pb_decode_delimited-pb_encode_delimited}
use pincushion.Tests.Message as M
use pincushion.Tests.Decoder.{no_messages}

abbrev number_field : Field
number_field = record {
  tag = 1;
  type = 0x01;
  data_offset = 0;
  size_offset = 0;
  data_size = 4;
  array_size = 0;
  ptr = null;
}

abbrev name_field : Field
name_field = record number_field { tag = 2; type = 0x06 }

abbrev bytes_field : Field
bytes_field = record number_field { tag = 3; type = 0x05; data_size = 8 }

abbrev inner_field : Field
inner_field = record number_field { tag = 4; type = 0x07; data_size = 8; ptr = submsg 0 }

abbrev inner_fields : List Field
inner_fields = number_field ∷ name_field ∷ []

abbrev outer_fields : List Field
outer_fields = number_field ∷ name_field ∷ bytes_field ∷ inner_field ∷ []

-- From address 100 on: 150, "ab", three bytes, then 7 and "x".
abbrev sample : Memory
sample p =
    get_or
      (150 ∷ 0 ∷ 0 ∷ 0 ∷ 97 ∷ 98 ∷ 0 ∷ 0 ∷ 3 ∷ 0 ∷ 0 ∷ 0 ∷ 200 ∷ 0 ∷ 201 ∷ 0 ∷ 7 ∷ 0 ∷ 0 ∷ 0 ∷ 120
        ∷ 0 ∷ [])
      (p - 100) 0

abbrev encoder : Encode.Env
encoder = record {
  memory = sample;
  messages = λ _. inner_fields;
  extension_types = λ _. record { encode = none; arg = number_field };
  callbacks = λ _ _ _ s. ok tt s;
}

abbrev inner_values : Values
inner_values = field (number 7) (field (text (120 ∷ [])) empty)

abbrev outer_values : Values
outer_values = field (number 150) (
    field (text (97 ∷ 98 ∷ []))
      (field (text (200 ∷ 0 ∷ 201 ∷ [])) (field (message inner_values) empty)))

sample_values : struct_values (λ _. inner_fields) 2 sample outer_fields 100 ≡ outer_values
unfolding struct_values get_field get_fields load load_bytes strnlen
sample_values = refl

-- Fields with the tags 1, 2 and so on.
numbered-IsDistinct :
    (fields : List Field)
    → ((k : ℕ) → k < length fields → (field_at fields k).tag ≡ suc k)
    → IsDistinct fields
numbered-IsDistinct fields h i j lt lt' e = omega (arith, h i lt, h j lt', e)

outer-numbered : (k : ℕ) → k < 4 → (field_at outer_fields k).tag ≡ suc k
outer-numbered zero lt = refl
outer-numbered (suc zero) lt = refl
outer-numbered (suc (suc zero)) lt = refl
outer-numbered (suc (suc (suc zero))) lt = refl
outer-numbered (suc (suc (suc (suc k)))) lt = absurd (omega arith)

inner-numbered : (k : ℕ) → k < 2 → (field_at inner_fields k).tag ≡ suc k
inner-numbered zero lt = refl
inner-numbered (suc zero) lt = refl
inner-numbered (suc (suc k)) lt = absurd (omega arith)

number-IsRequired : IsRequired number_field
number-IsRequired = record {
  required = refl;
  static = refl;
  positive = omega arith;
  most = omega arith;
}

name-IsRequired : IsRequired name_field
name-IsRequired = record {
  required = refl;
  static = refl;
  positive = omega arith;
  most = omega arith;
}

bytes-IsRequired : IsRequired bytes_field
bytes-IsRequired = record {
  required = refl;
  static = refl;
  positive = omega arith;
  most = omega arith;
}

inner-IsRequired : IsRequired inner_field
inner-IsRequired = record {
  required = refl;
  static = refl;
  positive = omega arith;
  most = omega arith;
}

inner-IsMessage : IsMessage (λ _. inner_fields) 1 inner_fields inner_values
inner-IsMessage = (
  numbered-IsDistinct inner_fields inner-numbered,
  (
    number-IsRequired,
    is_number 7 (uvarint refl four) (omega arith),
    (
      name-IsRequired,
      is_string (120 ∷ []) refl (omega arith) (omega arith) ((λ e. absurd (omega arith)), tt),
      tt,
    ),
  ),
)

inner-short : length (values_bytes (λ _. inner_fields) 1 inner_fields inner_values) < 2 ^ 32
unfolding values_bytes fields_bytes content_bytes number_bytes wire_of tag_value varint_bytes groups
    unset_last_top_bit
inner-short = omega arith

outer-IsMessage : IsMessage (λ _. inner_fields) 2 outer_fields outer_values
unfolding extent
outer-IsMessage = (
  numbered-IsDistinct outer_fields outer-numbered,
  (
    number-IsRequired,
    is_number 150 (uvarint refl four) (omega arith),
    (
      name-IsRequired,
      is_string (97 ∷ 98 ∷ []) refl (omega arith) (omega arith)
          ((λ e. absurd (omega arith)), ((λ e. absurd (omega arith)), tt)),
      (
        bytes-IsRequired,
        is_bytes (200 ∷ 0 ∷ 201 ∷ []) refl (omega arith) (omega arith),
        (
          inner-IsRequired,
          is_message 0 inner_values refl refl (omega arith, inner-short, inner-IsMessage),
          tt,
        ),
      ),
    ),
  ),
)

sample-IsMessage :
    IsMessage
      (λ _. inner_fields)
      2
      outer_fields
      (struct_values (λ _. inner_fields) 2 sample outer_fields 100)
sample-IsMessage =
    subst (IsMessage (λ _. inner_fields) 2 outer_fields) (sym sample_values) outer-IsMessage

clear-200 : AllClear M.env 200 (extent outer_fields)
unfolding extent
clear-200 q lo hi depth = inl (omega arith)

room-100 : 100 + extent outer_fields < 2 ^ 64
unfolding extent
room-100 = omega arith

room-200 : 200 + extent outer_fields < 2 ^ 64
unfolding extent
room-200 = omega arith

pb_encode-Emits_example : Emits (pb_encode encoder 2 outer_fields 100) (
    values_bytes
      (λ _. inner_fields)
      2
      outer_fields
      (struct_values (λ _. inner_fields) 2 sample outer_fields 100))
pb_encode-Emits_example =
    pb_encode-Emits encoder 2 outer_fields 100 sample-IsMessage (omega arith) room-100

pb_decode_noinit-values_bytes_example :
    Restores M.env 2 outer_fields 200 outer_values
      (7 ∷ [])
      none
      (λ _. 77)
      exhausted
      (pb_decode_noinit M.env 2 outer_fields 200)
      (λ _. 77)
pb_decode_noinit-values_bytes_example =
    pb_decode_noinit-values_bytes M.env 2 outer_fields 200 outer_values outer-IsMessage room-200
      clear-200 (7 ∷ []) none (λ _. 77) exhausted

pb_decode-pb_encode_example :
    let bytes = written encoder M.env refl 2 outer_fields 100 200 in
    Emits (pb_encode encoder 2 outer_fields 100) bytes
    × Copied encoder M.env refl 2 outer_fields 100 200 (pb_decode M.env 2 outer_fields 200) bytes 0
pb_decode-pb_encode_example =
    pb_decode-pb_encode encoder M.env refl 2 outer_fields 100 200 sample-IsMessage (omega arith)
      room-100 room-200 clear-200

sample-short :
    length (
      values_bytes
        (λ _. inner_fields)
        2
        outer_fields
        (struct_values (λ _. inner_fields) 2 sample outer_fields 100))
    < 2 ^ 32
unfolding values_bytes fields_bytes content_bytes number_bytes wire_of tag_value varint_bytes groups
    unset_last_top_bit struct_values get_field get_fields load load_bytes strnlen
sample-short = omega arith

pb_get_encoded_size-values_bytes_example :
    let bytes = encoding encoder 2 outer_fields 100 in
    let run = pb_encode encoder 2 outer_fields 100 (pb_ostream_from_buffer 9) in
    (pb_get_encoded_size encoder 2 outer_fields 100 ≡ some (length bytes))
    × (length bytes ≤ 9 → run ≡ ok tt (storing bytes 9 (length bytes)))
    × (9 < length bytes → Full run)
pb_get_encoded_size-values_bytes_example =
    pb_get_encoded_size-values_bytes encoder 2 outer_fields 100 sample-IsMessage (omega arith)
      room-100 (omega (arith, sample-short)) 9 (omega arith)

pb_decode_delimited-pb_encode_delimited_example :
    let bytes = delimited (written encoder M.env refl 2 outer_fields 100 200) in
    Emits (pb_encode_delimited encoder 2 outer_fields 100) bytes
    × ((n : ℕ)
        → Copied encoder M.env refl 2 outer_fields 100 200
            (pb_decode_delimited M.env 2 outer_fields 200)
            bytes
            n)
pb_decode_delimited-pb_encode_delimited_example =
    pb_decode_delimited-pb_encode_delimited encoder M.env refl 2 outer_fields 100 200
      sample-IsMessage (omega arith) room-100 room-200 clear-200 sample-short

-- Two numbers, the second before the first and the first twice.
abbrev two_fields : List Field
two_fields = number_field ∷ record number_field { tag = 2; type = 0x02; data_size = 2 } ∷ []

abbrev three_entries : List Entry
three_entries =
    record { index = 1; word = 5 }
    ∷ record { index = 0; word = 300 }
    ∷ record { index = 0; word = 301 }
    ∷ []

two-numbered : (k : ℕ) → k < 2 → (field_at two_fields k).tag ≡ suc k
two-numbered zero lt = refl
two-numbered (suc zero) lt = refl
two-numbered (suc (suc k)) lt = absurd (omega arith)

two-IsNumber : (k : ℕ) → k < 2 → IsNumber (field_at two_fields k)
two-IsNumber zero lt = uvarint refl four
two-IsNumber (suc zero) lt = svarint refl two
two-IsNumber (suc (suc k)) lt = absurd (omega arith)

two-IsRequired : All IsRequired two_fields
two-IsRequired = (
  number-IsRequired,
  (record { required = refl; static = refl; positive = omega arith; most = omega arith }, tt),
)

room-two : 100 + extent two_fields < 2 ^ 64
unfolding extent
room-two = omega arith

three-AreEntries : AreEntries two_fields three_entries
three-AreEntries =
    ((omega arith, omega arith), ((omega arith, omega arith), ((omega arith, omega arith), tt)))

decode_message-entries_example :
    let bytes = entry_bytes two_fields three_entries in
    let start = store (λ _. 77) (M.env.fixed_count_size 1) 4 0 in
    let t = on (7 ∷ []) 0 none (put_entries two_fields 100 start three_entries) exhausted in
    decode_message M.env 1 no_messages two_fields 100
      (on (bytes ++ (7 ∷ [])) (length bytes) none (λ _. 77) exhausted)
    ≡ (if every_below (min 64 2) (λ k. present k three_entries)
        then ok tt t
        else return_error "missing required field" t)
decode_message-entries_example =
    decode_message-entries M.env 1 no_messages two_fields 100 two-IsRequired two-IsNumber
      (numbered-IsDistinct two_fields two-numbered) room-two (omega arith) three_entries
      three-AreEntries (7 ∷ []) none (λ _. 77) exhausted
