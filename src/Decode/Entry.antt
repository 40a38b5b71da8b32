-- ===== src/Decode/Entry.antt =====
-- nanopb/pb_decode.c: the end of `pb_decode_noinit`, and its callers. `depth` bounds the nesting of messages and the
-- length of a chain of extensions.
use pincushion.Prelude.{ℕ, zero, suc, ◌+◌, ◌-◌, ◌^◌, Bool, true, false, ◌&&◌, not, List, []}
use pincushion.Prelude.{◌∷◌, length}
use pincushion.Prelude.{◌==◌, if◌then◌else◌, ltb, ok, fail, ◌>>◌, ◌>>=◌, none}
use pincushion.Prelude.{get_or, bit_and, ◌>>>◌}
use pincushion.Field.{Field, FieldIter, htype, pos, htype_required, pb_field_iter_begin}
use pincushion.Field.{pb_field_iter_next}
use pincushion.Decode.{Decode, return_error}
use pincushion.Decode.Env.{Env, put, in_substream}
use pincushion.Decode.Default.{pb_message_set_to_defaults}
use pincushion.Decode.Release.{pb_release}
use pincushion.Decode.Static.{Submessages}
use pincushion.Decode.Message.{Progress, fields_loop, fixed_count_full, max_required_fields}

-- `allbits`
abbrev pub all_bits : ℕ
all_bits = 2 ^ 32 - 1

-- "Check the whole words", from word `i` on.
unfoldable pub whole_words : List ℕ → ℕ → ℕ → Bool
whole_words seen i zero = true
whole_words seen i (suc count) =
    let rest = whole_words seen (i + 1) count in if get_or seen i 0 == all_bits then rest else false

-- Whether the bits of the first `count` required fields are set, and "check the remaining bits".
unfoldable pub all_seen : List ℕ → ℕ → Bool
unfolding whole_words
all_seen seen count =
    let rest = bit_and count 31 in
    whole_words seen 0 (count >>> 5)
    && (if rest == 0 then true else get_or seen (count >>> 5) 0 == all_bits >>> (32 - rest))

-- The do-while loop that seeks the end of the field array: `req_field_count`, the last field and the iterator.
unfoldable pub seek_end : ℕ → FieldIter → ℕ × Field × FieldIter
seek_end zero iter = (iter.required_field_index, pos iter, iter)
seek_end (suc fuel) iter =
    let (next, more) = pb_field_iter_next iter in
    let rest = seek_end fuel next in
    if more then rest else (iter.required_field_index, pos iter, next)

-- The number of required fields that are checked. From any field there are no more steps to the end than there are
-- fields.
unfoldable pub required_count : FieldIter → ℕ
unfolding seek_end
required_count iter =
    let (index, last, start) = seek_end (length iter.start) iter in
    let count =
      if htype last == htype_required && not ((pos start).tag == 0) then index + 1 else index in
    if ltb max_required_fields count then max_required_fields else count

-- "Check that all required fields were present."
unfoldable pub check_required : Progress → Decode (Unit {0})
check_required p s =
    if all_seen p.fields_seen (required_count p.iter)
    then ok tt s
    else return_error "missing required field" s

unfoldable pub check_fixed_count : Env → ℕ → Progress → Decode (Unit {0})
check_fixed_count env depth p s =
    if fixed_count_full env depth p s.memory
    then ok tt s
    else return_error "wrong size for fixed count field" s

abbrev pub first_progress : List Field → ℕ → Progress
first_progress fields dest_struct = record {
  iter = pb_field_iter_begin fields dest_struct;
  fields_seen = 0 ∷ 0 ∷ [];
  extension_range_start = 0;
  fixed_count_field = none;
}

-- The body of `pb_decode_noinit`, over the calls for submessages.
unfoldable pub decode_message : Env → ℕ → Submessages → List Field → ℕ → Decode (Unit {0})
decode_message env depth subs fields dest_struct s =
    (fields_loop env depth subs (suc s.stream.bytes_left) (first_progress fields dest_struct)
        >>= λ p. check_fixed_count env depth p >> check_required p)
      (put (env.fixed_count_size depth) 4 0 s)

-- `pb_decode`, over `pb_decode_noinit`.
unfoldable pub init_and_decode : Env → ℕ → List Field → ℕ → Decode (Unit {0}) → Decode (Unit {0})
init_and_decode env depth fields dest_struct noinit s =
    elim (noinit
      (record s { memory = pb_message_set_to_defaults env depth fields dest_struct s.memory })) [
        | ok _ t ↦ ok tt t
        | fail t ↦ fail (pb_release env depth fields dest_struct t)
      ]

unfoldable pub pb_decode_noinit : Env → ℕ → List Field → ℕ → Decode (Unit {0})
pb_decode_noinit env zero fields dest_struct = fail
pb_decode_noinit env (suc depth) fields dest_struct =
    let noinit = λ (message dest : ℕ). pb_decode_noinit env depth (env.messages message) dest in
    let init = λ (message dest : ℕ).
      init_and_decode env depth (env.messages message) dest (noinit message dest) in
    decode_message env (suc depth) (record { decode = init; decode_noinit = noinit }) fields
      dest_struct

unfoldable pub pb_decode : Env → ℕ → List Field → ℕ → Decode (Unit {0})
pb_decode env depth fields dest_struct =
    init_and_decode env depth fields dest_struct (pb_decode_noinit env depth fields dest_struct)

unfoldable pub pb_decode_delimited_noinit : Env → ℕ → List Field → ℕ → Decode (Unit {0})
pb_decode_delimited_noinit env depth fields dest_struct =
    in_substream (pb_decode_noinit env depth fields dest_struct)

unfoldable pub pb_decode_delimited : Env → ℕ → List Field → ℕ → Decode (Unit {0})
pb_decode_delimited env depth fields dest_struct =
    in_substream (pb_decode env depth fields dest_struct)

unfoldable pub pb_decode_nullterminated : Env → ℕ → List Field → ℕ → Decode (Unit {0})
pb_decode_nullterminated env depth fields dest_struct = pb_decode env depth fields dest_struct
