-- ===== src/Decode/Unknown.antt =====
-- What `pb_decode_noinit` of nanopb/pb_decode.c does with fields that the message does not have.
use pincushion.Prelude.{ℕ, zero, suc, ◌+◌, ◌-◌, ◌^◌, ◌<◌, ◌≡◌, refl, arith, Bool, false, List}
use pincushion.Prelude.{◌++◌, length, Option, String}
use pincushion.Prelude.{◌==◌, if◌then◌else◌, ltb, lt→ltb, Bool-cases, inl, inr, pure, ◌>>◌}
use pincushion.Memory.{Memory}
use pincushion.Istream.Read.{over}
use pincushion.Varint.{varint_bytes}
use pincushion.Wire.{Tag, tag_value, pb_skip_field}
use pincushion.Wire.Tags.{pb_decode_tag-tag_value}
use pincushion.Wire.Advance.{pb_decode_tag-Takes}
use pincushion.Wire.Skip.{Payload, pb_skip_field-Payload}
use pincushion.Field.{Field, FieldIter, field_at, is_wanted, ltype, ltype_extension}
use pincushion.Field.{pb_field_iter_find, pb_field_iter_next}
use pincushion.Field.Walk.{IsArray, walk, walk-start, Finds, search_loop, search_loop-Finds}
use pincushion.Field.Walk.{pb_field_iter_find-Finds}
use pincushion.Decode.{State, Heap, from_stream}
use pincushion.Decode.Env.{Env}
use pincushion.Decode.Integers.{on}
use pincushion.Decode.Static.{Submessages}
use pincushion.Decode.Message.{Progress, find_extension_loop, find_extension_field, try_range}
use pincushion.Decode.Message.{unknown_field, decode_tagged, fields_loop}

abbrev pub is_extension : Field → Bool
is_extension f = ltype f == ltype_extension

find_extension_loop-search_loop :
    (fuel home : ℕ) (iter : FieldIter)
    → find_extension_loop fuel home iter ≡ search_loop is_extension fuel home iter
unfolding find_extension_loop search_loop
find_extension_loop-search_loop zero home iter = refl
find_extension_loop-search_loop (suc fuel) home iter =
    rw (find_extension_loop-search_loop fuel home (pb_field_iter_next iter).0) refl

-- In a message of which no field but the terminator has tag 0, from the position of any field,
-- `find_extension_field` either stands on an extension placeholder, or is back where it was, and then the
-- message has none.
pub find_extension_field-Finds :
    (fields : List Field) (dest : ℕ) (array : IsArray fields) (home : ℕ)
    → home < length fields
    → Finds fields dest array is_extension home (find_extension_field (walk fields dest home))
unfolding find_extension_field
find_extension_field-Finds fields dest array home h =
    let at = walk-start fields dest home in
    let same = find_extension_loop-search_loop (suc (length fields)) home (walk fields dest home) in
    simp (at.0, at.2, same) (search_loop-Finds fields dest array is_extension home h)

module _ (fields : List Field) (dest home : ℕ) (array : IsArray fields)
    (inside_ : home < length fields) where
  -- A search for what no field is.
  none_found :
      (wanted : Field → Bool) (r : FieldIter × Bool)
      → ((j : ℕ) → j < length fields → wanted (field_at fields j) ≡ false)
      → Finds fields dest array wanted home r
      → r ≡ (walk fields dest home, false)
  none_found wanted r h (inl (j, lt, e, w)) = absurd (let u = h j lt in ground arith)
  none_found wanted r h (inr (e, u)) = e

  module _ (env : Env) (depth : ℕ) (subs : Submessages) (q : Progress)
      (no_extension : (j : ℕ) → j < length fields → is_extension (field_at fields j) ≡ false) where
    -- The progress at the position of a field, and where the range of the extensions starts after the search.
    abbrev pub standing : Progress
    standing = record q { iter = walk fields dest home }

    abbrev pub range_start : ℕ → ℕ
    range_start tag =
        if ltb tag q.extension_range_start then q.extension_range_start else 2 ^ 32 - 1

    unknown_field-skip :
        (t : Tag) (s : State)
        → t.tag < 2 ^ 32 - 1
        → unknown_field env depth subs t standing s
          ≡ (from_stream (pb_skip_field t.wire_type)
                >> pure (record standing { extension_range_start = range_start t.tag }))
              s
    unfolding unknown_field try_range
    unknown_field-skip t s lt =
        let alone =
          none_found is_extension (find_extension_field (walk fields dest home)) no_extension
            (find_extension_field-Finds fields dest array home inside_) in
        elim (Bool-cases (ltb t.tag q.extension_range_start)) [
          | inl e ↦ rw (alone, e) refl
          | inr e ↦ rw (alone, e, lt→ltb t.tag (2 ^ 32 - 1) lt) refl
        ]

    -- A field that the message does not have is skipped, where its content is a `Payload` of its wire type: the varint of a
    -- number below 2 ^ 64, eight bytes, bytes below 2 ^ 32 in number behind the varint of their number, or four
    -- bytes. For a positive field number below 2 ^ 29 a round of the loop of `pb_decode_noinit`, on the bytes that
    -- `pb_encode_tag` writes for the field and on its content, leaves the stream behind them, and the memory, the heap and
    -- the bitmap of required fields as they were. The message has no extension placeholder.
    pub fields_loop-unknown :
        {wire_type : ℕ} {content : List ℕ} (field_number fuel : ℕ) (rest : List ℕ) (n : ℕ)
        (msg : Option String) (m : Memory) (h : Heap)
        → Payload wire_type content
        → wire_type < 8
        → 0 < field_number
        → field_number < 2 ^ 29
        → ((j : ℕ) → j < length fields → is_wanted field_number (field_at fields j) ≡ false)
        → let tag = varint_bytes (tag_value wire_type field_number) in
          fields_loop env depth subs
            (suc fuel)
            standing
            (on (tag ++ (content ++ rest)) (length tag + (length content + n)) msg m h)
          ≡ fields_loop env depth subs fuel
              (record standing { extension_range_start = range_start field_number })
              (on rest n msg m h)
    unfolding fields_loop decode_tagged
    fields_loop-unknown {wire_type} {content} field_number fuel rest n msg m h payload small
          positive most missing =
        let t : Tag = record { wire_type = wire_type; tag = field_number } in
        let tag = varint_bytes (tag_value wire_type field_number) in
        let read =
          pb_decode_tag-tag_value wire_type field_number (content ++ rest) (length content + n) msg
            small positive most in
        let found =
          none_found (is_wanted field_number)
            (pb_field_iter_find (walk fields dest home) field_number) missing
            (pb_field_iter_find-Finds fields dest array field_number home inside_) in
        let skip =
          unknown_field-skip t (on (content ++ rest) (length content + n) msg m h) (omega arith) in
        let skipped = pb_skip_field-Payload rest n msg payload in
        let takes =
          pb_decode_tag-Takes
            (over (tag ++ (content ++ rest)) (length tag + (length content + n)) msg) in
        let less : length content + n < length tag + (length content + n) = rw read at takes in
        let some_left : (length tag + (length content + n) == 0) ≡ false = ground arith in
        rw (some_left, read, found, skip, skipped) refl
