-- ===== src/Encode/Array.antt =====
-- nanopb/pb_encode.c: `encode_array`.
use pincushion.Prelude.{ℕ, zero, suc, ◌+◌, ◌*◌, ◌&&◌, ◌||◌, not, []}
use pincushion.Prelude.{ltb, leb, ◌==◌, if◌then◌else◌, u64, Outcome, ok, fail, ◌>>◌, pure}
use pincushion.Memory.{Memory, load_pointer}
use pincushion.Ostream.{Ostream, Write, pb_write, pb_ostream_sizing, is_sizing}
use pincushion.Ostream
use pincushion.Varint.{pb_encode_varint}
use pincushion.Wire.{pb_encode_tag, wt_string}
use pincushion.Field.{Field, ltype, atype}
use pincushion.Field.{ltype_fixed32, ltype_fixed64, ltype_last_packable, ltype_bytes}
use pincushion.Field.{ltype_string}
use pincushion.Field.{atype_pointer}
use pincushion.Encode.{Encoder}
use pincushion.Encode.{pb_encode_tag_for_field}

-- A loop over `count` array entries, `item` for each.
unfoldable pub encode_items : (ℕ → Write) → ℕ → ℕ → ℕ → Write
encode_items item data_size zero p = pure tt
encode_items item data_size (suc count) p =
    item p >> encode_items item data_size count (p + data_size)

-- The size of a packed array; the last case runs the encoder on a stream that only counts.
unfoldable pub packed_size : Field → Encoder → ℕ → ℕ → Outcome Ostream ℕ
packed_size field func p_data count =
    if ltype field == ltype_fixed32
    then ok (u64 (4 * count)) pb_ostream_sizing
    else if ltype field == ltype_fixed64
    then ok (u64 (8 * count)) pb_ostream_sizing
    else elim (encode_items (func field) field.data_size count p_data pb_ostream_sizing) [
      | fail sizestream ↦ fail sizestream
      | ok _ sizestream ↦ ok sizestream.bytes_written sizestream
    ]

unfoldable pub packed_data : Field → Encoder → ℕ → ℕ → ℕ → Write
packed_data field func p_data count size s =
    if is_sizing s.sink
    then pb_write [] size s
    else encode_items (func field) field.data_size count p_data s

-- The packed branch of `encode_array` behind the tag.
unfoldable pub encode_packed : Field → Encoder → ℕ → ℕ → Write
encode_packed field func p_data count s = elim (packed_size field func p_data count) [
  | fail _ ↦ fail s
  | ok size _ ↦ (pb_encode_varint size >> packed_data field func p_data count size) s
]

-- One entry of an array that is not packed. In an array of strings or bytes by pointer the entry is
-- a pointer itself.
unfoldable pub encode_entry : Memory → Field → Encoder → ℕ → Write
encode_entry m field func p =
    pb_encode_tag_for_field field
    >> (if atype field == atype_pointer
          && (ltype field == ltype_string || ltype field == ltype_bytes)
        then func field (load_pointer m p)
        else func field p)

unfoldable pub encode_array : Memory → Field → ℕ → ℕ → Encoder → Write
encode_array m field p_data count func =
    if count == 0
    then pure tt
    else if not (atype field == atype_pointer) && ltb field.array_size count
    then Ostream.return_error "array max size exceeded"
    else if leb (ltype field) ltype_last_packable
    then pb_encode_tag wt_string field.tag >> encode_packed field func p_data count
    else encode_items (encode_entry m field func) field.data_size count p_data
