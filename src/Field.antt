-- ===== src/Field.antt =====
-- nanopb/pb.h and pb_common.c: field descriptions and the iterator over the fields of a message.
-- The build has PB_FIELD_32BIT, so `pb_size_t` has 32 bits.
pub mod Walk
use pincushion.Prelude.{ℕ, zero, suc, ◌+◌, ◌*◌, ◌%◌, Bool, true, false, ◌&&◌, ◌||◌, not, List}
use pincushion.Prelude.{[]}
use pincushion.Prelude.{◌∷◌, length, get_or, ◌==◌, if◌then◌else◌, bit_and, u64, ◌^◌, ◌-◌}
use pincushion.Memory.{pointer_size}

-- PB_LTYPE_*
abbrev pub ltype_varint : ℕ
ltype_varint = 0x00

abbrev pub ltype_uvarint : ℕ
ltype_uvarint = 0x01

abbrev pub ltype_svarint : ℕ
ltype_svarint = 0x02

abbrev pub ltype_fixed32 : ℕ
ltype_fixed32 = 0x03

abbrev pub ltype_fixed64 : ℕ
ltype_fixed64 = 0x04

abbrev pub ltype_last_packable : ℕ
ltype_last_packable = 0x04

abbrev pub ltype_bytes : ℕ
ltype_bytes = 0x05

abbrev pub ltype_string : ℕ
ltype_string = 0x06

abbrev pub ltype_submessage : ℕ
ltype_submessage = 0x07

abbrev pub ltype_extension : ℕ
ltype_extension = 0x08

abbrev pub ltype_fixed_length_bytes : ℕ
ltype_fixed_length_bytes = 0x09

-- PB_HTYPE_* and PB_ATYPE_*
abbrev pub htype_required : ℕ
htype_required = 0x00

abbrev pub htype_optional : ℕ
htype_optional = 0x10

abbrev pub htype_repeated : ℕ
htype_repeated = 0x20

abbrev pub htype_oneof : ℕ
htype_oneof = 0x30

abbrev pub atype_static : ℕ
atype_static = 0x00

abbrev pub atype_pointer : ℕ
atype_pointer = 0x80

abbrev pub atype_callback : ℕ
atype_callback = 0x40

-- PB_SIZE_MAX
abbrev pub pb_size_max : ℕ
pb_size_max = 2 ^ 32 - 1

-- The field `ptr`: NULL, the fields of a submessage (by the number of the message type), or a
-- default value.
pub data Ptr : Type 0 where
  null : Ptr
  submsg : ℕ → Ptr
  initial : List ℕ → Ptr

-- `pb_field_t`. The signed `size_offset` is its value modulo 2 ^ 64, as in address arithmetic.
pub record Field : Type 0 where
  pub tag : ℕ
  pub type : ℕ
  pub data_offset : ℕ
  pub size_offset : ℕ
  pub data_size : ℕ
  pub array_size : ℕ
  pub ptr : Ptr

-- PB_LTYPE, PB_HTYPE and PB_ATYPE of a field's type.
abbrev pub ltype : Field → ℕ
ltype f = bit_and f.type 0x0f

abbrev pub htype : Field → ℕ
htype f = bit_and f.type 0x30

abbrev pub atype : Field → ℕ
atype f = bit_and f.type 0xc0

-- PB_LAST_FIELD, which ends every array of fields.
abbrev pub last_field : Field
last_field = record {
  tag = 0;
  type = 0;
  data_offset = 0;
  size_offset = 0;
  data_size = 0;
  array_size = 0;
  ptr = null;
}

-- `pb_field_iter_t`. `start` is the array without its terminator, and `pos` an index into it.
pub record FieldIter : Type 0 where
  pub start : List Field
  pub index : ℕ
  pub required_field_index : ℕ
  pub dest_struct : ℕ
  pub p_data : ℕ
  pub p_size : ℕ

abbrev pub field_at : List Field → ℕ → Field
field_at fields i = get_or fields i last_field

-- `iter->pos`
abbrev pub pos : FieldIter → Field
pos iter = field_at iter.start iter.index

unfoldable pub pb_field_iter_begin : List Field → ℕ → FieldIter
pb_field_iter_begin fields dest_struct =
    let p_data = u64 (dest_struct + (field_at fields 0).data_offset) in
    record {
      start = fields;
      index = 0;
      required_field_index = 0;
      dest_struct = dest_struct;
      p_data = p_data;
      p_size = u64 (p_data + (field_at fields 0).size_offset);
    }

-- What `pb_field_iter_begin` returns.
abbrev pub nonempty : FieldIter → Bool
nonempty iter = not ((pos iter).tag == 0)

-- The size of the field that is left behind.
unfoldable pub prev_size : Field → ℕ
prev_size prev =
    if atype prev == atype_static && htype prev == htype_repeated
    then u64 (prev.data_size * prev.array_size)
    else if atype prev == atype_pointer
    then pointer_size
    else prev.data_size

-- "Don't advance pointers inside unions."
unfoldable pub inside_union : Field → Field → Bool
inside_union prev next =
    htype prev == htype_oneof && htype next == htype_oneof && next.data_offset == pb_size_max

-- The part of `pb_field_iter_next` for a field that is not the last.
unfoldable pub advance : FieldIter → FieldIter
unfolding prev_size inside_union
advance iter =
    let prev = pos iter in
    let next = field_at iter.start (iter.index + 1) in
    let moved = record iter { index = iter.index + 1 } in
    let p_data = u64 (iter.p_data + prev_size prev + next.data_offset) in
    if inside_union prev next then moved else record moved {
      required_field_index =
          if htype prev == htype_required
          then iter.required_field_index + 1
          else iter.required_field_index;
      p_data = p_data;
      p_size = u64 (p_data + next.size_offset);
    }

unfoldable pub pb_field_iter_next : FieldIter → FieldIter × Bool
pb_field_iter_next iter =
    if (pos iter).tag == 0
    then (iter, false)
    else if (field_at iter.start (iter.index + 1)).tag == 0
    then (pb_field_iter_begin iter.start iter.dest_struct, false)
    else (advance iter, true)

abbrev pub is_wanted : ℕ → Field → Bool
is_wanted tag f = f.tag == tag && not (ltype f == ltype_extension)

-- The do-while loop of `pb_field_iter_find`; `home` is the index at which it started. A round moves
-- on by one field, so as many rounds as there are fields, and one for an empty array, are enough.
unfoldable pub find_loop : ℕ → ℕ → ℕ → FieldIter → FieldIter × Bool
find_loop zero home tag iter = (iter, false)
find_loop (suc fuel) home tag iter =
    let next = (pb_field_iter_next iter).0 in
    let rest = find_loop fuel home tag next in
    if is_wanted tag (pos iter)
    then (iter, true)
    else if next.index == home
    then (next, false)
    else rest

unfoldable pub pb_field_iter_find : FieldIter → ℕ → FieldIter × Bool
pb_field_iter_find iter tag = find_loop (suc (length iter.start)) iter.index tag iter
