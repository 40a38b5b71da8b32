-- ===== src/Decode/Pointers.antt =====
-- nanopb/pb_decode.c: `initialize_pointer_field` and `decode_pointer_field`.
use pincushion.Prelude.{ℕ, zero, suc, ◌+◌, ◌-◌, ◌/◌, ◌^◌, Bool, true, false, ◌&&◌, ◌||◌, not}
use pincushion.Prelude.{u32, u64}
use pincushion.Prelude.{◌==◌, if◌then◌else◌, ltb, leb, Outcome, ok, fail, ◌>>◌, some}
use pincushion.Memory.{load, load_pointer, pointer_size}
use pincushion.Istream.{Istream}
use pincushion.Wire.{wt_string}
use pincushion.Field.{FieldIter, ltype, htype, pos, ltype_bytes, ltype_string, ltype_submessage}
use pincushion.Field.{ltype_last_packable, htype_required, htype_optional, htype_repeated}
use pincushion.Field.{htype_oneof, pb_size_max}
use pincushion.Decode.{State, Decode, return_error, allocate_field}
use pincushion.Decode.Env.{Env, put, with_substream, close_and_return}
use pincushion.Decode.Release.{pb_release_single_field}
use pincushion.Decode.Static.{Submessages, Decoder, pb_decoders, item_at, reset_submessage}

unfoldable pub initialize_pointer_field : Env → ℕ → ℕ → FieldIter → State → State
initialize_pointer_field env depth p_item iter s =
    let field = pos iter in
    if ltype field == ltype_string || ltype field == ltype_bytes
    then put p_item pointer_size 0 s
    else if ltype field == ltype_submessage
    then reset_submessage env depth field p_item s
    else s

-- `*(void**)iter->pData`
abbrev pub pointed : FieldIter → State → ℕ
pointed iter s = load_pointer s.memory iter.p_data

-- `pItem` is initialized and decoded.
unfoldable pub decode_at : Env → ℕ → Decoder → FieldIter → ℕ → Decode (Unit {0})
decode_at env depth func iter p_item s =
    func (pos iter) p_item (initialize_pointer_field env depth p_item iter s)

-- "Duplicate field, have to release the old allocation first."
unfoldable pub release_duplicate : Env → ℕ → FieldIter → State → State
release_duplicate env depth iter s =
    if ltype (pos iter) == ltype_submessage && not (pointed iter s == 0)
    then pb_release_single_field env depth iter s
    else s

unfoldable pub decode_single : Env → ℕ → Decoder → FieldIter → Decode (Unit {0})
unfolding release_duplicate
decode_single env depth func iter s =
    let field = pos iter in
    let s₁ = release_duplicate env depth iter s in
    let s₂ = if htype field == htype_oneof then put iter.p_size 4 field.tag s₁ else s₁ in
    if ltype field == ltype_string || ltype field == ltype_bytes
    then func field iter.p_data s₂
    else (allocate_field iter.p_data field.data_size 1 >> λ t.
          decode_at env depth func iter (pointed iter t) t)
        s₂

-- `allocated_size` after the test at the start of a round of the loop over a packed array.
unfoldable pub grown : FieldIter → ℕ → State → ℕ
grown iter allocated s =
    if ltb allocated (load s.memory iter.p_size 4 + 1)
    then u64 (allocated + ((s.stream.bytes_left - 1) / (pos iter).data_size + 1))
    else allocated

unfoldable pub grow : FieldIter → ℕ → Decode (Unit {0})
unfolding grown
grow iter allocated s =
    if ltb allocated (load s.memory iter.p_size 4 + 1)
    then allocate_field iter.p_data (pos iter).data_size (grown iter allocated s) s
    else ok tt s

-- One entry of a packed array.
unfoldable pub packed_entry : Env → ℕ → Decoder → FieldIter → ℕ → Decode (Unit {0})
unfolding grow
packed_entry env depth func iter allocated = grow iter allocated >> λ s.
    decode_at env depth func iter (item_at iter (pointed iter s) (load s.memory iter.p_size 4)) s

-- The loop over a packed array, on the substream; `ok true` is the end at PB_SIZE_MAX entries. Each round takes a
-- byte at least, so `bytes_left` rounds are enough.
unfoldable pub entries_loop : Env → ℕ → Decoder → FieldIter → ℕ → ℕ → Decode Bool
entries_loop env depth func iter zero allocated s = ok false s
entries_loop env depth func iter (suc fuel) allocated s =
    if s.stream.bytes_left == 0
    then ok false s
    else elim (packed_entry env depth func iter allocated s) [
      | fail t ↦ fail t
      | ok _ t ↦ elim (load t.memory iter.p_size 4 == pb_size_max) [
        | true ↦ ok true t
        | false ↦
            entries_loop env depth func iter fuel (grown iter allocated s)
              (put iter.p_size 4 (u32 (load t.memory iter.p_size 4 + 1)) t)
      ]
    ]

-- What follows the loop.
unfoldable pub finish_entries : Istream → Outcome State Bool → Outcome State (Unit {0})
finish_entries parent (ok false s) = close_and_return parent (ok tt s)
finish_entries parent (ok true s) =
    close_and_return (record parent { errmsg = some "too many array entries" }) (fail s)
finish_entries parent (fail s) = close_and_return parent (fail s)

unfoldable pub decode_entries : Env → ℕ → Decoder → FieldIter → Decode (Unit {0})
unfolding finish_entries
decode_entries env depth func iter s =
    with_substream
      (λ t. entries_loop env depth func iter t.stream.bytes_left (load s.memory iter.p_size 4) t)
      finish_entries s

-- "Normal repeated field, i.e. only one item at a time."
unfoldable pub decode_entry : Env → ℕ → Decoder → FieldIter → Decode (Unit {0})
decode_entry env depth func iter s =
    let size = load s.memory iter.p_size 4 in
    if size == pb_size_max
    then return_error "too many array entries" s
    else (allocate_field iter.p_data (pos iter).data_size (u32 (size + 1)) >> λ t.
          decode_at env depth func iter
            (item_at iter (pointed iter t) (u32 (load t.memory iter.p_size 4 + (2 ^ 32 - 1)))) t)
        (put iter.p_size 4 (u32 (size + 1)) s)

unfoldable pub decode_pointer_field : Env → ℕ → Submessages → ℕ → FieldIter → Decode (Unit {0})
decode_pointer_field env depth subs wire_type iter s =
    let field = pos iter in
    let func = pb_decoders subs (ltype field) in
    if htype field == htype_required || htype field == htype_optional || htype field == htype_oneof
    then decode_single env depth func iter s
    else if htype field == htype_repeated
    then (if wire_type == wt_string && leb (ltype field) ltype_last_packable
        then decode_entries env depth func iter s
        else decode_entry env depth func iter s)
    else return_error "invalid field type" s
