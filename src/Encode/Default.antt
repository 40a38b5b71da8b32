-- ===== src/Encode/Default.antt =====
-- nanopb/pb_encode.c: `pb_check_proto3_default_value`.
use pincushion.Prelude.{ℕ, zero, suc, ◌+◌, Bool, true, false, ◌&&◌, not, List, []}
use pincushion.Prelude.{length, ◌==◌, if◌then◌else◌, u64}
use pincushion.Memory.{Memory, load}
use pincushion.Field.{Field, FieldIter, Ptr, null, submsg, initial, ltype, htype, atype, pos}
use pincushion.Field.{pb_field_iter_begin, pb_field_iter_next, nonempty}
use pincushion.Field.{ltype_bytes, ltype_string}
use pincushion.Field.{ltype_submessage, ltype_fixed_length_bytes}
use pincushion.Field.{htype_required, htype_optional, htype_repeated, htype_oneof, atype_static}
use pincushion.Encode.{Env}

-- The comparison with zero, byte by byte.
unfoldable pub all_zero : Memory → ℕ → ℕ → Bool
all_zero m p zero = true
all_zero m p (suc size) = let rest = all_zero m (p + 1) size in if m p == 0 then rest else false

-- The do-while loop over the fields of a submessage in `pb_check_proto3_default_value`.
unfoldable pub all_default : (Field → ℕ → Bool) → ℕ → FieldIter → Bool
all_default check zero iter = false
all_default check (suc fuel) iter =
    let (next, more) = pb_field_iter_next iter in
    let rest = all_default check fuel next in
    if not (check (pos iter) iter.p_data) then false else if more then rest else true

-- The fields that a submessage's `ptr` leads to.
fields_of : Env → Ptr → List Field
fields_of env null = []
fields_of env (submsg message) = env.messages message
fields_of env (initial _) = []

-- The part of `pb_check_proto3_default_value` for proto3 singular fields; `check` is the function
-- itself, for the fields of a submessage.
unfoldable pub check_singular : Env → (Field → ℕ → Bool) → Field → ℕ → Bool
unfolding fields_of
check_singular env check field p_data =
    let fields = fields_of env field.ptr in
    let iter = pb_field_iter_begin fields p_data in
    if atype field == atype_static && ltype field == ltype_bytes
    then load env.memory p_data 4 == 0
    else if atype field == atype_static && ltype field == ltype_string
    then env.memory p_data == 0
    else if atype field == atype_static && ltype field == ltype_fixed_length_bytes
    then field.data_size == 0
    else if atype field == atype_static && ltype field == ltype_submessage
    then (if nonempty iter then all_default check (length fields) iter else true)
    else all_zero env.memory p_data field.data_size

-- `pb_check_proto3_default_value`; `depth` bounds the nesting of messages.
unfoldable pub pb_check_proto3_default_value : Env → ℕ → Field → ℕ → Bool
pb_check_proto3_default_value env zero field p_data = false
pb_check_proto3_default_value env (suc depth) field p_data =
    let p_size = u64 (p_data + field.size_offset) in
    let singular = check_singular env (pb_check_proto3_default_value env depth) field p_data in
    if htype field == htype_required
    then false
    else if htype field == htype_repeated
    then load env.memory p_size 4 == 0
    else if htype field == htype_oneof
    then load env.memory p_size 4 == 0
    else if htype field == htype_optional && not (field.size_offset == 0)
    then load env.memory p_size 1 == 0
    else singular
