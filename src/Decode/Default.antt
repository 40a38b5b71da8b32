-- ===== src/Decode/Default.antt =====
-- nanopb/pb_decode.c: `pb_field_set_to_default` and `pb_message_set_to_defaults`. `depth` bounds the nesting
-- of messages and the length of a chain of extensions.
use pincushion.Prelude.{ℕ, zero, suc, ◌&&◌, ◌||◌, not, List, length, take}
use pincushion.Prelude.{◌==◌, if◌then◌else◌, replicate}
use pincushion.Memory.{Memory, load_pointer, store, store_bytes, pointer_size}
use pincushion.Field.{Field, FieldIter, null, submsg, initial, ltype, htype, atype, pos}
use pincushion.Field.{ltype_extension, ltype_submessage, htype_optional, htype_repeated}
use pincushion.Field.{htype_oneof}
use pincushion.Field.{atype_static, atype_pointer, pb_field_iter_begin, nonempty}
use pincushion.Decode.Env.{Env, each_field, fields_of, iter_from_extension, next_extension}
use pincushion.Decode.Env.{found_of}

-- `memcpy` of the default value, or `memset`.
default_value : Field → ℕ → Memory → Memory
default_value field p m = elim field.ptr [
  | null ↦ store_bytes m p (replicate field.data_size 0)
  | submsg _ ↦ m
  | initial bytes ↦ store_bytes m p (take field.data_size bytes)
]

-- The part under `if (init_data)`; `message` is `pb_message_set_to_defaults`.
unfoldable pub init_data : Env → (List Field → ℕ → Memory → Memory) → FieldIter → Memory → Memory
unfolding default_value
init_data env message iter m =
    if ltype (pos iter) == ltype_submessage
    then message (fields_of env (pos iter).ptr) iter.p_data m
    else default_value (pos iter) iter.p_data m

unfoldable pub set_static : Env → (List Field → ℕ → Memory → Memory) → FieldIter → Memory → Memory
set_static env message iter m =
    if htype (pos iter) == htype_optional && not (iter.p_size == iter.p_data)
    then init_data env message iter (store m iter.p_size 1 0)
    else if htype (pos iter) == htype_repeated || htype (pos iter) == htype_oneof
    then store m iter.p_size 4 0
    else init_data env message iter m

unfoldable pub set_pointer : FieldIter → Memory → Memory
set_pointer iter m =
    let m' = store m iter.p_data pointer_size 0 in
    if htype (pos iter) == htype_repeated || htype (pos iter) == htype_oneof
    then store m' iter.p_size 4 0
    else m'

-- The loop over the extensions; `self` is `pb_field_set_to_default`.
unfoldable pub set_extensions : Env → (FieldIter → Memory → Memory) → ℕ → ℕ → Memory → Memory
set_extensions env self zero ext m = m
set_extensions env self (suc fuel) ext m =
    let cleared = store m (found_of ext) 1 0 in
    let m' = self (iter_from_extension env cleared ext) cleared in
    let rest = set_extensions env self fuel (next_extension m' ext) m' in
    if ext == 0 then m else rest

-- `pb_message_set_to_defaults`, where `self` is `pb_field_set_to_default`.
unfoldable pub set_message : (FieldIter → Memory → Memory) → List Field → ℕ → Memory → Memory
set_message self fields dest_struct m =
    let iter = pb_field_iter_begin fields dest_struct in
    if nonempty iter then each_field self (length fields) iter m else m

unfoldable pub pb_field_set_to_default : Env → ℕ → FieldIter → Memory → Memory
pb_field_set_to_default env zero iter m = m
pb_field_set_to_default env (suc depth) iter m =
    let self = pb_field_set_to_default env depth in
    if ltype (pos iter) == ltype_extension
    then set_extensions env self (suc depth) (load_pointer m iter.p_data) m
    else if atype (pos iter) == atype_static
    then set_static env (set_message self) iter m
    else if atype (pos iter) == atype_pointer
    then set_pointer iter m
    else m

unfoldable pub pb_message_set_to_defaults : Env → ℕ → List Field → ℕ → Memory → Memory
pb_message_set_to_defaults env depth = set_message (pb_field_set_to_default env depth)
