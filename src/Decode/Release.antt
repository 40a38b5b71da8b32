-- ===== src/Decode/Release.antt =====
-- nanopb/pb_decode.c: `pb_release_single_field`, `pb_release` and `pb_release_union_field`. `depth` bounds the
-- nesting of messages and the length of a chain of extensions.
use pincushion.Prelude.{ℕ, zero, suc, ◌+◌, ◌&&◌, ◌||◌, not, List, length, u64}
use pincushion.Prelude.{◌==◌, if◌then◌else◌, ltb, ok}
use pincushion.Memory.{Memory, load, load_pointer, pointer_size}
use pincushion.Field.{Field, FieldIter, ltype, htype, atype, pos, ltype_extension}
use pincushion.Field.{ltype_submessage}
use pincushion.Field.{ltype_string, ltype_bytes, htype_repeated, htype_oneof, atype_static}
use pincushion.Field.{atype_pointer}
use pincushion.Field.{pb_field_iter_begin, pb_field_iter_find, nonempty}
use pincushion.Decode.{State, Decode, return_error, pb_free}
use pincushion.Decode.Env.{Env, each_field, fields_of, iter_from_extension, next_extension, put}

-- The loop over the extensions; `self` is `pb_release_single_field`.
unfoldable pub release_extensions : Env → (FieldIter → State → State) → ℕ → ℕ → State → State
release_extensions env self zero ext s = s
release_extensions env self (suc fuel) ext s =
    let s' = self (iter_from_extension env s.memory ext) s in
    let rest = release_extensions env self fuel (next_extension s'.memory ext) s' in
    if ext == 0 then s else rest

-- `while (count--)`, with a call of `pb_release` for each item.
unfoldable pub release_items : (ℕ → State → State) → ℕ → ℕ → ℕ → State → State
release_items message data_size zero p_item s = s
release_items message data_size (suc count) p_item s =
    release_items message data_size count (u64 (p_item + data_size)) (message p_item s)

-- The number of submessages in a field.
unfoldable pub submessage_count : FieldIter → Memory → ℕ
submessage_count iter m =
    let field = pos iter in
    let static = atype field == atype_static in
    let count =
      if static && iter.p_size == iter.p_data then field.array_size else load m iter.p_size 4 in
    if not (htype field == htype_repeated)
    then 1
    else if static && ltb field.array_size count
    then field.array_size
    else count

-- The branch for submessages; `message` is `pb_release`.
unfoldable pub release_submessages :
    Env → (List Field → ℕ → State → State) → FieldIter → State → State
unfolding submessage_count
release_submessages env message iter s =
    let field = pos iter in
    let p_item =
      if atype field == atype_pointer then load_pointer s.memory iter.p_data else iter.p_data in
    if p_item == 0
    then s
    else release_items (message (fields_of env field.ptr)) field.data_size
        (submessage_count iter s.memory) p_item s

-- "Release entries in repeated string or bytes array."
unfoldable pub release_entries : ℕ → ℕ → State → State
release_entries zero p_item s = s
release_entries (suc count) p_item s =
    release_entries count (u64 (p_item + pointer_size))
      (put p_item pointer_size 0 (pb_free (load_pointer s.memory p_item) s))

-- The branch for pointers at the end.
unfoldable pub release_pointer : FieldIter → State → State
release_pointer iter s =
    let field = pos iter in
    let repeated = htype field == htype_repeated in
    let s₁ =
      if repeated && (ltype field == ltype_string || ltype field == ltype_bytes)
      then release_entries (load s.memory iter.p_size 4) (load_pointer s.memory iter.p_data) s
      else s in
    let s₂ = if repeated then put iter.p_size 4 0 s₁ else s₁ in
    put iter.p_data pointer_size 0 (pb_free (load_pointer s₂.memory iter.p_data) s₂)

-- `pb_release`, where `self` is `pb_release_single_field`.
unfoldable pub release_message : (FieldIter → State → State) → List Field → ℕ → State → State
release_message self fields dest_struct s =
    let iter = pb_field_iter_begin fields dest_struct in
    if dest_struct == 0
    then s
    else if nonempty iter
    then each_field self (length fields) iter s
    else s

unfoldable pub pb_release_single_field : Env → ℕ → FieldIter → State → State
pb_release_single_field env zero iter s = s
pb_release_single_field env (suc depth) iter s =
    let self = pb_release_single_field env depth in
    let field = pos iter in
    let s' =
      if ltype field == ltype_extension
      then release_extensions env self (suc depth) (load_pointer s.memory iter.p_data) s
      else if ltype field == ltype_submessage
      then release_submessages env (release_message self) iter s
      else s in
    if htype field == htype_oneof && not (load s.memory iter.p_size 4 == field.tag)
    then s
    else if atype field == atype_pointer
    then release_pointer iter s'
    else s'

unfoldable pub pb_release : Env → ℕ → List Field → ℕ → State → State
pb_release env depth = release_message (pb_release_single_field env depth)

-- The iterator that `pb_release_union_field` leaves.
unfoldable pub find_again : ℕ → FieldIter → Decode FieldIter
find_again new_tag iter s =
    let (iter', found) = pb_field_iter_find iter new_tag in
    if found then ok iter' s else return_error "iterator error" s

unfoldable pub pb_release_union_field : Env → ℕ → FieldIter → Decode FieldIter
unfolding find_again
pb_release_union_field env depth iter s =
    let old_tag = load s.memory iter.p_size 4 in
    let new_tag = (pos iter).tag in
    let (old, found) = pb_field_iter_find iter old_tag in
    if old_tag == 0
    then ok iter s
    else if old_tag == new_tag
    then ok iter s
    else if found
    then find_again new_tag old (pb_release_single_field env depth old s)
    else return_error "invalid union tag" s
