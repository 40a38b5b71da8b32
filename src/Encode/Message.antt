-- ===== src/Encode/Message.antt =====
-- nanopb/pb_encode.c: fields, extensions and whole messages. `depth` bounds the nesting of messages
-- and the length of a chain of extensions.
use pincushion.Prelude.{ℕ, zero, suc, ◌+◌, Bool, true, ◌||◌, not, List, [], ◌∷◌}
use pincushion.Prelude.{length, ◌==◌, if◌then◌else◌, u64, Outcome, ok, fail, ◌>>◌, pure}
use pincushion.Prelude.{Option, none, some, String}
use pincushion.Memory.{Memory, load, load_pointer}
use pincushion.Ostream.{Ostream, Write, pb_write, pb_ostream_sizing, is_sizing}
use pincushion.Ostream
use pincushion.Field.{Field, FieldIter, ltype, htype, atype, pos}
use pincushion.Field.{pb_field_iter_begin, pb_field_iter_next, nonempty}
use pincushion.Field.{ltype_extension}
use pincushion.Field.{htype_required, htype_optional, htype_repeated, htype_oneof, atype_static}
use pincushion.Field.{atype_pointer, atype_callback}
use pincushion.Encode.{Env, ExtensionType, Submessages, pb_encode_submessage}
use pincushion.Encode.{pb_encode_tag_for_field, pb_encoders}
use pincushion.Encode.Array.{encode_array}
use pincushion.Encode.Default.{pb_check_proto3_default_value}

-- The presence of a field, as `encode_basic_field` finds it: the word at `pSize`, or the flag
-- `implicit_has` that stands for it.
unfoldable pub has_field : Env → ℕ → Field → ℕ → ℕ → Bool
has_field env depth field p_data data_pointer =
    if not (field.size_offset == 0)
    then not (load env.memory (u64 (p_data + field.size_offset)) 1 == 0)
    else if atype field == atype_pointer
    then not (data_pointer == 0)
    else if htype field == htype_optional
    then not (pb_check_proto3_default_value env depth field p_data)
    else true

-- `pData` after the step for pointer fields.
unfoldable pub data_of : Memory → Field → ℕ → ℕ
data_of m field p_data = if atype field == atype_pointer then load_pointer m p_data else p_data

-- `encode_basic_field`, for the encoder of the field's type.
unfoldable pub encode_basic_field : Env → ℕ → Submessages → Field → ℕ → Write
unfolding has_field data_of
encode_basic_field env depth subs field p_data =
    let func = pb_encoders env.memory subs (ltype field) in
    let word = load env.memory (u64 (p_data + field.size_offset)) 4 in
    let p = data_of env.memory field p_data in
    let count = if field.size_offset == 0 then field.array_size else word in
    let tagged = pb_encode_tag_for_field field >> func field p in
    if htype field == htype_required
    then (if p == 0 then Ostream.return_error "missing required field" else tagged)
    else if htype field == htype_optional
    then (if has_field env depth field p_data p then tagged else pure tt)
    else if htype field == htype_repeated
    then encode_array env.memory field p count func
    else if htype field == htype_oneof
    then (if word == field.tag then tagged else pure tt)
    else Ostream.return_error "invalid field type"

unfoldable pub with_message : String → Outcome Ostream (Unit {0}) → Outcome Ostream (Unit {0})
with_message msg (ok _ s) = ok tt s
with_message msg (fail s) = Ostream.return_error msg s

-- `encode_callback_field`: a `pb_callback_t` is a function pointer and an argument.
unfoldable pub encode_callback_field : Env → Field → ℕ → Write
unfolding with_message
encode_callback_field env field p_data s =
    let function = load_pointer env.memory p_data in
    if function == 0
    then ok tt s
    else with_message "callback error" (env.callbacks function field (p_data + 8) s)

unfoldable pub encode_field : Env → ℕ → Submessages → Field → ℕ → Write
encode_field env depth subs field p_data =
    if atype field == atype_static || atype field == atype_pointer
    then encode_basic_field env depth subs field p_data
    else if atype field == atype_callback
    then encode_callback_field env field p_data
    else Ostream.return_error "invalid field type"

-- A `pb_extension_t` is its type, the address of its data, the next extension and a flag.
unfoldable pub default_extension_encoder : Env → ℕ → Submessages → ExtensionType → ℕ → Write
default_extension_encoder env depth subs type extension =
    if atype type.arg == atype_pointer
    then encode_field env depth subs type.arg (extension + 8)
    else encode_field env depth subs type.arg (load_pointer env.memory (extension + 8))

unfoldable pub encode_extension : Env → ℕ → Submessages → ExtensionType → ℕ → Write
encode_extension env depth subs type extension = elim type.encode [
  | none ↦ default_extension_encoder env depth subs type extension
  | some encode ↦ encode extension
]

unfoldable pub extension_loop : Env → ℕ → Submessages → ℕ → ℕ → Write
unfolding encode_extension
extension_loop env depth subs zero extension = fail
extension_loop env depth subs (suc fuel) extension =
    let type = env.extension_types (load_pointer env.memory extension) in
    let rest = extension_loop env depth subs fuel (load_pointer env.memory (extension + 16)) in
    if extension == 0 then pure tt else (encode_extension env depth subs type extension >> rest)

unfoldable pub encode_extension_field : Env → ℕ → Submessages → ℕ → Write
encode_extension_field env depth subs p_data =
    extension_loop env depth subs depth (load_pointer env.memory p_data)

-- The body of the loop in `pb_encode`.
unfoldable pub encode_one : Env → ℕ → Submessages → FieldIter → Write
encode_one env depth subs iter =
    if ltype (pos iter) == ltype_extension
    then encode_extension_field env depth subs iter.p_data
    else encode_field env depth subs (pos iter) iter.p_data

-- The do-while loop of `pb_encode`, a round for each field.
unfoldable pub encode_fields : (FieldIter → Write) → ℕ → FieldIter → Write
encode_fields one zero iter = fail
encode_fields one (suc fuel) iter =
    let (next, more) = pb_field_iter_next iter in
    let rest = encode_fields one fuel next in one iter >> (if more then rest else pure tt)

unfoldable pub pb_encode : Env → ℕ → List Field → ℕ → Write
pb_encode env zero fields src_struct = fail
pb_encode env (suc depth) fields src_struct =
    let iter = pb_field_iter_begin fields src_struct in
    let subs = λ (message src : ℕ). pb_encode env depth (env.messages message) src in
    if nonempty iter
    then encode_fields (encode_one env (suc depth) subs) (length fields) iter
    else pure tt

unfoldable pub pb_encode_delimited : Env → ℕ → List Field → ℕ → Write
pb_encode_delimited env depth fields src_struct =
    pb_encode_submessage (pb_encode env depth fields src_struct)

unfoldable pub pb_encode_nullterminated : Env → ℕ → List Field → ℕ → Write
pb_encode_nullterminated env depth fields src_struct =
    pb_encode env depth fields src_struct >> pb_write (0 ∷ []) 1

-- The size stored by `pb_get_encoded_size`, or none where it returns false.
unfoldable pub pb_get_encoded_size : Env → ℕ → List Field → ℕ → Option ℕ
pb_get_encoded_size env depth fields src_struct =
    elim (pb_encode env depth fields src_struct pb_ostream_sizing) [
      | fail _ ↦ none
      | ok _ stream ↦ some stream.bytes_written
    ]
