-- ===== src/Encode/ContainedMessage.antt =====
-- `pb_encode` of nanopb/pb_encode.c fills a buffer no further than it may.
use pincushion.Prelude.{ℕ, zero, suc, ◌+◌, ◌^◌, ◌≤◌, ◌<◌, ◌≡◌, refl, arith, List, length, ◌==◌}
use pincushion.Prelude.{◌||◌, if◌then◌else◌, Option, none, some, String, final, Outcome-cases}
use pincushion.Prelude.{inl, inr, Bool-cases, pure}
use mathlib.Core.Path.{fun_ext}
use pincushion.Memory.{load_pointer}
use pincushion.Ostream.{Ostream, Write, pb_ostream_sizing, first_message}
use pincushion.Ostream.Contained.{filling, Within, Contained, pure-Contained, fail-Contained}
use pincushion.Ostream.Contained.{error-Contained, if-Contained, seq-Contained}
use pincushion.Field.{Field, FieldIter, pos, field_at, ltype, htype, atype, ltype_extension}
use pincushion.Field.{htype_required, htype_optional, htype_repeated, htype_oneof, atype_static}
use pincushion.Field.{atype_pointer, atype_callback, pb_field_iter_begin, pb_field_iter_next}
use pincushion.Field.{advance}
use pincushion.Field.{nonempty}
use pincushion.Encode.{Env, ExtensionType, Submessages, pb_encoders}
use pincushion.Encode.Contained.{IsModest, encoders-Contained, field_tag-Contained}
use pincushion.Encode.ContainedArray.{array-Contained}
use pincushion.Encode.Message.{has_field, data_of, encode_basic_field, with_message}
use pincushion.Encode.Message.{encode_callback_field, encode_field, default_extension_encoder}
use pincushion.Encode.Message.{encode_extension, extension_loop, encode_extension_field}
use pincushion.Encode.Message.{encode_one, encode_fields, pb_encode}

-- Sizes do not wrap, in the memory and in what the counting runs for submessages count, and the functions of the
-- user fill a buffer no further than they may.
pub record IsBounded (env : Env) : Type 0 where
  pub memory : IsModest env.memory
  pub callbacks :
      (function : ℕ) (field : Field) (arg : ℕ) → Contained (env.callbacks function field arg)
  pub extensions :
      (type : ℕ) (encode : ℕ → Write)
      → ExtensionType.encode (env.extension_types type) ≡ some encode
      → (extension : ℕ) → Contained (encode extension)
  pub args : (type : ℕ) → (env.extension_types type).arg.data_size < 2 ^ 63
  pub fields : (message i : ℕ) → (field_at (env.messages message) i).data_size < 2 ^ 63
  pub counts :
      (depth message p : ℕ)
      → (final (pb_encode env depth (env.messages message) p pb_ostream_sizing)).bytes_written
        < 2 ^ 63

with_message-Contained :
    (text : String) (w : Write) → Contained w → Contained (λ s. with_message text (w s))
unfolding with_message
with_message-Contained text w h = record {
  at = λ stored max n msg le small. elim (Outcome-cases (w (filling stored max n msg))) [
    | inl (a, t, e) ↦ rw (e, with_message) (rw e at (h.at stored max n msg le small))
    | inr (t, e) ↦
        let (more, msg', here, room) = rw e at (h.at stored max n msg le small) in
        rw (e, with_message, here) (more, first_message msg' text, refl, room)
  ];
}

-- Every field of the array has a size that does not wrap.
abbrev IsShort : FieldIter → Type 0
IsShort iter = (i : ℕ) → (field_at iter.start i).data_size < 2 ^ 63

next-IsShort : (iter : FieldIter) → IsShort iter → IsShort (pb_field_iter_next iter).0
unfolding pb_field_iter_next pb_field_iter_begin advance
next-IsShort iter h i = ground (arith, h i)

module _ (env : Env) (bounded : IsBounded env) (depth : ℕ) (subs : Submessages)
    (h : (message p : ℕ) → Contained (subs message p))
    (counts : (message p : ℕ)
      → (final (subs message p pb_ostream_sizing)).bytes_written < 2 ^ 63) where
  basic-Contained :
      (field : Field) (p_data : ℕ)
      → field.data_size < 2 ^ 63
      → Contained (encode_basic_field env depth subs field p_data)
  unfolding encode_basic_field
  basic-Contained field p_data short =
      let p = data_of env.memory field p_data in
      let each = λ (p : ℕ).
        encoders-Contained env.memory bounded.memory subs h counts field short p (ltype field) in
      let tagged = seq-Contained _ _ (field_tag-Contained field) (each p) in
      if-Contained (htype field == htype_required) _ _
        (if-Contained (p == 0) _ _ (error-Contained "missing required field") tagged)
        (if-Contained (htype field == htype_optional) _ _
          (if-Contained (has_field env depth field p_data p) _ _ tagged pure-Contained)
          (if-Contained (htype field == htype_repeated) _ _
            (array-Contained field (pb_encoders env.memory subs (ltype field)) each p _ env.memory)
            (if-Contained (htype field == htype_oneof) _ _
              (if-Contained _ _ _ tagged pure-Contained) (error-Contained "invalid field type"))))

  callback-Contained :
      (field : Field) (p_data : ℕ) → Contained (encode_callback_field env field p_data)
  unfolding encode_callback_field
  callback-Contained field p_data =
      let function = load_pointer env.memory p_data in
      rw (fun_ext split) (
        if-Contained (function == 0) _ _ pure-Contained (
          with_message-Contained "callback error" _
            (bounded.callbacks function field (p_data + 8))))
    where
      split :
          (s : Ostream)
          → encode_callback_field env field p_data s
            ≡ (if load_pointer env.memory p_data == 0 then pure tt else (λ s.
                  with_message "callback error"
                    (env.callbacks (load_pointer env.memory p_data) field (p_data + 8) s)))
                s
      split s = elim (Bool-cases (load_pointer env.memory p_data == 0)) [
        | inl e ↦ rw e
        | inr e ↦ rw e
      ]

  field-Contained :
      (field : Field) (p_data : ℕ)
      → field.data_size < 2 ^ 63
      → Contained (encode_field env depth subs field p_data)
  unfolding encode_field
  field-Contained field p_data short =
      if-Contained (atype field == atype_static || atype field == atype_pointer) _ _
        (basic-Contained field p_data short)
        (if-Contained (atype field == atype_callback) _ _ (callback-Contained field p_data)
          (error-Contained "invalid field type"))

  chosen-Contained :
      (type : ExtensionType) (extension : ℕ)
      → type.arg.data_size < 2 ^ 63
      → (encode : Option (ℕ → Write))
      → ((e : ℕ → Write) → encode ≡ some e → Contained (e extension))
      → Contained (elim encode [
        | none ↦ default_extension_encoder env depth subs type extension
        | some e ↦ e extension
      ])
  unfolding default_extension_encoder
  chosen-Contained type extension short none k =
      if-Contained (atype type.arg == atype_pointer) _ _ (field-Contained type.arg _ short)
        (field-Contained type.arg _ short)
  chosen-Contained type extension short (some e) k = k e refl

  extensions-Contained :
      (fuel extension : ℕ) → Contained (extension_loop env depth subs fuel extension)
  unfolding extension_loop encode_extension
  extensions-Contained zero extension = fail-Contained
  extensions-Contained (suc fuel) extension =
      let type = load_pointer env.memory extension in
      if-Contained (extension == 0) _ _ pure-Contained (
        seq-Contained _ _
          (chosen-Contained (env.extension_types type) extension (bounded.args type) _
            (λ e q. bounded.extensions type e q extension))
          (extensions-Contained fuel _))

  one-Contained : (iter : FieldIter) → IsShort iter → Contained (encode_one env depth subs iter)
  unfolding encode_one encode_extension_field
  one-Contained iter short =
      if-Contained (ltype (pos iter) == ltype_extension) _ _ (extensions-Contained depth _)
        (field-Contained (pos iter) iter.p_data (short iter.index))

  fields-Contained :
      (fuel : ℕ) (iter : FieldIter)
      → IsShort iter
      → Contained (encode_fields (encode_one env depth subs) fuel iter)
  unfolding encode_fields
  fields-Contained zero iter short = fail-Contained
  fields-Contained (suc fuel) iter short = seq-Contained _ _ (one-Contained iter short) (
      if-Contained _ _ _
        (fields-Contained fuel (pb_field_iter_next iter).0 (next-IsShort iter short))
        pure-Contained)

message-Contained :
    (env : Env)
    → IsBounded env
    → (depth : ℕ) (fields : List Field) (src_struct : ℕ)
    → ((i : ℕ) → (field_at fields i).data_size < 2 ^ 63)
    → Contained (pb_encode env depth fields src_struct)
unfolding pb_encode pb_field_iter_begin
message-Contained env bounded zero fields src short = fail-Contained
message-Contained env bounded (suc depth) fields src short =
    let subs = λ (message src : ℕ). pb_encode env depth (env.messages message) src in
    if-Contained (nonempty (pb_field_iter_begin fields src)) _ _
      (fields-Contained env bounded (suc depth) subs
        (λ message p.
          message-Contained env bounded depth (env.messages message) p (bounded.fields message))
        (λ message p. bounded.counts depth message p) (length fields)
        (pb_field_iter_begin fields src) short)
      pure-Contained

-- Whether it returns true or false, `pb_encode` into a buffer of fewer than 2 ^ 63 bytes keeps what the buffer holds,
-- adds bytes behind that, counts each of them, and never exceeds `max_size`. Sizes do not wrap: strings, fields and what
-- the counting runs for submessages count are below 2 ^ 63, and the memory holds bytes. The functions of the user
-- keep to the same limit.
pub pb_encode-Within :
    (env : Env)
    → IsBounded env
    → (depth : ℕ) (fields : List Field) (src_struct : ℕ)
    → ((i : ℕ) → (field_at fields i).data_size < 2 ^ 63)
    → (stored : List ℕ) (max n : ℕ) (msg : Option String) → n ≤ max
    → max < 2 ^ 63
    → Within stored max n (final (pb_encode env depth fields src_struct (filling stored max n msg)))
pb_encode-Within env bounded depth fields src short =
    (message-Contained env bounded depth fields src short).at
