-- ===== src/Struct/Encode.antt =====
-- `pb_encode` of nanopb/pb_encode.c on a struct whose fields are required.
use pincushion.Prelude.{ℕ, zero, suc, ◌+◌, ◌^◌, ◌<◌, ◌≡◌, refl, sym, arith, List, []}
use pincushion.Prelude.{◌∷◌, ◌++◌, length, All, some, ◌==◌, false}
use pincushion.Ostream.Write.{Emits, Emits-seq}
use pincushion.Ostream.Write.{pure-Emits}
use pincushion.Varint.{varint_bytes}
use pincushion.Wire.{tag_value}
use pincushion.Field.{Field, FieldIter, pos, ltype, ltype_extension}
use pincushion.Field.{pb_field_iter_begin}
use pincushion.Field.Walk.{IsArray, walk, next-walk, next-last}
use pincushion.Encode.{Env, Submessages, pb_encoders, wire_type_for}
use pincushion.Encode.Message.{encode_one, encode_field, encode_basic_field, data_of}
use pincushion.Encode.Message.{encode_fields, pb_encode}
use pincushion.Struct.{IsRequired, extent}
use pincushion.Struct.Layout.{Stands, Stands-begin, Stands-pos, Stands-next, required-IsArray}
use pincushion.Struct.Values.{Value, Values, empty, field}
use pincushion.Struct.Values.{get_field, get_fields, wire_of_field, content_bytes}
use pincushion.Struct.Values.{fields_bytes, Holds}
use pincushion.Struct.Values.{AllHold, struct_values, values_bytes, IsMessage, Nested}
use pincushion.Struct.Encoders.{value-Emits, Holds-extension, Holds-wire, tag-Emits}

module _ (env : Env) (depth : ℕ) (subs : Submessages) (f : Field) (r : IsRequired f)
    (content : List ℕ) where
  basic-Emits :
      (p_data wiretype : ℕ)
      → 0 < p_data
      → wire_type_for (ltype f) ≡ some wiretype
      → Emits (pb_encoders env.memory subs (ltype f) f p_data) content
      → Emits
          (encode_basic_field env depth subs f p_data)
          (varint_bytes (tag_value wiretype f.tag) ++ content)
  unfolding encode_basic_field data_of
  basic-Emits p_data wiretype pos w em =
      let there : (p_data == 0) ≡ false = ground arith in
      rw (r.required, r.static, there) (Emits-seq (tag-Emits f wiretype w) em)

  one-Emits :
      (iter : FieldIter) (at wiretype : ℕ)
      → pos iter ≡ f
      → iter.p_data ≡ at
      → (ltype f ≡ ltype_extension → ⊥)
      → 0 < at
      → wire_type_for (ltype f) ≡ some wiretype
      → Emits (pb_encoders env.memory subs (ltype f) f at) content
      → Emits (encode_one env depth subs iter) (varint_bytes (tag_value wiretype f.tag) ++ content)
  unfolding encode_one encode_field
  one-Emits iter at wiretype e there kind positive w em =
      let plain : (ltype f == ltype_extension) ≡ false = ground arith in
      let basic = basic-Emits at wiretype positive w em in
      rw (e, plain, r.static) (rw (sym there) at basic)

module _ (env : Env) (depth : ℕ) (subs : Submessages) (Sub : ℕ → ℕ → Values → Type 0)
    (sub_values : ℕ → ℕ → Values) (sub_bytes : ℕ → Values → List ℕ)
    (small : (k size : ℕ) (values : Values)
      → Sub k size values
      → length (sub_bytes k values) < 2 ^ 32)
    (emits : (k size at : ℕ)
      → Sub k size (sub_values k at)
      → 0 < at
      → at + size < 2 ^ 64
      → Emits (subs k at) (sub_bytes k (sub_values k at)))
    (fields : List Field) (src : ℕ) (array : IsArray fields) where
  abbrev get : Field → ℕ → Value
  get = get_field sub_values env.memory

  here-Emits :
      (k p : ℕ) (f : Field) (rest : List Field)
      → Stands fields src k p (f ∷ rest)
      → IsRequired f
      → Holds Sub f (get f (p + f.data_offset))
      → 0 < p
      → p + extent (f ∷ rest) < 2 ^ 64
      → Emits (encode_one env depth subs (walk fields src k)) (
          varint_bytes (tag_value (wire_of_field (ltype f)) f.tag)
          ++ content_bytes sub_bytes f (get f (p + f.data_offset)))
  unfolding extent
  here-Emits k p f rest s r holds positive room =
      let at = p + f.data_offset in
      let v = get f at in
      one-Emits env depth subs f r (content_bytes sub_bytes f v) (walk fields src k) at
        (wire_of_field (ltype f)) (Stands-pos fields src k p f rest s) s.here
        (Holds-extension Sub f v holds) (omega arith) (Holds-wire Sub f v holds)
        (value-Emits env.memory subs Sub sub_values sub_bytes small emits f at v holds refl r.static
          (omega arith) (omega arith))

  -- The loop, from the position of a field on.
  fields-Emits :
      (rest : List Field) (k p : ℕ) (f : Field)
      → Stands fields src k p (f ∷ rest)
      → AllHold (Holds Sub) (f ∷ rest) (get_fields get p (f ∷ rest))
      → 0 < p
      → p + extent (f ∷ rest) < 2 ^ 64
      → Emits
          (encode_fields (encode_one env depth subs) (suc (length rest)) (walk fields src k))
          (fields_bytes sub_bytes (f ∷ rest) (get_fields get p (f ∷ rest)))
  unfolding encode_fields fields_bytes get_fields extent
  fields-Emits [] k p f s (r, holds, all) positive room =
      let last : suc k ≡ length fields = omega (arith, s.len) in
      rw (next-last fields src array k last)
        (Emits-seq (here-Emits k p f [] s r holds positive room) pure-Emits)
  fields-Emits (g ∷ rest) k p f s (r, holds, all) positive room =
      let more : suc k < length fields = omega (arith, s.len) in
      let p' = p + f.data_offset + f.data_size in
      let next = Stands-next fields src k p f (g ∷ rest) s r room in
      rw (next-walk fields src array k more) (
        Emits-seq (here-Emits k p f (g ∷ rest) s r holds positive room)
          (fields-Emits rest (suc k) p' g next all (omega arith) (omega arith)))

pub AllHold-IsRequired :
    (One : Field → Value → Type 0) (fields : List Field) (values : Values)
    → AllHold One fields values
    → All IsRequired fields
AllHold-IsRequired One [] values all = tt
AllHold-IsRequired One (f ∷ fields) empty all = elim all [ ]
AllHold-IsRequired One (f ∷ fields) (field v values) (r, one, all) =
    (r, AllHold-IsRequired One fields values all)

-- `pb_encode` refines the abstract encoder: for a struct of required numbers, strings, bytes and messages that fit their
-- fields, with distinct tags below 2 ^ 29 and nested no deeper than `depth`, that neither starts at NULL nor ends beyond
-- 2 ^ 64, it writes the tag and the value of each field in order, messages behind their length, on a stream that
-- counts and into a buffer with room. A buffer without room makes it return false, where the sizes are below 2 ^ 63.
pub pb_encode-Emits :
    (env : Env) (depth : ℕ) (fields : List Field) (src_struct : ℕ)
    → let values = struct_values env.messages depth env.memory fields src_struct in
      IsMessage env.messages depth fields values
      → 0 < src_struct
      → src_struct + extent fields < 2 ^ 64
      → Emits
          (pb_encode env depth fields src_struct)
          (values_bytes env.messages depth fields values)
unfolding pb_encode struct_values values_bytes fields_bytes get_fields pb_field_iter_begin walk
pb_encode-Emits env zero fields src is positive room = elim is [ ]
pb_encode-Emits env (suc depth) [] src is positive room = pure-Emits
pb_encode-Emits env (suc depth) (f ∷ rest) src (distinct, all) positive room =
    let fields = f ∷ rest in
    let messages = env.messages in
    let Sub = Nested messages depth in
    let sub_values = λ (k at : ℕ). struct_values messages depth env.memory (messages k) at in
    let sub_bytes = λ (k : ℕ) (sub : Values). values_bytes messages depth (messages k) sub in
    let subs = λ (k p : ℕ). pb_encode env depth (messages k) p in
    let values = get_fields (get_field sub_values env.memory) src fields in
    let some_tag : (f.tag == 0) ≡ false = let t = all.0.positive in ground arith in
    let array = required-IsArray fields (AllHold-IsRequired (Holds Sub) fields values all) in
    rw some_tag (
      fields-Emits env (suc depth) subs Sub sub_values sub_bytes (λ k size vs s. s.1)
        (λ k size at s pos below.
          pb_encode-Emits env depth (messages k) at s.2 pos (omega (arith, s.0)))
        fields src array rest 0 src f (Stands-begin fields src room) all positive room)
