-- ===== src/Decode/KnownField.antt =====
-- What `pb_decode_noinit` of nanopb/pb_decode.c does with a required field that the message has.
use pincushion.Prelude.{ℕ, suc, ◌+◌, ◌^◌, ◌<◌, ◌≡◌, refl, arith, Bool, true, false, List, []}
use pincushion.Prelude.{none, ◌++◌}
use pincushion.Prelude.{length, Option, String}
use pincushion.Prelude.{◌==◌, inl, inr, ok, ◌>>=◌, ◌>>◌}
use pincushion.Memory.{Memory, store}
use pincushion.Istream.Read.{over}
use pincushion.Varint.{varint_bytes}
use pincushion.Wire.{tag_value, wt_varint}
use pincushion.Wire.Tags.{pb_decode_tag-tag_value}
use pincushion.Wire.Advance.{pb_decode_tag-Takes}
use pincushion.Field.{Field, FieldIter, pos, field_at, is_wanted, ltype, htype, atype}
use pincushion.Field.{ltype_uvarint, ltype_extension, htype_required, atype_static}
use pincushion.Field.{pb_field_iter_find}
use pincushion.Field.Walk.{IsArray, walk, walk-start, Finds, pb_field_iter_find-Finds}
use pincushion.Decode.{State, Heap}
use pincushion.Decode.Env.{Env}
use pincushion.Decode.Integers.{on, IsWidth, pb_dec_uvarint-varint_bytes}
use pincushion.Decode.Static.{Submessages, decode_static_field, pb_decoders}
use pincushion.Decode.Message.{Progress, decode_by_atype, decode_field, note_fixed_count}
use pincushion.Decode.Message.{note_required, known_field, decode_tagged, fields_loop}

-- The branches for a static required field.
module _ (env : Env) (depth : ℕ) (subs : Submessages) (wire_type : ℕ) (iter : FieldIter)
    (ht : htype (pos iter) ≡ htype_required) (static : atype (pos iter) ≡ atype_static) where
  in_static_field :
      (s : State)
      → decode_static_field env depth subs wire_type iter s
        ≡ pb_decoders subs (ltype (pos iter)) (pos iter) iter.p_data s
  unfolding decode_static_field
  in_static_field s = rw ht refl

  in_field :
      (s t : State)
      → pb_decoders subs (ltype (pos iter)) (pos iter) iter.p_data s ≡ ok tt t
      → decode_field env depth subs wire_type iter s ≡ ok iter t
  unfolding decode_field decode_by_atype
  in_field s t e = rw (ht, static, ◌>>=◌, ◌>>◌, in_static_field s, e) refl

  noted :
      (q : Progress) (s : State)
      → note_fixed_count env depth (record q { iter = iter }) s ≡ ok (record q { iter = iter }) s
  unfolding note_fixed_count
  noted q s = rw ht refl

  in_known_field :
      (q : Progress) (s t : State)
      → pb_decoders subs (ltype (pos iter)) (pos iter) iter.p_data s ≡ ok tt t
      → known_field env depth subs wire_type (record q { iter = iter }) s
        ≡ ok (record (note_required (record q { iter = iter })) { iter = iter }) t
  unfolding known_field
  in_known_field q s t e = rw (◌>>=◌, noted q s, in_field s t e) refl

wanted_field : (f g : Field) → f ≡ g → (ltype f ≡ ltype_extension → ⊥) → is_wanted f.tag g ≡ true
wanted_field f g e lt = rw⁻¹ e (ground arith)

-- A tag has a byte at least.
pub length-tag :
    (wire_type tag : ℕ)
    → wire_type < 8
    → 0 < tag
    → tag < 2 ^ 29
    → 0 < length (varint_bytes (tag_value wire_type tag))
length-tag wire_type tag small positive most =
    let bytes = varint_bytes (tag_value wire_type tag) in
    let read = pb_decode_tag-tag_value wire_type tag [] 0 none small positive most in
    let takes = pb_decode_tag-Takes (over (bytes ++ []) (length bytes + 0) none) in
    let less : 0 < length bytes + 0 = rw read at takes in omega (arith, less)

pub pos-walk : (fields : List Field) (dest k : ℕ) → pos (walk fields dest k) ≡ field_at fields k
pos-walk fields dest k = let at = walk-start fields dest k in rw (at.0, at.2) refl

module _ (fields : List Field) (dest home target : ℕ) (array : IsArray fields)
    (from : home < length fields) (to : target < length fields) where
  -- The only field with a tag is found.
  only_found :
      (wanted : Field → Bool) (r : FieldIter × Bool)
      → wanted (field_at fields target) ≡ true
      → ((j : ℕ) → j < length fields → wanted (field_at fields j) ≡ true → j ≡ target)
      → Finds fields dest array wanted home r
      → r ≡ (walk fields dest target, true)
  only_found wanted r here only (inl (j, lt, e, w)) = let same = only j lt w in rw same at e
  only_found wanted r here only (inr (e, u)) = absurd (let no = u target to in ground arith)

  module _ (env : Env) (depth : ℕ) (subs : Submessages) (q : Progress) where
    -- The progress at the position of a field.
    abbrev pub standing_at : ℕ → Progress
    standing_at j = record q { iter = walk fields dest j }

    abbrev pub target_iter : FieldIter
    target_iter = walk fields dest target

    -- A round of the loop for a required field of the message, wherever the loop stands, where the
    -- decoder of the field reads what is behind the tag.
    pub fields_loop-known :
        (fuel wire_type : ℕ) (value rest : List ℕ) (n : ℕ) (msg : Option String) (m t : Memory)
        (h : Heap)
        → let field = pos target_iter in
          let tag = varint_bytes (tag_value wire_type field.tag) in
          (ltype field ≡ ltype_extension → ⊥)
          → htype field ≡ htype_required
          → atype field ≡ atype_static
          → wire_type < 8
          → 0 < field.tag
          → field.tag < 2 ^ 29
          → ((j : ℕ)
              → j < length fields
              → is_wanted field.tag (field_at fields j) ≡ true
              → j ≡ target)
          → pb_decoders subs
              (ltype field)
              field
              target_iter.p_data
              (on (value ++ rest) (length value + n) msg m h)
            ≡ ok tt (on rest n msg t h)
          → fields_loop env depth subs
              (suc fuel)
              (standing_at home)
              (on (tag ++ (value ++ rest)) (length tag + (length value + n)) msg m h)
            ≡ fields_loop env depth subs fuel
                (record (note_required (standing_at target)) { iter = target_iter })
                (on rest n msg t h)
    unfolding fields_loop decode_tagged
    fields_loop-known fuel wire_type value rest n msg m t h lt ht static small positive most only
          decoded =
        let field = pos target_iter in
        let tag = varint_bytes (tag_value wire_type field.tag) in
        let read =
          pb_decode_tag-tag_value wire_type field.tag (value ++ rest) (length value + n) msg small
            positive most in
        let at = pos-walk fields dest target in
        let wanted : is_wanted field.tag (field_at fields target) ≡ true =
          wanted_field field (field_at fields target) at lt in
        let found =
          only_found (is_wanted field.tag) (pb_field_iter_find (walk fields dest home) field.tag)
            wanted only (pb_field_iter_find-Finds fields dest array field.tag home from) in
        let known =
          in_known_field env depth subs wire_type target_iter ht static q
            (on (value ++ rest) (length value + n) msg m h) (on rest n msg t h) decoded in
        let some_tag = length-tag wire_type field.tag small positive most in
        let some_left : (length tag + (length value + n) == 0) ≡ false = ground arith in
        rw (some_left, read, found, known) refl

    -- A required unsigned integer of the message is decoded to its place, wherever the loop stands: a round of the loop of
    -- `pb_decode_noinit` on what `pb_encode_tag` and `pb_encode_varint` write for it, a number that fits its
    -- `data_size` of 1, 2, 4 or 8 bytes, stores it at the address of the field, sets the bit of the
    -- field and leaves the stream behind the number. No other field has the tag.
    pub fields_loop-uvarint :
        (fuel : ℕ) (rest : List ℕ) (n v : ℕ) (msg : Option String) (m : Memory) (h : Heap)
        → let field = pos target_iter in
          let tag = varint_bytes (tag_value wt_varint field.tag) in
          let value = varint_bytes v in
          ltype field ≡ ltype_uvarint
          → htype field ≡ htype_required
          → atype field ≡ atype_static
          → IsWidth field.data_size
          → 0 < field.tag
          → field.tag < 2 ^ 29
          → ((j : ℕ)
              → j < length fields
              → is_wanted field.tag (field_at fields j) ≡ true
              → j ≡ target)
          → v < 2 ^ 64
          → v < 256 ^ field.data_size
          → fields_loop env depth subs
              (suc fuel)
              (standing_at home)
              (on (tag ++ (value ++ rest)) (length tag + (length value + n)) msg m h)
            ≡ fields_loop env depth subs fuel
                (record (note_required (standing_at target)) { iter = target_iter })
                (on rest n msg (store m target_iter.p_data field.data_size v) h)
    unfolding pb_decoders
    fields_loop-uvarint fuel rest n v msg m h lt ht static width positive most only low fits =
        fields_loop-known fuel wt_varint (varint_bytes v) rest n msg m
          (store m target_iter.p_data (pos target_iter).data_size v) h (λ e. omega (arith, lt)) ht
          static (omega arith) positive most only
          (rw lt (
            (pb_dec_uvarint-varint_bytes (pos target_iter) target_iter.p_data rest n msg m h v width
                low).0
              fits))
