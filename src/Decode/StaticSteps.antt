-- ===== src/Decode/StaticSteps.antt =====
-- `decode_static_field` of nanopb/pb_decode.c writes only to the field and to its count or flag.
use pincushion.Prelude.{ℕ, zero, suc, ◌+◌, ◌<◌, ◌≡◌, arith, true, false}
use pincushion.Prelude.{ok, fail, final, Leads, ltb, leb, ◌==◌, ◌&&◌, Outcome, inl, inr}
use pincushion.Prelude.{Bool-cases, u32}
use pincushion.Memory.{load, store, word_bytes}
use pincushion.Memory.Laws.{length-word_bytes}
use pincushion.Istream.Advance.{Advances-refl}
use pincushion.Wire.{wt_string}
use pincushion.Field.{Field, FieldIter, Ptr, null, submsg, initial, pos, ltype, htype}
use pincushion.Field.{ltype_varint, ltype_uvarint, ltype_svarint, ltype_fixed32, ltype_fixed64}
use pincushion.Field.{ltype_bytes, ltype_string, ltype_submessage, ltype_fixed_length_bytes}
use pincushion.Field.{ltype_last_packable, htype_required, htype_optional, htype_repeated}
use pincushion.Field.{htype_oneof}
use pincushion.Decode.{State, return_error}
use pincushion.Decode.Env.{Env, inside, put}
use pincushion.Decode.Static.{Submessages, Decoder, submessage_by_ptr, is_null}
use pincushion.Decode.Static.{pb_dec_submessage, pb_decoders, item_at, packed_loop}
use pincushion.Decode.Static.{finish_packed, decode_packed, decode_item, reset_submessage}
use pincushion.Decode.Static.{decode_oneof, decode_static_field}
use pincushion.Decode.Steps.{Step, Step-refl, Step-trans, Avoids, choose, when, split}
use pincushion.Decode.Steps.{pure-Step, fail-Step, error-Step, put-Step}
use pincushion.Decode.FieldSteps.{Static, pb_dec_varint-Step, pb_dec_uvarint-Step}
use pincushion.Decode.FieldSteps.{pb_dec_svarint-Step, pb_dec_fixed32-Step, pb_dec_fixed64-Step}
use pincushion.Decode.FieldSteps.{pb_dec_bytes-Step, pb_dec_string-Step}
use pincushion.Decode.FieldSteps.{pb_dec_fixed_length_bytes-Step}
use pincushion.Decode.SubSteps.{Closes, with_substream-Step, in_substream-Step, replaced}
use pincushion.Decode.SubSteps.{close_and_return-Closes}

module _ (K : ℕ → Type 0) where
  -- The runs for submessages keep what decoders keep.
  pub record Nested (subs : Submessages) : Type 0 where
    pub decode : (message dest : ℕ) → Leads (Step K) (subs.decode message dest)
    pub decode_noinit : (message dest : ℕ) → Leads (Step K) (subs.decode_noinit message dest)

  -- The bytes at an address that the decoder of a field may write.
  pub record Room (field : Field) (dest : ℕ) : Type 0 where
    pub value : Avoids K dest field.data_size
    pub fixed32 : (ltype field == ltype_fixed32) ≡ true → Avoids K dest 4
    pub fixed64 : (ltype field == ltype_fixed64) ≡ true → Avoids K dest 8

  -- `put` at bytes that the set does not have.
  pub put_at : (s : State) (p size value : ℕ) → Avoids K p size → Step K s (put p size value s)
  unfolding store
  put_at s p size value av =
      put-Step K s p (word_bytes size value) size (λ b. omega (arith, length-word_bytes size value))
        av

  module _ (subs : Submessages) where
    by_ptr-Step :
        (field : Field) (dest : ℕ) (ptr : Ptr)
        → Nested subs
        → Leads (Step K) (submessage_by_ptr subs (record field { ptr = ptr }) dest)
    unfolding submessage_by_ptr
    by_ptr-Step field dest null n = fail-Step K
    by_ptr-Step field dest (initial _) n = fail-Step K
    by_ptr-Step field dest (submsg message) n =
        choose K (htype field == htype_repeated) (n.decode message dest)
          (n.decode_noinit message dest)

    refused-Closes :
        Closes K {A = Unit {0}}
          (λ parent status. return_error "invalid field descriptor" (inside parent (final status)))
    refused-Closes s parent sub o hp hs h =
        Step-trans K s (inside parent (final o)) _ (replaced K s (final o) sub parent hs h hp)
          ((error-Step K {A = Unit {0}} "invalid field descriptor").at (inside parent (final o)))

    pb_dec_submessage-Step :
        (field : Field) (dest : ℕ)
        → Nested subs
        → Leads (Step K) (pb_dec_submessage subs field dest)
    unfolding pb_dec_submessage
    pb_dec_submessage-Step field dest n =
        choose K (is_null field.ptr)
          (with_substream-Step K {A = Unit {0}} fail
            (λ parent status.
              return_error "invalid field descriptor" (inside parent (final status)))
            (fail-Step K) refused-Closes)
          (in_substream-Step K (submessage_by_ptr subs field dest)
            (by_ptr-Step field dest field.ptr n))

    pub pb_decoders-Step :
        (field : Field) (dest : ℕ)
        → Static K field
        → Room field dest
        → ((ltype field == ltype_submessage) ≡ true → Nested subs)
        → Leads (Step K) (pb_decoders subs (ltype field) field dest)
    unfolding pb_decoders
    pb_decoders-Step field dest static room n =
        let lt = ltype field in
        choose K (lt == ltype_varint) (pb_dec_varint-Step K field dest room.value) (
          choose K (lt == ltype_uvarint) (pb_dec_uvarint-Step K field dest room.value) (
            choose K (lt == ltype_svarint) (pb_dec_svarint-Step K field dest room.value) (
              when K (lt == ltype_fixed32) (λ e. pb_dec_fixed32-Step K field dest (room.fixed32 e))
                (λ _.
                  when K (lt == ltype_fixed64)
                    (λ e. pb_dec_fixed64-Step K field dest (room.fixed64 e))
                    (λ _.
                      choose K (lt == ltype_bytes)
                        (pb_dec_bytes-Step K field dest static room.value)
                        (choose K (lt == ltype_string)
                          (pb_dec_string-Step K field dest static room.value)
                          (when K (lt == ltype_submessage)
                            (λ e. pb_dec_submessage-Step field dest (n e))
                            (λ _.
                              choose K (lt == ltype_fixed_length_bytes)
                                (pb_dec_fixed_length_bytes-Step K field dest room.value)
                                (fail-Step K)))))))))

  -- `func` on the field of the iterator: its items are in the array, and the count beside it.
  module _ (func : Decoder) (iter : FieldIter) (size : Avoids K iter.p_size 4) where
    abbrev Items : Type 0
    Items =
        (i : ℕ)
        → i < (pos iter).array_size
        → Leads (Step K) (func (pos iter) (item_at iter iter.p_data i))

    round :
        (fuel : ℕ) (s : State) (o : Outcome State (Unit {0}))
        → Leads (Step K) (packed_loop func iter fuel)
        → Step K s (final o)
        → Step K s (
            final {A = Unit {0}} (elim o [
              | fail t ↦ fail t
              | ok _ t ↦
                  packed_loop func iter fuel
                    (put iter.p_size 4 (u32 (load t.memory iter.p_size 4 + 1)) t)
            ]))
    round fuel s (fail t) rest h = h
    round fuel s (ok _ t) rest h =
        let t' = put iter.p_size 4 (u32 (load t.memory iter.p_size 4 + 1)) t in
        Step-trans K s t _ h (
          Step-trans K t t' _ (put_at t iter.p_size 4 (u32 (load t.memory iter.p_size 4 + 1)) size)
            (rest.at t'))

    packed_loop-Step : (fuel : ℕ) → Items → Leads (Step K) (packed_loop func iter fuel)
    unfolding packed_loop
    packed_loop-Step zero items = pure-Step K tt
    packed_loop-Step (suc fuel) items = record {
      at = λ s.
          let count = load s.memory iter.p_size 4 in
          elim (Bool-cases (ltb 0 s.stream.bytes_left && ltb count (pos iter).array_size)) [
            | inl e ↦ rw e (
                round fuel s (func (pos iter) (item_at iter iter.p_data count) s)
                  (packed_loop-Step fuel items) ((items count (ground arith)).at s))
            | inr e ↦ rw e (Step-refl K s)
          ];
    }

    finish_packed-Closes : Closes K finish_packed
    unfolding finish_packed
    finish_packed-Closes s parent sub o hp hs h =
        elim (Bool-cases ((final o).stream.bytes_left == 0)) [
          | inl e ↦ rw e (close_and_return-Closes K s parent sub o hp hs h)
          | inr e ↦ rw e (
              Step-trans K s (inside parent (final o)) _ (replaced K s (final o) sub parent hs h hp)
                ((error-Step K {A = Unit {0}} "array overflow").at (inside parent (final o))))
        ]

    decode_packed-Step : Items → Leads (Step K) (decode_packed func iter)
    unfolding decode_packed
    decode_packed-Step items =
        with_substream-Step K (λ s. packed_loop func iter s.stream.bytes_left s) finish_packed
          (record { at = λ s. (packed_loop-Step s.stream.bytes_left items).at s })
          finish_packed-Closes

    decode_item-Step : Items → Leads (Step K) (decode_item func iter)
    unfolding decode_item
    decode_item-Step items = record {
      at = λ s.
          let count = load s.memory iter.p_size 4 in
          let s' = put iter.p_size 4 (u32 (count + 1)) s in
          Step-trans K s s' _ (put_at s iter.p_size 4 (u32 (count + 1)) size)
            (elim (Bool-cases (leb (pos iter).array_size count)) [
              | inl e ↦ rw e ((error-Step K {A = Unit {0}} "array overflow").at s')
              | inr e ↦ rw e ((items count (ground arith)).at s')
            ]);
    }

  -- Where submessages lie nothing is kept.
  abbrev pub Flat : Field → Type 0
  Flat field = (ltype field == ltype_submessage) ≡ true → (q : ℕ) → ¬ K q

  pub reset_submessage-Step :
      (env : Env) (depth : ℕ) (field : Field) (p : ℕ) (s : State)
      → ((q : ℕ) → ¬ K q)
      → Step K s (reset_submessage env depth field p s)
  unfolding reset_submessage
  reset_submessage-Step env depth field p s none = record {
    advances = Advances-refl s.stream;
    kept = λ b q k. absurd (none q k);
  }

  -- What the iterator of a field must leave to the field: its single value, its items, and its count.
  pub record Layout (iter : FieldIter) : Type 0 where
    pub single : Room (pos iter) iter.p_data
    pub items : (i : ℕ) → i < (pos iter).array_size → Room (pos iter) (item_at iter iter.p_data i)
    pub flag : (htype (pos iter) == htype_optional) ≡ true → Avoids K iter.p_size 1
    pub count : (htype (pos iter) == htype_optional) ≡ false → Avoids K iter.p_size 4

  module _ (env : Env) (depth : ℕ) (func : Decoder) (iter : FieldIter) where
    decode_oneof-Step :
        Avoids K iter.p_size 4
        → Flat (pos iter)
        → Leads (Step K) (func (pos iter) iter.p_data)
        → Leads (Step K) (decode_oneof env depth func iter)
    unfolding decode_oneof
    decode_oneof-Step size flat h = record {
      at = λ s.
          let s' = put iter.p_size 4 (pos iter).tag s in
          Step-trans K s s' _ (put_at s iter.p_size 4 (pos iter).tag size)
            (elim (Bool-cases (ltype (pos iter) == ltype_submessage)) [
              | inl e ↦ rw e (
                  Step-trans K s' (reset_submessage env depth (pos iter) iter.p_data s') _
                    (reset_submessage-Step env depth (pos iter) iter.p_data s' (flat e))
                    (h.at (reset_submessage env depth (pos iter) iter.p_data s')))
              | inr e ↦ rw e (h.at s')
            ]);
    }

    -- The case of `decode_static_field` for an optional field.
    decode_optional-Step :
        ((htype (pos iter) == htype_optional) ≡ true → Avoids K iter.p_size 1)
        → Leads (Step K) (func (pos iter) iter.p_data)
        → (htype (pos iter) == htype_optional) ≡ true
        → Leads (Step K) (λ s. func (pos iter) iter.p_data (put iter.p_size 1 1 s))
    decode_optional-Step flag h e = record {
      at = λ s.
          Step-trans K s (put iter.p_size 1 1 s) _ (put_at s iter.p_size 1 1 (flag e))
            (h.at (put iter.p_size 1 1 s));
    }

  pub decode_static_field-Step :
      (env : Env) (depth : ℕ) (subs : Submessages) (wire_type : ℕ) (iter : FieldIter)
      → Static K (pos iter)
      → Layout iter
      → Flat (pos iter)
      → ((ltype (pos iter) == ltype_submessage) ≡ true → Nested subs)
      → Leads (Step K) (decode_static_field env depth subs wire_type iter)
  unfolding decode_static_field
  decode_static_field-Step env depth subs wire_type iter static layout flat n =
      let field = pos iter in
      let func = pb_decoders subs (ltype field) in
      let single = pb_decoders-Step subs field iter.p_data static layout.single n in
      let items = λ (i : ℕ) (lt : i < field.array_size).
        pb_decoders-Step subs field (item_at iter iter.p_data i) static (layout.items i lt) n in
      split K (htype field == htype_required) (λ _. single)
        (λ _.
          split K (htype field == htype_optional)
            (λ e.
              split K (iter.p_size == iter.p_data) (λ _. single)
                (λ _. decode_optional-Step env depth func iter layout.flag single e))
            (λ e.
              split K (htype field == htype_repeated)
                (λ _.
                  split K (wire_type == wt_string && leb (ltype field) ltype_last_packable)
                    (λ _. decode_packed-Step func iter (layout.count e) items)
                    (λ _. decode_item-Step func iter (layout.count e) items))
                (λ _.
                  split K (htype field == htype_oneof)
                    (λ _. decode_oneof-Step env depth func iter (layout.count e) flat single)
                    (λ _. error-Step K "invalid field type"))))
