-- ===== src/Struct/Rounds.antt =====
-- The rounds of the loop of `pb_decode_noinit` of nanopb/pb_decode.c on such a message, and the checks at its end.
use pincushion.Prelude.{ℕ, zero, suc, ◌+◌, ◌<◌, ◌≤◌, ◌≡◌, refl, ap, sym, ◌∙◌, arith, List, []}
use pincushion.Prelude.{◌∷◌, ◌++◌, length, length-append, All, true, ltb, none, ok}
use pincushion.Prelude.{Option, String, if◌then◌else◌, Bool-cases, inl, inr, min}
use pincushion.Prelude.{◌>>◌}
use mathlib.Core.List.{append_assoc}
use pincushion.Memory.{Memory}
use pincushion.Varint.{varint_bytes}
use pincushion.Wire.{tag_value}
use pincushion.Field.{Field, pos, field_at, is_wanted, ltype, htype, htype_required}
use pincushion.Field.Walk.{walk}
use pincushion.Struct.{IsRequired, IsDistinct}
use pincushion.Field.{ltype_extension}
use mathlib.Core.Path.{subst}
use pincushion.Decode.{State, Heap, return_error}
use pincushion.Decode.Env.{Env}
use pincushion.Decode.Integers.{on}
use pincushion.Decode.Static.{Submessages, pb_decoders}
use pincushion.Decode.Message.{Progress, fields_loop, note_required}
use pincushion.Decode.KnownField.{fields_loop-known}
use pincushion.Decode.RequiredCount.{required_before, walk-required, required_count-walk}
use pincushion.Decode.Bitmap.{marks}
use pincushion.Decode.Entry.{all_seen}
use pincushion.Decode.Entry.{check_fixed_count, check_required}
use pincushion.Decode.Message.{fixed_count_full}
use pincushion.Struct.Layout.{required-IsArray, Stands, Stands-pos, Stands-head, Stands-lt}

-- The indices in `fields_seen`, the last one first, when the required field `k` was decoded.
unfoldable pub recorded : ℕ → List ℕ → List ℕ
recorded k js = if ltb k 64 then k ∷ js else js

-- The progress on the field `j` of a message.
abbrev pub progress : List Field → ℕ → ℕ → List ℕ → Progress
progress fields dest j js = record {
  iter = walk fields dest j;
  fields_seen = marks js;
  extension_range_start = 0;
  fixed_count_field = none;
}

required_before_lem :
    (fields : List Field) (k : ℕ)
    → All IsRequired fields
    → k ≤ length fields
    → required_before fields k ≡ k
unfolding required_before
required_before_lem [] k all le = omega arith
required_before_lem (f ∷ fields) zero all le = refl
required_before_lem (f ∷ fields) (suc k) all le =
    rw all.0.required (omega (arith, required_before_lem fields k all.1 (omega arith)))

note_recorded :
    (fields : List Field) (dest k : ℕ) (js : List ℕ)
    → htype (pos (walk fields dest k)) ≡ htype_required
    → (walk fields dest k).required_field_index ≡ k
    → record (note_required (progress fields dest k js)) { iter = walk fields dest k }
      ≡ progress fields dest k (recorded k js)
unfolding note_required recorded marks
note_recorded fields dest k js ht index = elim (Bool-cases (ltb k 64)) [
  | inl e ↦ simp (ht, index, e) refl
  | inr e ↦ simp (ht, index, e) refl
]

module _ (env : Env) (depth : ℕ) (subs : Submessages) (fields : List Field) (dest : ℕ)
    (all : All IsRequired fields) (distinct : IsDistinct fields) where
  only_tag :
      (k : ℕ) (f : Field)
      → k < length fields
      → field_at fields k ≡ f
      → (j : ℕ) → j < length fields
      → is_wanted f.tag (field_at fields j) ≡ true
      → j ≡ k
  only_tag k f lt e j lt' w =
      let tags : (field_at fields j).tag ≡ f.tag = ground arith in
      distinct j k lt' lt (tags ∙ ap (λ (g : Field). g.tag) (sym e))

  -- A round of the loop, from the position of any field, for the next field at `at`, of which the decoder
  -- takes `value`.
  pub round :
      (home k p : ℕ) (js : List ℕ) (f : Field) (rest : List Field)
      → Stands fields dest k p (f ∷ rest)
      → IsRequired f
      → home < length fields
      → (ltype f ≡ ltype_extension → ⊥)
      → (fuel wire_type : ℕ) → wire_type < 8
      → (value more : List ℕ) (n : ℕ) (msg : Option String) (m t : Memory) (h : Heap)
      → pb_decoders subs
          (ltype f)
          f
          (p + f.data_offset)
          (on (value ++ more) (length value + n) msg m h)
        ≡ ok tt (on more n msg t h)
      → let front = varint_bytes (tag_value wire_type f.tag) ++ value in
        fields_loop env depth subs
          (suc fuel)
          (progress fields dest home js)
          (on (front ++ more) (length front + n) msg m h)
        ≡ fields_loop env depth subs fuel
            (progress fields dest k (recorded k js))
            (on more n msg t h)
  round home k p js f rest s r from kind fuel wt small value more n msg m t h decoded =
      let lt = Stands-lt fields dest k p f rest s in
      let here = Stands-pos fields dest k p f rest s in
      let tag = varint_bytes (tag_value wt f.tag) in
      let iter = walk fields dest k in
      let ht : htype (pos iter) ≡ htype_required = rw here r.required in
      let index = walk-required fields dest k lt ∙ required_before_lem fields k all (omega arith) in
      let there = s.here in
      let decoded' : pb_decoders subs (ltype f) f iter.p_data
            (on (value ++ more) (length value + n) msg m h)
          ≡ ok tt (on more n msg t h) =
        subst
          (λ (at : ℕ).
            pb_decoders subs (ltype f) f at (on (value ++ more) (length value + n) msg m h)
            ≡ ok tt (on more n msg t h))
          (sym there) decoded in
      let known =
        fields_loop-known fields dest home k (required-IsArray fields all) from lt env depth subs
          (progress fields dest home js) fuel wt value more n msg m t h in
      let plain = rw here at known in
      let done =
        plain kind r.required r.static small r.positive r.most
          (only_tag k f lt (Stands-head fields dest k p f rest s)) decoded' in
      let sum : length (tag ++ value) + n ≡ length tag + (length value + n) =
        omega (arith, length-append tag value) in
      rw (append_assoc tag value more, sum)
        (done
          ∙ ap (λ q. fields_loop env depth subs fuel q (on more n msg t h))
              (note_recorded fields dest k js ht index))

  -- The checks behind the loop.
  pub checks :
      (last : ℕ) (js : List ℕ) (s : State)
      → last < length fields
      → let p = progress fields dest last js in
        (check_fixed_count env depth p >> check_required p) s ≡ (
          if all_seen (marks js) (min 64 (length fields))
          then ok tt s
          else return_error "missing required field" s)
  unfolding check_fixed_count check_required fixed_count_full
  checks last js s lt =
      let n = length fields in
      let count =
        required_count-walk fields dest (required-IsArray fields all) last lt
        ∙ ap (λ (k : ℕ). min 64 k) (required_before_lem fields n all (omega arith)) in
      rw (◌>>◌, count) refl
