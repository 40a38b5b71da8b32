-- ===== src/Decode/RequiredCount.antt =====
-- The number of required fields that `pb_decode_noinit` of nanopb/pb_decode.c finds at its end.
use pincushion.Prelude.{ℕ, zero, suc, ◌+◌, ◌-◌, ◌≤◌, ◌<◌, ◌≡◌, ◌≢◌, refl, arith, Bool, true}
use pincushion.Prelude.{false, ◌&&◌, not, List, [], ◌∷◌, length, min}
use pincushion.Prelude.{◌==◌, if◌then◌else◌, ltb}
use native.Mathlib.Decide.{dec_lt}
use pincushion.Field.{Field, FieldIter, pos, field_at, htype, htype_required}
use pincushion.Field.{pb_field_iter_begin, advance, inside_union}
use pincushion.Field.Walk.{IsArray, IsArray-at, walk, walk-start, next-walk, next-last}
use pincushion.Decode.Message.{max_required_fields}
use pincushion.Decode.Entry.{seek_end, required_count}

one_if : Bool → ℕ
one_if true = 1
one_if false = 0

-- The number of required fields among the first `k` of a message.
unfoldable pub required_before : List Field → ℕ → ℕ
unfolding one_if
required_before [] k = 0
required_before (f ∷ fields) zero = 0
required_before (f ∷ fields) (suc k) = one_if (htype f == htype_required) + required_before fields k

required_before-suc :
    (fields : List Field) (k : ℕ)
    → k < length fields
    → required_before fields (suc k)
      ≡ required_before fields k + one_if (htype (field_at fields k) == htype_required)
unfolding required_before
required_before-suc [] k lt = absurd (omega arith)
required_before-suc (f ∷ []) zero lt = omega arith
required_before-suc (f ∷ g ∷ fields) zero lt = omega arith
required_before-suc (f ∷ fields) (suc k) lt =
    omega (arith, required_before-suc fields k (omega arith))

required_before-zero : (fields : List Field) → required_before fields 0 ≡ 0
unfolding required_before
required_before-zero [] = refl
required_before-zero (f ∷ fields) = refl

advance-required :
    (iter : FieldIter)
    → (advance iter).required_field_index
      ≡ iter.required_field_index + one_if (htype (pos iter) == htype_required)
unfolding advance inside_union one_if
advance-required iter = ground arith

module _ (fields : List Field) (dest : ℕ) where
  pos-walk : (k : ℕ) → pos (walk fields dest k) ≡ field_at fields k
  pos-walk k = let at = walk-start fields dest k in rw (at.0, at.2) refl

  pub walk-required :
      (k : ℕ)
      → k < length fields
      → (walk fields dest k).required_field_index ≡ required_before fields k
  unfolding walk pb_field_iter_begin
  walk-required zero lt = omega (arith, required_before-zero fields)
  walk-required (suc k) lt =
      let same = pos-walk k in
      let step = advance-required (walk fields dest k) in
      let more = rw same at step in
      omega (arith, more, walk-required k (omega arith), required_before-suc fields k (omega arith))

  module _ (array : IsArray fields) where
    -- The end of the search: the last field, and the iterator back at the first.
    seek_end-walk :
        (fuel k : ℕ)
        → k < length fields
        → length fields ≤ fuel + k
        → seek_end fuel (walk fields dest k) ≡ (
          (walk fields dest (length fields - 1)).required_field_index,
          pos (walk fields dest (length fields - 1)),
          walk fields dest 0,
        )
    unfolding seek_end
    seek_end-walk zero k lt le = absurd (omega arith)
    seek_end-walk (suc fuel) k lt le = elim (dec_lt (suc k) (length fields)) [
      | yes more ↦
          rw (next-walk fields dest array k more) (seek_end-walk fuel (suc k) more (omega arith))
      | no last ↦
          let here : length fields - 1 ≡ k = omega arith in
          rw (next-last fields dest array k (omega arith), here) refl
    ]

    -- From the position of any field, the number of required fields that `pb_decode_noinit` checks is the number of
    -- required fields of the message, and 64 if there are more.
    pub required_count-walk :
        (k : ℕ)
        → k < length fields
        → required_count (walk fields dest k) ≡ min 64 (required_before fields (length fields))
    unfolding required_count one_if walk required_before
    required_count-walk k lt =
        let last = length fields - 1 in
        let whole : suc last ≡ length fields = omega arith in
        let at = walk-start fields dest k in
        let found = seek_end-walk (length fields) k lt (omega arith) in
        let index = walk-required last (omega arith) in
        let total = required_before-suc fields last (omega arith) in
        let all = rw whole at total in
        let nonzero = IsArray-at fields 0 array (omega arith) in
        rw (at.0, found, pos-walk last, pos-walk 0, index)
          (counted (required_before fields last) (htype (field_at fields last) == htype_required)
            (field_at fields 0).tag nonzero all)
      where
        counted :
            (before : ℕ) (last : Bool) (tag : ℕ) {total : ℕ}
            → tag ≢ 0
            → total ≡ before + one_if last
            → (let count = if last && not (tag == 0) then before + 1 else before in
                if ltb max_required_fields count then max_required_fields else count)
              ≡ min 64 total
        counted before true tag nonzero e = ground arith
        counted before false tag nonzero e = ground arith
