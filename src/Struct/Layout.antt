-- ===== src/Struct/Layout.antt =====
-- Where the iterator of nanopb/pb_common.c stands in a struct whose fields are all required.
use pincushion.Prelude.{ℕ, zero, suc, ◌+◌, ◌^◌, ◌<◌, ◌≡◌, refl, ap, ◌∙◌, arith, List, []}
use pincushion.Prelude.{◌∷◌, length, u64, All}
use native.Mathlib.Nat.{mod-eq_of_lt, zero-add}
use mathlib.Core.Path.{subst}
use pincushion.Field.{Field, FieldIter, pos, field_at, htype, atype, htype_required}
use pincushion.Field.{atype_static}
use pincushion.Field.{advance, inside_union, prev_size, pb_field_iter_begin}
use pincushion.Field.Walk.{IsArray, walk, walk-start}
use pincushion.Decode.KnownField.{pos-walk}
use pincushion.Struct.{IsRequired, extent, address}

-- The fields from position `k` on are `rest`, and the field before them ends at `p`.
pub record Stands (fields : List Field) (base k p : ℕ) (rest : List Field) : Type 0 where
  pub at : (j : ℕ) → field_at fields (k + j) ≡ field_at rest j
  pub len : k + length rest ≡ length fields
  pub here : (walk fields base k).p_data ≡ p + (field_at rest 0).data_offset

advance-p_data :
    (iter : FieldIter)
    → htype (pos iter) ≡ htype_required
    → atype (pos iter) ≡ atype_static
    → (advance iter).p_data
      ≡ u64
          (iter.p_data + (pos iter).data_size + (field_at iter.start (iter.index + 1)).data_offset)
unfolding advance inside_union prev_size
advance-p_data iter ht static = ground (arith, ht, static)

module _ (fields : List Field) (base : ℕ) where
  pub Stands-begin : base + extent fields < 2 ^ 64 → Stands fields base 0 base fields
  unfolding walk pb_field_iter_begin
  Stands-begin room = record {
    at = λ j. ap (λ i. field_at fields i) (zero-add j);
    len = zero-add (length fields);
    here = begins fields room;
  }
    where
      begins :
          (fs : List Field)
          → base + extent fs < 2 ^ 64
          → u64 (base + (field_at fs 0).data_offset) ≡ base + (field_at fs 0).data_offset
      begins [] room = unfold extent in omega arith
      begins (f ∷ fs) room = unfold extent in omega arith

  module _ (k p : ℕ) (f : Field) (rest : List Field) (s : Stands fields base k p (f ∷ rest)) where
    pub Stands-head : field_at fields k ≡ f
    Stands-head = let e : k + 0 ≡ k = omega arith in rw e at (s.at 0)

    next_at : field_at fields (k + 1) ≡ field_at rest 0
    next_at = s.at 1

    pub Stands-lt : k < length fields
    Stands-lt = omega (arith, s.len)

    pub Stands-pos : pos (walk fields base k) ≡ f
    Stands-pos = pos-walk fields base k ∙ Stands-head

    -- A step of the iterator.
    pub Stands-next :
        IsRequired f
        → p + extent (f ∷ rest) < 2 ^ 64
        → Stands fields base (suc k) (p + f.data_offset + f.data_size) rest
    unfolding walk extent
    Stands-next r room = record {
      at = λ j.
          let e : suc k + j ≡ k + suc j = omega arith in
          ap (λ i. field_at fields i) e ∙ s.at (suc j);
      len = omega (arith, s.len);
      here =
          let w = walk-start fields base k in
          let ht : htype (pos (walk fields base k)) ≡ htype_required = rw Stands-pos r.required in
          let static : atype (pos (walk fields base k)) ≡ atype_static = rw Stands-pos r.static in
          let moved = advance-p_data (walk fields base k) ht static in
          let there = rw (Stands-pos, w.0, w.2, next_at, s.here) at moved in
          there ∙ mod-eq_of_lt (fits_word rest room);
    }
      where
        fits_word :
            (rest : List Field)
            → p + (f.data_offset + f.data_size + extent rest) < 2 ^ 64
            → p + f.data_offset + f.data_size + (field_at rest 0).data_offset < 2 ^ 64
        fits_word [] room = omega arith
        fits_word (g ∷ rest) room = omega arith

-- Any of the fields from a position on.
pub record Placed (fields : List Field) (base k at : ℕ) (f : Field) : Type 0 where
  pub p : ℕ
  pub rest : List Field
  pub stands : Stands fields base k p (f ∷ rest)
  pub place : p + f.data_offset ≡ at
  pub is_required : IsRequired f

Placed-from :
    (fields : List Field) (base : ℕ) (rest : List Field) (k p : ℕ)
    → Stands fields base k p rest
    → All IsRequired rest
    → p + extent rest < 2 ^ 64
    → (j : ℕ) → j < length rest
    → Placed fields base (k + j) (address rest p j) (field_at rest j)
unfolding address extent
Placed-from fields base [] k p s all room j lt = absurd (omega arith)
Placed-from fields base (f ∷ rest) k p s all room zero lt =
    let e : k ≡ k + 0 = omega arith in
    subst (λ (i : ℕ). Placed fields base i (p + f.data_offset) f) e
      (record { p = p; rest = rest; stands = s; place = refl; is_required = all.0 })
Placed-from fields base (f ∷ rest) k p s all room (suc j) lt =
    let e : suc k + j ≡ k + suc j = omega arith in
    let p' = p + f.data_offset + f.data_size in
    subst (λ (i : ℕ). Placed fields base i (address rest p' j) (field_at rest j)) e
      (Placed-from fields base rest (suc k) p' (Stands-next fields base k p f rest s all.0 room)
        all.1 (omega arith) j (omega arith))

pub placed :
    (fields : List Field) (base : ℕ)
    → All IsRequired fields
    → base + extent fields < 2 ^ 64
    → (j : ℕ) → j < length fields
    → Placed fields base j (address fields base j) (field_at fields j)
placed fields base all room j lt =
    subst (λ (i : ℕ). Placed fields base i (address fields base j) (field_at fields j)) (zero-add j)
      (Placed-from fields base fields 0 base (Stands-begin fields base room) all room j lt)

pub required-IsArray : (fields : List Field) → All IsRequired fields → IsArray fields
required-IsArray [] all = tt
required-IsArray (f ∷ fields) all =
    ((λ e. omega (arith, all.0.positive)), required-IsArray fields all.1)
