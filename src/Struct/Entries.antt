-- ===== src/Struct/Entries.antt =====
-- `pb_decode_noinit` of nanopb/pb_decode.c on the numbers of a message in any order, each any number of times.
use pincushion.Prelude.{ℕ, zero, suc, ◌+◌, ◌^◌, ◌<◌, ◌≡◌, refl, ◌∙◌, arith, List, [], ◌∷◌}
use pincushion.Prelude.{Bool, ◌||◌, ◌++◌, length, length-append, map, All, ltb, ok, Bool-cases}
use pincushion.Prelude.{inl, inr, min, Option, String, if◌then◌else◌, ◌>>=◌}
use pincushion.Prelude.{every_below, every_below_sound, every_below_complete, sym}
use mathlib.Core.List.{append_assoc}
use pincushion.Memory.{Memory, store}
use pincushion.Field.{Field, field_at}
use pincushion.Field.Walk.{walk}
use pincushion.Decode.{Heap, return_error}
use pincushion.Decode.Env.{Env}
use pincushion.Decode.Integers.{on}
use pincushion.Decode.Static.{Submessages}
use pincushion.Decode.Message.{fields_loop}
use pincushion.Decode.Entry.{decode_message, all_seen}
use pincushion.Decode.Bitmap.{member, marks}
use pincushion.Decode.Required.{all_seen-marks}
use pincushion.Varint.{varint_bytes}
use pincushion.Wire.{tag_value}
use pincushion.Field.{ltype}
use pincushion.Decode.KnownField.{length-tag}
use pincushion.Struct.{IsRequired, IsDistinct, extent, address}
use pincushion.Struct.Layout.{placed}
use pincushion.Struct.Rounds.{recorded, progress, round, checks}
use pincushion.Struct.Numbers.{IsNumber, wire_of, wire_of-lt, number_bytes, number-extension}
use pincushion.Struct.Numbers.{number-decodes}

-- A number for the field with an index.
pub record Entry : Type 0 where
  pub index : ℕ
  pub word : ℕ

-- The tag and the number.
unfoldable pub field_bytes : Field → ℕ → List ℕ
field_bytes f word = varint_bytes (tag_value (wire_of (ltype f)) f.tag) ++ number_bytes f word

length-field : (f : Field) (word : ℕ) → IsRequired f → 0 < length (field_bytes f word)
unfolding field_bytes
length-field f word r =
    let tag = varint_bytes (tag_value (wire_of (ltype f)) f.tag) in
    let some_tag = length-tag (wire_of (ltype f)) f.tag (wire_of-lt (ltype f)) r.positive r.most in
    omega (arith, length-append tag (number_bytes f word))

-- The bytes of a sequence of them.
unfoldable pub entry_bytes : List Field → List Entry → List ℕ
entry_bytes fields [] = []
entry_bytes fields (e ∷ es) =
    (field_bytes (field_at fields e.index) e.word) ++ entry_bytes fields es

-- The memory with the numbers stored one after the other in the struct at an address.
unfoldable pub put_entries : List Field → ℕ → Memory → List Entry → Memory
put_entries fields p m [] = m
put_entries fields p m (e ∷ es) =
    let at = address fields p e.index in
    put_entries fields p (store m at (field_at fields e.index).data_size e.word) es

-- Every index is that of a field, whose size holds the number.
abbrev pub AreEntries : List Field → List Entry → Type 0
AreEntries fields es =
    All (λ e. (e.index < length fields) × (e.word < 256 ^ (field_at fields e.index).data_size)) es

-- The indices that the loop records.
seen_of : List ℕ → List Entry → List ℕ
seen_of js [] = js
seen_of js (e ∷ es) = seen_of (recorded e.index js) es

-- Whether a field has an entry.
abbrev pub present : ℕ → List Entry → Bool
present k es = member k (map (λ (e : Entry). e.index) es)

seen_of-All :
    (n : ℕ) (js : List ℕ) (es : List Entry)
    → All (λ j. j < min 64 n) js
    → All (λ e. e.index < n) es
    → All (λ j. j < min 64 n) (seen_of js es)
unfolding seen_of recorded
seen_of-All n js [] h below = h
seen_of-All n js (e ∷ es) h below = elim (Bool-cases (ltb e.index 64)) [
  | inl y ↦
      let small : e.index < min 64 n = ground (arith, below.0) in
      rw y (seen_of-All n (e.index ∷ js) es (small, h) below.1)
  | inr o ↦ rw o (seen_of-All n js es h below.1)
]

seen_of-member :
    (js : List ℕ) (es : List Entry) (k : ℕ)
    → k < 64
    → member k (seen_of js es) ≡ (member k js || present k es)
unfolding seen_of recorded member
seen_of-member js [] k small = ground arith
seen_of-member js (e ∷ es) k small = ground (arith, seen_of-member (recorded e.index js) es k small)

module _ (env : Env) (depth : ℕ) (subs : Submessages) (fields : List Field) (dest : ℕ)
    (all : All IsRequired fields)
    (numbers : (k : ℕ) → k < length fields → IsNumber (field_at fields k))
    (distinct : IsDistinct fields) (room : dest + extent fields < 2 ^ 64) where
  entries-decode :
      (es : List Entry) (home : ℕ) (js : List ℕ)
      → AreEntries fields es
      → home < length fields
      → (fuel : ℕ) → length (entry_bytes fields es) < fuel
      → (more : List ℕ) (msg : Option String) (m : Memory) (h : Heap)
      → (last : ℕ) × (last < length fields)
        × (fields_loop env depth subs fuel
              (progress fields dest home js)
              (on (entry_bytes fields es ++ more) (length (entry_bytes fields es)) msg m h)
            ≡ ok
                (progress fields dest last (seen_of js es))
                (on more 0 msg (put_entries fields dest m es) h))
  unfolding entry_bytes field_bytes put_entries seen_of
  entries-decode es home js are from zero enough more msg m h = absurd (omega arith)
  entries-decode [] home js are from (suc fuel) enough more msg m h =
      (home, from, unfold fields_loop in refl)
  entries-decode (e ∷ es) home js are from (suc fuel) enough more msg m h =
      let f = field_at fields e.index in
      let at = address fields dest e.index in
      let there = placed fields dest all room e.index are.0.0 in
      let front = field_bytes f e.word in
      let back = entry_bytes fields es in
      let some_tag = length-field f e.word there.is_required in
      let sum = length-append front back in
      let (last, below, done) =
        entries-decode es e.index (recorded e.index js) are.1 are.0.0 fuel (omega arith) more msg
          (store m at f.data_size e.word) h in
      let place = there.place in
      let number = numbers e.index are.0.0 in
      let decoded =
        number-decodes subs f (there.p + f.data_offset) e.word are.0.1 (back ++ more) (length back)
          msg m h number in
      let turn =
        round env depth subs fields dest all distinct home e.index there.p js f there.rest
          there.stands there.is_required from (number-extension f number) fuel (wire_of (ltype f))
          (wire_of-lt (ltype f)) (number_bytes f e.word) (back ++ more) (length back) msg m
          (store m (there.p + f.data_offset) f.data_size e.word) h decoded in
      (last, below, rw (append_assoc front back more, sum) (rw place at turn ∙ done))

  indices-below : (es : List Entry) → AreEntries fields es → All (λ e. e.index < length fields) es
  indices-below [] are = tt
  indices-below (e ∷ es) are = (are.0.0, indices-below es are.1)

  -- The test of the bitmap asks for each of the first 64 fields.
  seen-present :
      (es : List Entry)
      → AreEntries fields es
      → all_seen (marks (seen_of [] es)) (min 64 (length fields))
        ≡ every_below (min 64 (length fields)) (λ k. present k es)
  unfolding member
  seen-present es are =
      let count = min 64 (length fields) in
      let js = seen_of [] es in
      let seen =
        all_seen-marks js count (omega arith)
          (seen_of-All (length fields) [] es tt (indices-below es are)) in
      let same = λ (k : ℕ) (lt : k < count). seen_of-member [] es k (omega arith) in
      elim (Bool-cases (every_below count (λ k. present k es))) [
        | inl y ↦
            let full =
              seen.1 (λ k lt. same k lt ∙ every_below_sound count (λ k. present k es) y k lt) in
            full ∙ sym y
        | inr o ↦ elim (Bool-cases (all_seen (marks js) count)) [
          | inl y ↦
              let every =
                every_below_complete count (λ k. present k es)
                  (λ k lt. sym (same k lt) ∙ seen.0 y k lt) in
              absurd (ground arith)
          | inr o' ↦ o' ∙ sym o
        ]
      ]

  -- On a message whose fields, one at least, are all required numbers, in the struct itself, with distinct tags, where the
  -- struct ends below 2 ^ 64, the body of `pb_decode_noinit` takes the tags and numbers of its fields, which fit their
  -- sizes, in any order, each any number of times, and stores them one after the other, so that the last one of a
  -- field stays. It returns true if each of the first 64 fields is among them, and fails with "missing required field"
  -- if not.
  pub decode_message-entries :
      0 < length fields
      → (es : List Entry) → AreEntries fields es
      → (more : List ℕ) (msg : Option String) (m : Memory) (h : Heap)
      → let bytes = entry_bytes fields es in
        let m' = store m (env.fixed_count_size depth) 4 0 in
        let t = on more 0 msg (put_entries fields dest m' es) h in
        decode_message env depth subs fields dest (on (bytes ++ more) (length bytes) msg m h) ≡ (
          if every_below (min 64 (length fields)) (λ k. present k es)
          then ok tt t
          else return_error "missing required field" t)
  unfolding decode_message walk marks
  decode_message-entries some es are more msg m h =
      let m' = store m (env.fixed_count_size depth) 4 0 in
      let js = seen_of [] es in
      let t = on more 0 msg (put_entries fields dest m' es) h in
      let fuel = suc (length (entry_bytes fields es)) in
      let (last, below, e) = entries-decode es 0 [] are some fuel (omega arith) more msg m' h in
      rw
        (
          ◌>>=◌,
          e,
          checks env depth subs fields dest all distinct last js t below,
          seen-present es are,
        )
        refl
