-- ===== src/Struct/Decode.antt =====
-- `pb_decode_noinit` of nanopb/pb_decode.c on the bytes of a struct whose fields are required.
use pincushion.Prelude.{ℕ, zero, suc, ◌+◌, ◌^◌, ◌<◌, ◌≤◌, ◌≡◌, refl, ◌∙◌, arith, List, []}
use pincushion.Prelude.{◌∷◌, ◌++◌, length, true, ok, inl, inr, ◌⊎◌, Option, String}
use mathlib.Core.List.{append_assoc}
use pincushion.Memory.{Memory, store, word_bytes}
use pincushion.Memory.Laws.{store_bytes-outside, length-word_bytes}
use pincushion.Field.{Field, ltype}
use pincushion.Decode.{Heap}
use pincushion.Decode.Env.{Env}
use pincushion.Decode.Integers.{on}
use pincushion.Decode.Static.{Submessages}
use pincushion.Struct.{IsRequired, extent}
use pincushion.Struct.Values.{Values, empty, field}
use pincushion.Struct.Values.{get_field, get_fields, content_bytes}
use pincushion.Varint.{varint_bytes}
use pincushion.Prelude.{All, length-append}
use pincushion.Struct.Values.{Holds, AllHold}
use pincushion.Struct.Stays.{AllClear, Keeps, Agree, value-stays}
use pincushion.Prelude.{min, ltb, Bool-cases, ◌>>=◌}
use pincushion.Wire.{tag_value}
use pincushion.Field.{pb_field_iter_begin}
use pincushion.Field.Walk.{walk}
use pincushion.Decode.KnownField.{length-tag}
use pincushion.Decode.Message.{fields_loop, fixed_count_full}
use pincushion.Decode.Entry.{check_fixed_count, check_required, decode_message, required_count}
use pincushion.Decode.Entry.{seek_end, all_seen, whole_words}
use pincushion.Decode.Bitmap.{member, marks}
use pincushion.Decode.Required.{all_seen-marks}
use pincushion.Struct.{IsDistinct}
use pincushion.Struct.Layout.{Stands, Stands-begin, Stands-next, Stands-lt}
use pincushion.Struct.Rounds.{recorded, progress, round, checks}
use pincushion.Struct.Numbers.{wire_of-lt}
use pincushion.Struct.Values.{fields_bytes, wire_of_field}
use pincushion.Struct.Encoders.{Holds-extension}
use pincushion.Struct.Decoders.{value-decodes}

-- The indices of the first `k` required fields that are recorded, the last one first.
counted : ℕ → List ℕ
unfolding recorded
counted zero = []
counted (suc k) = recorded k (counted k)

counted-All : (k n : ℕ) → k ≤ n → All (λ j. j < min 64 n) (counted k)
unfolding counted recorded
counted-All zero n le = tt
counted-All (suc k) n le = elim (Bool-cases (ltb k 64)) [
  | inl e ↦ rw e (ground arith, counted-All k n (omega arith))
  | inr e ↦ rw e (counted-All k n (omega arith))
]

counted-member : (k j : ℕ) → j < k → j < 64 → member j (counted k) ≡ true
unfolding counted recorded member
counted-member zero j lt small = absurd (omega arith)
counted-member (suc k) j lt small = ground (arith, counted-member k j)

-- What is outside a struct is outside the field and the fields behind it.
within :
    (p offset size more q : ℕ)
    → (q < p) ⊎ (p + (offset + size + more) ≤ q)
    → (q < p + offset + size) ⊎ (p + offset + size + more ≤ q)
within p offset size more q (inl lt) = inl (omega arith)
within p offset size more q (inr le) = inr (omega arith)

around :
    (p offset size more q : ℕ)
    → (q < p) ⊎ (p + (offset + size + more) ≤ q)
    → (q < p + offset) ⊎ (p + offset + size ≤ q)
around p offset size more q (inl lt) = inl (omega arith)
around p offset size more q (inr le) = inr (omega arith)

-- The loop, over what the decoders leave.
module _ (env : Env) (depth : ℕ) (subs : Submessages) (Sub : ℕ → ℕ → Values → Type 0)
    (sub_values : Memory → ℕ → ℕ → Values) (sub_bytes : ℕ → Values → List ℕ)
    (small : (k size : ℕ) (values : Values)
      → Sub k size values
      → length (sub_bytes k values) < 2 ^ 32)
    (stays : (k size at : ℕ) (values : Values) (m t : Memory)
      → Sub k size values
      → sub_values m k at ≡ values
      → Agree at size m t
      → sub_values t k at ≡ values)
    (decodes : (k size at : ℕ) (values : Values)
      → Sub k size values
      → at + size < 2 ^ 64
      → AllClear env at size
      → (more : List ℕ) (msg : Option String) (m : Memory) (h : Heap)
      → let bytes = sub_bytes k values in
        (t : Memory) × (subs.decode_noinit k at (on (bytes ++ more) (length bytes) msg m h)
          ≡ ok tt (on more 0 msg t h))
        × (sub_values t k at ≡ values)
        × Keeps env at size m t) where
  wire_of_field-lt : (lt : ℕ) → wire_of_field lt < 8
  wire_of_field-lt lt = ground (arith, wire_of-lt lt)

  module _ (fields : List Field) (dest : ℕ) (all : All IsRequired fields)
      (distinct : IsDistinct fields) where
    -- What the loop leaves of the fields from a position on.
    abbrev Remains :
        ℕ → ℕ → List Field → ℕ → Values → ℕ → List ℕ → Option String → Memory → Heap → Type 0
    Remains home k rest p values fuel more msg m h =
        let bytes = fields_bytes sub_bytes rest values in
        (last : ℕ) × (t : Memory) × (last < length fields)
        × (fields_loop env depth subs fuel (progress fields dest home (counted k))
              (on (bytes ++ more) (length bytes) msg m h)
            ≡ ok (progress fields dest last (counted (length fields))) (on more 0 msg t h))
        × (get_fields (get_field (sub_values t) t) p rest ≡ values)
        × Keeps env p (extent rest) m t

    fields-decode :
        (rest : List Field) (home k p : ℕ) (values : Values)
        → Stands fields dest k p rest
        → home < length fields
        → AllHold (Holds Sub) rest values
        → p + extent rest < 2 ^ 64
        → AllClear env p (extent rest)
        → (fuel : ℕ) → length (fields_bytes sub_bytes rest values) < fuel
        → (more : List ℕ) (msg : Option String) (m : Memory) (h : Heap)
        → Remains home k rest p values fuel more msg m h
    unfolding fields_bytes get_fields extent counted
    fields-decode rest home k p values s from held room clear zero enough more msg m h =
        absurd (omega arith)
    fields-decode [] home k p empty s from held room clear (suc fuel) enough more msg m h =
        let e : k ≡ length fields = omega (arith, s.len) in
        (home, m, from, rw e (unfold fields_loop in refl), refl, λ q c out. refl)
    fields-decode [] home k p (field v values) s from held room clear fuel enough more msg m h =
        elim held [ ]
    fields-decode (f ∷ rest) home k p empty s from held room clear fuel enough more msg m h =
        elim held [ ]
    fields-decode (f ∷ rest) home k p (field v values) s from (r, holds, held) room clear (suc fuel)
          enough more msg m h =
        let at = p + f.data_offset in
        let wt = wire_of_field (ltype f) in
        let tag = varint_bytes (tag_value wt f.tag) in
        let content = content_bytes sub_bytes f v in
        let front = tag ++ content in
        let back = fields_bytes sub_bytes rest values in
        let some_tag = length-tag wt f.tag (wire_of_field-lt (ltype f)) r.positive r.most in
        let long = length-append tag content in
        let sum = length-append front back in
        let (t, run, got, kept) =
          value-decodes env depth subs Sub sub_values sub_bytes small decodes f at v holds r
            (omega arith) (λ q lo hi. clear q (omega arith) (omega arith)) (back ++ more)
            (length back) msg m h in
        let turn =
          round env depth subs fields dest all distinct home k p (counted k) f rest s r from
            (Holds-extension Sub f v holds) fuel wt (wire_of_field-lt (ltype f)) content
            (back ++ more) (length back) msg m t h run in
        let (last, u, below, done, got', kept') =
          fields-decode rest k (suc k) (at + f.data_size) values
            (Stands-next fields dest k p f rest s r room) (Stands-lt fields dest k p f rest s) held
            (omega arith) (λ q lo hi. clear q (omega arith) (omega arith)) fuel (omega arith) more
            msg t h in
        let here =
          value-stays Sub sub_values stays f at v t u holds got
            (λ q lo hi. kept' q (clear q (omega arith) (omega arith)) (inl (omega arith))) in
        (
          last,
          u,
          below,
          rw (append_assoc front back more, sum) (turn ∙ done),
          rw (here, got') refl,
          λ q c out.
              kept' q c (within p f.data_offset f.data_size (extent rest) q out)
              ∙ kept q c (around p f.data_offset f.data_size (extent rest) q out),
        )

    abbrev pub Decoded : Values → List ℕ → Option String → Memory → Heap → Type 0
    Decoded values more msg m h =
        let bytes = fields_bytes sub_bytes fields values in
        (t : Memory) × (decode_message env depth subs fields dest
            (on (bytes ++ more) (length bytes) msg m h)
          ≡ ok tt (on more 0 msg t h))
        × (get_fields (get_field (sub_values t) t) dest fields ≡ values)
        × Keeps env dest (extent fields) m t

    some_fields :
        0 < length fields
        → dest + extent fields < 2 ^ 64
        → AllClear env dest (extent fields)
        → (values : Values) → AllHold (Holds Sub) fields values
        → (more : List ℕ) (msg : Option String) (m : Memory) (h : Heap)
        → Decoded values more msg m h
    unfolding decode_message walk counted marks store
    some_fields some room clear values held more msg m h =
        let m' = store m (env.fixed_count_size depth) 4 0 in
        let n = length fields in
        let fuel = suc (length (fields_bytes sub_bytes fields values)) in
        let (last, t, below, e, got, kept) =
          fields-decode fields 0 0 dest values (Stands-begin fields dest room) some held room clear
            fuel (omega arith) more msg m' h in
        let seen =
          (all_seen-marks (counted n) (min 64 n) (omega arith) (counted-All n n (omega arith))).1
            (λ j lt. counted-member n j (omega arith) (omega arith)) in
        (
          t,
          rw
              (
                ◌>>=◌,
                e,
                checks env depth subs fields dest all distinct last (counted n) (on more 0 msg t h)
                    below,
                seen,
              )
              refl,
          got,
          λ q c out.
              kept q c out
              ∙ store_bytes-outside m (env.fixed_count_size depth) (word_bytes 4 0) q
                  (rw (length-word_bytes 4 0) (c depth)),
        )

  pub message-decodes :
      (fields : List Field) (dest : ℕ) (all : All IsRequired fields) (distinct : IsDistinct fields)
      → dest + extent fields < 2 ^ 64
      → AllClear env dest (extent fields)
      → (values : Values) → AllHold (Holds Sub) fields values
      → (more : List ℕ) (msg : Option String) (m : Memory) (h : Heap)
      → Decoded fields dest all distinct values more msg m h
  unfolding decode_message fields_bytes get_fields fields_loop check_fixed_count check_required
      fixed_count_full required_count seek_end all_seen whole_words pb_field_iter_begin store
  message-decodes [] dest all distinct room clear (field v values) held more msg m h = elim held [ ]
  message-decodes [] dest all distinct room clear empty held more msg m h = (
    store m (env.fixed_count_size depth) 4 0,
    refl,
    refl,
    λ q c out.
        store_bytes-outside m (env.fixed_count_size depth) (word_bytes 4 0) q
          (rw (length-word_bytes 4 0) (c depth)),
  )
  message-decodes (f ∷ fields) dest all distinct room clear values held more msg m h =
      some_fields (f ∷ fields) dest all distinct (omega arith) room clear values held more msg m h
