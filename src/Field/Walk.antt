-- ===== src/Field/Walk.antt =====
-- The iterator of pb_common.c over an array of fields: where it stands after any number of steps,
-- and what `pb_field_iter_find` finds.
use pincushion.Prelude.{ℕ, zero, suc, ◌+◌, ◌≤◌, ◌<◌, ◌≡◌, ◌≢◌, refl, arith, List, [], ◌∷◌}
use pincushion.Prelude.{length, Bool, true, false, ◌⊎◌, inl, inr, All, Bool-cases, ◌==◌}
use pincushion.Prelude.{if◌then◌else◌}
use pincushion.Field.{Field, FieldIter, pb_field_iter_begin, pb_field_iter_next}
use pincushion.Field.{pb_field_iter_find}
use pincushion.Field.{advance, find_loop, field_at, is_wanted, pos}
use native.Mathlib.Numerals.{add-one}
use native.Mathlib.Decide.{dec_lt, ℕ_discrete}

-- No field but the terminator has tag 0.
abbrev pub IsArray : List Field → Type 0
IsArray fields = All (λ f. f.tag ≢ 0) fields

pub IsArray-at :
    (fields : List Field) (k : ℕ) → IsArray fields → k < length fields → (field_at fields k).tag ≢ 0
IsArray-at [] k h lt = absurd (omega arith)
IsArray-at (f ∷ fields) zero h lt = h.0
IsArray-at (f ∷ fields) (suc k) h lt = IsArray-at fields k h.1 (omega arith)

past_end : (fields : List Field) (k : ℕ) → length fields ≤ k → (field_at fields k).tag ≡ 0
past_end [] k h = refl
past_end (f ∷ fields) zero h = absurd (omega arith)
past_end (f ∷ fields) (suc k) h = past_end fields k (omega arith)

below-suc : (P : ℕ → Type 0) (j : ℕ) → ((i : ℕ) → i < j → P i) → P j → (i : ℕ) → i < suc j → P i
below-suc P j below at i h = elim (dec_lt i j) [
  | yes p ↦ below i p
  | no p ↦ let e : j ≡ i = omega arith in rw e at at
]

-- The loops of `pb_field_iter_find` and `find_extension_field`, which differ in the fields they want.
unfoldable pub search_loop : (Field → Bool) → ℕ → ℕ → FieldIter → FieldIter × Bool
search_loop wanted zero home iter = (iter, false)
search_loop wanted (suc fuel) home iter =
    let next = (pb_field_iter_next iter).0 in
    let rest = search_loop wanted fuel home next in
    if wanted (pos iter) then (iter, true) else if next.index == home then (next, false) else rest

find_loop-search_loop :
    (fuel home tag : ℕ) (iter : FieldIter)
    → find_loop fuel home tag iter ≡ search_loop (is_wanted tag) fuel home iter
unfolding find_loop search_loop
find_loop-search_loop zero home tag iter = refl
find_loop-search_loop (suc fuel) home tag iter =
    rw (find_loop-search_loop fuel home tag (pb_field_iter_next iter).0) refl

module _ (fields : List Field) (dest : ℕ) where
  -- The iterator after `k` steps from the start.
  unfoldable pub walk : ℕ → FieldIter
  walk zero = pb_field_iter_begin fields dest
  walk (suc k) = advance (walk k)

  pub walk-start :
      (k : ℕ) → ((walk k).start ≡ fields) × ((walk k).dest_struct ≡ dest) × ((walk k).index ≡ k)
  unfolding walk pb_field_iter_begin advance
  walk-start zero = (refl, refl, refl)
  walk-start (suc k) = ground (arith, walk-start k, add-one k)

  module _ (array : IsArray fields) where
    pub next-walk :
        (k : ℕ) → suc k < length fields → pb_field_iter_next (walk k) ≡ (walk (suc k), true)
    unfolding pb_field_iter_next walk
    next-walk k h =
        ground (
          arith,
          walk-start k,
          IsArray-at fields k array,
          IsArray-at fields (suc k) array,
          add-one k,
        )

    pub next-last : (k : ℕ) → suc k ≡ length fields → pb_field_iter_next (walk k) ≡ (walk 0, false)
    unfolding pb_field_iter_next walk
    next-last k h =
        ground (arith, walk-start k, IsArray-at fields k array, past_end fields (suc k), add-one k)

    module _ (wanted : Field → Bool) where
      abbrev Wanted : ℕ → Type 0
      Wanted j = wanted (field_at fields j) ≡ true

      abbrev Unwanted : ℕ → Type 0
      Unwanted j = wanted (field_at fields j) ≡ false

      -- The result of a search that started at `home`.
      abbrev pub Finds : ℕ → FieldIter × Bool → Type 0
      Finds home r =
          ((j : ℕ) × (j < length fields) × (r ≡ (walk j, true)) × Wanted j)
          ⊎ ((r ≡ (walk home, false)) × ((j : ℕ) → j < length fields → Unwanted j))

      found :
          (fuel home j : ℕ)
          → Wanted j
          → search_loop wanted (suc fuel) home (walk j) ≡ (walk j, true)
      unfolding search_loop
      found fuel home j w = ground (arith, walk-start j)

      -- A round that moves on, and one that is back where the search started.
      moves :
          (fuel home j k : ℕ) (b : Bool)
          → Unwanted j
          → pb_field_iter_next (walk j) ≡ (walk k, b)
          → k ≢ home
          → search_loop wanted (suc fuel) home (walk j) ≡ search_loop wanted fuel home (walk k)
      unfolding search_loop
      moves fuel home j k b u e ne = ground (arith, walk-start j, walk-start k, e)

      back :
          (fuel home j : ℕ) (b : Bool)
          → Unwanted j
          → pb_field_iter_next (walk j) ≡ (walk home, b)
          → search_loop wanted (suc fuel) home (walk j) ≡ (walk home, false)
      unfolding search_loop
      back fuel home j b u e = ground (arith, walk-start j, walk-start home, e)

      -- Behind the wrap: the fields before `j` and those from `home` on are seen.
      search_front :
          (fuel home j : ℕ)
          → j < home
          → home < length fields
          → home ≤ fuel + j
          → ((i : ℕ) → i < j → Unwanted i)
          → ((i : ℕ) → home ≤ i → i < length fields → Unwanted i)
          → Finds home (search_loop wanted fuel home (walk j))
      search_front zero home j lt hl hf before behind = absurd (omega arith)
      search_front (suc fuel) home j lt hl hf before behind =
          elim (Bool-cases (wanted (field_at fields j))) [
            | inl w ↦ inl (j, omega arith, found fuel home j w, w)
            | inr u ↦ elim (ℕ_discrete (suc j) home) [
              | yes e ↦
                  let next = next-walk j (omega arith) in
                  let seen = below-suc Unwanted j before u in
                  inr (
                    back fuel home j true u (rw e at next),
                    λ i hi. elim (dec_lt i home) [
                      | yes p ↦ seen i (omega arith)
                      | no p ↦ behind i (omega arith) hi
                    ],
                  )
              | no ne ↦ rw (moves fuel home j (suc j) true u (next-walk j (omega arith)) ne) (
                  search_front fuel home (suc j) (omega arith) hl (omega arith)
                    (below-suc Unwanted j before u) behind)
            ]
          ]

      -- Before the wrap: the fields from `home` up to `j` are seen.
      search_back :
          (fuel home j : ℕ)
          → home ≤ j
          → j < length fields
          → length fields + home ≤ fuel + j
          → ((i : ℕ) → home ≤ i → i < j → Unwanted i)
          → Finds home (search_loop wanted fuel home (walk j))
      search_back zero home j le lt hf seen = absurd (omega arith)
      search_back (suc fuel) home j le lt hf seen = elim (Bool-cases (wanted (field_at fields j))) [
        | inl w ↦ inl (j, lt, found fuel home j w, w)
        | inr u ↦
            let seen' = below-suc (λ i. home ≤ i → Unwanted i) j (λ i p q. seen i q p) (λ _. u) in
            elim (dec_lt (suc j) (length fields)) [
              | yes p ↦ rw (moves fuel home j (suc j) true u (next-walk j p) (omega arith)) (
                  search_back fuel home (suc j) (omega arith) p (omega arith)
                    (λ i a b. seen' i b a))
              | no p ↦ wrap fuel home j le u (omega arith) (omega arith) (λ i a b. seen' i b a)
            ]
      ]
        where
          wrap :
              (fuel home j : ℕ)
              → home ≤ j
              → Unwanted j
              → suc j ≡ length fields
              → home ≤ fuel
              → ((i : ℕ) → home ≤ i → i < suc j → Unwanted i)
              → Finds home (search_loop wanted (suc fuel) home (walk j))
          wrap fuel zero j le u e hf seen =
              inr
                (back fuel 0 j false u (next-last j e), λ i hi. seen i (omega arith) (omega arith))
          wrap fuel (suc home) j le u e hf seen =
              rw (moves fuel (suc home) j 0 false u (next-last j e) (omega arith)) (
                search_front fuel (suc home) 0 (omega arith) (omega arith) (omega arith)
                  (λ i hi. absurd (omega arith)) (λ i a b. seen i a (omega arith)))

-- A search from the position of any field.
pub search_loop-Finds :
    (fields : List Field) (dest : ℕ) (array : IsArray fields) (wanted : Field → Bool) (home : ℕ)
    → home < length fields
    → Finds fields dest array wanted home
        (search_loop wanted (suc (length fields)) home (walk fields dest home))
search_loop-Finds fields dest array wanted home h =
    search_back fields dest array wanted (suc (length fields)) home home (omega arith) h
      (omega arith) (λ i a b. absurd (omega arith))

-- In a message of which no field but the terminator has tag 0, from the position of any field,
-- `pb_field_iter_find` either stands on a field with the tag that is no extension placeholder,
-- or is back where it was, and then the message has no such field.
pub pb_field_iter_find-Finds :
    (fields : List Field) (dest : ℕ) (array : IsArray fields) (tag home : ℕ)
    → home < length fields
    → Finds fields dest array (is_wanted tag) home (pb_field_iter_find (walk fields dest home) tag)
unfolding pb_field_iter_find
pb_field_iter_find-Finds fields dest array tag home h =
    let at = walk-start fields dest home in
    let same = find_loop-search_loop (suc (length fields)) home tag (walk fields dest home) in
    simp (at.0, at.2, same) (search_loop-Finds fields dest array (is_wanted tag) home h)
