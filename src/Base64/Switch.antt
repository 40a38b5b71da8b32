-- ===== src/Base64/Switch.antt =====
-- The four cases of the switch in `f_b64_pton`, with the target split behind the bytes that are
-- complete.
use pincushion.Prelude.{ℕ, ◌+◌, ◌^◌, ◌<◌, ◌≡◌, arith}
use pincushion.Prelude.{List, [], ◌∷◌, ◌++◌, length, length-append, get_or-append, set-append}
use pincushion.Prelude.{some}
use pincushion.Prelude.{set-append_next, bit_and, bit_or}
use pincushion.Prelude.{u8, ok, ◌<<<◌, ◌>>>◌}
use pincushion.Base64.{Decoding, switch}
use mathlib.Core.List.{append_assoc}
use native.Mathlib.Numerals.{add-one}

-- `front` is decoded, and `window` is the rest of the target.
abbrev pub at : List ℕ → List ℕ → ℕ → Decoding
at front window state = record {
  target = some (front ++ window);
  tarindex = length front;
  state = state;
}

module _ (targsize p : ℕ) (front : List ℕ) (x : ℕ) (small : length front + 1 < 2 ^ 32) where
  pub switch_0 :
      (w : List ℕ)
      → length front < targsize
      → switch targsize p (at front (x ∷ w) 0) ≡ ok tt (at front (u8 (p <<< 2) ∷ w) 1)
  unfolding switch
  switch_0 w h = ground (arith, set-append front x w (u8 (p <<< 2)))

  pub switch_1 :
      (y : ℕ) (w : List ℕ)
      → length front + 1 < targsize
      → switch targsize p (at front (x ∷ y ∷ w) 1)
        ≡ ok tt (at (front ++ (u8 (bit_or x (p >>> 4)) ∷ [])) (u8 (bit_and p 0x0f <<< 4) ∷ w) 2)
  unfolding switch
  switch_1 y w h =
      let v = u8 (bit_or x (p >>> 4)) in
      let next = u8 (bit_and p 0x0f <<< 4) in
      ground (
        arith,
        get_or-append front x (y ∷ w) 0,
        set-append front x (y ∷ w) v,
        set-append_next front v y w next,
        append_assoc front (v ∷ []) (next ∷ w),
        length-append front (v ∷ []),
        add-one (length front),
      )

  pub switch_2 :
      (y : ℕ) (w : List ℕ)
      → length front + 1 < targsize
      → switch targsize p (at front (x ∷ y ∷ w) 2)
        ≡ ok tt (at (front ++ (u8 (bit_or x (p >>> 2)) ∷ [])) (u8 (bit_and p 0x03 <<< 6) ∷ w) 3)
  unfolding switch
  switch_2 y w h =
      let v = u8 (bit_or x (p >>> 2)) in
      let next = u8 (bit_and p 0x03 <<< 6) in
      ground (
        arith,
        get_or-append front x (y ∷ w) 0,
        set-append front x (y ∷ w) v,
        set-append_next front v y w next,
        append_assoc front (v ∷ []) (next ∷ w),
        length-append front (v ∷ []),
        add-one (length front),
      )

  pub switch_3 :
      (w : List ℕ)
      → length front < targsize
      → switch targsize p (at front (x ∷ w) 3) ≡ ok tt (at (front ++ (u8 (bit_or x p) ∷ [])) w 0)
  unfolding switch
  switch_3 w h =
      let v = u8 (bit_or x p) in
      ground (
        arith,
        get_or-append front x w 0,
        set-append front x w v,
        append_assoc front (v ∷ []) w,
        length-append front (v ∷ []),
      )
