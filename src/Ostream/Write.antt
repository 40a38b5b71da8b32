-- ===== src/Ostream/Write.antt =====
-- What `pb_write` does on every branch, and actions on a stream that write given bytes.
use pincushion.Prelude.{ℕ, ◌+◌, ◌^◌, ◌≤◌, ◌<◌, ◌≡◌, refl, ap, ◌∙◌, arith}
use pincushion.Prelude.{List, [], ◌∷◌, ◌++◌, length, length-append, take}
use pincushion.Prelude.{Outcome, ok, fail, pure, ◌>>◌, none, some, true, ltb, u64}
use pincushion.Ostream.{Ostream, Write, sizing, buffer, pb_write}
use mathlib.Core.List.{append-nil, append_assoc}
use native.Mathlib.Nat.{add-zero}
use native.Mathlib.Decide.{dec_lt}

-- A stream that counts, and one into a buffer that holds `stored` behind its start, both without
-- an error message.
abbrev pub counting : ℕ → ℕ → Ostream
counting max n = record { sink = sizing; max_size = max; bytes_written = n; errmsg = none }

abbrev pub storing : List ℕ → ℕ → ℕ → Ostream
storing stored max n = record {
  sink = buffer stored;
  max_size = max;
  bytes_written = n;
  errmsg = none;
}

pub take-all {ℓ} : {A : Type ℓ} (xs : List A) → take (length xs) xs ≡ xs
take-all [] = refl
take-all (x ∷ xs) = ap (◌∷◌ x) (take-all xs)

-- An action fails for want of room.
abbrev pub Full : Outcome Ostream (Unit {0}) → Type 0
Full o = (t : Ostream) × (o ≡ fail t) × (t.errmsg ≡ some "stream full")

-- The action writes `bytes`: a counting stream counts them, and a buffer with room takes them; it
-- succeeds, and changes nothing else. In a buffer without room it fails.
pub record Emits (w : Write) (bytes : List ℕ) : Type 0 where
  pub counts :
      (max n : ℕ)
      → n + length bytes < 2 ^ 64
      → w (counting max n) ≡ ok tt (counting max (n + length bytes))
  pub stores :
      (stored : List ℕ) (max n : ℕ)
      → n + length bytes ≤ max
      → max < 2 ^ 64
      → w (storing stored max n) ≡ ok tt (storing (stored ++ bytes) max (n + length bytes))
  pub overflows :
      (stored : List ℕ) (max n : ℕ)
      → n ≤ max
      → max < 2 ^ 63
      → length bytes < 2 ^ 63
      → max < n + length bytes
      → Full (w (storing stored max n))

-- No room for what `pb_write` gets.
pb_write-Full :
    (bytes stored : List ℕ) (max n : ℕ)
    → (ltb max (u64 (n + length bytes))) ≡ true
    → Full (pb_write bytes (length bytes) (storing stored max n))
unfolding pb_write
pb_write-Full bytes stored max n full = rw full (_, refl, refl)

pub pb_write-Emits : (bytes : List ℕ) → Emits (pb_write bytes (length bytes)) bytes
pb_write-Emits bytes = record {
  counts = λ max n h. unfold pb_write in ground arith;
  stores = λ stored max n h small. unfold pb_write in ground (arith, take-all bytes);
  overflows = λ stored max n le small short full. pb_write-Full bytes stored max n (ground arith);
}

-- The second action has no room, or the first had none.
seq-first : (v w : Write) (s : Ostream) → Full (v s) → Full ((v >> w) s)
seq-first v w s (t, e, msg) = rw (e, ◌>>◌) (t, refl, msg)

seq-second : (v w : Write) (s t : Ostream) → v s ≡ ok tt t → Full (w t) → Full ((v >> w) s)
seq-second v w s t e full = rw (e, ◌>>◌) full

pub Emits-seq :
    {v w : Write} {front back : List ℕ}
    → Emits v front
    → Emits w back
    → Emits (v >> w) (front ++ back)
Emits-seq {v} {w} {front} {back} ev ew = record {
  counts = λ max n h.
      let len = length-append front back in
      let first = ev.counts max n (omega (arith, len)) in
      let second = ew.counts max (n + length front) (omega (arith, len)) in
      let sum : n + length front + length back ≡ n + length (front ++ back) = omega (arith, len) in
      rw (first, ◌>>◌) (second ∙ ap (λ k. ok tt (counting max k)) sum);
  stores = λ stored max n h small.
      let len = length-append front back in
      let first = ev.stores stored max n (omega (arith, len)) small in
      let second = ew.stores (stored ++ front) max (n + length front) (omega (arith, len)) small in
      let sum : n + length front + length back ≡ n + length (front ++ back) = omega (arith, len) in
      rw (first, ◌>>◌, ← append_assoc stored front back)
        (second ∙ ap (λ k. ok tt (storing ((stored ++ front) ++ back) max k)) sum);
  overflows = λ stored max n le small short full.
      let len = length-append front back in
      elim (dec_lt max (n + length front)) [
        | yes lt ↦
            seq-first v w (storing stored max n)
              (ev.overflows stored max n le small (omega (arith, len)) lt)
        | no ge ↦
            seq-second v w (storing stored max n) _
              (ev.stores stored max n (omega arith) (omega arith))
              (ew.overflows (stored ++ front) max (n + length front) (omega arith) small
                (omega (arith, len)) (omega (arith, len)))
      ];
}

pub pure-Emits : Emits (pure tt) []
pure-Emits = record {
  counts = λ max n h. rw add-zero;
  stores = λ stored max n h small. rw (add-zero, append-nil);
  overflows = λ stored max n le small short full. absurd (omega arith);
}
