-- ===== src/Struct/Text.antt =====
-- Strings in memory: the loop of `pb_enc_string` in nanopb/pb_encode.c that stands for strnlen.
use pincushion.Prelude.{ℕ, zero, suc, ◌+◌, ◌<◌, ◌≤◌, ◌≡◌, ◌≢◌, refl, ap, ◌∙◌, arith, List, []}
use pincushion.Prelude.{◌∷◌}
use pincushion.Prelude.{length, All, ◌==◌, false}
use native.Mathlib.Numerals.{add-one}
use pincushion.Memory.{Memory, load_bytes, store, store_bytes, word_bytes}
use pincushion.Memory.Laws.{load_bytes-store_bytes, load_bytes-ext}
use pincushion.Encode.{strnlen}

pub strnlen-ext :
    (m n : Memory) (size p : ℕ)
    → ((q : ℕ) → p ≤ q → q < p + size → m q ≡ n q)
    → strnlen m size p ≡ strnlen n size p
unfolding strnlen
strnlen-ext m n zero p h = refl
strnlen-ext m n (suc size) p h =
    rw
      (
        h p (omega arith) (omega arith),
        strnlen-ext m n size (p + 1) (λ q lo hi. h q (omega arith) (omega arith)),
      )
      refl

-- Bytes that are not zero, and a zero behind them, within the size.
strnlen-text :
    (m : Memory) (p : ℕ) (bytes : List ℕ)
    → All (λ b. b ≢ 0) bytes
    → ((k : ℕ) → p ≤ k → k < p + length bytes → m k ≡ store_bytes m p bytes k)
    → m (p + length bytes) ≡ 0
    → (size : ℕ) → length bytes < size
    → strnlen m size p ≡ length bytes
unfolding strnlen store_bytes
strnlen-text m p bytes nonzero same end zero lt = absurd (omega arith)
strnlen-text m p [] nonzero same end (suc size) lt =
    let e : p + 0 ≡ p = omega arith in let here = rw e at end in rw here refl
strnlen-text m p (b ∷ bytes) nonzero same end (suc size) lt =
    let here : m p ≡ b = let at = same p (omega arith) (omega arith) in ground arith in
    let more : (m p == 0) ≡ false = ground (arith, nonzero.0) in
    let e : p + suc (length bytes) ≡ p + 1 + length bytes = omega arith in
    let end' = rw e at end in
    rw more (
      ap suc (
        strnlen-text m (p + 1) bytes nonzero.1
          (λ k lo hi. let at = same k (omega arith) (omega arith) in ground (arith, add-one p)) end'
          size (omega arith)))

-- A string that was stored with the zero behind it.
module _ (m : Memory) (p : ℕ) (bytes : List ℕ) (nonzero : All (λ b. b ≢ 0) bytes) where
  abbrev pub stored_text : Memory
  stored_text = store (store_bytes m p bytes) (p + length bytes) 1 0

  pub before : (q : ℕ) → q < p + length bytes → stored_text q ≡ store_bytes m p bytes q
  unfolding store word_bytes store_bytes
  before q lt = ground arith

  at_end : stored_text (p + length bytes) ≡ 0
  unfolding store word_bytes store_bytes
  at_end = ground arith

  inside_text :
      (bs : List ℕ) (r : ℕ) (m' n' : Memory)
      → (k : ℕ) → r ≤ k
      → k < r + length bs
      → store_bytes m' r bs k ≡ store_bytes n' r bs k
  unfolding store_bytes
  inside_text [] r m' n' k lo hi = absurd (omega arith)
  inside_text (b ∷ bs) r m' n' k lo hi = ground (arith, inside_text bs (suc r) m' n' k)

  pub strnlen-stored : (size : ℕ) → length bytes < size → strnlen stored_text size p ≡ length bytes
  strnlen-stored size lt =
      strnlen-text stored_text p bytes nonzero
        (λ k lo hi. before k hi ∙ inside_text bytes p m stored_text k lo hi) at_end size lt

  pub load-stored : load_bytes stored_text p (length bytes) ≡ bytes
  load-stored =
      load_bytes-ext stored_text (store_bytes m p bytes) p (length bytes) (λ q lo hi. before q hi)
      ∙ load_bytes-store_bytes m p bytes
