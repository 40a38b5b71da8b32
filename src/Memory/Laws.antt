-- ===== src/Memory/Laws.antt =====
-- Reading what was stored, and what a store leaves alone.
use pincushion.Prelude.{ℕ, zero, suc, ◌+◌, ◌*◌, ◌/◌, ◌%◌, ◌^◌, ◌≤◌, ◌<◌, ◌≡◌, refl, ap, arith}
use pincushion.Prelude.{List, [], ◌∷◌, length, ◌⊎◌}
use pincushion.Memory.{Memory, load, store, load_bytes, store_bytes, word_bytes}
use native.Mathlib.Nat.{pow-suc}

-- A store changes its own bytes only.
pub store_bytes-outside :
    (m : Memory) (p : ℕ) (bytes : List ℕ) (q : ℕ)
    → (q < p) ⊎ (p + length bytes ≤ q)
    → store_bytes m p bytes q ≡ m q
unfolding store_bytes
store_bytes-outside m p [] q h = refl
store_bytes-outside m p (b ∷ bytes) q h = ground (arith, store_bytes-outside m (suc p) bytes q)

pub length-word_bytes : (size v : ℕ) → length (word_bytes size v) ≡ size
unfolding word_bytes
length-word_bytes zero v = refl
length-word_bytes (suc size) v = ap suc (length-word_bytes size (v / 256))

pub load-ext :
    (m n : Memory) (p size : ℕ)
    → ((q : ℕ) → p ≤ q → q < p + size → m q ≡ n q)
    → load m p size ≡ load n p size
unfolding load
load-ext m n p zero h = refl
load-ext m n p (suc size) h = ground (
  arith,
  h p (omega arith) (omega arith),
  load-ext m n (suc p) size (λ q lo hi. h q (omega arith) (omega arith)),
)

load-cons :
    (m : Memory) (p b : ℕ) (bytes : List ℕ) (size : ℕ)
    → load (store_bytes m p (b ∷ bytes)) p (suc size)
      ≡ b + 256 * load (store_bytes m (suc p) bytes) (suc p) size
unfolding load
load-cons m p b bytes size =
    let same =
      load-ext (store_bytes m p (b ∷ bytes)) (store_bytes m (suc p) bytes) (suc p) size
        (λ q lo hi. unfold store_bytes in ground arith) in
    let here : store_bytes m p (b ∷ bytes) p ≡ b = unfold store_bytes in ground arith in
    omega (arith, same, here)

-- A word read back where it was stored, if it fits its size.
pub load-store : (m : Memory) (p size v : ℕ) → v < 256 ^ size → load (store m p size v) p size ≡ v
unfolding store
load-store m p size v h = go size p v h
  where
    go : (size p v : ℕ) → v < 256 ^ size → load (store_bytes m p (word_bytes size v)) p size ≡ v
    go zero p v h = unfold load in omega arith
    go (suc size) p v h =
        let rest = go size (suc p) (v / 256) (omega (arith, pow-suc 256 size)) in
        unfold word_bytes in
        omega (arith, load-cons m p (v % 256) (word_bytes size (v / 256)) size, rest)

pub load_bytes-outside :
    (m : Memory) (p count : ℕ) (r : ℕ) (bytes : List ℕ)
    → (p + count ≤ r) ⊎ (r + length bytes ≤ p)
    → load_bytes (store_bytes m r bytes) p count ≡ load_bytes m p count
unfolding load_bytes
load_bytes-outside m p zero r bytes h = refl
load_bytes-outside m p (suc count) r bytes h =
    ground (arith, store_bytes-outside m r bytes p, load_bytes-outside m (suc p) count r bytes)

pub length-load_bytes : (m : Memory) (p count : ℕ) → length (load_bytes m p count) ≡ count
unfolding load_bytes
length-load_bytes m p zero = refl
length-load_bytes m p (suc count) = ap suc (length-load_bytes m (suc p) count)

pub load_bytes-ext :
    (m n : Memory) (p count : ℕ)
    → ((q : ℕ) → p ≤ q → q < p + count → m q ≡ n q)
    → load_bytes m p count ≡ load_bytes n p count
unfolding load_bytes
load_bytes-ext m n p zero h = refl
load_bytes-ext m n p (suc count) h =
    rw
      (
        h p (omega arith) (omega arith),
        load_bytes-ext m n (suc p) count (λ q lo hi. h q (omega arith) (omega arith)),
      )
      refl

-- Bytes read back from where they were stored.
pub load_bytes-store_bytes :
    (m : Memory) (p : ℕ) (bytes : List ℕ)
    → load_bytes (store_bytes m p bytes) p (length bytes) ≡ bytes
unfolding load_bytes
load_bytes-store_bytes m p [] = refl
load_bytes-store_bytes m p (b ∷ bytes) =
    let here : store_bytes m p (b ∷ bytes) p ≡ b = unfold store_bytes in ground arith in
    let same =
      load_bytes-ext (store_bytes m p (b ∷ bytes)) (store_bytes m (suc p) bytes) (suc p)
        (length bytes) (λ q lo hi. unfold store_bytes in ground arith) in
    rw (here, same, load_bytes-store_bytes m (suc p) bytes) refl
