-- ===== src/Prelude/BitTest.antt =====
-- The bits of a number one by one.
use Prim.Native.Nat.{ℕ, zero, suc, ◌-◌, ◌/◌, ◌%◌, ◌^◌, ◌≤◌, ◌<◌, max, bit_or}
use mathlib.Core.Path.{◌≡◌, refl, ap}
use mathlib.Core.Logic.{◌≢◌}
use native.Mathlib.Nat.{pow-suc, one-le-pow}
use native.Mathlib.Omega.{arith}
use pincushion.Prelude.Bits.{lowest_or}

unfoldable pub bit : ℕ → ℕ → ℕ
bit a zero = a % 2
bit a (suc i) = bit (a / 2) i

pub bit-bit_or : (i a b : ℕ) → bit (bit_or a b) i ≡ max (bit a i) (bit b i)
unfolding bit
bit-bit_or zero a b = omega (arith, lowest_or a b)
bit-bit_or (suc i) a b =
    let half : bit_or a b / 2 ≡ bit_or (a / 2) (b / 2) = omega (arith, lowest_or a b) in
    rw half (bit-bit_or i (a / 2) (b / 2))

pub bit-zero : (i : ℕ) → bit 0 i ≡ 0
unfolding bit
bit-zero zero = refl
bit-zero (suc i) = bit-zero i

pub bit-same : (j : ℕ) → bit (2 ^ j) j ≡ 1
unfolding bit
bit-same zero = refl
bit-same (suc j) =
    let half : 2 ^ suc j / 2 ≡ 2 ^ j = omega (arith, pow-suc 2 j) in rw half (bit-same j)

pub bit-other : (j i : ℕ) → i ≢ j → bit (2 ^ j) i ≡ 0
unfolding bit
bit-other zero zero ne = absurd (ne refl)
bit-other zero (suc i) ne = bit-zero i
bit-other (suc j) zero ne = omega (arith, pow-suc 2 j)
bit-other (suc j) (suc i) ne =
    let half : 2 ^ suc j / 2 ≡ 2 ^ j = omega (arith, pow-suc 2 j) in
    rw half (bit-other j i (λ e. ne (ap suc e)))

bit_or-zero : (a b : ℕ) → a ≡ 0 → b ≡ 0 → bit_or a b ≡ 0
bit_or-zero a b ha hb = rw (ha, hb) refl

pub bit_or-lt : (n a b : ℕ) → a < 2 ^ n → b < 2 ^ n → bit_or a b < 2 ^ n
bit_or-lt zero a b ha hb = omega (arith, bit_or-zero a b (omega arith) (omega arith))
bit_or-lt (suc n) a b ha hb =
    let p = pow-suc 2 n in
    let low = lowest_or a b in
    let rest = bit_or-lt n (a / 2) (b / 2) (omega arith) (omega arith) in omega arith

-- The number whose lowest `n` bits are set, and no other of its `m` bits.
pub all_ones :
    (m n a : ℕ)
    → a < 2 ^ m
    → n ≤ m
    → ((i : ℕ) → i < n → bit a i ≡ 1)
    → ((i : ℕ) → n ≤ i → i < m → bit a i ≡ 0)
    → a ≡ 2 ^ n - 1
unfolding bit
all_ones zero n a lt le on off = let none : n ≡ 0 = omega arith in rw none (omega arith)
all_ones (suc m) zero a lt le on off =
    let p = pow-suc 2 m in
    let half =
      all_ones m zero (a / 2) (omega arith) (omega arith) (λ i h. absurd (omega arith))
        (λ i h k. off (suc i) (omega arith) (omega arith)) in
    omega (arith, half, off zero (omega arith) (omega arith))
all_ones (suc m) (suc n) a lt le on off =
    let p = pow-suc 2 m in
    let half =
      all_ones m n (a / 2) (omega arith) (omega arith) (λ i h. on (suc i) (omega arith))
        (λ i h k. off (suc i) (omega arith) (omega arith)) in
    omega (arith, half, on zero (omega arith), pow-suc 2 n, one-le-pow n 2 (omega arith))

pub bit-all_ones : (n i : ℕ) → i < n → bit (2 ^ n - 1) i ≡ 1
unfolding bit
bit-all_ones zero i h = absurd (omega arith)
bit-all_ones (suc n) zero h = omega (arith, pow-suc 2 n, one-le-pow n 2 (omega arith))
bit-all_ones (suc n) (suc i) h =
    let half : (2 ^ suc n - 1) / 2 ≡ 2 ^ n - 1 =
      omega (arith, pow-suc 2 n, one-le-pow n 2 (omega arith)) in
    rw half (bit-all_ones n i (omega arith))
