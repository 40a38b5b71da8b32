-- ===== src/Prelude/Bits.antt =====
-- `|` of disjoint fields and `&` with a low mask, as arithmetic, at every width; the casts to the
-- unsigned types of C.
use Prim.Native.Nat.{ℕ, zero, suc, ◌+◌, ◌-◌, ◌*◌, ◌/◌, ◌%◌, ◌^◌, ◌≤◌, ◌<◌, min, max}
use Prim.Native.Nat.{compare, Ordering, bit_and, bit_or, digits, bit_and-bitwise}
use Prim.Native.Nat.{bit_or-bitwise}
use mathlib.Core.Path.{◌≡◌, refl, ap}
use mathlib.Core.Bool.{Bool, true, false, ◌&&◌}
use native.Mathlib.Nat.{le_refl, pow-suc, one-le-pow}
use native.Mathlib.Omega.{arith}

abbrev pub u8 : ℕ → ℕ
u8 n = n % 2 ^ 8

abbrev pub u32 : ℕ → ℕ
u32 n = n % 2 ^ 32

-- `size_t` has 64 bits as well.
abbrev pub u64 : ℕ → ℕ
u64 n = n % 2 ^ 64

infixl 75 ◌<<<◌ ◌>>>◌
abbrev pub ◌<<<◌ : ℕ → ℕ → ℕ
x <<< k = x * 2 ^ k

abbrev pub ◌>>>◌ : ℕ → ℕ → ℕ
x >>> k = x / 2 ^ k

abbrev pub IsByte : ℕ → Type 0
IsByte b = b < 256

-- The native operations stand for `digits`, a recursion on binary digits with fuel; any fuel from
-- the first number on gives the same digits.
module _ (rest : ℕ → ℕ) (digit : ℕ → ℕ → ℕ) where
  abbrev with_fuel : ℕ → ℕ → ℕ → ℕ
  with_fuel = digits rest digit

  fuel_irrelevant : (x y : ℕ) (f g : ℕ) → x ≤ f → x ≤ g → with_fuel f x y ≡ with_fuel g x y
  fuel_irrelevant zero y zero zero hf hg = refl
  fuel_irrelevant zero y zero (suc g) hf hg = refl
  fuel_irrelevant zero y (suc f) zero hf hg = refl
  fuel_irrelevant zero y (suc f) (suc g) hf hg = refl
  fuel_irrelevant (suc x) y zero g hf hg = absurd (omega arith)
  fuel_irrelevant (suc x) y (suc f) zero hf hg = absurd (omega arith)
  fuel_irrelevant (suc x) y (suc f) (suc g) hf hg =
      ap (λ t. t * 2 + digit (suc x % 2) (y % 2))
        (fuel_irrelevant (suc x / 2) (y / 2) f g (omega arith) (omega arith))

pub lowest_or : (a b : ℕ) → bit_or a b ≡ bit_or (a / 2) (b / 2) * 2 + max (a % 2) (b % 2)
lowest_or zero b = omega (arith, bit_or-bitwise 0 b, bit_or-bitwise 0 (b / 2))
lowest_or (suc a) b = omega (
  arith,
  bit_or-bitwise (suc a) b,
  bit_or-bitwise (suc a / 2) (b / 2),
  fuel_irrelevant (λ y. y) max (suc a / 2) (b / 2) a (suc a / 2) (omega arith) (omega arith),
)

lowest_and : (a b : ℕ) → bit_and a b ≡ bit_and (a / 2) (b / 2) * 2 + min (a % 2) (b % 2)
lowest_and zero b = omega (arith, bit_and-bitwise 0 b, bit_and-bitwise 0 (b / 2))
lowest_and (suc a) b = omega (
  arith,
  bit_and-bitwise (suc a) b,
  bit_and-bitwise (suc a / 2) (b / 2),
  fuel_irrelevant (λ y. zero) min (suc a / 2) (b / 2) a (suc a / 2) (omega arith) (omega arith),
)

pub zero-bit_or : (b : ℕ) → bit_or 0 b ≡ b
zero-bit_or b = bit_or-bitwise 0 b

-- Induction on a bound `k` of the first number.
and-zero_bounded : (k a : ℕ) → a ≤ k → bit_and a 0 ≡ 0
and-zero_bounded k zero h = refl
and-zero_bounded zero (suc a) h = absurd (omega arith)
and-zero_bounded (suc k) (suc a) h =
    omega (arith, lowest_and (suc a) 0, and-zero_bounded k (suc a / 2) (omega arith))

pub bit_and-zero : (a : ℕ) → bit_and a 0 ≡ 0
bit_and-zero a = and-zero_bounded a a (le_refl a)

double_shift : (x n : ℕ) → x <<< suc n ≡ 2 * (x <<< n)
double_shift x n = omega (arith, ap (λ (t : ℕ). x * t) (pow-suc 2 n))

-- `r | (q << n)` is a sum when `r` fits `n` bits.
pub bit_or-disjoint : (n r q : ℕ) → r < 2 ^ n → bit_or r (q <<< n) ≡ r + q * 2 ^ n
bit_or-disjoint zero r q fits = ground (arith, zero-bit_or q)
bit_or-disjoint (suc n) r q fits = ground (
  arith,
  lowest_or r (q <<< suc n),
  double_shift q n,
  pow-suc 2 n,
  bit_or-disjoint n (r / 2) q (omega arith),
)

low_part : (n q r : ℕ) → r < 2 ^ n → bit_and (r + q * 2 ^ n) (2 ^ n - 1) ≡ r
low_part zero q r fits = omega (arith, bit_and-zero (r + q * 2 ^ 0))
low_part (suc n) q r fits = ground (
  arith,
  lowest_and (r + q * 2 ^ suc n) (2 ^ suc n - 1),
  double_shift q n,
  pow-suc 2 n,
  low_part n q (r / 2) (omega arith),
)

-- `a & (2^n - 1)` is the remainder by `2 ^ n`.
pub bit_and-mask : (n a : ℕ) → bit_and a (2 ^ n - 1) ≡ a % 2 ^ n
bit_and-mask n a = ground (arith, one-le-pow n 2, low_part n (a / 2 ^ n) (a % 2 ^ n))

-- A property of all numbers below a bound, checked by evaluation.
unfoldable pub every_below : ℕ → (ℕ → Bool) → Bool
every_below zero test = true
every_below (suc n) test = test n && every_below n test

pub every_below_sound :
    (n : ℕ) (test : ℕ → Bool) → every_below n test ≡ true → (x : ℕ) → x < n → test x ≡ true
unfolding every_below
every_below_sound zero test e x h = absurd (omega arith)
every_below_sound (suc n) test e x h = ground (arith, every_below_sound n test (ground arith) x)

pub every_below_complete :
    (n : ℕ) (test : ℕ → Bool) → ((x : ℕ) → x < n → test x ≡ true) → every_below n test ≡ true
unfolding every_below
every_below_complete zero test h = refl
every_below_complete (suc n) test h =
    ground (arith, h n (omega arith), every_below_complete n test (λ x lt. h x (omega arith)))

same : ℕ → ℕ → Bool
same a b = elim (compare a b) [ Ordering.eq ↦ true | _ ↦ false ]

same_sound : (a b : ℕ) → same a b ≡ true → a ≡ b
unfolding same
same_sound a b h = ground arith

top_bit_table : every_below 256 (λ b. same (bit_and b 0x80) (b / 128 * 128)) ≡ true
unfolding every_below same
top_bit_table = refl

pub top_bit : (b : ℕ) → b < 256 → bit_and b 0x80 ≡ b / 128 * 128
top_bit b h = same_sound _ _ (every_below_sound 256 _ top_bit_table b h)

pub low_seven : (a : ℕ) → bit_and a 0x7f ≡ a % 128
low_seven a = bit_and-mask 7 a

pub set_top_bit : (r : ℕ) → r < 128 → bit_or r 0x80 ≡ r + 128
set_top_bit r h = bit_or-disjoint 7 r 1 h

nibble_table : every_below 16 (λ b. same (bit_and b 0x70) 0) ≡ true
unfolding every_below same
nibble_table = refl

pub bit_and-0x70 : (b : ℕ) → b < 16 → bit_and b 0x70 ≡ 0
bit_and-0x70 b h = same_sound _ _ (every_below_sound 16 _ nibble_table b h)

or_comm_bounded : (k a b : ℕ) → a ≤ k → b ≤ k → bit_or a b ≡ bit_or b a
or_comm_bounded zero zero zero ha hb = refl
or_comm_bounded zero zero (suc b) ha hb = absurd (omega arith)
or_comm_bounded zero (suc a) b ha hb = absurd (omega arith)
or_comm_bounded (suc k) a b ha hb = omega (
  arith,
  lowest_or a b,
  lowest_or b a,
  or_comm_bounded k (a / 2) (b / 2) (omega arith) (omega arith),
)

pub bit_or_comm : (a b : ℕ) → bit_or a b ≡ bit_or b a
bit_or_comm a b = or_comm_bounded (a + b) a b (omega arith) (omega arith)
