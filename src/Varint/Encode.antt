-- ===== src/Varint/Encode.antt =====
-- The bytes of `pb_encode_varint` in plain arithmetic.
use pincushion.Prelude.{ℕ, zero, suc, ◌+◌, ◌/◌, ◌%◌, ◌^◌, ◌≤◌, ◌<◌, ◌≡◌, refl, arith}
use pincushion.Prelude.{List, [], ◌∷◌, length, All, IsByte, ltb, if◌then◌else◌}
use pincushion.Prelude.{bit_and, bit_or, low_seven, set_top_bit}
use pincushion.Varint.{groups, unset_last_top_bit, varint_bytes}
use native.Mathlib.Decide.{dec_lt}

-- The groups of seven bits of a number below 128 ^ (k + 1), lowest first, all but the last with
-- the top bit set.
unfoldable pub base128 : ℕ → ℕ → List ℕ
base128 zero v = v ∷ []
base128 (suc k) v =
    let rest = base128 k (v / 128) in if ltb v 128 then v ∷ [] else (v % 128 + 128) ∷ rest

group_byte : (v : ℕ) → bit_or (bit_and v 0x7f) 0x80 % 2 ^ 8 ≡ v % 128 + 128
group_byte v = omega (arith, low_seven v, set_top_bit (bit_and v 0x7f) (omega (arith, low_seven v)))

no_groups : (v : ℕ) → groups 0 v ≡ []
unfolding groups
no_groups v = refl

groups-zero : (k : ℕ) → groups k 0 ≡ []
unfolding groups
groups-zero zero = refl
groups-zero (suc k) = refl

groups-pos : (k v : ℕ) → 0 < v → groups (suc k) v ≡ (v % 128 + 128) ∷ groups k (v / 128)
unfolding groups
groups-pos k v h = ground (arith, group_byte v)

-- One group alone, and a group before others.
unset_last-one : (v : ℕ) → v < 128 → unset_last_top_bit ((v % 128 + 128) ∷ []) ≡ v ∷ []
unfolding unset_last_top_bit
unset_last-one v h = ground (arith, low_seven (v % 128 + 128))

unset_last-cons :
    (k v b : ℕ)
    → 0 < v
    → unset_last_top_bit (b ∷ groups (suc k) v) ≡ b ∷ unset_last_top_bit (groups (suc k) v)
unset_last-cons k v b h = rw (groups-pos k v h) (unfold unset_last_top_bit in refl)

unset_last-groups :
    (k v : ℕ) → 0 < v → v < 128 ^ suc k → unset_last_top_bit (groups (suc k) v) ≡ base128 k v
unfolding base128
unset_last-groups zero v pos h =
    rw (groups-pos 0 v pos, no_groups (v / 128)) (unset_last-one v (omega arith))
unset_last-groups (suc k) v pos h = elim (dec_lt v 128) [
  | yes small ↦ ground (arith, unset_last-one v small, groups-pos (suc k) v, groups-zero (suc k))
  | no large ↦ ground (
    arith,
    groups-pos (suc k) v,
    unset_last-cons k (v / 128) (v % 128 + 128),
    unset_last-groups k (v / 128) (omega arith) (omega arith),
  )
]

-- What is written for a uint64_t.
pub varint_bytes-base128 : (v : ℕ) → v < 2 ^ 64 → varint_bytes v ≡ base128 9 v
unfolding varint_bytes
varint_bytes-base128 v h = elim (dec_lt v 128) [
  | yes small ↦ unfold base128 in ground arith
  | no large ↦ ground (arith, unset_last-groups 9 v)
]

pub base128-IsByte : (k v : ℕ) → v < 128 ^ suc k → All IsByte (base128 k v)
unfolding base128
base128-IsByte zero v h = omega arith
base128-IsByte (suc k) v h = ground (arith, base128-IsByte k (v / 128) (omega arith))

pub length-base128 : (k v : ℕ) → (1 ≤ length (base128 k v)) × (length (base128 k v) ≤ k + 1)
unfolding base128
length-base128 zero v = omega arith
length-base128 (suc k) v = ground (arith, length-base128 k (v / 128))

-- `buffer` has room for ten bytes, and all that is written fits it; a value has `j` groups or
-- fewer exactly when it is below 128 ^ j.
pub length-base128-le : (k v j : ℕ) → j < k → v < 128 ^ suc j → length (base128 k v) ≤ suc j
unfolding base128
length-base128-le zero v j jk h = absurd (omega arith)
length-base128-le (suc k) v zero jk h = ground arith
length-base128-le (suc k) v (suc j) jk h =
    ground (arith, length-base128-le k (v / 128) j (omega arith) (omega arith))

-- Room for more groups changes nothing.
pub base128-room : (k j v : ℕ) → j ≤ k → v < 128 ^ suc j → base128 k v ≡ base128 j v
unfolding base128
base128-room zero zero v h small = refl
base128-room zero (suc j) v h small = absurd (omega arith)
base128-room (suc k) zero v h small = ground arith
base128-room (suc k) (suc j) v h small =
    ground (arith, base128-room k j (v / 128) (omega arith) (omega arith))
