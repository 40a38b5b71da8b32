-- ===== src/Memory.antt =====
-- The memory that messages lie in: a byte at every address. Words are little-endian, pointers have
-- eight bytes, and address 0 is NULL.
pub mod Laws
use pincushion.Prelude.{ℕ, zero, suc, ◌+◌, ◌*◌, ◌/◌, ◌%◌, List, [], ◌∷◌, ◌==◌, ltb, leb, ◌&&◌}
use pincushion.Prelude.{if◌then◌else◌, length, get_or, ◌-◌}

abbrev pub Memory : Type 0
Memory = ℕ → ℕ

-- `count` bytes from an address on.
unfoldable pub load_bytes : Memory → ℕ → ℕ → List ℕ
load_bytes m p zero = []
load_bytes m p (suc count) = m p ∷ load_bytes m (suc p) count

-- The unsigned word of `size` bytes at an address.
unfoldable pub load : Memory → ℕ → ℕ → ℕ
load m p zero = 0
load m p (suc size) = m p + 256 * load m (suc p) size

-- The bytes put from an address on.
unfoldable pub store_bytes : Memory → ℕ → List ℕ → Memory
store_bytes m p [] q = m q
store_bytes m p (b ∷ bytes) q = if q == p then b else store_bytes m (suc p) bytes q

-- The lowest `size` bytes of a value, lowest first.
unfoldable pub word_bytes : ℕ → ℕ → List ℕ
word_bytes zero v = []
word_bytes (suc size) v = v % 256 ∷ word_bytes size (v / 256)

unfoldable pub store : Memory → ℕ → ℕ → ℕ → Memory
unfolding store_bytes word_bytes
store m p size v = store_bytes m p (word_bytes size v)

-- sizeof(void*), and a pointer read from memory.
abbrev pub pointer_size : ℕ
pointer_size = 8

unfoldable pub load_pointer : Memory → ℕ → ℕ
unfolding load
load_pointer m p = load m p pointer_size
