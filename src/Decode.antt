-- ===== src/Decode.antt =====
-- nanopb/pb_decode.c: `allocate_field` and the field decoders behind "Field decoders", over a memory.
pub mod Integers
pub mod Words
pub mod RoundTrip
pub mod Delimited
pub mod Strings
pub mod Fixed
pub mod Env
pub mod Default
pub mod Release
pub mod Static
pub mod Pointers
pub mod Callback
pub mod Message
pub mod Entry
pub mod Steps
pub mod FieldSteps
pub mod SubSteps
pub mod StaticSteps
pub mod StaticBounds
pub mod ReleaseStream
pub mod PointerSteps
pub mod CallbackSteps
pub mod MessageSteps
pub mod Termination
pub mod Bitmap
pub mod Required
pub mod SeenFields
pub mod RequiredRuns
pub mod RequiredBits
pub mod Unknown
pub mod KnownField
pub mod RequiredCount
use pincushion.Prelude.{ℕ, ◌+◌, ◌*◌, ◌/◌, ◌%◌, ◌^◌, ◌-◌, Bool, true, false, ◌&&◌, ◌||◌, List}
use pincushion.Prelude.{[]}
use pincushion.Prelude.{◌∷◌, length, ltb, leb, ◌==◌, if◌then◌else◌, u32, u64, replicate, String}
use pincushion.Prelude.{Outcome, ok, fail, Action, pure, ◌>>=◌, ◌>>◌, not}
use pincushion.Memory.{Memory, store, store_bytes, load_pointer, pointer_size}
use pincushion.Istream.{Istream, Read, pb_read, first_message}
use pincushion.Varint.{pb_decode_varint, pb_decode_varint32}
use pincushion.Wire.{pb_decode_svarint, pb_decode_fixed32, pb_decode_fixed64}
use pincushion.Field.{Field, atype, atype_pointer, pb_size_max}
use pincushion.Encode.{sign_extend, bytes_array_allocsize}

-- What `realloc` does with a pointer and a size, and `free` with a pointer: the pointer that `realloc`
-- returns, the memory that is left, and what the heap will do next. A heap that is `exhausted` returns
-- NULL and keeps what it is given.
mutual
  pub data Heap : Type 0 where
    exhausted : Heap
    heap : (Memory → ℕ → ℕ → Grant) → (Memory → ℕ → Freed) → Heap

  pub data Grant : Type 0 where
    grant : ℕ → Memory → Heap → Grant

  pub data Freed : Type 0 where
    freed : Memory → Heap → Freed

-- What a decoder works on: the stream, the memory that holds the message, and the heap.
pub record State : Type 0 where
  pub stream : Istream
  pub memory : Memory
  pub heap : Heap

-- A function that takes `pb_istream_t *stream` and returns `bool`, and may write through pointers.
abbrev pub Decode : Type 0 → Type 0
Decode A = Action State A

abbrev pub return_error : {A : Type 0} → String → Decode A
return_error msg s =
    fail (record s { stream = record s.stream { errmsg = first_message s.stream.errmsg msg } })

-- A function that reads the stream alone.
abbrev pub from_stream : {A : Type 0} → Read A → Decode A
from_stream read s = elim (read s.stream) [
  | ok a t ↦ ok a (record s { stream = t })
  | fail t ↦ fail (record s { stream = t })
]

-- `memcpy` and assignments through a pointer.
abbrev pub write_bytes : ℕ → List ℕ → Decode (Unit {0})
write_bytes dest bytes s = ok tt (record s { memory = store_bytes s.memory dest bytes })

abbrev pub write_word : ℕ → ℕ → ℕ → Decode (Unit {0})
write_word dest size value s = ok tt (record s { memory = store s.memory dest size value })

ask_heap : Heap → Memory → ℕ → ℕ → Grant
ask_heap exhausted m ptr size = grant 0 m exhausted
ask_heap (heap realloc free) m ptr size = realloc m ptr size

give_back : Heap → Memory → ℕ → Freed
give_back exhausted m ptr = freed m exhausted
give_back (heap realloc free) m ptr = free m ptr

-- `pb_free(ptr)`
unfoldable pub pb_free : ℕ → State → State
unfolding give_back
pb_free ptr s = elim (give_back s.heap s.memory ptr) [
  | freed m h ↦ record s { memory = m; heap = h }
]

-- `ptr = pb_realloc(ptr, size)` and the test of the result.
unfoldable pub reallocate : ℕ → ℕ → ℕ → Decode (Unit {0})
unfolding ask_heap
reallocate p_data ptr size s = elim (ask_heap s.heap s.memory ptr size) [
  | grant q m h ↦
      if q == 0
      then return_error "realloc failed" (record s { memory = m; heap = h })
      else ok tt (record s { memory = store m p_data pointer_size q; heap = h })
]

-- The test for an overflow of `array_size * data_size`.
unfoldable pub too_large : ℕ → ℕ → Bool
too_large data_size array_size =
    (leb (2 ^ 32) data_size || leb (2 ^ 32) array_size) && ltb ((2 ^ 64 - 1) / array_size) data_size

unfoldable pub allocate_field : ℕ → ℕ → ℕ → Decode (Unit {0})
unfolding reallocate too_large
allocate_field p_data data_size array_size s =
    let ptr = load_pointer s.memory p_data in
    if data_size == 0 || array_size == 0
    then return_error "invalid size" s
    else if too_large data_size array_size
    then return_error "size too large" s
    else reallocate p_data ptr (u64 (array_size * data_size)) s

-- One assignment of the chains on `data_size`, and the comparison of `clamped` with the value behind them.
unfoldable pub store_integer : (ℕ → ℕ → ℕ) → ℕ → ℕ → ℕ → Decode (Unit {0})
store_integer clamp dest value size s =
    let t = record s { memory = store s.memory dest size value } in
    if clamp size value == value then ok tt t else return_error "integer too large" t

-- The chain of tests on `data_size`, which `pb_dec_varint`, `pb_dec_uvarint` and `pb_dec_svarint` share.
unfoldable pub store_by_data_size : (ℕ → ℕ → ℕ) → ℕ → ℕ → ℕ → Decode (Unit {0})
store_by_data_size clamp dest value data_size =
    if data_size == 8
    then store_integer clamp dest value 8
    else if data_size == 4
    then store_integer clamp dest value 4
    else if data_size == 2
    then store_integer clamp dest value 2
    else if data_size == 1
    then store_integer clamp dest value 1
    else return_error "invalid data_size"

-- A cast to an unsigned and to a signed integer of `size` bytes, and back to 64 bits.
unfoldable pub clamp_unsigned : ℕ → ℕ → ℕ
clamp_unsigned size value = value % 256 ^ size

unfoldable pub clamp_signed : ℕ → ℕ → ℕ
clamp_signed size value = sign_extend size (value % 256 ^ size)

unfoldable pub pb_dec_varint : Field → ℕ → Decode (Unit {0})
pb_dec_varint field dest = from_stream pb_decode_varint >>= λ value.
    let svalue = if field.data_size == 8 then value else clamp_signed 4 value in
    store_by_data_size clamp_signed dest svalue field.data_size

unfoldable pub pb_dec_uvarint : Field → ℕ → Decode (Unit {0})
pb_dec_uvarint field dest = from_stream pb_decode_varint >>= λ value.
    store_by_data_size clamp_unsigned dest value field.data_size

unfoldable pub pb_dec_svarint : Field → ℕ → Decode (Unit {0})
pb_dec_svarint field dest = from_stream pb_decode_svarint >>= λ value.
    store_by_data_size clamp_signed dest value field.data_size

unfoldable pub pb_dec_fixed32 : Field → ℕ → Decode (Unit {0})
pb_dec_fixed32 field dest = from_stream pb_decode_fixed32 >>= λ value. write_word dest 4 value

unfoldable pub pb_dec_fixed64 : Field → ℕ → Decode (Unit {0})
pb_dec_fixed64 field dest = from_stream pb_decode_fixed64 >>= λ value. write_word dest 8 value

-- `pb_read(stream, dest, count)`
unfoldable pub read_to : ℕ → ℕ → Decode (Unit {0})
read_to dest count = from_stream (pb_read count) >>= λ bytes. write_bytes dest bytes

-- Where the contents of a string or bytes field go: into memory from `realloc`, or into the field, which
-- must have room for `alloc_size` bytes.
unfoldable pub place : Field → ℕ → ℕ → String → Decode ℕ
place field dest alloc_size msg s =
    if atype field == atype_pointer
    then (allocate_field dest alloc_size 1 >>= λ _. λ t. ok (load_pointer t.memory dest) t) s
    else if ltb field.data_size alloc_size
    then return_error msg s
    else ok dest s

unfoldable pub pb_dec_bytes : Field → ℕ → Decode (Unit {0})
unfolding place
pb_dec_bytes field dest = from_stream pb_decode_varint32 >>= λ size.
    let alloc_size = bytes_array_allocsize size in
    if ltb pb_size_max size
    then return_error "bytes overflow"
    else if ltb alloc_size size
    then return_error "size too large"
    else (place field dest alloc_size "bytes overflow" >>= λ bdest.
        write_word bdest 4 size >> read_to (bdest + 4) size)

-- The terminating zero, which is written whether the read succeeded or not.
unfoldable pub terminated : ℕ → Outcome State (Unit {0}) → Outcome State (Unit {0})
terminated p (ok _ s) = write_word p 1 0 s
terminated p (fail s) = (write_word p 1 0 >> fail) s

unfoldable pub pb_dec_string : Field → ℕ → Decode (Unit {0})
unfolding place terminated
pb_dec_string field dest = from_stream pb_decode_varint32 >>= λ size.
    let alloc_size = u32 (size + 1) in
    if ltb alloc_size size
    then return_error "size too large"
    else (place field dest alloc_size "string overflow" >>= λ sdest.
        λ s. terminated (sdest + size) (read_to sdest size s))

unfoldable pub pb_dec_fixed_length_bytes : Field → ℕ → Decode (Unit {0})
pb_dec_fixed_length_bytes field dest = from_stream pb_decode_varint32 >>= λ size.
    if ltb pb_size_max size
    then return_error "bytes overflow"
    else if size == 0
    then write_bytes dest (replicate field.data_size 0)
    else if not (size == field.data_size)
    then return_error "incorrect fixed length bytes size"
    else read_to dest field.data_size
