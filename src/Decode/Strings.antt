-- ===== src/Decode/Strings.antt =====
-- The decoders of string and bytes fields that lie in the message itself.
use pincushion.Prelude.{ℕ, ◌+◌, ◌-◌, ◌^◌, ◌≤◌, ◌<◌, ◌≡◌, arith, false, ◌==◌}
use pincushion.Prelude.{List, ◌++◌, length, Option, String, ok, ◌>>=◌}
use pincushion.Memory.{Memory, store, store_bytes}
use pincushion.Istream.Read.{pb_read-append}
use pincushion.Varint.{varint_bytes}
use pincushion.Varint.RoundTrip32.{pb_decode_varint32-varint_bytes}
use pincushion.Field.{Field, atype, atype_pointer}
use pincushion.Decode.{State, Heap, return_error, read_to, pb_dec_string, pb_dec_bytes}
use pincushion.Decode.Integers.{on}

module _ (field : Field) (static : (atype field == atype_pointer) ≡ false) (dest : ℕ)
    (content rest : List ℕ) (n : ℕ) (msg : Option String) (m : Memory) (h : Heap) where
  abbrev input : State
  input =
      let prefix = varint_bytes (length content) in
      on (prefix ++ (content ++ rest)) (length prefix + (length content + n)) msg m h

  -- The stream is behind the length.
  abbrev opened : State
  opened = on (content ++ rest) (length content + n) msg m h

  read_content :
      (p : ℕ) (m' : Memory)
      → read_to p (length content) (on (content ++ rest) (length content + n) msg m' h)
        ≡ ok tt (on rest n msg (store_bytes m' p content) h)
  unfolding read_to
  read_content p m' = rw (pb_read-append content rest n msg, ◌>>=◌)

  -- `pb_dec_string` on a string field that is no pointer, for a content of fewer than 2 ^ 32 - 1
  -- bytes behind its length in a buffer: where the content and a terminating zero fit the field,
  -- they are stored in it, and the stream is behind the content. Where they do not, it fails
  -- with "string overflow" and stores nothing.
  pub pb_dec_string_lem :
      length content < 2 ^ 32 - 1
      → (length content < field.data_size
          → pb_dec_string field dest input
            ≡ ok tt
                (on rest n msg (store (store_bytes m dest content) (dest + length content) 1 0) h))
        × (field.data_size ≤ length content
            → pb_dec_string field dest input ≡ return_error "string overflow" opened)
  unfolding pb_dec_string
  pb_dec_string_lem small =
      let size =
        pb_decode_varint32-varint_bytes (length content) (content ++ rest) (length content + n) msg
          (omega arith) in
      (
        λ fits. ground (arith, size, static, read_content dest m),
        λ over. ground (arith, size, static),
      )

  -- `pb_dec_bytes` on a bytes field that is no pointer, for a content of fewer than 2 ^ 32 bytes
  -- behind its length in a buffer: where the size and the content fit the field, they are stored
  -- in it, and the stream is behind the content. Where they do not, it fails with "bytes
  -- overflow" and stores nothing.
  pub pb_dec_bytes_lem :
      length content < 2 ^ 32
      → (length content + 4 ≤ field.data_size
          → pb_dec_bytes field dest input
            ≡ ok tt (
                on rest n msg (store_bytes (store m dest 4 (length content)) (dest + 4) content) h))
        × (field.data_size < length content + 4
            → pb_dec_bytes field dest input ≡ return_error "bytes overflow" opened)
  unfolding pb_dec_bytes
  pb_dec_bytes_lem small =
      let size =
        pb_decode_varint32-varint_bytes (length content) (content ++ rest) (length content + n) msg
          small in
      (
        λ fits.
            ground (arith, size, static, read_content (dest + 4) (store m dest 4 (length content))),
        λ over. ground (arith, size, static),
      )
