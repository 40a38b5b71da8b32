-- ===== src/Struct/Size.antt =====
-- `pb_get_encoded_size` of nanopb/pb_encode.c on a struct whose fields are required.
use pincushion.Prelude.{ℕ, ◌+◌, ◌^◌, ◌≤◌, ◌<◌, ◌≡◌, arith, List, [], ok, some, length}
use pincushion.Ostream.{pb_ostream_from_buffer}
use pincushion.Ostream.Write.{storing, Full}
use pincushion.Field.{Field}
use pincushion.Encode.{Env}
use pincushion.Encode.Message.{pb_encode, pb_get_encoded_size}
use pincushion.Encode.Size.{size_counted}
use pincushion.Struct.{extent}
use pincushion.Struct.Values.{struct_values, values_bytes, IsMessage}
use pincushion.Struct.Encode.{pb_encode-Emits}
use native.Mathlib.Nat.{zero-add}

module _ (env : Env) (depth : ℕ) (fields : List Field) (src_struct : ℕ) where
  -- What `pb_encode` writes for the values of the struct.
  abbrev pub encoding : List ℕ
  encoding =
      values_bytes env.messages depth fields
        (struct_values env.messages depth env.memory fields src_struct)

  -- For a struct of required numbers, strings, bytes and messages, as `IsMessage` describes it, that does not start at NULL and
  -- ends below 2 ^ 64, with fewer than 2 ^ 63 bytes in `values_bytes`: `pb_get_encoded_size` returns true and the number of
  -- these bytes, and that is the least size of a buffer for `pb_encode`. Into a buffer of this size or more, below 2 ^ 63, it
  -- writes exactly these bytes and returns true; with a smaller one it returns false, with the message "stream full".
  pub pb_get_encoded_size-values_bytes :
      IsMessage env.messages depth fields
        (struct_values env.messages depth env.memory fields src_struct)
      → 0 < src_struct
      → src_struct + extent fields < 2 ^ 64
      → length encoding < 2 ^ 63
      → (bufsize : ℕ) → bufsize < 2 ^ 63
      → (pb_get_encoded_size env depth fields src_struct ≡ some (length encoding))
        × (length encoding ≤ bufsize
            → pb_encode env depth fields src_struct (pb_ostream_from_buffer bufsize)
              ≡ ok tt (storing encoding bufsize (length encoding)))
        × (bufsize < length encoding
            → Full (pb_encode env depth fields src_struct (pb_ostream_from_buffer bufsize)))
  unfolding pb_ostream_from_buffer
  pb_get_encoded_size-values_bytes is positive room short bufsize small =
      let em = pb_encode-Emits env depth fields src_struct is positive room in
      (
        size_counted env depth fields src_struct encoding (omega arith) em,
        λ fits. rw zero-add at (em.stores [] bufsize 0 (rw zero-add fits) (omega arith)),
        λ full. em.overflows [] bufsize 0 (omega arith) small short (rw zero-add full),
      )
