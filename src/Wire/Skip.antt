-- ===== src/Wire/Skip.antt =====
-- `pb_skip_field` on every kind of field.
use pincushion.Prelude.{ℕ, ◌+◌, ◌^◌, ◌<◌, ◌≡◌, arith}
use pincushion.Prelude.{List, ◌++◌, length, Option, String, ok, length-append}
use mathlib.Core.List.{append_assoc}
use native.Mathlib.Nat.{add_assoc}
use pincushion.Istream.{pb_read_null}
use pincushion.Istream.Read.{over, pb_read-append}
use pincushion.Varint.{varint_bytes}
use pincushion.Varint.Skip.{pb_skip_varint-varint_bytes}
use pincushion.Varint.RoundTrip32.{pb_decode_varint32-varint_bytes}
use pincushion.Wire.{pb_skip_field, wt_varint, wt_64bit, wt_string, wt_32bit}

-- The contents that a field of a wire type can have behind its tag.
pub data Payload : ℕ → List ℕ → Type 0 where
  integer : (v : ℕ) → v < 2 ^ 64 → Payload wt_varint (varint_bytes v)
  word64 : (bytes : List ℕ) → length bytes ≡ 8 → Payload wt_64bit bytes
  word32 : (bytes : List ℕ) → length bytes ≡ 4 → Payload wt_32bit bytes
  string :
      (content : List ℕ)
      → length content < 2 ^ 32
      → Payload wt_string (varint_bytes (length content) ++ content)

pb_read_null-append :
    (front back : List ℕ) (n : ℕ) (msg : Option String)
    → pb_read_null (length front) (over (front ++ back) (length front + n) msg)
      ≡ ok front (over back n msg)
unfolding pb_read_null
pb_read_null-append front back n msg = pb_read-append front back n msg

module _ (rest : List ℕ) (n : ℕ) (msg : Option String) where
  skip_string :
      (content : List ℕ)
      → length content < 2 ^ 32
      → let prefix = varint_bytes (length content) in
        pb_skip_field wt_string
          (over (prefix ++ (content ++ rest)) (length prefix + (length content + n)) msg)
        ≡ ok tt (over rest n msg)
  unfolding pb_skip_field
  skip_string content h = ground (
    arith,
    pb_decode_varint32-varint_bytes (length content) (content ++ rest) (length content + n) msg h,
    pb_read_null-append content rest n msg,
  )

  -- In a buffer, `pb_skip_field` takes the whole content of a field and nothing behind it: the
  -- bytes `pb_encode_varint` writes for a number below 2 ^ 64, eight bytes, four bytes, or fewer
  -- than 2 ^ 32 bytes behind their number, each for its wire type.
  pub pb_skip_field-Payload :
      {wire_type : ℕ} {bytes : List ℕ}
      → Payload wire_type bytes
      → pb_skip_field wire_type (over (bytes ++ rest) (length bytes + n) msg)
        ≡ ok tt (over rest n msg)
  pb_skip_field-Payload (integer v h) =
      unfold pb_skip_field in pb_skip_varint-varint_bytes v rest n msg h
  pb_skip_field-Payload (word64 bytes h) =
      unfold pb_skip_field in ground (arith, pb_read_null-append bytes rest n msg)
  pb_skip_field-Payload (word32 bytes h) =
      unfold pb_skip_field in ground (arith, pb_read_null-append bytes rest n msg)
  pb_skip_field-Payload (string content h) =
      let prefix = varint_bytes (length content) in
      rw (append_assoc prefix content rest, length-append prefix content, add_assoc (length prefix))
        (skip_string content h)
