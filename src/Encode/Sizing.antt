-- ===== src/Encode/Sizing.antt =====
-- Encoders that write the same bytes to a stream that only counts and to a buffer: so the length
-- that `pb_encode_submessage` of nanopb/pb_encode.c counts is that of what is written behind it.
use pincushion.Prelude.{ℕ, ◌+◌, ◌^◌, ◌<◌, ◌≡◌, refl, arith}
use pincushion.Prelude.{u64, true}
use pincushion.Prelude.{List, ◌++◌, length, ◌>>◌}
use pincushion.Prelude.{ltb}
use pincushion.Ostream.{Ostream, Write, pb_write}
use pincushion.Ostream.Write.{Emits, pb_write-Emits, Emits-seq}
use pincushion.Varint.{pb_encode_varint, varint_bytes}
use pincushion.Wire.{pb_encode_fixed32}
use pincushion.Wire.{pb_encode_fixed64, fixed32_bytes, fixed64_bytes}
use pincushion.Memory.{Memory, load}
use pincushion.Field.{Field}
use pincushion.Encode.{pb_enc_fixed32}
use pincushion.Encode.{pb_enc_fixed64}
use pincushion.Encode.{pb_encode_submessage, submessage_body, finish_submessage}
use native.Mathlib.Nat.{zero-add}
use mathlib.Core.Path.{fun_ext}

pub varint-Emits : (v : ℕ) → Emits (pb_encode_varint v) (varint_bytes v)
unfolding pb_encode_varint
varint-Emits v = pb_write-Emits (varint_bytes v)

-- The message behind its length, on a stream of either kind.
module _ (message : Write) (bytes : List ℕ) (small : length bytes < 2 ^ 64)
    (em : Emits message bytes) where
  body-Emits : Emits (submessage_body message (length bytes)) bytes
  unfolding submessage_body
  body-Emits = record {
    counts = λ max n h. unfold pb_write in ground arith;
    stores = λ stored max n h fits.
        let inner = em.stores stored (length bytes) 0 (omega arith) small in
        unfold finish_submessage in ground (arith, inner, zero-add (length bytes));
    overflows = λ stored max n le fits short full.
        let over : ltb max (u64 (n + length bytes)) ≡ true = ground arith in
        rw over (_, refl, refl);
  }

  opens :
      (s : Ostream)
      → pb_encode_submessage message s
        ≡ (pb_encode_varint (length bytes) >> submessage_body message (length bytes)) s
  unfolding pb_encode_submessage pb_encode_varint
  opens s =
      let size = rw zero-add at (em.counts 0 0 (omega arith)) in rw (size, pb_encode_submessage)

  pub submessage-Emits : Emits (pb_encode_submessage message) (varint_bytes (length bytes) ++ bytes)
  submessage-Emits = rw (fun_ext opens) (Emits-seq (varint-Emits (length bytes)) body-Emits)

module _ (m : Memory) (field : Field) (src : ℕ) where
  -- The bytes of a word of fixed size.
  pub enc_fixed32-Emits : Emits (pb_enc_fixed32 m field src) (fixed32_bytes (load m src 4))
  unfolding pb_enc_fixed32 pb_encode_fixed32 fixed32_bytes
  enc_fixed32-Emits = pb_write-Emits (fixed32_bytes (load m src 4))

  pub enc_fixed64-Emits : Emits (pb_enc_fixed64 m field src) (fixed64_bytes (load m src 8))
  unfolding pb_enc_fixed64 pb_encode_fixed64 fixed64_bytes
  enc_fixed64-Emits = pb_write-Emits (fixed64_bytes (load m src 8))
