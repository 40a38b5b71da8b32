-- ===== src/Encode/ContainedArray.antt =====
-- `encode_array` of nanopb/pb_encode.c fills a buffer no further than it may.
use pincushion.Prelude.{ℕ, zero, suc, ◌+◌}
use pincushion.Prelude.{inl, inr, ◌==◌, leb}
use pincushion.Prelude.{ltb, not}
use pincushion.Prelude.{◌&&◌, ◌||◌, Outcome-cases}
use pincushion.Memory.{Memory, load_pointer}
use pincushion.Ostream.{Write}
use pincushion.Ostream.Contained.{Contained, pure-Contained}
use pincushion.Ostream.Contained.{error-Contained, if-Contained, seq-Contained}
use pincushion.Ostream.Contained.{Within-none}
use pincushion.Wire.{wt_string}
use pincushion.Field.{Field, ltype, atype}
use pincushion.Field.{atype_pointer}
use pincushion.Field.{ltype_bytes, ltype_string}
use pincushion.Field.{ltype_last_packable}
use pincushion.Encode.{Encoder}
use pincushion.Encode.Array.{encode_items, packed_size, packed_data, encode_packed}
use pincushion.Encode.Array.{encode_entry}
use pincushion.Encode.Array.{encode_array}
use pincushion.Encode.Contained.{varint-Contained, tag-Contained, field_tag-Contained}

items-Contained :
    (item : ℕ → Write) (data_size : ℕ)
    → ((p : ℕ) → Contained (item p))
    → (count p : ℕ) → Contained (encode_items item data_size count p)
unfolding encode_items
items-Contained item data_size h zero p = pure-Contained
items-Contained item data_size h (suc count) p =
    seq-Contained (item p) _ (h p) (items-Contained item data_size h count (p + data_size))

module _ (field : Field) (func : Encoder) (each : (p : ℕ) → Contained (func field p))
    (p_data count : ℕ) where
  packed_data-Contained : (size : ℕ) → Contained (packed_data field func p_data count size)
  unfolding packed_data
  packed_data-Contained size = record {
    at = λ stored max n msg le small.
        (items-Contained (func field) field.data_size each count p_data).at stored max n msg le
          small;
  }

  packed-Contained : Contained (encode_packed field func p_data count)
  unfolding encode_packed
  packed-Contained = record {
    at = λ stored max n msg le small. elim (Outcome-cases (packed_size field func p_data count)) [
      | inl (size, t, e) ↦
          rw (e, encode_packed)
            ((seq-Contained _ _ (varint-Contained size) (packed_data-Contained size)).at stored max
              n msg le small)
      | inr (t, e) ↦ rw (e, encode_packed) (Within-none stored max n msg le)
    ];
  }

  -- Arrays, packed or not.
  pub array-Contained : (m : Memory) → Contained (encode_array m field p_data count func)
  unfolding encode_array encode_entry
  array-Contained m = if-Contained (count == 0) _ _ pure-Contained (
      if-Contained (not (atype field == atype_pointer) && ltb field.array_size count) _ _
        (error-Contained "array max size exceeded")
        (if-Contained (leb (ltype field) ltype_last_packable) _ _
          (seq-Contained _ _ (tag-Contained wt_string field.tag) packed-Contained)
          (items-Contained (encode_entry m field func) field.data_size
            (λ p. seq-Contained _ _ (field_tag-Contained field) (
              if-Contained
                (atype field == atype_pointer
                  && (ltype field == ltype_string || ltype field == ltype_bytes))
                _ _ (each (load_pointer m p)) (each p)))
            count p_data)))
