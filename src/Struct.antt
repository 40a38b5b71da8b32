-- ===== src/Struct.antt =====
-- Messages of which every field is required and lies in the struct itself, as nanopb/pb.h describes them.
pub mod Layout
pub mod Rounds
pub mod Numbers
pub mod Entries
pub mod Text
pub mod Stays
pub mod Contents
pub mod Values
pub mod Encoders
pub mod Encode
pub mod Size
pub mod Decoders
pub mod Decode
pub mod RoundTrip
use pincushion.Prelude.{ℕ, zero, suc, ◌+◌, ◌^◌, ◌<◌, ◌≡◌, List, [], ◌∷◌, length}
use pincushion.Field.{Field, field_at, htype, atype, htype_required, atype_static}

pub record IsRequired (f : Field) : Type 0 where
  pub required : htype f ≡ htype_required
  pub static : atype f ≡ atype_static
  pub positive : 0 < f.tag
  pub most : f.tag < 2 ^ 29

-- No two fields have the same tag.
abbrev pub IsDistinct : List Field → Type 0
IsDistinct fields =
    (i j : ℕ)
    → i < length fields
    → j < length fields
    → (field_at fields i).tag ≡ (field_at fields j).tag
    → i ≡ j

-- The size of the struct up to the end of its last field: a field lies `data_offset` bytes behind the end of
-- the one before it.
unfoldable pub extent : List Field → ℕ
extent [] = 0
extent (f ∷ fields) = f.data_offset + f.data_size + extent fields

-- The address of a field of the struct at `p`.
unfoldable pub address : List Field → ℕ → ℕ → ℕ
address [] p k = p
address (f ∷ fields) p zero = p + f.data_offset
address (f ∷ fields) p (suc k) = address fields (p + f.data_offset + f.data_size) k
