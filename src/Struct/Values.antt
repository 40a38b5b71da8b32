-- ===== src/Struct/Values.antt =====
-- The abstract value of a struct in memory, and the bytes on the wire that stand for it. Fields are numbers, strings,
-- bytes and messages, as the PB_LTYPE constants of nanopb/pb.h have them.
use pincushion.Prelude.{ℕ, zero, suc, ◌+◌, ◌-◌, ◌^◌, ◌<◌, ◌≤◌, ◌≡◌, ◌≢◌, List, [], ◌∷◌, ◌++◌}
use pincushion.Prelude.{length}
use pincushion.Prelude.{◌==◌, if◌then◌else◌, leb, All}
use pincushion.Memory.{Memory, load, load_bytes}
use pincushion.Varint.{varint_bytes}
use pincushion.Wire.{tag_value, wt_string}
use pincushion.Field.{Field, Ptr, null, submsg, initial, ltype, ltype_bytes, ltype_string}
use pincushion.Field.{ltype_submessage, ltype_last_packable}
use pincushion.Encode.{strnlen}
use pincushion.Struct.{IsRequired, IsDistinct, extent}
use pincushion.Struct.Numbers.{IsNumber, wire_of, number_bytes}

-- The value of a field, and those of the fields of a message.
mutual
  pub data Value : Type 0 where
    number : ℕ → Value
    text : List ℕ → Value
    message : Values → Value

  pub data Values : Type 0 where
    empty : Values
    field : Value → Values → Values

-- The message type that a field leads to.
abbrev pub message_of : Ptr → ℕ
message_of null = 0
message_of (submsg k) = k
message_of (initial _) = 0

-- The value of a field at an address; `sub` is that of a struct.
unfoldable pub get_field : (ℕ → ℕ → Values) → Memory → Field → ℕ → Value
get_field sub m f at =
    if ltype f == ltype_bytes
    then text (load_bytes m (at + 4) (load m at 4))
    else if ltype f == ltype_string
    then text (load_bytes m at (strnlen m f.data_size at))
    else if ltype f == ltype_submessage
    then message (sub (message_of f.ptr) at)
    else number (load m at f.data_size)

unfoldable pub get_fields : (Field → ℕ → Value) → ℕ → List Field → Values
get_fields one p [] = empty
get_fields one p (f ∷ fields) =
    let at = p + f.data_offset in field (one f at) (get_fields one (at + f.data_size) fields)

-- Bytes behind the varint of their number.
abbrev pub delimited : List ℕ → List ℕ
delimited bytes = varint_bytes (length bytes) ++ bytes

abbrev pub wire_of_field : ℕ → ℕ
wire_of_field lt = if leb lt ltype_last_packable then wire_of lt else wt_string

unfoldable pub content_bytes : (ℕ → Values → List ℕ) → Field → Value → List ℕ
content_bytes sub f (number word) = number_bytes f word
content_bytes sub f (text bytes) = delimited bytes
content_bytes sub f (message values) = delimited (sub (message_of f.ptr) values)

unfoldable pub fields_bytes : (ℕ → Values → List ℕ) → List Field → Values → List ℕ
unfolding content_bytes
fields_bytes sub [] values = []
fields_bytes sub (f ∷ fields) empty = []
fields_bytes sub (f ∷ fields) (field v values) =
    (varint_bytes (tag_value (wire_of_field (ltype f)) f.tag) ++ content_bytes sub f v)
    ++ fields_bytes sub fields values

-- What a field can hold; `Sub` is that for the struct of a message.
pub data Holds (Sub : ℕ → ℕ → Values → Type 0) (f : Field) : Value → Type 0 where
  is_number : (word : ℕ) → IsNumber f → word < 256 ^ f.data_size → Holds Sub f (number word)
  is_bytes :
      (bytes : List ℕ)
      → ltype f ≡ ltype_bytes
      → length bytes < 2 ^ 32
      → length bytes + 4 ≤ f.data_size
      → Holds Sub f (text bytes)
  is_string :
      (bytes : List ℕ)
      → ltype f ≡ ltype_string
      → length bytes < 2 ^ 32 - 1
      → length bytes < f.data_size
      → All (λ b. b ≢ 0) bytes
      → Holds Sub f (text bytes)
  is_message :
      (k : ℕ) (values : Values)
      → ltype f ≡ ltype_submessage
      → f.ptr ≡ submsg k
      → Sub k f.data_size values
      → Holds Sub f (message values)

abbrev pub AllHold : (Field → Value → Type 0) → List Field → Values → Type 0
AllHold One [] empty = Unit {0}
AllHold One [] (field v values) = ⊥
AllHold One (f ∷ fields) empty = ⊥
AllHold One (f ∷ fields) (field v values) = IsRequired f × One f v × AllHold One fields values

-- The message types behind `ptr`; the depth bounds the nesting of messages.
module _ (messages : ℕ → List Field) where
  unfoldable pub struct_values : ℕ → Memory → List Field → ℕ → Values
  struct_values zero m fields p = empty
  struct_values (suc depth) m fields p =
      get_fields (get_field (λ k at. struct_values depth m (messages k) at) m) p fields

  unfoldable pub values_bytes : ℕ → List Field → Values → List ℕ
  values_bytes zero fields values = []
  values_bytes (suc depth) fields values =
      fields_bytes (λ k sub. values_bytes depth (messages k) sub) fields values

  -- What the struct of a message type holds at a depth, in a field of a size; `Holding` says it of its fields.
  abbrev pub NestedIn : (List Field → Values → Type 0) → ℕ → ℕ → ℕ → Values → Type 0
  NestedIn Holding depth k size sub =
      (extent (messages k) ≤ size)
      × (length (values_bytes depth (messages k) sub) < 2 ^ 32)
      × Holding (messages k) sub

  -- The fields are those of a message, with distinct tags, all required and in the struct itself, and hold the
  -- values: numbers of at most the field's size, strings and bytes that fit it, and messages of the same kind in their
  -- own structs, of fewer than 2 ^ 32 bytes.
  abbrev pub IsMessage : ℕ → List Field → Values → Type 0
  IsMessage zero fields values = ⊥
  IsMessage (suc depth) fields values =
      IsDistinct fields × AllHold (Holds (NestedIn (IsMessage depth) depth)) fields values

  abbrev pub Nested : ℕ → ℕ → ℕ → Values → Type 0
  Nested depth = NestedIn (IsMessage depth) depth
