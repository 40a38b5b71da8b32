-- ===== src/Struct/Encoders.antt =====
-- The table of encoders of nanopb/pb_encode.c on the value of a field.
use pincushion.Prelude.{ℕ, ◌+◌, ◌^◌, ◌<◌, ◌≡◌, refl, sym, ap, ◌∙◌, arith, List, []}
use pincushion.Prelude.{length, some, ◌==◌, true, false, leb, ltb}
use pincushion.Prelude.{u64}
use mathlib.Core.Path.{subst}
use pincushion.Memory.{Memory, load, load_bytes}
use pincushion.Memory.Laws.{length-load_bytes}
use pincushion.Ostream.Write.{Emits, Emits-seq, pb_write-Emits}
use pincushion.Varint.{varint_bytes}
use pincushion.Wire.{tag_value, pb_encode_tag, pb_encode_string}
use pincushion.Field.{Field, ltype, atype, atype_static, ltype_extension}
use pincushion.Field.{ltype_bytes, ltype_string, ltype_submessage, ltype_last_packable}
use pincushion.Field.{submsg}
use pincushion.Encode.{Submessages, pb_encoders, wire_type_for, encode_tag_or_error, strnlen}
use pincushion.Encode.{pb_encode_tag_for_field, pb_enc_bytes, pb_enc_string, string_size}
use pincushion.Encode.{pb_enc_submessage, encode_by_ptr}
use pincushion.Encode.Sizing.{varint-Emits, submessage-Emits}
use pincushion.Struct.Numbers.{IsNumber, varint, uvarint, svarint, fixed32, fixed64}
use pincushion.Struct.Numbers.{number-Emits}
use pincushion.Struct.Numbers.{wire_of, number-wire, number-extension}
use pincushion.Struct.Values.{Value, number, text, message, Values, empty}
use pincushion.Struct.Values.{get_field, delimited, wire_of_field, content_bytes}
use pincushion.Struct.Values.{Holds, is_number, is_bytes, is_string, is_message}

-- What the constructors hold.
abbrev pub word_of : Value → ℕ
word_of (number word) = word
word_of (text bytes) = 0
word_of (message values) = 0

abbrev pub text_of : Value → List ℕ
text_of (number word) = []
text_of (text bytes) = bytes
text_of (message values) = []

abbrev pub message_values : Value → Values
message_values (number word) = empty
message_values (text bytes) = empty
message_values (message values) = values

string-Emits :
    (bytes : List ℕ) (n : ℕ) → length bytes ≡ n → Emits (pb_encode_string bytes n) (delimited bytes)
unfolding pb_encode_string
string-Emits bytes n e = rw (sym e) (Emits-seq (varint-Emits (length bytes)) (pb_write-Emits bytes))

module _ (sub : ℕ → ℕ → Values) (m : Memory) (f : Field) (at : ℕ) where
  pub get-number : IsNumber f → get_field sub m f at ≡ number (load m at f.data_size)
  unfolding get_field
  get-number (varint e w) = rw e refl
  get-number (uvarint e w) = rw e refl
  get-number (svarint e w) = rw e refl
  get-number (fixed32 e w) = rw e refl
  get-number (fixed64 e w) = rw e refl

  pub get-bytes :
      ltype f ≡ ltype_bytes → get_field sub m f at ≡ text (load_bytes m (at + 4) (load m at 4))
  unfolding get_field
  get-bytes lt = rw lt refl

  pub get-string :
      ltype f ≡ ltype_string
      → get_field sub m f at ≡ text (load_bytes m at (strnlen m f.data_size at))
  unfolding get_field
  get-string lt = rw lt refl

  pub get-message :
      (k : ℕ)
      → ltype f ≡ ltype_submessage
      → f.ptr ≡ submsg k
      → get_field sub m f at ≡ message (sub k at)
  unfolding get_field
  get-message k lt p = rw (lt, p) refl

-- The table of encoders on the value of a field.
module _ (m : Memory) (subs : Submessages) (Sub : ℕ → ℕ → Values → Type 0)
    (sub_values : ℕ → ℕ → Values) (sub_bytes : ℕ → Values → List ℕ)
    (small : (k size : ℕ) (values : Values)
      → Sub k size values
      → length (sub_bytes k values) < 2 ^ 32)
    (emits : (k size at : ℕ)
      → Sub k size (sub_values k at)
      → 0 < at
      → at + size < 2 ^ 64
      → Emits (subs k at) (sub_bytes k (sub_values k at))) where
  pub value-Emits :
      (f : Field) (at : ℕ) (v : Value)
      → Holds Sub f v
      → get_field sub_values m f at ≡ v
      → atype f ≡ atype_static
      → 0 < at
      → at + f.data_size < 2 ^ 64
      → Emits (pb_encoders m subs (ltype f) f at) (content_bytes sub_bytes f v)
  unfolding pb_encoders content_bytes pb_enc_bytes pb_enc_string string_size pb_enc_submessage
      encode_by_ptr
  value-Emits f at v (is_number word n fits) e static positive room =
      let same : load m at f.data_size ≡ word =
        ap word_of (sym (get-number sub_values m f at n) ∙ e) in
      rw (sym same) (number-Emits m subs f at n)
  value-Emits f at v (is_bytes bytes lt small_ fits) e static positive room =
      let same : load_bytes m (at + 4) (load m at 4) ≡ bytes =
        ap text_of (sym (get-bytes sub_values m f at lt) ∙ e) in
      let size : length bytes ≡ load m at 4 =
        ap length (sym same) ∙ length-load_bytes m (at + 4) (load m at 4) in
      let there : (at == 0) ≡ false = ground arith in
      let room' : ltb f.data_size (u64 (load m at 4 + 4)) ≡ false = ground arith in
      rw (lt, there, static, room', same) (string-Emits bytes (load m at 4) size)
  value-Emits f at v (is_string bytes lt small_ fits nonzero) e static positive room =
      let n = strnlen m f.data_size at in
      let same : load_bytes m at n ≡ bytes =
        ap text_of (sym (get-string sub_values m f at lt) ∙ e) in
      let size : length bytes ≡ n = ap length (sym same) ∙ length-load_bytes m at n in
      let there : (at == 0) ≡ false = ground arith in
      rw (lt, there, static, same) (string-Emits bytes n size)
  value-Emits f at v (is_message k values lt p s) e static positive room =
      let same : sub_values k at ≡ values =
        ap message_values (sym (get-message sub_values m f at k lt p) ∙ e) in
      let em = emits k f.data_size at (subst (Sub k f.data_size) (sym same) s) positive room in
      let em' = subst (λ vs. Emits (subs k at) (sub_bytes k vs)) same em in
      let short = small k f.data_size values s in
      rw (lt, p) (submessage-Emits (subs k at) (sub_bytes k values) (omega (arith, short)) em')

pub Holds-extension :
    (Sub : ℕ → ℕ → Values → Type 0) (f : Field) (v : Value)
    → Holds Sub f v
    → ltype f ≡ ltype_extension
    → ⊥
Holds-extension Sub f v (is_number word n fits) h = number-extension f n h
Holds-extension Sub f v (is_bytes bytes lt small fits) h = absurd (omega arith)
Holds-extension Sub f v (is_string bytes lt small fits nonzero) h = absurd (omega arith)
Holds-extension Sub f v (is_message k values lt p s) h = absurd (omega arith)

number-packable : (f : Field) → IsNumber f → leb (ltype f) ltype_last_packable ≡ true
number-packable f (varint e w) = rw e refl
number-packable f (uvarint e w) = rw e refl
number-packable f (svarint e w) = rw e refl
number-packable f (fixed32 e w) = rw e refl
number-packable f (fixed64 e w) = rw e refl

pub number-wire_of_field : (f : Field) → IsNumber f → wire_of_field (ltype f) ≡ wire_of (ltype f)
number-wire_of_field f n = rw (number-packable f n) refl

pub Holds-wire :
    (Sub : ℕ → ℕ → Values → Type 0) (f : Field) (v : Value)
    → Holds Sub f v
    → wire_type_for (ltype f) ≡ some (wire_of_field (ltype f))
unfolding wire_type_for
Holds-wire Sub f v (is_number word n fits) = rw (number-wire_of_field f n) (number-wire f n)
Holds-wire Sub f v (is_bytes bytes lt small fits) = rw lt refl
Holds-wire Sub f v (is_string bytes lt small fits nonzero) = rw lt refl
Holds-wire Sub f v (is_message k values lt p s) = rw lt refl

pub tag-Emits :
    (f : Field) (wiretype : ℕ)
    → wire_type_for (ltype f) ≡ some wiretype
    → Emits (pb_encode_tag_for_field f) (varint_bytes (tag_value wiretype f.tag))
unfolding pb_encode_tag_for_field encode_tag_or_error pb_encode_tag
tag-Emits f wiretype e = rw e (varint-Emits (tag_value wiretype f.tag))
