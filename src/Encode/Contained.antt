-- ===== src/Encode/Contained.antt =====
-- The encoders of single fields in nanopb/pb_encode.c fill a buffer no further than they may.
use pincushion.Prelude.{ℕ, zero, suc, ◌+◌, ◌^◌, ◌≤◌, ◌<◌, ◌≡◌, refl, ap, sym, arith, List, []}
use pincushion.Prelude.{◌∷◌, ◌++◌, length, ok, fail, final, Bool-cases, inl, inr, ◌==◌}
use pincushion.Prelude.{ltb}
use pincushion.Prelude.{◌&&◌, Option, none, some, u64, Outcome-cases, String}
use mathlib.Core.Path.{subst}
use pincushion.Prelude.{Outcome, ◌/◌, ◌⊎◌}
use pincushion.Memory.{Memory, load, load_bytes}
use pincushion.Memory.Laws.{length-load_bytes}
use pincushion.Ostream.{Ostream, Write, pb_ostream_sizing, first_message}
use pincushion.Ostream.Contained.{filling, Within, Contained, fail-Contained}
use pincushion.Ostream.Contained.{error-Contained, if-Contained, seq-Contained}
use pincushion.Ostream.Contained.{pb_write-Contained}
use pincushion.Ostream.Contained.{Within-none}
use pincushion.Varint.{pb_encode_varint, varint_bytes, groups, unset_last_top_bit}
use pincushion.Wire.{pb_encode_string, pb_encode_tag, pb_encode_svarint, pb_encode_fixed32}
use pincushion.Wire.{pb_encode_fixed64, fixed32_bytes, fixed64_bytes, tag_value}
use pincushion.Wire.Fixed.{length-fixed32_bytes, length-fixed64_bytes}
use pincushion.Field.{Field, Ptr, null, submsg, initial, ltype, atype, atype_static}
use pincushion.Field.{ltype_varint, ltype_uvarint, ltype_svarint, ltype_fixed32, ltype_fixed64}
use pincushion.Field.{ltype_bytes, ltype_string, ltype_submessage, ltype_fixed_length_bytes}
use pincushion.Encode.{by_data_size, encode_by_ptr, encode_tag_or_error, bytes_array_allocsize}
use pincushion.Encode.{pb_enc_varint, pb_enc_uvarint, pb_enc_svarint, pb_enc_fixed32, strnlen}
use pincushion.Encode.{pb_enc_fixed64, pb_enc_bytes, pb_enc_string, pb_enc_fixed_length_bytes}
use pincushion.Encode.{pb_enc_submessage, pb_encode_submessage, submessage_body}
use pincushion.Encode.{finish_submessage}
use pincushion.Encode.{pb_encoders, pb_encode_tag_for_field, wire_type_for, Submessages}
use pincushion.Encode.{string_size}
use pincushion.Encode.{take_over, with_status}
use pincushion.Decode.Words.{IsBytes, load-lt}
use pincushion.Decode.Integers.{four}

length-groups : (k v : ℕ) → length (groups k v) ≤ k
unfolding groups
length-groups zero v = omega arith
length-groups (suc k) v = ground (arith, length-groups k (v / 128))

length-unset_last : (bytes : List ℕ) → length (unset_last_top_bit bytes) ≡ length bytes
unfolding unset_last_top_bit
length-unset_last [] = refl
length-unset_last (b ∷ []) = refl
length-unset_last (b ∷ c ∷ bytes) = ap suc (length-unset_last (c ∷ bytes))

length-varint_bytes : (v : ℕ) → length (varint_bytes v) ≤ 10
unfolding varint_bytes
length-varint_bytes v = ground (arith, length-unset_last (groups 10 v), length-groups 10 v)

pub varint-Contained : (v : ℕ) → Contained (pb_encode_varint v)
unfolding pb_encode_varint
varint-Contained v =
    pb_write-Contained (varint_bytes v) (length (varint_bytes v)) refl
      (omega (arith, length-varint_bytes v))

string-Contained :
    (bytes : List ℕ) (n : ℕ) → length bytes ≡ n → n < 2 ^ 63 → Contained (pb_encode_string bytes n)
unfolding pb_encode_string
string-Contained bytes n e short =
    seq-Contained _ _ (varint-Contained n) (pb_write-Contained bytes n e short)

pub tag-Contained : (wiretype tag : ℕ) → Contained (pb_encode_tag wiretype tag)
unfolding pb_encode_tag
tag-Contained wiretype tag = varint-Contained (tag_value wiretype tag)

-- A call of `pb_encode` for a submessage whose counted size is below 2 ^ 63.
module _ (message : Write) (h : Contained message)
    (short : (final (message pb_ostream_sizing)).bytes_written < 2 ^ 63) where
  whole :
      (stored more : List ℕ) (max n size : ℕ) (msg msg' : Option String)
      → n + length more ≤ max
      → max < 2 ^ 63
      → (outcome : Ostream → Outcome Ostream (Unit {0}))
      → ((s : Ostream) → (outcome s ≡ ok tt s) ⊎ (outcome s ≡ fail s))
      → Within stored max n (
          final (
            finish_submessage size
              (filling stored max n msg)
              (outcome (filling (stored ++ more) size (0 + length more) msg'))))
  unfolding finish_submessage take_over with_status
  whole stored more max n size msg msg' room small outcome either =
      let sum : u64 (n + (0 + length more)) ≡ n + length more = omega arith in
      elim (either (filling (stored ++ more) size (0 + length more) msg')) [
        | inl e ↦ elim (Bool-cases ((0 + length more) == size)) [
          | inl y ↦ rw (e, y, sum) (more, msg', refl, room)
          | inr o ↦ rw (e, o, sum) (more, first_message msg' "submsg size changed", refl, room)
        ]
        | inr e ↦ elim (Bool-cases ((0 + length more) == size)) [
          | inl y ↦ rw (e, y, sum) (more, msg', refl, room)
          | inr o ↦ rw (e, o, sum) (more, first_message msg' "submsg size changed", refl, room)
        ]
      ]

  taken_over :
      (stored more : List ℕ) (max n size : ℕ) (msg msg' : Option String)
      → n + length more ≤ max
      → max < 2 ^ 63
      → (o : Outcome Ostream (Unit {0}))
      → final o ≡ filling (stored ++ more) size (0 + length more) msg'
      → Within stored max n (final (finish_submessage size (filling stored max n msg) o))
  taken_over stored more max n size msg msg' room small (ok a t) e =
      subst
        (λ u.
          Within stored max n (final (finish_submessage size (filling stored max n msg) (ok a u))))
        (sym e) (whole stored more max n size msg msg' room small (ok a) (λ s. inl refl))
  taken_over stored more max n size msg msg' room small (fail t) e =
      subst
        (λ u.
          Within stored max n (final (finish_submessage size (filling stored max n msg) (fail u))))
        (sym e) (whole stored more max n size msg msg' room small fail (λ s. inr refl))

  finished :
      (stored : List ℕ) (max n size : ℕ) (msg : Option String)
      → n + size ≤ max
      → max < 2 ^ 63
      → Within stored max n (
          final (
            finish_submessage size
              (filling stored max n msg)
              (message (filling stored size 0 none))))
  finished stored max n size msg room small =
      let (more, msg', e, le) = h.at stored size 0 none (omega arith) (omega arith) in
      taken_over stored more max n size msg msg' (omega arith) small
        (message (filling stored size 0 none)) e

  body-Contained : (size : ℕ) → size < 2 ^ 63 → Contained (submessage_body message size)
  unfolding submessage_body
  body-Contained size below = record {
    at = λ stored max n msg le small. elim (Bool-cases (ltb max (u64 (n + size)))) [
      | inl full ↦ rw full (Within-none stored max n (first_message msg "stream full") le)
      | inr room ↦ rw room (finished stored max n size msg (ground arith) small)
    ];
  }

  submessage-Contained : Contained (pb_encode_submessage message)
  unfolding pb_encode_submessage
  submessage-Contained = record {
    at = λ stored max n msg le small. elim (Outcome-cases (message pb_ostream_sizing)) [
      | inl (a, t, e) ↦
          let size = rw e at short in
          let both =
            seq-Contained _ _ (varint-Contained t.bytes_written)
              (body-Contained t.bytes_written size) in
          rw (e, pb_encode_submessage) (both.at stored max n msg le small)
      | inr (t, e) ↦ rw (e, pb_encode_submessage) (Within-none stored max n t.errmsg le)
    ];
  }

by_data_size-Contained :
    (encode : ℕ → Write) (n : ℕ)
    → ((size : ℕ) → Contained (encode size))
    → Contained (by_data_size encode n)
unfolding by_data_size
by_data_size-Contained encode n h = if-Contained (n == 1) _ _ (h 1) (
    if-Contained (n == 2) _ _ (h 2) (
      if-Contained (n == 4) _ _ (h 4)
        (if-Contained (n == 8) _ _ (h 8) (error-Contained "invalid data_size"))))

-- Bytes that one call of `pb_write` takes from the memory are fewer than 2 ^ 63: a size word has bytes, each string
-- ends, and so do fields of a fixed length.
pub record IsModest (m : Memory) : Type 0 where
  pub bytes : IsBytes m
  pub strings : (max_size p : ℕ) → strnlen m max_size p < 2 ^ 63

module _ (m : Memory) (modest : IsModest m) (subs : Submessages)
    (h : (message p : ℕ) → Contained (subs message p))
    (counts : (message p : ℕ)
      → (final (subs message p pb_ostream_sizing)).bytes_written < 2 ^ 63) where
  module _ (field : Field) (short : field.data_size < 2 ^ 63) (src : ℕ) where
    bytes-Contained : Contained (pb_enc_bytes m field src)
    unfolding pb_enc_bytes
    bytes-Contained =
        let size = load m src 4 in
        let word = load-lt m src modest.bytes four in
        if-Contained (src == 0) _ _ (string-Contained [] 0 refl (omega arith)) (
          if-Contained
            (atype field == atype_static && ltb field.data_size (bytes_array_allocsize size)) _ _
            (error-Contained "bytes size exceeded")
            (string-Contained (load_bytes m (src + 4) size) size
              (length-load_bytes m (src + 4) size) (omega (arith, word))))

    string_size-lt : string_size m field src < 2 ^ 63
    unfolding string_size
    string_size-lt = elim (Bool-cases (src == 0)) [
      | inl e ↦ rw e (omega arith)
      | inr e ↦ rw e (modest.strings _ src)
    ]

    text-Contained : Contained (pb_enc_string m field src)
    unfolding pb_enc_string
    text-Contained =
        let size = string_size m field src in
        string-Contained (load_bytes m src size) size (length-load_bytes m src size) string_size-lt

    fixed_length-Contained : Contained (pb_enc_fixed_length_bytes m field src)
    unfolding pb_enc_fixed_length_bytes
    fixed_length-Contained =
        string-Contained (load_bytes m src field.data_size) field.data_size
          (length-load_bytes m src field.data_size) short

    fixed32-Contained : Contained (pb_enc_fixed32 m field src)
    unfolding pb_enc_fixed32 pb_encode_fixed32
    fixed32-Contained =
        pb_write-Contained (fixed32_bytes (load m src 4)) 4 (length-fixed32_bytes (load m src 4))
          (omega arith)

    fixed64-Contained : Contained (pb_enc_fixed64 m field src)
    unfolding pb_enc_fixed64 pb_encode_fixed64
    fixed64-Contained =
        pb_write-Contained (fixed64_bytes (load m src 8)) 8 (length-fixed64_bytes (load m src 8))
          (omega arith)

    integers-Contained :
        Contained (pb_enc_varint m field src)
        × Contained (pb_enc_uvarint m field src)
        × Contained (pb_enc_svarint m field src)
    unfolding pb_enc_varint pb_enc_uvarint pb_enc_svarint pb_encode_svarint
    integers-Contained = (
      by_data_size-Contained _ field.data_size (λ size. varint-Contained _),
      by_data_size-Contained _ field.data_size (λ size. varint-Contained _),
      by_data_size-Contained _ field.data_size (λ size. varint-Contained _),
    )

    by_ptr-Contained : (ptr : Ptr) → Contained (encode_by_ptr subs ptr src)
    unfolding encode_by_ptr
    by_ptr-Contained null = error-Contained "invalid field descriptor"
    by_ptr-Contained (submsg message) =
        submessage-Contained (subs message src) (h message src) (counts message src)
    by_ptr-Contained (initial _) = fail-Contained

    message-Contained : Contained (pb_enc_submessage subs field src)
    unfolding pb_enc_submessage
    message-Contained = by_ptr-Contained field.ptr

    -- The table of encoders.
    pub encoders-Contained : (lt : ℕ) → Contained (pb_encoders m subs lt field src)
    unfolding pb_encoders
    encoders-Contained lt = if-Contained (lt == ltype_varint) _ _ integers-Contained.0 (
        if-Contained (lt == ltype_uvarint) _ _ integers-Contained.1 (
          if-Contained (lt == ltype_svarint) _ _ integers-Contained.2 (
            if-Contained (lt == ltype_fixed32) _ _ fixed32-Contained (
              if-Contained (lt == ltype_fixed64) _ _ fixed64-Contained (
                if-Contained (lt == ltype_bytes) _ _ bytes-Contained (
                  if-Contained (lt == ltype_string) _ _ text-Contained (
                    if-Contained (lt == ltype_submessage) _ _ message-Contained (
                      if-Contained (lt == ltype_fixed_length_bytes) _ _ fixed_length-Contained
                        fail-Contained))))))))

tag_or_error-Contained : (w : Option ℕ) (tag : ℕ) → Contained (encode_tag_or_error w tag)
unfolding encode_tag_or_error
tag_or_error-Contained none tag = error-Contained "invalid field type"
tag_or_error-Contained (some wiretype) tag = tag-Contained wiretype tag

pub field_tag-Contained : (field : Field) → Contained (pb_encode_tag_for_field field)
unfolding pb_encode_tag_for_field
field_tag-Contained field = tag_or_error-Contained (wire_type_for (ltype field)) field.tag
