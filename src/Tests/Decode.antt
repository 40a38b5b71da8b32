-- ===== src/Tests/Decode.antt =====
-- The field decoders of nanopb/pb_decode.c.
use pincushion.Prelude.{ℕ, ◌+◌, ◌*◌, ◌^◌, ◌≤◌, ◌<◌, ◌%◌, suc, ◌≡◌, refl, arith, List, [], ◌∷◌}
use pincushion.Prelude.{◌++◌, length, none, some, ok, true, false}
use pincushion.Prelude.{fail}
use pincushion.Memory.{Memory, store, store_bytes}
use pincushion.Istream.Read.{over}
use pincushion.Varint.{pb_decode_varint, varint_bytes}
use pincushion.Varint.Accept.{number, pb_decode_varint-number, pb_decode_varint-Continues}
use pincushion.Field.{Field, null}
use pincushion.Encode.{pb_enc_varint, pb_enc_uvarint, pb_enc_svarint}
use pincushion.Decode.{exhausted, too_large, return_error, pb_dec_varint, pb_dec_uvarint}
use pincushion.Decode.{pb_dec_svarint}
use pincushion.Decode.{pb_dec_string, pb_dec_bytes}
use pincushion.Decode.Integers.{on, two, too_large_lem, pb_dec_uvarint-varint_bytes}
use pincushion.Decode.RoundTrip.{Restores, pb_dec_uvarint-pb_enc_uvarint}
use pincushion.Decode.RoundTrip.{pb_dec_varint-pb_enc_varint}
use pincushion.Decode.RoundTrip.{pb_dec_svarint-pb_enc_svarint}
use pincushion.Decode.Fixed.{pb_dec_fixed32-pb_enc_fixed32, pb_dec_fixed64-pb_enc_fixed64}
use pincushion.Encode.{pb_enc_fixed32, pb_enc_fixed64}
use pincushion.Decode.{pb_dec_fixed32, pb_dec_fixed64}
use pincushion.Decode.Strings.{pb_dec_string_lem, pb_dec_bytes_lem}

abbrev integer : Field
integer = record {
  tag = 1;
  type = 0x00;
  data_offset = 0;
  size_offset = 0;
  data_size = 2;
  array_size = 0;
  ptr = null;
}

abbrev text : Field
text = record integer { type = 0x06; data_size = 8 }

-- Every word is -1, and every word is 0.
abbrev ones : Memory
ones p = 255

abbrev zeros : Memory
zeros p = 0

pb_dec_uvarint-pb_enc_uvarint_example :
    Restores 2 ones 40 60 (pb_enc_uvarint ones integer 40) (pb_dec_uvarint integer 60)
pb_dec_uvarint-pb_enc_uvarint_example =
    pb_dec_uvarint-pb_enc_uvarint ones (λ p. omega arith) integer two 40 60

pb_dec_varint-pb_enc_varint_example :
    Restores 2 ones 40 60 (pb_enc_varint ones integer 40) (pb_dec_varint integer 60)
pb_dec_varint-pb_enc_varint_example =
    pb_dec_varint-pb_enc_varint ones (λ p. omega arith) integer two 40 60

pb_dec_svarint-pb_enc_svarint_example :
    Restores 2 ones 40 60 (pb_enc_svarint ones integer 40) (pb_dec_svarint integer 60)
pb_dec_svarint-pb_enc_svarint_example =
    pb_dec_svarint-pb_enc_svarint ones (λ p. omega arith) integer two 40 60

pb_dec_fixed32-pb_enc_fixed32_example :
    Restores 4 ones 40 60 (pb_enc_fixed32 ones integer 40) (pb_dec_fixed32 integer 60)
pb_dec_fixed32-pb_enc_fixed32_example =
    pb_dec_fixed32-pb_enc_fixed32 ones (λ p. omega arith) integer 40 60

pb_dec_fixed64-pb_enc_fixed64_example :
    Restores 8 ones 40 60 (pb_enc_fixed64 ones integer 40) (pb_dec_fixed64 integer 60)
pb_dec_fixed64-pb_enc_fixed64_example =
    pb_dec_fixed64-pb_enc_fixed64 ones (λ p. omega arith) integer 40 60

-- 70000 does not fit two bytes.
pb_dec_uvarint-varint_bytes_example :
    (70000 < 256 ^ 2
      → pb_dec_uvarint integer 60 (
          on
            (varint_bytes 70000 ++ (1 ∷ []))
            (length (varint_bytes 70000) + 1)
            none
            zeros
            exhausted)
        ≡ ok tt (on (1 ∷ []) 1 none (store zeros 60 2 70000) exhausted))
    × (256 ^ 2 ≤ 70000
        → pb_dec_uvarint integer 60 (
            on
              (varint_bytes 70000 ++ (1 ∷ []))
              (length (varint_bytes 70000) + 1)
              none
              zeros
              exhausted)
          ≡ return_error "integer too large"
              (on (1 ∷ []) 1 none (store zeros 60 2 70000) exhausted))
pb_dec_uvarint-varint_bytes_example =
    pb_dec_uvarint-varint_bytes integer 60 (1 ∷ []) 1 none zeros exhausted 70000 two (omega arith)

too_large_lem_example :
    (too_large (2 ^ 40) (2 ^ 24) ≡ true → 2 ^ 64 ≤ 2 ^ 24 * 2 ^ 40)
    × (too_large (2 ^ 40) (2 ^ 24) ≡ false → 2 ^ 24 * 2 ^ 40 < 2 ^ 64)
too_large_lem_example = too_large_lem (2 ^ 40) (2 ^ 24) (omega arith)

abbrev abc : List ℕ
abc = 97 ∷ 98 ∷ 99 ∷ []

pb_dec_string_lem_example :
    (3 < 8
      → pb_dec_string text 60 (
          on
            (varint_bytes 3 ++ (abc ++ (1 ∷ [])))
            (length (varint_bytes 3) + (3 + 1))
            none
            zeros
            exhausted)
        ≡ ok tt (on (1 ∷ []) 1 none (store (store_bytes zeros 60 abc) (60 + 3) 1 0) exhausted))
    × (8 ≤ 3
        → pb_dec_string text 60 (
            on
              (varint_bytes 3 ++ (abc ++ (1 ∷ [])))
              (length (varint_bytes 3) + (3 + 1))
              none
              zeros
              exhausted)
          ≡ return_error "string overflow" (on (abc ++ (1 ∷ [])) (3 + 1) none zeros exhausted))
pb_dec_string_lem_example =
    pb_dec_string_lem text refl 60 abc (1 ∷ []) 1 none zeros exhausted (omega arith)

pb_dec_bytes_lem_example :
    (3 + 4 ≤ 8
      → pb_dec_bytes text 60 (
          on
            (varint_bytes 3 ++ (abc ++ (1 ∷ [])))
            (length (varint_bytes 3) + (3 + 1))
            none
            zeros
            exhausted)
        ≡ ok tt (on (1 ∷ []) 1 none (store_bytes (store zeros 60 4 3) (60 + 4) abc) exhausted))
    × (8 < 3 + 4
        → pb_dec_bytes text 60 (
            on
              (varint_bytes 3 ++ (abc ++ (1 ∷ [])))
              (length (varint_bytes 3) + (3 + 1))
              none
              zeros
              exhausted)
          ≡ return_error "bytes overflow" (on (abc ++ (1 ∷ [])) (3 + 1) none zeros exhausted))
pb_dec_bytes_lem_example =
    pb_dec_bytes_lem text refl 60 abc (1 ∷ []) 1 none zeros exhausted (omega arith)

-- 1 in two bytes, where one would do.
pb_decode_varint-number_example :
    pb_decode_varint (over ((129 ∷ []) ++ (0 ∷ (7 ∷ []))) (1 + suc 1) none)
    ≡ ok (number ((129 ∷ []) ++ (0 ∷ [])) % 2 ^ 64) (over (7 ∷ []) 1 none)
pb_decode_varint-number_example =
    pb_decode_varint-number (129 ∷ []) 0 (7 ∷ []) 1 none ((omega arith, omega arith), tt)
      (omega arith) (omega arith)

abbrev two_open : List ℕ
two_open = 129 ∷ 128 ∷ []

pb_decode_varint-Continues_example :
    (length two_open ≡ 10
      → pb_decode_varint (over (two_open ++ []) (2 + 0) none)
        ≡ fail (over [] 0 (some "varint overflow")))
    × (length two_open < 10
        → pb_decode_varint (over (two_open ++ []) 2 none) ≡ fail (over [] 0 (some "end-of-stream")))
pb_decode_varint-Continues_example =
    pb_decode_varint-Continues two_open [] 0 none
      ((omega arith, omega arith), ((omega arith, omega arith), tt))
