-- ===== src/Tests/Wire.antt =====
-- The byte formats of nanopb/pb_decode.c and pb_encode.c.
use pincushion.Prelude.{ℕ, ◌+◌, ◌-◌, ◌^◌, ◌≡◌, refl, arith, List, [], ◌∷◌, ◌++◌, length, none}
use pincushion.Prelude.{some, ok, fail, false}
use pincushion.Prelude.{replicate, ◌*◌}
use pincushion.Varint.Wraps.{pb_decode_varint32-pb_decode_varint}
use pincushion.Istream.{pb_read, first_message}
use pincushion.Istream.Read.{over}
use pincushion.Varint.{pb_decode_varint, pb_decode_varint32, varint_bytes}
use pincushion.Varint.RoundTrip.{pb_decode_varint-varint_bytes}
use pincushion.Varint.RoundTrip32.{pb_decode_varint32-varint_bytes}
use pincushion.Wire.{zigzag}
use pincushion.Wire.{tag_value, pb_decode_tag, pb_skip_field, wt_string}
use pincushion.Wire.{pb_make_string_substream, pb_close_string_substream}
use pincushion.Wire.Zigzag.{negsuc, pattern64, zigzag_number, zigzag-zigzag_number}
use pincushion.Wire.Tags.{pb_decode_tag-tag_value}
use pincushion.Wire.Skip.{string, pb_skip_field-Payload}
use pincushion.Wire.Substream.{pb_close_string_substream_lem}
use pincushion.Wire.Substream.{pb_make_string_substream-too_short}

-- Two bytes behind a field.
abbrev behind : List ℕ
behind = 7 ∷ 9 ∷ []

largest : varint_bytes (2 ^ 64 - 1) ≡ 255 ∷ 255 ∷ 255 ∷ 255 ∷ 255 ∷ 255 ∷ 255 ∷ 255 ∷ 255 ∷ 1 ∷ []
unfolding varint_bytes
largest = refl

pb_decode_varint-varint_bytes_example :
    pb_decode_varint
      (over (varint_bytes (2 ^ 64 - 1) ++ behind) (length (varint_bytes (2 ^ 64 - 1)) + 2) none)
    ≡ ok (2 ^ 64 - 1) (over behind 2 none)
pb_decode_varint-varint_bytes_example =
    pb_decode_varint-varint_bytes (2 ^ 64 - 1) behind 2 none (omega arith)

pb_decode_varint32-varint_bytes_example :
    pb_decode_varint32
      (over (varint_bytes (2 ^ 32 - 1) ++ behind) (length (varint_bytes (2 ^ 32 - 1)) + 2) none)
    ≡ ok (2 ^ 32 - 1) (over behind 2 none)
pb_decode_varint32-varint_bytes_example =
    pb_decode_varint32-varint_bytes (2 ^ 32 - 1) behind 2 none (omega arith)

zigzag-zigzag_number_example : zigzag (pattern64 (negsuc 63)) ≡ zigzag_number (negsuc 63)
zigzag-zigzag_number_example = zigzag-zigzag_number (negsuc 63) (omega arith)

pb_decode_tag-tag_value_example :
    pb_decode_tag (
      over
        (varint_bytes (tag_value 2 100) ++ behind)
        (length (varint_bytes (tag_value 2 100)) + 2)
        none)
    ≡ (ok (record { wire_type = 2; tag = 100 }) (over behind 2 none), false)
pb_decode_tag-tag_value_example =
    pb_decode_tag-tag_value 2 100 behind 2 none (omega arith) (omega arith) (omega arith)

pb_skip_field-Payload_example :
    pb_skip_field wt_string (
      over
        ((varint_bytes 2 ++ (97 ∷ 98 ∷ [])) ++ behind)
        (length (varint_bytes 2 ++ (97 ∷ 98 ∷ [])) + 2)
        none)
    ≡ ok tt (over behind 2 none)
pb_skip_field-Payload_example =
    pb_skip_field-Payload behind 2 none (string (97 ∷ 98 ∷ []) (omega arith))

pb_close_string_substream_lem_example :
    (pb_make_string_substream
        (over (varint_bytes 3 ++ (97 ∷ 98 ∷ 99 ∷ behind)) (length (varint_bytes 3) + 5) none)
      ≡ ok (over (97 ∷ 98 ∷ 99 ∷ behind) 3 none) (over (97 ∷ 98 ∷ 99 ∷ behind) 2 none))
    × (pb_read 1 (over (97 ∷ 98 ∷ 99 ∷ behind) 3 none)
        ≡ ok (97 ∷ []) (over (98 ∷ 99 ∷ behind) 2 none))
    × (pb_close_string_substream
          (over (98 ∷ 99 ∷ behind) 2 (some "x"))
          (over (97 ∷ 98 ∷ 99 ∷ behind) 2 none)
        ≡ ok tt (over behind 2 (some "x")))
pb_close_string_substream_lem_example =
    pb_close_string_substream_lem (97 ∷ []) (98 ∷ 99 ∷ []) behind 2 none (some "x") (omega arith)

pb_make_string_substream-too_short_example :
    pb_make_string_substream (over (varint_bytes 3 ++ behind) (length (varint_bytes 3) + 2) none)
    ≡ fail (over behind 2 (some "parent stream too short"))
pb_make_string_substream-too_short_example =
    pb_make_string_substream-too_short 3 behind 2 none (omega arith) (omega arith)

pb_decode_varint32-pb_decode_varint_example :
    let bytes = replicate 37 128 ++ (5 ∷ behind) in
    let left = replicate 27 128 ++ (5 ∷ behind) in
    (pb_decode_varint32 (over bytes (38 + 2) none) ≡ ok (5 * 8) (over behind 2 none))
    × (pb_decode_varint (over bytes (38 + 2) none)
        ≡ fail (over left (28 + 2) (first_message none "varint overflow")))
pb_decode_varint32-pb_decode_varint_example =
    pb_decode_varint32-pb_decode_varint 5 behind 2 none (omega arith)
