-- ===== src/Tests/Decoder.antt =====
-- The theorems on the message decoder at concrete inputs.
use pincushion.Prelude.{ℕ, ◌-◌, ◌^◌, ◌<◌, ◌≡◌, ◌↔◌, refl, arith, List, [], ◌∷◌, true, inr}
use pincushion.Prelude.{final, fail}
use pincushion.Istream.{pb_istream_from_buffer}
use pincushion.Wire.{wt_string}
use pincushion.Field.{Field, FieldIter, pb_field_iter_begin}
use pincushion.Decode.Static.{Submessages, decode_static_field}
use pincushion.Decode.Message.{fields_loop}
use pincushion.Decode.Entry.{all_seen, first_progress}
use pincushion.Decode.Steps.{fail-Step}
use pincushion.Decode.StaticSteps.{Nested}
use pincushion.Decode.StaticBounds.{Fits, decode_static_field-Outside}
use pincushion.Decode.PointerSteps.{Nowhere}
use pincushion.Decode.CallbackSteps.{Callbacks}
use pincushion.Decode.MessageSteps.{Extensions}
use pincushion.Decode.Termination.{Runs, fields_loop-Runs}
use pincushion.Decode.Required.{all_seen-marks}
use pincushion.Decode.Bitmap.{member, marks}
use pincushion.Tests.Message.{number, env, start, outer_fields}

-- Two numbers of four bytes with their count in front.
abbrev numbers : Field
numbers = record number { type = 0x21; data_offset = 4; size_offset = 2 ^ 64 - 4; array_size = 2 }

abbrev numbers_iter : FieldIter
numbers_iter = pb_field_iter_begin (numbers ∷ []) 100

-- No submessage is decoded.
abbrev pub no_messages : Submessages
no_messages = record { decode = λ _ _. fail; decode_noinit = λ _ _. fail }

numbers-Fits : Fits numbers_iter
unfolding pb_field_iter_begin
numbers-Fits = record {
  static = refl;
  flat = λ e. absurd (omega arith);
  fixed32 = λ e. omega arith;
  fixed64 = λ e. absurd (omega arith);
  small = omega arith;
  low = omega arith;
}

-- Three numbers in a packed array with room for two.
decode_static_field-Outside_example :
    (final (
        decode_static_field env 1 no_messages wt_string numbers_iter
          (start (3 ∷ 1 ∷ 2 ∷ 3 ∷ [])))).memory
      112
    ≡ 77
unfolding pb_istream_from_buffer pb_field_iter_begin
decode_static_field-Outside_example =
    decode_static_field-Outside env 1 no_messages wt_string numbers_iter
      (start (3 ∷ 1 ∷ 2 ∷ 3 ∷ [])) numbers-Fits tt 112 (inr (omega arith), inr (omega arith))

pub env-Callbacks : Callbacks env
env-Callbacks function field arg = fail-Step Nowhere

pub env-Extensions : Extensions env
env-Extensions p decode e extension tag wire_type = absurd (ground arith)

pub no_messages-Nested : Nested Nowhere no_messages
no_messages-Nested = record {
  decode = λ _ _. fail-Step Nowhere;
  decode_noinit = λ _ _. fail-Step Nowhere;
}

fields_loop-Runs_example :
    let bytes : List ℕ = 8 ∷ 150 ∷ 1 ∷ 18 ∷ 2 ∷ 97 ∷ 98 ∷ [] in
    let p = first_progress outer_fields 100 in
    Runs env 1 no_messages p (start bytes) (fields_loop env 1 no_messages 8 p (start bytes))
unfolding pb_istream_from_buffer
fields_loop-Runs_example =
    fields_loop-Runs env 1 no_messages env-Callbacks env-Extensions no_messages-Nested 8
      (first_progress outer_fields 100) (start (8 ∷ 150 ∷ 1 ∷ 18 ∷ 2 ∷ 97 ∷ 98 ∷ [])) (omega arith)

all_seen-marks_example :
    (all_seen (marks (2 ∷ 0 ∷ 2 ∷ [])) 3 ≡ true)
    ↔ ((k : ℕ) → k < 3 → member k (2 ∷ 0 ∷ 2 ∷ []) ≡ true)
all_seen-marks_example =
    all_seen-marks (2 ∷ 0 ∷ 2 ∷ []) 3 (omega arith) (omega arith, (omega arith, (omega arith, tt)))
