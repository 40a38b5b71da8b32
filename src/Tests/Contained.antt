-- ===== src/Tests/Contained.antt =====
-- The theorem on the limit of a buffer, at a message with a number, a string and an empty message.
use pincushion.Prelude.{ℕ, zero, suc, ◌^◌, ◌<◌, arith, List, [], ◌∷◌, ◌==◌, if◌then◌else◌}
use pincushion.Prelude.{none, pure, final}
use pincushion.Memory.{Memory}
use pincushion.Ostream.{pb_ostream_sizing}
use pincushion.Ostream.Contained.{filling, Within, pure-Contained}
use pincushion.Field.{Field, field_at, null, submsg, pb_field_iter_begin}
use pincushion.Encode.{Env, strnlen}
use pincushion.Encode.ContainedMessage.{IsBounded, pb_encode-Within}
use pincushion.Encode.Message.{pb_encode}

abbrev number : Field
number = record {
  tag = 1;
  type = 0x01;
  data_offset = 0;
  size_offset = 0;
  data_size = 4;
  array_size = 0;
  ptr = null;
}

abbrev fields : List Field
fields =
    number
    ∷ record number { tag = 2; type = 0x06 }
    ∷ record number { tag = 3; type = 0x07; ptr = submsg 0 }
    ∷ []

-- The letter A at address 104.
abbrev letter : Memory
letter p = if p == 104 then 65 else 0

abbrev env : Env
env = record {
  memory = letter;
  messages = λ _. [];
  extension_types = λ _. record { encode = none; arg = number };
  callbacks = λ _ _ _. pure tt;
}

letter-short : (max p : ℕ) → strnlen letter max p < 2 ^ 63
unfolding strnlen
letter-short zero p = omega arith
letter-short (suc zero) p = ground arith
letter-short (suc (suc max)) p = ground arith

empty-count :
    (depth p : ℕ) → (final (pb_encode env depth [] p pb_ostream_sizing)).bytes_written < 2 ^ 63
unfolding pb_encode pb_field_iter_begin
empty-count zero p = omega arith
empty-count (suc depth) p = omega arith

env-IsBounded : IsBounded env
env-IsBounded = record {
  memory = record { bytes = λ p. ground arith; strings = letter-short };
  callbacks = λ function field arg. pure-Contained;
  extensions = λ type encode e extension. absurd (ground arith);
  args = λ type. omega arith;
  fields = λ message i. omega arith;
  counts = λ depth message p. empty-count depth p;
}

fields-short : (i : ℕ) → (field_at fields i).data_size < 2 ^ 63
fields-short zero = omega arith
fields-short (suc zero) = omega arith
fields-short (suc (suc zero)) = omega arith
fields-short (suc (suc (suc i))) = omega arith

-- Seven bytes are written, of which the buffer takes four.
pb_encode-Within_example :
    Within (7 ∷ []) 5 1 (final (pb_encode env 2 fields 100 (filling (7 ∷ []) 5 1 none)))
pb_encode-Within_example =
    pb_encode-Within env env-IsBounded 2 fields 100 fields-short (7 ∷ []) 5 1 none (omega arith)
      (omega arith)
