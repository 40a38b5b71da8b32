-- ===== src/Wire/Substream.antt =====
-- `pb_make_string_substream` and `pb_close_string_substream`.
use pincushion.Prelude.{ℕ, ◌+◌, ◌^◌, ◌<◌, ◌≡◌, refl, arith}
use pincushion.Prelude.{List, [], ◌∷◌, ◌++◌, length, Option, String, ok, fail}
use mathlib.Core.List.{append_assoc}
use pincushion.Prelude.{length-append}
use pincushion.Istream.{pb_read, pb_read_null, first_message}
use pincushion.Istream.Read.{over, pb_read-append}
use pincushion.Varint.{varint_bytes}
use pincushion.Varint.RoundTrip32.{pb_decode_varint32-varint_bytes}
use pincushion.Wire.{pb_make_string_substream, pb_close_string_substream}

pub make :
    (content rest : List ℕ) (n : ℕ) (msg : Option String)
    → length content < 2 ^ 32
    → let prefix = varint_bytes (length content) in
      pb_make_string_substream
        (over (prefix ++ (content ++ rest)) (length prefix + (length content + n)) msg)
      ≡ ok (over (content ++ rest) (length content) msg) (over (content ++ rest) n msg)
unfolding pb_make_string_substream
make content rest n msg h = ground (
  arith,
  pb_decode_varint32-varint_bytes (length content) (content ++ rest) (length content + n) msg,
)

pub close :
    (left rest here : List ℕ) (n : ℕ) (msg msg' : Option String)
    → pb_close_string_substream (over (left ++ rest) (length left) msg') (over here n msg)
      ≡ ok tt (over rest n msg')
unfolding pb_close_string_substream pb_read_null
close [] rest here n msg msg' = refl
close (x ∷ left) rest here n msg msg' = ground (arith, pb_read-append (x ∷ left) rest 0 msg')

-- Let `seen ++ left` be the content of a string field in a buffer, of fewer than 2 ^ 32 bytes.
-- `pb_make_string_substream` gives a substream over the content and takes its length from the
-- stream. From the substream `pb_read` delivers `seen`. Then `pb_close_string_substream` puts
-- the stream behind the content, whatever `left` is, with the message of the substream.
pub pb_close_string_substream_lem :
    (seen left rest : List ℕ) (n : ℕ) (msg msg' : Option String)
    → length (seen ++ left) < 2 ^ 32
    → let prefix = varint_bytes (length (seen ++ left)) in
      let here = (seen ++ left) ++ rest in
      (pb_make_string_substream
          (over (prefix ++ here) (length prefix + (length (seen ++ left) + n)) msg)
        ≡ ok (over here (length (seen ++ left)) msg) (over here n msg))
      × (pb_read (length seen) (over here (length (seen ++ left)) msg)
          ≡ ok seen (over (left ++ rest) (length left) msg))
      × (pb_close_string_substream (over (left ++ rest) (length left) msg') (over here n msg)
          ≡ ok tt (over rest n msg'))
pb_close_string_substream_lem seen left rest n msg msg' h = (
  make (seen ++ left) rest n msg h,
  rw (append_assoc seen left rest, length-append seen left)
      (pb_read-append seen (left ++ rest) (length left) msg),
  close left rest ((seen ++ left) ++ rest) n msg msg',
)

-- `pb_make_string_substream` fails on a string with a length below 2 ^ 32 that is more than what
-- the stream over a buffer may still read. The length is taken, and the message is set unless
-- there is one.
pub pb_make_string_substream-too_short :
    (size : ℕ) (rest : List ℕ) (n : ℕ) (msg : Option String)
    → size < 2 ^ 32
    → n < size
    → let prefix = varint_bytes size in
      pb_make_string_substream (over (prefix ++ rest) (length prefix + n) msg)
      ≡ fail (over rest n (first_message msg "parent stream too short"))
unfolding pb_make_string_substream
pb_make_string_substream-too_short size rest n msg h lt =
    ground (arith, pb_decode_varint32-varint_bytes size rest n msg h)
