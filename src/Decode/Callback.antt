-- ===== src/Decode/Callback.antt =====
-- nanopb/pb_decode.c: `read_raw_value` and `decode_callback_field`.
use pincushion.Prelude.{ℕ, zero, suc, ◌+◌, true, false, List, ◌++◌, length, u64}
use pincushion.Prelude.{◌==◌, if◌then◌else◌, Outcome, ok, fail, pure, ◌>>=◌, bit_and, get_or}
use pincushion.Memory.{load_pointer}
use pincushion.Istream.{Istream, Read, pb_read, pb_istream_from_buffer}
use pincushion.Istream
use pincushion.Wire.{pb_skip_field, wt_varint, wt_64bit, wt_string, wt_32bit}
use pincushion.Field.{FieldIter, pos}
use pincushion.Decode.{State, Decode, return_error, from_stream}
use pincushion.Decode.Env.{Env, inside, with_substream, close_and_return}

-- The loop over the bytes of a varint, of which there may be as many as the first argument says.
unfoldable pub raw_varint : ℕ → Read (List ℕ)
raw_varint zero = fail
raw_varint (suc room) = pb_read 1 >>= λ bytes.
    let rest = raw_varint room in
    if bit_and (get_or bytes 0 0) 0x80 == 0
    then pure bytes
    else (rest >>= λ more. pure (bytes ++ more))

-- `read_raw_value`, with a buffer of `max_size` bytes; what it reads.
unfoldable pub read_raw_value : ℕ → ℕ → Read (List ℕ)
unfolding raw_varint
read_raw_value max_size wire_type =
    if wire_type == wt_varint
    then raw_varint max_size
    else if wire_type == wt_64bit
    then pb_read 8
    else if wire_type == wt_32bit
    then pb_read 4
    else Istream.return_error "invalid wire_type"

-- The do-while loop that calls the function of the user on the substream. Where each call takes a byte at least, as
-- many rounds as bytes, and one for an empty string, are enough; a call that takes nothing is
-- repeated for ever in C.
unfoldable pub callback_loop : Decode (Unit {0}) → ℕ → Decode (Unit {0})
callback_loop call zero s = fail s
callback_loop call (suc fuel) s = elim (call s) [
  | fail t ↦ fail t
  | ok _ t ↦ elim (t.stream.bytes_left == 0) [ true ↦ ok tt t | false ↦ callback_loop call fuel t ]
]

-- What follows the loop.
unfoldable pub finish_callback : Istream → Outcome State (Unit {0}) → Outcome State (Unit {0})
finish_callback parent (ok _ s) = close_and_return parent (ok tt s)
finish_callback parent (fail s) = return_error "callback failed" (inside parent s)

-- The call on a substream over a value that was copied to the stack, which leaves the stream behind the value.
unfoldable pub call_on_value : Decode (Unit {0}) → List ℕ → Decode (Unit {0})
call_on_value call value s = elim (call (inside (pb_istream_from_buffer value (length value)) s)) [
  | ok _ t ↦ ok tt (inside s.stream t)
  | fail t ↦ fail (inside s.stream t)
]

unfoldable pub decode_callback_field : Env → ℕ → FieldIter → Decode (Unit {0})
unfolding finish_callback call_on_value
decode_callback_field env wire_type iter s =
    let function = load_pointer s.memory iter.p_data in
    let call = env.callbacks function (pos iter) (u64 (iter.p_data + 8)) in
    if iter.p_data == 0
    then from_stream (pb_skip_field wire_type) s
    else if function == 0
    then from_stream (pb_skip_field wire_type) s
    else if wire_type == wt_string
    then with_substream (λ t. callback_loop call (suc t.stream.bytes_left) t) finish_callback s
    else (from_stream (read_raw_value 10 wire_type) >>= λ value. call_on_value call value) s
