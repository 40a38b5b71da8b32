-- ===== src/Lib.antt =====
-- The C code of the pincushion app: the protocol buffer library nanopb and the base 64 functions of
-- SocketRocket, both under pincushion/Pods.
--
-- Parts, and the files that model them:
-- - Prelude: numbers with the wrap-around of C integers, bits, lists, and `Outcome`, the result of a
--   C function that changes a stream and returns true (`ok`) or false (`fail`).
-- - Istream, Ostream: `pb_istream_t` and `pb_ostream_t` of nanopb/pb_decode.h and pb_encode.h with `pb_read`,
--   `pb_readbyte` and `pb_write`. The field `callback` with its `state` is a data type: the
--   function for buffers, a function of the user, or none.
-- - Varint: `pb_decode_varint`, `pb_decode_varint32`, `pb_skip_varint`, `pb_encode_varint`.
-- - Wire: signed and fixed-size integers, tags, `pb_skip_field`, substreams, `pb_encode_string`.
-- - Memory: the bytes in which messages lie. Words are little-endian, pointers have eight bytes.
-- - Field: the `pb_field_t` of nanopb/pb.h, and the iterator of nanopb/pb_common.c.
-- - Encode: the message encoder of nanopb/pb_encode.c. Encode/Array is `encode_array`, Encode/Default is
--   `pb_check_proto3_default_value`, Encode/Message goes from `encode_basic_field` to `pb_encode` and its callers. Encode/Sizing and
--   Encode/Size are about the counting run, the files whose names start with Contained about the limit of a buffer.
-- - Decode: `allocate_field` and the decoders of single fields of nanopb/pb_decode.c, on a stream, a memory and a
--   heap. `realloc` and `free` are parameters: the heap answers each request. Decode/Env has what the message decoder
--   works with beside that, Decode/Default is `pb_message_set_to_defaults`, Decode/Release is `pb_release`,
--   Decode/Static, Decode/Pointers and Decode/Callback are `decode_static_field`, `decode_pointer_field` and
--   `decode_callback_field`, Decode/Message is the loop of `pb_decode_noinit` with the extensions, and Decode/Entry its
--   end, `pb_decode` and the other callers. The files of Decode whose names end in Steps, with Decode/ReleaseStream and
--   Decode/Termination, relate the states before and after each of these functions; Decode/Bitmap, Decode/SeenFields
--   and those whose names start with Required are about `fields_seen`.
-- - Struct: messages whose fields are required and lie in the struct itself, in terms of the values that the struct holds:
--   Struct/Layout is where the iterator stands in the struct, Struct/Values the values and their bytes on the wire,
--   Struct/Numbers, Struct/Text and Struct/Contents are about the fields of each type, Struct/Encode is about `pb_encode`, Struct/Size about `pb_get_encoded_size`,
--   Struct/Rounds, Struct/Stays, Struct/Decode and Struct/Entries are about the loop of `pb_decode_noinit`, and
--   Struct/RoundTrip is about both together.
-- - Base64: `f_b64_ntop` and `f_b64_pton` of
--   FirebaseDatabase/Firebase/Database/third_party/SocketRocket/fbase64.c.
-- - Tests: runs on concrete inputs.
--
-- The encoder writes to an output stream through `pb_write`; `pb_encode_submessage` and
-- `pb_get_encoded_size` first run it on a stream that only counts. The fields of a message are found with
-- the iterator, and the data in the memory. The functions that a user puts into callback fields
-- and extension types are parameters: fields of `Env`. The decoder reads from an input stream, finds the field of each
-- tag with the iterator, and writes to the memory with the decoders of PB_DECODERS; for a submessage it runs itself on a
-- substream. Where the C code points to a variable on the stack, `fixed_count_size` of `pb_decode_noinit`, the address of
-- that variable is a parameter too.
--
-- The build defines PB_FIELD_32BIT, PB_NO_PACKED_STRUCTS and PB_ENABLE_MALLOC, so `pb_size_t` has 32 bits, and
-- `uint_fast8_t` has 8 bits as on the platform of the app. `size_t` has 64 bits.
--
-- Fuel: `decode_varint_loop` has 11 rounds, the last of which returns at its first test. The loops
-- of `pb_decode_varint32` and `pb_skip_varint` take a byte each round and have `bytes_left` rounds.
-- `pb_field_iter_find` visits each field at most once. `pb_encode` has a depth, which bounds the
-- nesting of messages and the length of a chain of extensions; with a depth that is too small it fails, and so does
-- `pb_decode`. The same depth bounds `pb_message_set_to_defaults` and `pb_release`, which with a depth that is too small
-- leave the rest of the message as it is. `fields_loop`, `packed_loop` and `entries_loop` take a byte in each round, and
-- `callback_loop` does where the function of the user does; they have as many rounds as the stream has bytes, or one more.
--
-- Small differences: `pb_read` and `pb_make_string_substream` take a number from `bytes_left` only behind the test that it is not
-- larger, and there the subtraction of ℕ, which stops at 0, is that of `size_t`. A `callback` that a user puts into an input
-- stream changes its own state, and neither `bytes_left` nor `errmsg` of the stream. Where `pb_close_string_substream` fails, the stream
-- keeps the state it had before the substream was read; in C the object behind a user's `state` is shared with the
-- substream, and has advanced.
--
-- Not modelled: the branches for PB_BUFFER_ONLY, PB_WITHOUT_64BIT and PB_NO_ERRMSG, which the build does not set, and what C
-- leaves undefined, such as reads outside an object. The Swift code of the app and the libraries in C++
-- and Objective-C are other programs, and are not modelled.
pub mod Prelude
pub mod Istream
pub mod Ostream
pub mod Varint
pub mod Wire
pub mod Base64
pub mod Memory
pub mod Field
pub mod Encode
pub mod Decode
pub mod Struct
pub mod Tests
