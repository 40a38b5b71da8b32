-- ===== src/Istream.antt =====
-- nanopb/pb_decode.c, "pb_istream_t implementation", and the structure of pb_decode.h: an input
-- stream over a memory buffer or over a callback of the user.
pub mod Read
pub mod Advance
use pincushion.Prelude.{ℕ, zero, suc, ◌+◌, ◌-◌, ◌≤◌, String, Bool, true, false, Option, none}
use pincushion.Prelude.{some}
use pincushion.Prelude.{List, [], ◌∷◌, take, drop, length, ltb, ◌==◌, if◌then◌else◌, All}
use pincushion.Prelude.{IsByte, ◌≡◌}
use pincushion.Prelude.{Outcome, ok, fail, Action, pure, ◌>>=◌, ◌>>◌}

-- What a callback other than `buf_read` answers when it is asked for a number of bytes, and
-- what it will answer next. One that is `closed` refuses every request.
mutual
  pub data Device : Type 0 where
    closed : Device
    device : (ℕ → Reply) → Device

  pub data Reply : Type 0 where
    refused : Device → Reply
    delivered : List ℕ → Device → Reply

-- The fields `callback` and `state`. For `buf_read` the state points into a buffer, and is given
-- as the bytes from there on.
pub data Source : Type 0 where
  buffer : List ℕ → Source
  custom : Device → Source

pub record Istream : Type 0 where
  pub source : Source
  pub bytes_left : ℕ
  pub errmsg : Option String

-- A function that takes `pb_istream_t *stream` and returns `bool`.
abbrev pub Read : Type 0 → Type 0
Read A = Action Istream A

-- PB_SET_ERROR: the first message stays.
abbrev pub first_message : Option String → String → Option String
first_message none msg = some msg
first_message (some old) msg = some old

-- PB_RETURN_ERROR
abbrev pub return_error : {A : Type 0} → String → Read A
return_error msg s = fail (record s { errmsg = first_message s.errmsg msg })

ask : Device → ℕ → Reply
ask closed count = refused closed
ask (device answer) count = answer count

-- The bytes that the source has from its position on, if they lie in a buffer.
unfoldable pub buf_read : List ℕ → ℕ → List ℕ × List ℕ
buf_read source count = (take count source, drop count source)

-- `stream->callback(stream, buf, count)` with a buf that is not NULL: the bytes stored at buf,
-- or `none` where the callback returns false.
unfoldable pub callback : Source → ℕ → Option (List ℕ) × Source
unfolding ask buf_read
callback (buffer source) count =
    let (bytes, rest) = buf_read source count in (some bytes, buffer rest)
callback (custom d) count = elim (ask d count) [
  | refused d' ↦ (none, custom d')
  | delivered bytes d' ↦ (some bytes, custom d')
]

finish_read : ℕ → Istream → Option (List ℕ) × Source → Outcome Istream (List ℕ)
finish_read count s (none, source) = return_error "io error" (record s { source = source })
finish_read count s (some bytes, source) =
    ok bytes (record s { source = source; bytes_left = s.bytes_left - count })

-- `pb_read` with a buf that is not NULL.
unfoldable pub pb_read : ℕ → Read (List ℕ)
unfolding callback finish_read
pb_read count s =
    if ltb s.bytes_left count
    then return_error "end-of-stream" s
    else finish_read count s (callback s.source count)

-- The loop that reads into `tmp`, 16 bytes at a time, with `fuel` at least `count`.
unfoldable pub skip_loop : ℕ → ℕ → Read (List ℕ)
skip_loop zero count = pb_read count
skip_loop (suc fuel) count =
    let rest = skip_loop fuel (count - 16) in
    if ltb 16 count then (do pb_read 16; rest) else pb_read count

is_buf_read : Source → Bool
is_buf_read (buffer _) = true
is_buf_read (custom _) = false

-- `pb_read` with buf == NULL, which skips input bytes. `buf_read` moves its state alone.
unfoldable pub pb_read_null : ℕ → Read (List ℕ)
unfolding is_buf_read
pb_read_null count s = if is_buf_read s.source then pb_read count s else skip_loop count count s

head_or : List ℕ → ℕ
head_or = elim [ [] ↦ 0 | x ∷ _ ↦ x ]

unfoldable pub pb_readbyte : Read ℕ
unfolding callback finish_read head_or
pb_readbyte s =
    if s.bytes_left == 0
    then return_error "end-of-stream" s
    else ((λ t. finish_read 1 t (callback t.source 1)) >>= λ bytes. pure (head_or bytes)) s

unfoldable pub pb_istream_from_buffer : List ℕ → ℕ → Istream
pb_istream_from_buffer buf bufsize = record {
  source = buffer buf;
  bytes_left = bufsize;
  errmsg = none;
}

-- A buffer of bytes that has at least `bytes_left` of them.
abbrev pub Holds : Source → ℕ → Type 0
Holds (buffer bytes) n = (n ≤ length bytes) × All IsByte bytes
Holds (custom d) n = Unit {0}
