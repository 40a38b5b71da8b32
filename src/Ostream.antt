-- ===== src/Ostream.antt =====
-- nanopb/pb_encode.c, "pb_ostream_t implementation", and the structure of pb_encode.h: an output
-- stream into a memory buffer, into a callback of the user, or one that only counts.
pub mod Write
pub mod Contained
use pincushion.Prelude.{ℕ, zero, suc, ◌+◌, ◌^◌, ◌≤◌, ◌<◌, ◌≡◌, String, Bool, true, false}
use pincushion.Prelude.{Option, none, some, List, [], ◌++◌, take, length, ltb, if◌then◌else◌}
use pincushion.Prelude.{u64}
use pincushion.Prelude.{Outcome, ok, fail, Action}

-- How a callback other than `buf_write` takes bytes: whether it accepts them, and what it will do
-- next. One that is `shut` rejects all.
mutual
  pub data Consumer : Type 0 where
    shut : Consumer
    consumer : (List ℕ → Reaction) → Consumer

  pub data Reaction : Type 0 where
    rejected : Consumer → Reaction
    accepted : Consumer → Reaction

-- The fields `callback` and `state`: no callback (PB_OSTREAM_SIZING), `buf_write` with what it
-- has stored from the start of the buffer on, or a callback of the user.
pub data Sink : Type 0 where
  sizing : Sink
  buffer : List ℕ → Sink
  custom : Consumer → Sink

pub record Ostream : Type 0 where
  pub sink : Sink
  pub max_size : ℕ
  pub bytes_written : ℕ
  pub errmsg : Option String

-- A function that takes `pb_ostream_t *stream` and returns `bool`.
abbrev pub Write : Type 0
Write = Action Ostream (Unit {0})

-- PB_SET_ERROR: the first message stays.
abbrev pub first_message : Option String → String → Option String
first_message none msg = some msg
first_message (some old) msg = some old

-- PB_RETURN_ERROR
abbrev pub return_error : String → Write
return_error msg s = fail (record s { errmsg = first_message s.errmsg msg })

-- PB_OSTREAM_SIZING
abbrev pub pb_ostream_sizing : Ostream
pb_ostream_sizing = record { sink = sizing; max_size = 0; bytes_written = 0; errmsg = none }

unfoldable pub pb_ostream_from_buffer : ℕ → Ostream
pb_ostream_from_buffer bufsize = record {
  sink = buffer [];
  max_size = bufsize;
  bytes_written = 0;
  errmsg = none;
}

offer : Consumer → List ℕ → Reaction
offer shut bytes = rejected shut
offer (consumer take_in) bytes = take_in bytes

-- `stream->callback(stream, buf, count)`: whether it returns true, and the new state.
unfoldable pub callback : Sink → List ℕ → ℕ → Bool × Sink
unfolding offer
callback sizing buf count = (false, sizing)
callback (buffer stored) buf count = (true, buffer (stored ++ take count buf))
callback (custom c) buf count = elim (offer c (take count buf)) [
  | rejected c' ↦ (false, custom c')
  | accepted c' ↦ (true, custom c')
]

abbrev pub is_sizing : Sink → Bool
is_sizing sizing = true
is_sizing (buffer _) = false
is_sizing (custom _) = false

count_written : ℕ → Write
count_written count s = ok tt (record s { bytes_written = u64 (s.bytes_written + count) })

finish_write : ℕ → Ostream → Bool × Sink → Outcome Ostream (Unit {0})
finish_write count s (false, sink) = return_error "io error" (record s { sink = sink })
finish_write count s (true, sink) = count_written count (record s { sink = sink })

-- `pb_write`. A stream that only counts is given NULL and a count, which reads nothing.
unfoldable pub pb_write : List ℕ → ℕ → Write
unfolding callback count_written finish_write
pb_write buf count s =
    if is_sizing s.sink
    then count_written count s
    else if ltb s.max_size (u64 (s.bytes_written + count))
    then return_error "stream full" s
    else finish_write count s (callback s.sink buf count)
