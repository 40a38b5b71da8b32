-- ===== src/Wire/Advance.antt =====
-- The functions of the wire format do not make `bytes_left` larger, and a tag takes a byte at least.
use pincushion.Prelude.{ℕ, arith, Bool}
use pincushion.Prelude.{List}
use pincushion.Prelude.{inl, inr, Bool-cases, ok, fail, pure, final, Leads, ltb, ◌==◌}
use pincushion.Prelude.{Outcome, ◌>>=◌}
use pincushion.Istream.{Istream, pb_read_null}
use pincushion.Istream.Advance.{Advances, bind, choose, test, pure-Advances}
use pincushion.Istream.Advance.{error-Advances, pb_read-Advances}
use pincushion.Istream.Advance.{pb_read_null-Advances, Takes, Advances-trans}
use pincushion.Varint.Advance.{pb_decode_varint-Advances, pb_decode_varint32-Advances}
use pincushion.Varint.Advance.{pb_skip_varint-Advances, pb_decode_varint32_eof-Takes}
use pincushion.Varint.Advance.{pb_decode_varint32_eof-Advances}
use pincushion.Varint.{pb_decode_varint32, pb_decode_varint32_eof}
use pincushion.Wire.{pb_decode_svarint, unzigzag, pb_decode_fixed32, join32, pb_decode_fixed64}
use pincushion.Wire.{pb_decode_tag, split_tag, limit_stream, adopt, pb_make_string_substream}
use pincushion.Wire.{pb_close_string_substream, Tag, join64, pb_skip_string, pb_skip_field}
use pincushion.Wire.{wt_varint, wt_64bit, wt_string, wt_32bit}

pub pb_decode_svarint-Advances : Leads Advances pb_decode_svarint
unfolding pb_decode_svarint
pb_decode_svarint-Advances =
    bind pb_decode_varint-Advances (λ value. pure-Advances (unzigzag value))

pub pb_decode_fixed32-Advances : Leads Advances pb_decode_fixed32
unfolding pb_decode_fixed32
pb_decode_fixed32-Advances = bind (pb_read-Advances 4) (λ bytes. pure-Advances (join32 bytes))

pub pb_decode_fixed64-Advances : Leads Advances pb_decode_fixed64
unfolding pb_decode_fixed64
pb_decode_fixed64-Advances = bind (pb_read-Advances 8) (λ bytes. pure-Advances (join64 bytes))

skip-Advances : (count : ℕ) → Leads Advances (pb_read_null count >>= λ _. pure tt)
skip-Advances count = bind (pb_read_null-Advances count) (λ _. pure-Advances tt)

pub pb_skip_field-Advances : (wire_type : ℕ) → Leads Advances (pb_skip_field wire_type)
unfolding pb_skip_field pb_skip_string
pb_skip_field-Advances wire_type = choose (wire_type == wt_varint) pb_skip_varint-Advances (
    choose (wire_type == wt_64bit) (skip-Advances 8) (
      choose (wire_type == wt_string) (bind pb_decode_varint32-Advances skip-Advances)
        (choose (wire_type == wt_32bit) (skip-Advances 4) (error-Advances "invalid wire_type"))))

-- What `pb_decode_tag` does with the number.
abbrev split : Bool → Outcome Istream ℕ → Outcome Istream Tag × Bool
split eof (ok temp t) = split_tag temp t
split eof (fail t) = (fail t, eof)

split-Takes :
    (s : Istream) (eof : Bool) (o : Outcome Istream ℕ) → Takes s o → Takes s (split eof o).0
unfolding split_tag
split-Takes s eof (ok temp t) h = ground arith
split-Takes s eof (fail t) h = h

pub pb_decode_tag-Takes : (s : Istream) → Takes s (pb_decode_tag s).0
unfolding pb_decode_tag
pb_decode_tag-Takes s =
    let r = pb_decode_varint32_eof s in split-Takes s r.1 r.0 (pb_decode_varint32_eof-Takes s)

split-Advances :
    (s : Istream) (eof : Bool) (o : Outcome Istream ℕ)
    → Advances s (final o)
    → Advances s (final (split eof o).0)
unfolding split_tag
split-Advances s eof (ok temp t) h = elim (Bool-cases (temp == 0)) [
  | inl e ↦ rw e h
  | inr e ↦ rw e h
]
split-Advances s eof (fail t) h = h

pub pb_decode_tag-Advances : (s : Istream) → Advances s (final (pb_decode_tag s).0)
unfolding pb_decode_tag
pb_decode_tag-Advances s =
    let r = pb_decode_varint32_eof s in split-Advances s r.1 r.0 (pb_decode_varint32_eof-Advances s)

limit_stream-Advances : (size : ℕ) → Leads Advances (limit_stream size)
unfolding limit_stream
limit_stream-Advances size =
    test (λ s. ltb s.bytes_left size) (error-Advances "parent stream too short")
      (record { at = λ s. record { fewer = omega arith; buffered = λ b. b } })

pub pb_make_string_substream-Advances : Leads Advances pb_make_string_substream
unfolding pb_make_string_substream
pb_make_string_substream-Advances = bind pb_decode_varint32-Advances limit_stream-Advances

-- A substream is no longer than the stream, and over a buffer if the stream is.
abbrev pub Inside : Istream → Outcome Istream Istream → Type 0
Inside s (ok sub t) = Advances s sub
Inside s (fail t) = Unit {0}

limit_stream-Inside : (size : ℕ) (s : Istream) → Inside s (limit_stream size s)
unfolding limit_stream
limit_stream-Inside size s = elim (Bool-cases (ltb s.bytes_left size)) [
  | inl e ↦ rw e tt
  | inr e ↦ rw e (record { fewer = ground arith; buffered = λ b. b })
]

Inside-after :
    (s t : Istream) (o : Outcome Istream Istream) → Advances s t → Inside t o → Inside s o
Inside-after s t (ok sub u) h k = Advances-trans h k
Inside-after s t (fail u) h k = tt

limited :
    (s : Istream) (o : Outcome Istream ℕ)
    → Advances s (final o)
    → Inside s (((λ _. o) >>= limit_stream) s)
limited s (ok size t) h = Inside-after s t (limit_stream size t) h (limit_stream-Inside size t)
limited s (fail t) h = tt

pub pb_make_string_substream-Inside : (s : Istream) → Inside s (pb_make_string_substream s)
unfolding pb_make_string_substream
pb_make_string_substream-Inside s =
    limited s (pb_decode_varint32 s) (pb_decode_varint32-Advances.at s)

module _ (start : Istream) where
  adopt-Advances :
      (sub s : Istream)
      → Advances start s
      → Advances start sub
      → Advances start (final (adopt sub s))
  unfolding adopt
  adopt-Advances sub s h k = record { fewer = h.fewer; buffered = k.buffered }

  skipped :
      (s : Istream) (o : Outcome Istream (List ℕ))
      → Advances start s
      → Advances start (final o)
      → Advances start (final (elim o [ fail _ ↦ fail s | ok _ sub' ↦ adopt sub' s ]))
  skipped s (ok _ sub') h k = adopt-Advances sub' s h k
  skipped s (fail _) h k = h

  -- A substream and its stream come from one stream; closing the substream goes on from there.
  pub pb_close_string_substream-Advances :
      (sub s : Istream)
      → Advances start s
      → Advances start sub
      → Advances start (final (pb_close_string_substream sub s))
  unfolding pb_close_string_substream
  pb_close_string_substream-Advances sub s h k = elim (Bool-cases (sub.bytes_left == 0)) [
    | inl e ↦ rw e (adopt-Advances sub s h k)
    | inr e ↦ rw e (
        skipped s (pb_read_null sub.bytes_left sub) h
          (Advances-trans k ((pb_read_null-Advances sub.bytes_left).at sub)))
  ]
