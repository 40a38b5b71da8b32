-- ===== src/Varint/Advance.antt =====
-- The functions that read varints do not make `bytes_left` larger, and take a byte where they succeed.
use pincushion.Prelude.{ℕ, zero, suc, ◌+◌, ◌<◌, arith, Bool, false}
use pincushion.Prelude.{ok, fail, final, Leads, leb, ◌==◌, ◌&&◌, not, Outcome, if◌then◌else◌}
use pincushion.Prelude.{u8, bit_and}
use pincushion.Istream.{Istream, pb_readbyte}
use pincushion.Istream.Advance.{Advances, Advances-refl, Advances-trans, bind, choose, test}
use pincushion.Istream.Advance.{pure-Advances, error-Advances, pb_read-Advances}
use pincushion.Istream.Advance.{pb_readbyte-Advances, Takes, pb_readbyte-Takes}
use pincushion.Varint.{add_group, decode_varint_loop, pb_decode_varint, add_group32}
use pincushion.Varint.{overflows32, finish_varint32, decode_varint32_loop, decode_varint32_rest}
use pincushion.Varint.{pb_decode_varint32_eof, pb_decode_varint32, skip_varint_loop}
use pincushion.Varint.{pb_skip_varint, first_byte}

decode_varint_loop-Advances :
    (fuel bitpos result : ℕ) → Leads Advances (decode_varint_loop fuel bitpos result)
unfolding decode_varint_loop
decode_varint_loop-Advances zero bitpos result = record { at = Advances-refl }
decode_varint_loop-Advances (suc fuel) bitpos result =
    choose (leb 64 bitpos) (error-Advances "varint overflow") (
      bind pb_readbyte-Advances (λ byte.
        let result' = add_group result byte bitpos in
        choose (bit_and byte 0x80 == 0) (pure-Advances result')
          (decode_varint_loop-Advances fuel (u8 (bitpos + 7)) result')))

pub pb_decode_varint-Advances : Leads Advances pb_decode_varint
unfolding pb_decode_varint
pb_decode_varint-Advances = decode_varint_loop-Advances 11 0 0

finish_varint32-Advances :
    (bitpos byte result : ℕ) → Leads Advances (finish_varint32 bitpos byte result)
unfolding finish_varint32
finish_varint32-Advances bitpos byte result =
    choose (bitpos == 35 && not (bit_and byte 0x70 == 0)) (error-Advances "varint overflow")
      (pure-Advances result)

decode_varint32_loop-Advances :
    (fuel bitpos result : ℕ) → Leads Advances (decode_varint32_loop fuel bitpos result)
unfolding decode_varint32_loop
decode_varint32_loop-Advances zero bitpos result = error-Advances "end-of-stream"
decode_varint32_loop-Advances (suc fuel) bitpos result = bind pb_readbyte-Advances (λ byte.
    let result' = if leb 32 bitpos then result else add_group32 result byte bitpos in
    choose (leb 32 bitpos && overflows32 bitpos byte result) (error-Advances "varint overflow") (
      choose (bit_and byte 0x80 == 0) (finish_varint32-Advances (u8 (bitpos + 7)) byte result')
        (decode_varint32_loop-Advances fuel (u8 (bitpos + 7)) result')))

decode_varint32_rest-Advances : (byte : ℕ) → Leads Advances (decode_varint32_rest byte)
unfolding decode_varint32_rest
decode_varint32_rest-Advances byte =
    test (λ _. bit_and byte 0x80 == 0) (pure-Advances byte)
      (record { at = λ s. (decode_varint32_loop-Advances s.bytes_left 7 (bit_and byte 0x7f)).at s })

Takes-after :
    {A : Type 0} (s t : Istream) (o : Outcome Istream A)
    → t.bytes_left < s.bytes_left
    → Advances t (final o)
    → Takes s o
Takes-after s t (ok a u) h k = omega (arith, h, k.fewer)
Takes-after s t (fail u) h k = omega (arith, h, k.fewer)

-- What `pb_decode_varint32_eof` does with its first byte.
abbrev first : Outcome Istream ℕ → Outcome Istream ℕ × Bool
first (ok byte t) = (decode_varint32_rest byte t, false)
first (fail t) = (fail t, t.bytes_left == 0)

first-Advances :
    (s : Istream) (o : Outcome Istream ℕ) → Advances s (final o) → Advances s (final (first o).0)
first-Advances s (ok byte t) h = Advances-trans h ((decode_varint32_rest-Advances byte).at t)
first-Advances s (fail t) h = h

first-Takes : (s : Istream) (o : Outcome Istream ℕ) → Takes s o → Takes s (first o).0
first-Takes s (ok byte t) h =
    Takes-after s t (decode_varint32_rest byte t) h ((decode_varint32_rest-Advances byte).at t)
first-Takes s (fail t) h = h

pub pb_decode_varint32_eof-Takes : (s : Istream) → Takes s (pb_decode_varint32_eof s).0
unfolding pb_decode_varint32_eof
pb_decode_varint32_eof-Takes s = first-Takes s (pb_readbyte s) (pb_readbyte-Takes s)

pub pb_decode_varint32_eof-Advances :
    (s : Istream) → Advances s (final (pb_decode_varint32_eof s).0)
unfolding pb_decode_varint32_eof
pb_decode_varint32_eof-Advances s = first-Advances s (pb_readbyte s) (pb_readbyte-Advances.at s)

pub pb_decode_varint32-Advances : Leads Advances pb_decode_varint32
unfolding pb_decode_varint32
pb_decode_varint32-Advances = record { at = pb_decode_varint32_eof-Advances }

skip_varint_loop-Advances : (fuel : ℕ) → Leads Advances (skip_varint_loop fuel)
unfolding skip_varint_loop
skip_varint_loop-Advances zero = error-Advances "end-of-stream"
skip_varint_loop-Advances (suc fuel) = bind (pb_read-Advances 1) (λ bytes.
    choose (bit_and (first_byte bytes) 0x80 == 0) (pure-Advances tt)
      (skip_varint_loop-Advances fuel))

pub pb_skip_varint-Advances : Leads Advances pb_skip_varint
unfolding pb_skip_varint
pb_skip_varint-Advances = record { at = λ s. (skip_varint_loop-Advances s.bytes_left).at s }
