-- ===== src/Istream/Read.antt =====
-- What `pb_read` and `pb_readbyte` do on every branch, for a stream over a buffer.
use pincushion.Prelude.{ℕ, suc, ◌+◌, String, Option}
use pincushion.Prelude.{List, ◌∷◌, ◌++◌, length, ◌≡◌, arith}
use pincushion.Prelude.{ok, take-append, drop-append}
use pincushion.Istream.{Istream, buffer, pb_read, pb_readbyte}

-- A stream over `front ++ back` that may still read `n` bytes.
abbrev pub over : List ℕ → ℕ → Option String → Istream
over bytes n msg = record { source = buffer bytes; bytes_left = n; errmsg = msg }

-- Reading the length of `front` delivers `front` and leaves the stream at `back`.
pub pb_read-append :
    (front back : List ℕ) (n : ℕ) (msg : Option String)
    → pb_read (length front) (over (front ++ back) (length front + n) msg)
      ≡ ok front (over back n msg)
unfolding pb_read
pb_read-append front back n msg = ground (arith, take-append front back, drop-append front back)

pub pb_readbyte-cons :
    (b : ℕ) (rest : List ℕ) (n : ℕ) (msg : Option String)
    → pb_readbyte (over (b ∷ rest) (suc n) msg) ≡ ok b (over rest n msg)
unfolding pb_readbyte
pb_readbyte-cons b rest n msg = ground arith
