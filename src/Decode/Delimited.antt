-- ===== src/Decode/Delimited.antt =====
-- nanopb/pb_decode.c: calls on the substream of a string, bytes or message field.
use pincushion.Prelude.{ℕ, ◌+◌, ◌^◌, ◌<◌, ◌≡◌, refl, List, [], ◌++◌, length, Option, String, ok}
use pincushion.Prelude.{Outcome, length-append}
use pincushion.Prelude.{arith}
use mathlib.Core.List.{append_assoc}
use mathlib.Core.Path.{subst, sym}
use pincushion.Memory.{Memory}
use pincushion.Varint.{varint_bytes}
use pincushion.Istream.Read.{over}
use pincushion.Wire.Substream.{make, close}
use pincushion.Decode.{State, Heap, Decode}
use pincushion.Decode.Env.{in_substream, with_substream, close_and_return}
use pincushion.Decode.Integers.{on}

closed :
    (here more : List ℕ) (n : ℕ) (msg : Option String) (t : Memory) (h : Heap)
    (status : Outcome State (Unit {0}))
    → status ≡ ok tt (on more 0 msg t h)
    → close_and_return (over here n msg) status ≡ ok tt (on more n msg t h)
unfolding close_and_return
closed here more n msg t h status e =
    subst (λ o. close_and_return (over here n msg) o ≡ ok tt (on more n msg t h)) (sym e)
      (rw (close [] more here n msg msg, close_and_return) refl)

-- A call that takes the content of its substream leaves the stream behind the field.
pub in_substream-whole :
    (body : Decode (Unit {0})) (bytes more : List ℕ) (n : ℕ) (msg : Option String) (m t : Memory)
    (h : Heap)
    → length bytes < 2 ^ 32
    → body (on (bytes ++ more) (length bytes) msg m h) ≡ ok tt (on more 0 msg t h)
    → let front = varint_bytes (length bytes) ++ bytes in
      in_substream body (on (front ++ more) (length front + n) msg m h) ≡ ok tt (on more n msg t h)
unfolding in_substream with_substream
in_substream-whole body bytes more n msg m t h small e =
    let prefix = varint_bytes (length bytes) in
    let opened = make bytes more n msg small in
    let sum : length (prefix ++ bytes) + n ≡ length prefix + (length bytes + n) =
      omega (arith, length-append prefix bytes) in
    rw (append_assoc prefix bytes more, sum)
      (rw (opened, with_substream) (closed (bytes ++ more) more n msg t h _ e))
