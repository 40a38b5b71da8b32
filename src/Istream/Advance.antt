-- ===== src/Istream/Advance.antt =====
-- No function of nanopb/pb_decode.c that reads a stream makes `bytes_left` larger.
use pincushion.Prelude.{ℕ, zero, suc, ◌-◌, ◌≤◌, ◌<◌, arith, Bool, List, length}
use pincushion.Prelude.{ok, fail, pure, String, Leads-if, Leads-test, Option, final, Leads}
use pincushion.Prelude.{Leads-bind, length-take, ltb, ◌==◌, Bool-cases, inl, inr, Outcome}
use pincushion.Prelude.{◌>>=◌, if◌then◌else◌, none, some}
use pincushion.Istream.{Istream, Source, buffer, custom, Device, Read, pb_read, pb_read_null}
use pincushion.Istream.{pb_readbyte, skip_loop, ask, refused, delivered, callback, finish_read}
use pincushion.Istream.{head_or, is_buf_read, buf_read}
use pincushion.Istream

abbrev pub IsBuffer : Source → Type 0
IsBuffer (buffer _) = Unit {0}
IsBuffer (custom _) = ⊥

-- The second stream is the first after a function that reads.
pub record Advances (s t : Istream) : Type 0 where
  pub fewer : t.bytes_left ≤ s.bytes_left
  pub buffered : IsBuffer s.source → IsBuffer t.source

pub Advances-refl : (s : Istream) → Advances s s
Advances-refl s = record { fewer = omega arith; buffered = λ b. b }

pub Advances-trans : {s t u : Istream} → Advances s t → Advances t u → Advances s u
Advances-trans h k = record {
  fewer = omega (arith, h.fewer, k.fewer);
  buffered = λ b. k.buffered (h.buffered b);
}

callback-IsBuffer :
    (source : Source) (count : ℕ) → IsBuffer source → IsBuffer (callback source count).1
unfolding callback
callback-IsBuffer (buffer bytes) count b = b
callback-IsBuffer (custom d) count b = absurd b

finished :
    (count : ℕ) (s : Istream) (r : Option (List ℕ) × Source)
    → (IsBuffer s.source → IsBuffer r.1)
    → Advances s (final (finish_read count s r))
unfolding finish_read
finished count s (none, source) h = record { fewer = omega arith; buffered = h }
finished count s (some bytes, source) h = record { fewer = omega arith; buffered = h }

finish_read-Advances :
    (count : ℕ) → Leads Advances (λ s. finish_read count s (callback s.source count))
finish_read-Advances count = record {
  at = λ s. finished count s (callback s.source count) (callback-IsBuffer s.source count);
}

pub bind :
    {A B : Type 0} {m : Read A} {f : A → Read B}
    → Leads Advances m
    → ((a : A) → Leads Advances (f a))
    → Leads Advances (m >>= f)
bind {m = m} {f = f} = Leads-bind Advances (λ s t u. Advances-trans) m f

pub test :
    {A : Type 0} {m n : Read A} (b : Istream → Bool)
    → Leads Advances m
    → Leads Advances n
    → Leads Advances (λ s. if b s then m s else n s)
test = Leads-test Advances

pub choose :
    {A : Type 0} {m n : Read A} (b : Bool)
    → Leads Advances m
    → Leads Advances n
    → Leads Advances (if b then m else n)
choose = Leads-if Advances

pub pure-Advances : {A : Type 0} (a : A) → Leads Advances (pure a)
pure-Advances a = record { at = Advances-refl }

pub error-Advances : {A : Type 0} (msg : String) → Leads Advances (Istream.return_error {A = A} msg)
error-Advances msg = record { at = λ s. record { fewer = omega arith; buffered = λ b. b } }

pub pb_read-Advances : (count : ℕ) → Leads Advances (pb_read count)
unfolding pb_read
pb_read-Advances count =
    test (λ s. ltb s.bytes_left count) (error-Advances "end-of-stream") (finish_read-Advances count)

pub pb_readbyte-Advances : Leads Advances pb_readbyte
unfolding pb_readbyte
pb_readbyte-Advances =
    test (λ s. s.bytes_left == 0) (error-Advances "end-of-stream")
      (bind (finish_read-Advances 1) (λ bytes. pure-Advances (head_or bytes)))

skip_loop-Advances : (fuel count : ℕ) → Leads Advances (skip_loop fuel count)
unfolding skip_loop
skip_loop-Advances zero count = pb_read-Advances count
skip_loop-Advances (suc fuel) count =
    choose (ltb 16 count) (bind (pb_read-Advances 16) (λ _. skip_loop-Advances fuel (count - 16)))
      (pb_read-Advances count)

pub pb_read_null-Advances : (count : ℕ) → Leads Advances (pb_read_null count)
unfolding pb_read_null
pb_read_null-Advances count =
    test (λ s. is_buf_read s.source) (pb_read-Advances count) (skip_loop-Advances count count)

-- A byte is taken, unless the call fails.
abbrev pub Takes : {A : Type 0} → Istream → Outcome Istream A → Type 0
Takes s (ok a t) = t.bytes_left < s.bytes_left
Takes s (fail t) = t.bytes_left ≤ s.bytes_left

finished-Takes :
    (s : Istream) (r : Option (List ℕ) × Source) → 0 < s.bytes_left → Takes s (finish_read 1 s r)
unfolding finish_read
finished-Takes s (none, source) h = omega arith
finished-Takes s (some bytes, source) h = omega (arith, h)

head-Takes :
    (s : Istream) (o : Outcome Istream (List ℕ))
    → Takes s o
    → Takes s (((λ _. o) >>= λ bytes. pure (head_or bytes)) s)
head-Takes s (ok bytes t) h = h
head-Takes s (fail t) h = h

pub pb_readbyte-Takes : (s : Istream) → Takes s (pb_readbyte s)
unfolding pb_readbyte
pb_readbyte-Takes s = elim (Bool-cases (s.bytes_left == 0)) [
  | inl e ↦ rw e (omega arith)
  | inr e ↦ rw e (
      head-Takes s (finish_read 1 s (callback s.source 1))
        (finished-Takes s (callback s.source 1) (ground arith)))
]

-- A read delivers no more bytes than were asked for.
abbrev pub Delivers : ℕ → Outcome Istream (List ℕ) → Type 0
Delivers count (ok bytes t) = length bytes ≤ count
Delivers count (fail t) = Unit {0}

taken :
    (count : ℕ) (s : Istream) (source : Source)
    → IsBuffer source
    → Delivers count (finish_read count s (callback source count))
unfolding finish_read callback buf_read
taken count s (buffer bytes) b = omega (arith, length-take count bytes)
taken count s (custom d) b = absurd b

pub pb_read-Delivers :
    (count : ℕ) (s : Istream) → IsBuffer s.source → Delivers count (pb_read count s)
unfolding pb_read
pb_read-Delivers count s b = elim (Bool-cases (ltb s.bytes_left count)) [
  | inl e ↦ rw e tt
  | inr e ↦ rw e (taken count s s.source b)
]
