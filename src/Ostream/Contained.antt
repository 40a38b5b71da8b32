-- ===== src/Ostream/Contained.antt =====
-- Actions that fill a buffer no further than its stream may: `pb_write` of nanopb/pb_encode.c, and what is built from it.
use pincushion.Prelude.{ℕ, ◌+◌, ◌^◌, ◌≤◌, ◌<◌, ◌≡◌, refl, ap, sym, ◌∙◌, arith, List, [], ◌++◌}
use pincushion.Prelude.{length}
use pincushion.Prelude.{length-append, fail, final, pure, ◌>>◌, Bool, true, false}
use pincushion.Prelude.{if◌then◌else◌}
use pincushion.Prelude.{Outcome-cases, inl, inr, String, Option, Bool-cases, ltb, u64}
use pincushion.Ostream.{Ostream, Write, buffer, pb_write, return_error, first_message}
use pincushion.Ostream.Write.{take-all}
use mathlib.Core.List.{append-nil, append_assoc}
use mathlib.Core.Path.{subst}
use native.Mathlib.Nat.{add-zero}

-- A stream into a buffer that holds `stored`, of which `n` bytes count for the stream.
abbrev pub filling : List ℕ → ℕ → ℕ → Option String → Ostream
filling stored max n msg = record {
  sink = buffer stored;
  max_size = max;
  bytes_written = n;
  errmsg = msg;
}

-- A later state of the stream: it kept what the buffer held, and counted each byte behind that, up to its
-- limit at most.
abbrev pub Within : List ℕ → ℕ → ℕ → Ostream → Type 0
Within stored max n t =
    (more : List ℕ) × (msg : Option String) × (t
      ≡ filling (stored ++ more) max (n + length more) msg)
    × (n + length more ≤ max)

pub record Contained (w : Write) : Type 0 where
  pub at :
      (stored : List ℕ) (max n : ℕ) (msg : Option String)
      → n ≤ max
      → max < 2 ^ 63
      → Within stored max n (final (w (filling stored max n msg)))

-- Nothing more.
pub Within-none :
    (stored : List ℕ) (max n : ℕ) (msg : Option String)
    → n ≤ max
    → Within stored max n (filling stored max n msg)
Within-none stored max n msg le = ([], msg, rw (append-nil, add-zero) refl, omega arith)

pub Within-then :
    (stored front : List ℕ) (max n : ℕ) (t : Ostream)
    → Within (stored ++ front) max (n + length front) t
    → Within stored max n t
Within-then stored front max n t (more, msg, e, le) =
    let len = length-append front more in
    let sum : n + length front + length more ≡ n + length (front ++ more) = omega (arith, len) in
    (
      front ++ more,
      msg,
      e
          ∙ ap (λ bytes. filling bytes max (n + length front + length more) msg)
              (append_assoc stored front more)
          ∙ ap (λ k. filling (stored ++ (front ++ more)) max k msg) sum,
      omega (arith, len),
    )

pub pure-Contained : Contained (pure tt)
pure-Contained = record { at = λ stored max n msg le small. Within-none stored max n msg le }

pub fail-Contained : Contained fail
fail-Contained = record { at = λ stored max n msg le small. Within-none stored max n msg le }

pub error-Contained : (text : String) → Contained (return_error text)
error-Contained text = record {
  at = λ stored max n msg le small. Within-none stored max n (first_message msg text) le;
}

pub if-Contained :
    (b : Bool) (v w : Write) → Contained v → Contained w → Contained (if b then v else w)
if-Contained true v w hv hw = hv
if-Contained false v w hv hw = hw

pub seq-Contained : (v w : Write) → Contained v → Contained w → Contained (v >> w)
seq-Contained v w hv hw = record {
  at = λ stored max n msg le small. elim (Outcome-cases (v (filling stored max n msg))) [
    | inl (a, t, e) ↦
        let (front, msg', here, le') = rw e at (hv.at stored max n msg le small) in
        let rest = hw.at (stored ++ front) max (n + length front) msg' le' small in
        rw (e, ◌>>◌)
          (Within-then stored front max n (final (w t)) (
            subst (λ u. Within (stored ++ front) max (n + length front) (final (w u))) (sym here)
              rest))
    | inr (t, e) ↦ rw (e, ◌>>◌) (rw e at (hv.at stored max n msg le small))
  ];
}

pub pb_write-Contained :
    (bytes : List ℕ) (n : ℕ) → length bytes ≡ n → n < 2 ^ 63 → Contained (pb_write bytes n)
pb_write-Contained bytes k len short = record {
  at = λ stored max n msg le small. elim (Bool-cases (ltb max (u64 (n + k)))) [
    | inl full ↦
        unfold pb_write in rw full (Within-none stored max n (first_message msg "stream full") le)
    | inr room ↦
        let sum : u64 (n + k) ≡ n + length bytes = omega (arith, len) in
        let below : n + length bytes ≤ max = ground arith in
        let whole = take-all bytes in
        unfold pb_write in rw (room, sum, sym len, whole) (bytes, msg, refl, below)
  ];
}
