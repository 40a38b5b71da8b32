-- ===== src/Decode/RequiredBits.antt =====
-- The bits of `fields_seen` behind the loop of `pb_decode_noinit` of nanopb/pb_decode.c.
use pincushion.Prelude.{ℕ, ◌+◌, ◌-◌, ◌/◌, ◌%◌, ◌<◌, ◌≡◌, ◌∙◌, arith, List, [], ◌∷◌, get_or}
use pincushion.Prelude.{ok, fail, Outcome, bit}
use pincushion.Decode.{State}
use pincushion.Decode.Env.{Env}
use pincushion.Decode.Static.{Submessages}
use pincushion.Decode.Message.{Progress}
use pincushion.Decode.Termination.{Runs}
use pincushion.Decode.Bitmap.{member, one, Bitmap, bitmap}
use pincushion.Decode.SeenFields.{Result, marked}
use pincushion.Decode.RequiredRuns.{required_of, required_of-All, run-marked, marks-marked}
use native.Mathlib.Decide.{dec_lt}
use native.Mathlib.Nat.{zero-add}

-- Each of the 64 bits of the words tells whether its index is in the list.
abbrev pub BitsOf : List ℕ → List ℕ → Type 0
BitsOf js seen = (k : ℕ) → k < 64 → bit (get_or seen (k / 32) 0) (k % 32) ≡ one (member k js)

low-BitsOf :
    (js : List ℕ) (b : Bitmap js) (k : ℕ)
    → k < 32
    → bit (get_or (b.low ∷ b.high ∷ []) (k / 32) 0) (k % 32) ≡ one (member k js)
low-BitsOf js b k h =
    let word : k / 32 ≡ 0 = omega arith in
    let place : k % 32 ≡ k = omega arith in rw (word, place) (rw zero-add at (b.first.bits k h))

high-BitsOf :
    (js : List ℕ) (b : Bitmap js) (k : ℕ)
    → k < 32
    → bit (get_or (b.low ∷ b.high ∷ []) ((32 + k) / 32) 0) ((32 + k) % 32)
      ≡ one (member (32 + k) js)
high-BitsOf js b k h =
    let word : (32 + k) / 32 ≡ 1 = omega arith in
    let place : (32 + k) % 32 ≡ k = omega arith in rw (word, place) (b.second.bits k h)

words-BitsOf : (js : List ℕ) (b : Bitmap js) → BitsOf js (b.low ∷ b.high ∷ [])
words-BitsOf js b k h = elim (dec_lt k 32) [
  | yes lt ↦ low-BitsOf js b k lt
  | no ge ↦
      let sum : 32 + (k - 32) ≡ k = omega arith in
      rw sum at (high-BitsOf js b (k - 32) (omega arith))
]

module _ (env : Env) (depth : ℕ) (subs : Submessages) where
  -- Where the loop of `pb_decode_noinit` starts with an empty bitmap and ends without an error, of the 64 bits in the
  -- two words of `fields_seen` those are set whose numbers are the indices of the required fields that the run
  -- decoded, and the others are not.
  pub run-BitsOf :
      {p : Progress} {s : State} {o : Outcome State Progress} (r : Runs env depth subs p s o)
      → p.fields_seen ≡ 0 ∷ 0 ∷ []
      → Result (λ p'. BitsOf (required_of env depth subs r) p'.fields_seen) o
  run-BitsOf {p} {s} {o} r empty = follow o (run-marked env depth subs r)
    where
      follow :
          (o : Outcome State Progress)
          → Result (λ p'. p'.fields_seen ≡ marked p.fields_seen (required_of env depth subs r)) o
          → Result (λ p'. BitsOf (required_of env depth subs r) p'.fields_seen) o
      follow (ok p' _) e =
          let js = required_of env depth subs r in
          let b = bitmap js (required_of-All env depth subs r) in
          let e' = rw empty at e in
          rw (e' ∙ marks-marked env depth subs js ∙ b.words) (words-BitsOf js b)
      follow (fail _) e = tt
