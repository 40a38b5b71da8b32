-- ===== src/Base64/Encode.antt =====
-- The letters that `f_b64_ntop` writes, and when it fits.
use pincushion.Prelude.{ℕ, ◌+◌, ◌*◌, ◌/◌, ◌≤◌, ◌<◌, ◌≡◌, refl, ap, ◌∙◌, arith}
use pincushion.Prelude.{List, [], ◌∷◌, ◌++◌, length, length-append, Outcome, ok, fail, ◌>>◌}
use pincushion.Base64.{f_b64_ntop, ntop_loop, letter, pad64, output0, output1}
use pincushion.Base64.{output2, output3, put_four, terminate}
use mathlib.Core.List.{append-nil, append_assoc}
use native.Mathlib.Decide.{dec_lt}

abbrev pub quad : ℕ → ℕ → ℕ → List ℕ
quad a b c =
    letter (output0 a) ∷ letter (output1 a b) ∷ letter (output2 b c) ∷ letter (output3 c) ∷ []

-- What the rounds of the loop write for a list of bytes.
unfoldable pub letters : List ℕ → List ℕ
letters [] = []
letters (a ∷ []) = letter (output0 a) ∷ letter (output1 a 0) ∷ pad64 ∷ pad64 ∷ []
letters (a ∷ b ∷ []) = letter (output0 a) ∷ letter (output1 a b) ∷ letter (output2 b 0) ∷ pad64 ∷ []
letters (a ∷ b ∷ c ∷ src) = quad a b c ++ letters src

pub length-letters : (src : List ℕ) → length (letters src) ≡ (length src + 2) / 3 * 4
unfolding letters
length-letters [] = refl
length-letters (a ∷ []) = refl
length-letters (a ∷ b ∷ []) = refl
length-letters (a ∷ b ∷ c ∷ src) = omega (arith, length-letters src)

put_four-ok :
    (targsize : ℕ) (four out : List ℕ)
    → length out + 4 ≤ targsize
    → put_four targsize four out ≡ ok tt (out ++ four)
unfolding put_four
put_four-ok targsize four out h = ground arith

put_four-fail :
    (targsize : ℕ) (four out : List ℕ)
    → targsize < length out + 4
    → put_four targsize four out ≡ fail out
unfolding put_four
put_four-fail targsize four out h = ground arith

terminate-ok :
    (targsize : ℕ) (out : List ℕ) → length out < targsize → terminate targsize out ≡ ok tt out
unfolding terminate
terminate-ok targsize out h = ground arith

last_four-ok :
    (targsize : ℕ) (four out : List ℕ)
    → length four ≡ 4
    → length out + 4 < targsize
    → (put_four targsize four >> terminate targsize) out ≡ ok tt (out ++ four)
last_four-ok targsize four out e h =
    rw (put_four-ok targsize four out (omega arith), ◌>>◌)
      (terminate-ok targsize (out ++ four) (omega (arith, length-append out four)))

-- A round of the loop whose four characters fit.
round :
    (targsize a b c : ℕ) (src out : List ℕ)
    → length out + 4 ≤ targsize
    → ntop_loop targsize (a ∷ b ∷ c ∷ src) out ≡ ntop_loop targsize src (out ++ quad a b c)
unfolding ntop_loop
round targsize a b c src out h = rw (put_four-ok targsize (quad a b c) out h, ◌>>◌)

ntop_loop-letters :
    (targsize : ℕ) (src out : List ℕ)
    → length out + length (letters src) < targsize
    → ntop_loop targsize src out ≡ ok tt (out ++ letters src)
unfolding letters
ntop_loop-letters targsize [] out h =
    rw append-nil (unfold ntop_loop in terminate-ok targsize out (omega arith))
ntop_loop-letters targsize (a ∷ []) out h =
    unfold ntop_loop in last_four-ok targsize (letters (a ∷ [])) out refl h
ntop_loop-letters targsize (a ∷ b ∷ []) out h =
    unfold ntop_loop in last_four-ok targsize (letters (a ∷ b ∷ [])) out refl h
ntop_loop-letters targsize (a ∷ b ∷ c ∷ src) out h =
    let four = quad a b c in
    let rest =
      ntop_loop-letters targsize src (out ++ four) (omega (arith, length-append out four)) in
    round targsize a b c src out (omega arith)
    ∙ rest
    ∙ ap (ok tt) (append_assoc out four (letters src))

-- Where the letters and their zero do not fit, the loop stops at a text that fits the target.
abbrev pub Stops : ℕ → Outcome (List ℕ) (Unit {0}) → Type 0
Stops targsize r = (out : List ℕ) × (r ≡ fail out) × (length out ≤ targsize)

terminate-Stops :
    (targsize : ℕ) (out : List ℕ) → targsize ≤ length out → terminate targsize out ≡ fail out
unfolding terminate
terminate-Stops targsize out h = ground arith

last_four-Stops :
    (targsize : ℕ) (four out : List ℕ)
    → length four ≡ 4
    → length out ≤ targsize
    → targsize ≤ length out + 4
    → Stops targsize ((put_four targsize four >> terminate targsize) out)
last_four-Stops targsize four out e h le = elim (dec_lt targsize (length out + 4)) [
  | yes lt ↦ (out, rw (put_four-fail targsize four out lt, ◌>>◌), h)
  | no ge ↦ (
    out ++ four,
    rw (put_four-ok targsize four out (omega arith), ◌>>◌)
        (terminate-Stops targsize (out ++ four) (omega (arith, length-append out four))),
    omega (arith, length-append out four),
  )
]

ntop_loop-Stops :
    (targsize : ℕ) (src out : List ℕ)
    → length out ≤ targsize
    → targsize ≤ length out + length (letters src)
    → Stops targsize (ntop_loop targsize src out)
unfolding letters
ntop_loop-Stops targsize [] out h le =
    (out, unfold ntop_loop in terminate-Stops targsize out (omega arith), h)
ntop_loop-Stops targsize (a ∷ []) out h le =
    unfold ntop_loop in last_four-Stops targsize _ out refl h le
ntop_loop-Stops targsize (a ∷ b ∷ []) out h le =
    unfold ntop_loop in last_four-Stops targsize _ out refl h le
ntop_loop-Stops targsize (a ∷ b ∷ c ∷ src) out h le =
    let four = quad a b c in
    elim (dec_lt targsize (length out + 4)) [
      | yes lt ↦ (out, unfold ntop_loop in rw (put_four-fail targsize four out lt, ◌>>◌), h)
      | no ge ↦ rw (round targsize a b c src out (omega arith)) (
          ntop_loop-Stops targsize src (out ++ four) (omega (arith, length-append out four))
            (omega (arith, length-append out four)))
    ]

-- `f_b64_ntop` writes these letters when they and a terminating zero fit the target;
-- otherwise it returns -1, and has not written past the target either.
pub f_b64_ntop-letters :
    (src : List ℕ) (targsize : ℕ)
    → (length (letters src) < targsize → f_b64_ntop src targsize ≡ ok tt (letters src))
      × (targsize ≤ length (letters src)
          → (out : List ℕ) × (f_b64_ntop src targsize ≡ fail out) × (length out ≤ targsize))
unfolding f_b64_ntop
f_b64_ntop-letters src targsize = (
  λ h. ntop_loop-letters targsize src [] (omega arith),
  λ h. ntop_loop-Stops targsize src [] (omega arith) (omega arith),
)
