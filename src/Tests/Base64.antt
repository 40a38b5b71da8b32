-- ===== src/Tests/Base64.antt =====
-- fbase64.c on short inputs.
use pincushion.Prelude.{ℕ, ◌<◌, ◌≤◌, ◌≡◌, refl, arith, List, [], ◌∷◌, length, some, ok, fail}
use pincushion.Base64.{f_b64_ntop, f_b64_pton, put_four, terminate, letter}
use pincushion.Base64.Text.{text, f_b64_ntop-text}
use pincushion.Base64.RoundTrip.{Decodes, f_b64_pton-f_b64_ntop}

-- "light w" gives "bGlnaHQgdw==".
abbrev light : List ℕ
light = 108 ∷ 105 ∷ 103 ∷ 104 ∷ 116 ∷ 32 ∷ 119 ∷ []

light_text :
    f_b64_ntop light 13
    ≡ ok tt (98 ∷ 71 ∷ 108 ∷ 110 ∷ 97 ∷ 72 ∷ 81 ∷ 103 ∷ 100 ∷ 119 ∷ 61 ∷ 61 ∷ [])
unfolding f_b64_ntop put_four terminate letter
light_text = refl

f_b64_ntop-text_example :
    (length (text light) < 12 → f_b64_ntop light 12 ≡ ok tt (text light))
    × (12 ≤ length (text light)
        → (out : List ℕ) × (f_b64_ntop light 12 ≡ fail out) × (length out ≤ 12))
f_b64_ntop-text_example = f_b64_ntop-text light 12 (omega arith)

f_b64_pton-f_b64_ntop_example :
    (encoded : List ℕ) × (f_b64_ntop (1 ∷ 2 ∷ []) 5 ≡ ok tt encoded)
    × Decodes (f_b64_pton encoded (some (9 ∷ 9 ∷ 9 ∷ [])) 3) (1 ∷ 2 ∷ [])
f_b64_pton-f_b64_ntop_example =
    f_b64_pton-f_b64_ntop (1 ∷ 2 ∷ []) (9 ∷ 9 ∷ 9 ∷ []) 5 (omega arith, (omega arith, tt))
      (omega arith) (omega arith) (omega arith)
