-- ===== src/Base64/Alphabet.antt =====
-- The sixty-four letters: each is found at its own place, and none is a space, the pad character or
-- a zero.
use pincushion.Prelude.{ℕ, ◌<◌, ◌≡◌, refl, Bool, true, false, ◌&&◌, not, Option, none, some}
use pincushion.Prelude.{◌==◌}
use pincushion.Prelude.{every_below, every_below_sound, arith}
use pincushion.Base64.{letter, strchr, isspace, pad64}

finds : ℕ → Option ℕ → Bool
finds i none = false
finds i (some p) = p == i

is_letter : ℕ → Bool
unfolding finds
is_letter i =
    finds i (strchr (letter i))
    && not (isspace (letter i))
    && not (letter i == 0)
    && not (letter i == pad64)

table : every_below 64 is_letter ≡ true
unfolding every_below is_letter strchr letter isspace
table = refl

module _ (i : ℕ) (h : i < 64) where
  entry : is_letter i ≡ true
  entry = every_below_sound 64 is_letter table i h

  pub strchr-letter : strchr (letter i) ≡ some i
  unfolding is_letter
  strchr-letter = ground (arith, entry)

  pub letter_plain :
      (isspace (letter i) ≡ false) × ((letter i == 0) ≡ false) × ((letter i == pad64) ≡ false)
  unfolding is_letter
  letter_plain = ground (arith, entry)
