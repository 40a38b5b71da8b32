-- ===== src/Prelude/Status.antt =====
-- C functions that return `bool` and change an object through a pointer. `ok a s` is a return of
-- true, with the values stored through the other pointers in `a`; `fail s` is a return of false.
-- Both keep the state in which the function left the object.
use mathlib.Core.Path.{◌≡◌, refl}
use mathlib.Core.Logic.{◌⊎◌, inl, inr}

pub data Outcome (S A : Type 0) : Type 0 where
  ok : A → S → Outcome S A
  fail : S → Outcome S A

abbrev pub Action : Type 0 → Type 0 → Type 0
Action S A = S → Outcome S A

abbrev pub pure : {S A : Type 0} → A → Action S A
pure a s = ok a s

-- `if (!m(...)) return false;` and then the rest.
infixl 5 ◌>>=◌ ◌>>◌
abbrev pub ◌>>=◌ : {S A B : Type 0} → Action S A → (A → Action S B) → Action S B
◌>>=◌ m f s = elim (m s) [ ok a t ↦ f a t | fail t ↦ fail t ]

abbrev pub ◌>>◌ : {S A B : Type 0} → Action S A → Action S B → Action S B
◌>>◌ m k s = elim (m s) [ ok a t ↦ k t | fail t ↦ fail t ]

-- The state in which a call leaves its object.
abbrev pub final : {S A : Type 0} → Outcome S A → S
final (ok a s) = s
final (fail s) = s

pub Outcome-cases :
    {S A : Type 0} (r : Outcome S A) → ((a : A) × (s : S) × (r ≡ ok a s)) ⊎ ((s : S) × (r ≡ fail s))
Outcome-cases (ok a s) = inl (a, s, refl)
Outcome-cases (fail s) = inr (s, refl)
