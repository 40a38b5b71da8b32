-- ===== src/Prelude/Steps.antt =====
-- Relations between the state before a C function and the state after it, on both of its returns.
use pincushion.Prelude.Status.{Outcome, ok, fail, Action, ◌>>=◌, final}
use pincushion.Prelude.Tests.{if◌then◌else◌}
use mathlib.Core.Bool.{Bool, true, false}

-- Whatever `m` returns, the state before it and the state after it are related.
pub record Leads {S A : Type 0} (R : S → S → Type 0) (m : Action S A) : Type 0 where
  pub at : (s : S) → R s (final (m s))

module _ {S A : Type 0} (R : S → S → Type 0) where
  pub Leads-if :
      {m n : Action S A} (b : Bool) → Leads R m → Leads R n → Leads R (if b then m else n)
  Leads-if true hm hn = hm
  Leads-if false hm hn = hn

  either :
      (s : S) (x y : Outcome S A) (b : Bool)
      → R s (final x)
      → R s (final y)
      → R s (final (if b then x else y))
  either s x y true hx hy = hx
  either s x y false hx hy = hy

  -- The same where the test depends on the state.
  pub Leads-test :
      {m n : Action S A} (b : S → Bool)
      → Leads R m
      → Leads R n
      → Leads R (λ s. if b s then m s else n s)
  Leads-test {m} {n} b hm hn = record { at = λ s. either s (m s) (n s) (b s) (hm.at s) (hn.at s) }

module _ {S A B : Type 0} (R : S → S → Type 0) (trans : (s t u : S) → R s t → R t u → R s u) where
  pub continued :
      (f : A → Action S B) (s : S) (o : Outcome S A)
      → R s (final o)
      → ((a : A) → Leads R (f a))
      → R s (final (elim o [ ok a t ↦ f a t | fail t ↦ fail t ]))
  continued f s (ok a t) h hf = trans s t (final (f a t)) h ((hf a).at t)
  continued f s (fail t) h hf = h

  pub Leads-bind :
      (m : Action S A) (f : A → Action S B)
      → Leads R m
      → ((a : A) → Leads R (f a))
      → Leads R (m >>= f)
  Leads-bind m f hm hf = record { at = λ s. continued f s (m s) (hm.at s) hf }
