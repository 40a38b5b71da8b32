-- ===== src/Decode/SubSteps.antt =====
-- What runs on a substream keeps what every decoder keeps, with the close of the substream behind it.
use pincushion.Prelude.{ℕ, refl}
use pincushion.Prelude.{ok, fail, final, Leads, Outcome}
use pincushion.Istream.{Istream}
use pincushion.Istream.Advance.{Advances, Advances-trans}
use pincushion.Wire.{pb_make_string_substream, pb_close_string_substream}
use pincushion.Wire.Advance.{pb_make_string_substream-Advances, pb_make_string_substream-Inside}
use pincushion.Wire.Advance.{pb_close_string_substream-Advances, Inside}
use pincushion.Decode.{State, Decode}
use pincushion.Decode.Env.{inside, with_substream, in_substream, close_and_return}
use pincushion.Decode.Steps.{Step}

module _ (K : ℕ → Type 0) where
  -- `after` leads on from the state before the substream was made.
  abbrev pub Closes : {A : Type 0} → (Istream → Outcome State A → Outcome State (Unit {0})) → Type 0
  Closes after =
      (s : State) (parent sub : Istream) (o : _)
      → Advances s.stream parent
      → Advances s.stream sub
      → Step K (inside sub s) (final o)
      → Step K s (final (after parent o))

  -- The stream of the second state takes the place of that of the first.
  pub replaced :
      (s t : State) (sub stream : Istream)
      → Advances s.stream sub
      → Step K (inside sub s) t
      → Advances s.stream stream
      → Step K s (inside stream t)
  replaced s t sub stream a h k = record { advances = k; kept = λ b q i. h.kept (a.buffered b) q i }

  pub close_and_return-Closes : Closes close_and_return
  unfolding close_and_return
  close_and_return-Closes s parent sub o hp hs h =
      let u = final o in
      closing s u sub o (pb_close_string_substream u.stream parent) hs h (
        pb_close_string_substream-Advances s.stream u.stream parent hp
          (Advances-trans hs h.advances))
    where
      closing :
          (s u : State) (sub : Istream) (status : Outcome State (Unit {0}))
          (o : Outcome Istream (Unit {0}))
          → Advances s.stream sub
          → Step K (inside sub s) u
          → Advances s.stream (final o)
          → Step K s (
              final {A = Unit {0}} (elim o [
                | fail t ↦ fail (inside t u)
                | ok _ t ↦ elim status [ ok _ _ ↦ ok tt (inside t u) | fail _ ↦ fail (inside t u) ]
              ]))
      closing s u sub status (fail t) hs h k = replaced s u sub t hs h k
      closing s u sub (ok _ _) (ok _ t) hs h k = replaced s u sub t hs h k
      closing s u sub (fail _) (ok _ t) hs h k = replaced s u sub t hs h k

  pub with_substream-Step :
      {A : Type 0} (body : Decode A) (after : Istream → Outcome State A → Outcome State (Unit {0}))
      → Leads (Step K) body
      → Closes after
      → Leads (Step K) (with_substream body after)
  unfolding with_substream
  with_substream-Step {A} body after hb ha = record {
    at = λ s.
        opened s (pb_make_string_substream s.stream) (pb_make_string_substream-Advances.at s.stream)
          (pb_make_string_substream-Inside s.stream);
  }
    where
      opened :
          (s : State) (o : Outcome Istream Istream)
          → Advances s.stream (final o)
          → Inside s.stream o
          → Step K s (
              final {A = Unit {0}} (elim o [
                | fail t ↦ fail (inside t s)
                | ok sub parent ↦ after parent (body (inside sub s))
              ]))
      opened s (fail t) h k = record { advances = h; kept = λ b q i. refl }
      opened s (ok sub parent) h k =
          ha s parent sub (body (inside sub s)) h k (hb.at (inside sub s))

  pub in_substream-Step :
      (body : Decode (Unit {0})) → Leads (Step K) body → Leads (Step K) (in_substream body)
  unfolding in_substream
  in_substream-Step body h = with_substream-Step body close_and_return h close_and_return-Closes
