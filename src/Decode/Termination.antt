-- ===== src/Decode/Termination.antt =====
-- The loop of `pb_decode_noinit` in nanopb/pb_decode.c ends on every input.
use pincushion.Prelude.{ℕ, zero, suc, ◌≤◌, ◌<◌, ◌≡◌, ◌≢◌, refl, arith, Bool, true, false, List}
use pincushion.Prelude.{◌==◌, ==_iff, if◌then◌else◌}
use pincushion.Prelude.{ok, fail, final, Leads, continued, Outcome, ◌>>◌, inl, inr, Bool-cases}
use pincushion.Istream.{Istream}
use pincushion.Istream.Advance.{Takes}
use pincushion.Wire.{pb_decode_tag, Tag}
use pincushion.Wire.Advance.{pb_decode_tag-Takes, pb_decode_tag-Advances}
use pincushion.Field.{Field}
use pincushion.Decode.{State, Decode}
use pincushion.Decode.Env.{Env, inside, put}
use pincushion.Decode.Default.{pb_message_set_to_defaults}
use pincushion.Decode.Release.{pb_release}
use pincushion.Decode.ReleaseStream.{pb_release-stream}
use pincushion.Decode.Static.{Submessages}
use pincushion.Decode.Message.{Progress, decode_tagged, fields_loop, fixed_count_full}
use pincushion.Decode.Entry.{all_seen, required_count, check_required, check_fixed_count}
use pincushion.Decode.Entry.{first_progress, decode_message, init_and_decode, pb_decode_noinit}
use pincushion.Decode.Steps.{Step-refl, Step-trans, bind, pure-Step, fail-Step, error-Step}
use pincushion.Decode.StaticSteps.{Nested}
use pincushion.Decode.PointerSteps.{Nowhere, Shrinks, same_stream}
use pincushion.Decode.CallbackSteps.{Callbacks}
use pincushion.Decode.MessageSteps.{Extensions, decode_tagged-Shrinks, split_on}

-- The runs of the while loop, without a bound on their rounds: from a state to what the loop leaves. It ends where
-- no byte is left, at a zero tag or at the end of the stream, at a tag that cannot be read, and at a
-- field that cannot be decoded.
pub data Runs (env : Env) (depth : ℕ) (subs : Submessages)
    : Progress → State → Outcome State Progress → Type 0 where
  ends : (p : Progress) (s : State) → s.stream.bytes_left ≡ 0 → Runs env depth subs p s (ok p s)
  stops :
      (p : Progress) (s : State) (t : Istream)
      → s.stream.bytes_left ≢ 0
      → (pb_decode_tag s.stream).0 ≡ fail t
      → (pb_decode_tag s.stream).1 ≡ true
      → Runs env depth subs p s (ok p (inside t s))
  no_tag :
      (p : Progress) (s : State) (t : Istream)
      → s.stream.bytes_left ≢ 0
      → (pb_decode_tag s.stream).0 ≡ fail t
      → (pb_decode_tag s.stream).1 ≡ false
      → Runs env depth subs p s (fail (inside t s))
  refuses :
      (p : Progress) (s s' : State) (tag : Tag) (t : Istream)
      → s.stream.bytes_left ≢ 0
      → (pb_decode_tag s.stream).0 ≡ ok tag t
      → decode_tagged env depth subs tag p (inside t s) ≡ fail s'
      → Runs env depth subs p s (fail s')
  goes_on :
      (p p' : Progress) (s s' : State) (tag : Tag) (t : Istream) (o : Outcome State Progress)
      → s.stream.bytes_left ≢ 0
      → (pb_decode_tag s.stream).0 ≡ ok tag t
      → decode_tagged env depth subs tag p (inside t s) ≡ ok p' s'
      → Runs env depth subs p' s' o
      → Runs env depth subs p s o

module _ (env : Env) (depth : ℕ) (subs : Submessages) (callbacks : Callbacks env)
    (extensions : Extensions env) (nested : Nested Nowhere subs) where
  -- A round behind the tag, with the rounds that follow it.
  tagged :
      (fuel : ℕ) (tag : Tag) (t : Istream) (p : Progress) (s : State) (o : Outcome State Progress)
      → s.stream.bytes_left ≢ 0
      → (pb_decode_tag s.stream).0 ≡ ok tag t
      → decode_tagged env depth subs tag p (inside t s) ≡ o
      → (final o).stream.bytes_left < fuel
      → ((p' : Progress) (s' : State)
          → s'.stream.bytes_left < fuel
          → Runs env depth subs p' s' (fields_loop env depth subs fuel p' s'))
      → Runs env depth subs p s
          (elim o [ fail s' ↦ fail s' | ok p' s' ↦ fields_loop env depth subs fuel p' s' ])
  tagged fuel tag t p s (fail s') ne e d h rest = refuses p s s' tag t ne e d
  tagged fuel tag t p s (ok p' s') ne e d h rest = goes_on p p' s s' tag t _ ne e d (rest p' s' h)

  untagged :
      (p : Progress) (s : State) (t : Istream) (eof : Bool)
      → s.stream.bytes_left ≢ 0
      → (pb_decode_tag s.stream).0 ≡ fail t
      → (pb_decode_tag s.stream).1 ≡ eof
      → Runs env depth subs p s (if eof then ok p (inside t s) else fail (inside t s))
  untagged p s t true ne e d = stops p s t ne e d
  untagged p s t false ne e d = no_tag p s t ne e d

  round :
      (fuel : ℕ) (p : Progress) (s : State) (o : Outcome Istream Tag)
      → s.stream.bytes_left ≢ 0
      → s.stream.bytes_left ≤ fuel
      → (pb_decode_tag s.stream).0 ≡ o
      → Takes s.stream o
      → ((p' : Progress) (s' : State)
          → s'.stream.bytes_left < fuel
          → Runs env depth subs p' s' (fields_loop env depth subs fuel p' s'))
      → Runs env depth subs p s (elim o [
        | fail t ↦ if (pb_decode_tag s.stream).1 then ok p (inside t s) else fail (inside t s)
        | ok tag t ↦ elim (decode_tagged env depth subs tag p (inside t s)) [
          | fail s' ↦ fail s'
          | ok p' s' ↦ fields_loop env depth subs fuel p' s'
        ]
      ])
  round fuel p s (fail t) ne le e h rest = untagged p s t (pb_decode_tag s.stream).1 ne e refl
  round fuel p s (ok tag t) ne le e h rest =
      let step =
        (decode_tagged-Shrinks env depth subs callbacks extensions nested tag p).at (inside t s) in
      tagged fuel tag t p s (decode_tagged env depth subs tag p (inside t s)) ne e refl
        (omega (arith, h, step.advances.fewer)) rest

  -- One more than `bytes_left` rounds are enough for the while loop of `pb_decode_noinit`, on every input and for
  -- every message: what `fields_loop` returns is what a run of the loop leaves. The functions of the user
  -- and the calls for submessages leave no more bytes than they find, and leave a stream over a buffer
  -- one over a buffer.
  pub fields_loop-Runs :
      (fuel : ℕ) (p : Progress) (s : State)
      → s.stream.bytes_left < fuel
      → Runs env depth subs p s (fields_loop env depth subs fuel p s)
  unfolding fields_loop
  fields_loop-Runs zero p s h = absurd (omega arith)
  fields_loop-Runs (suc fuel) p s h = elim (Bool-cases (s.stream.bytes_left == 0)) [
    | inl e ↦ rw e (ends p s ((==_iff _ _).0 e))
    | inr e ↦ rw e (
        round fuel p s (pb_decode_tag s.stream).0 (λ z. ground arith) (omega arith) refl
          (pb_decode_tag-Takes s.stream) (fields_loop-Runs fuel))
  ]

  -- The stream behind a tag.
  behind_tag :
      (s : State) (o : Outcome Istream Tag)
      → (pb_decode_tag s.stream).0 ≡ o
      → Shrinks s (inside (final o) s)
  behind_tag s o e =
      let h = pb_decode_tag-Advances s.stream in
      record { advances = rw e at h; kept = λ b q k. absurd k }

  field_Shrinks :
      (tag : Tag) (t : Istream) (p : Progress) (s : State) (o : Outcome State Progress)
      → (pb_decode_tag s.stream).0 ≡ ok tag t
      → decode_tagged env depth subs tag p (inside t s) ≡ o
      → Shrinks s (final o)
  field_Shrinks tag t p s o e d =
      let step =
        (decode_tagged-Shrinks env depth subs callbacks extensions nested tag p).at (inside t s) in
      Step-trans Nowhere s (inside t s) (final o) (behind_tag s (ok tag t) e) (rw d at step)

  run-Shrinks :
      {p : Progress} {s : State} {o : Outcome State Progress}
      → Runs env depth subs p s o
      → Shrinks s (final o)
  run-Shrinks (ends p s e) = Step-refl Nowhere s
  run-Shrinks (stops p s t ne e d) = behind_tag s (fail t) e
  run-Shrinks (no_tag p s t ne e d) = behind_tag s (fail t) e
  run-Shrinks (refuses p s s' tag t ne e d) = field_Shrinks tag t p s (fail s') e d
  run-Shrinks (goes_on p p' s s' tag t o ne e d r) =
      Step-trans Nowhere s s' (final o) (field_Shrinks tag t p s (ok p' s') e d) (run-Shrinks r)

  check_required-Shrinks : (p : Progress) → Leads Shrinks (check_required p)
  unfolding check_required
  check_required-Shrinks p =
      split_on (all_seen p.fields_seen (required_count p.iter)) (pure-Step Nowhere tt)
        (error-Step Nowhere "missing required field")

  check_fixed_count-Shrinks : (p : Progress) → Leads Shrinks (check_fixed_count env depth p)
  unfolding check_fixed_count
  check_fixed_count-Shrinks p = record {
    at = λ s.
        (split_on (fixed_count_full env depth p s.memory) (pure-Step Nowhere tt)
            (error-Step Nowhere {A = Unit {0}} "wrong size for fixed count field")).at
          s;
  }

  decode_message-Shrinks :
      (fields : List Field) (dest_struct : ℕ)
      → Leads Shrinks (decode_message env depth subs fields dest_struct)
  unfolding decode_message
  decode_message-Shrinks fields dest_struct = record {
    at = λ s.
        let s' = put (env.fixed_count_size depth) 4 0 s in
        let p = first_progress fields dest_struct in
        let fuel = suc s.stream.bytes_left in
        let loop = run-Shrinks (fields_loop-Runs fuel p s' (omega arith)) in
        let after = λ (p : Progress). check_fixed_count env depth p >> check_required p in
        Step-trans Nowhere s s' _ (same_stream s s' refl) (
          continued Shrinks (Step-trans Nowhere) after s' (fields_loop env depth subs fuel p s')
            loop (λ p. bind Nowhere (check_fixed_count-Shrinks p) (λ _. check_required-Shrinks p)));
  }

module _ (env : Env) (callbacks : Callbacks env) (extensions : Extensions env) where
  init_and_decode-Shrinks :
      (depth : ℕ) (fields : List Field) (dest_struct : ℕ) (noinit : Decode (Unit {0}))
      → Leads Shrinks noinit
      → Leads Shrinks (init_and_decode env depth fields dest_struct noinit)
  unfolding init_and_decode
  init_and_decode-Shrinks depth fields dest_struct noinit h = record {
    at = λ s.
        let s' : State = record s {
          memory = pb_message_set_to_defaults env depth fields dest_struct s.memory;
        } in
        Step-trans Nowhere s s' _ (same_stream s s' refl) (ended s' (noinit s') (h.at s'));
  }
    where
      ended :
          (s : State) (o : Outcome State (Unit {0}))
          → Shrinks s (final o)
          → Shrinks s (
              final {A = Unit {0}} (elim o [
                | ok _ t ↦ ok tt t
                | fail t ↦ fail (pb_release env depth fields dest_struct t)
              ]))
      ended s (ok _ t) h = h
      ended s (fail t) h =
          let u = pb_release env depth fields dest_struct t in
          Step-trans Nowhere s t u h
            (same_stream t u (pb_release-stream env depth fields dest_struct t))

  pb_decode_noinit-Shrinks :
      (depth : ℕ) (fields : List Field) (dest_struct : ℕ)
      → Leads Shrinks (pb_decode_noinit env depth fields dest_struct)
  unfolding pb_decode_noinit
  pb_decode_noinit-Shrinks zero fields dest_struct = fail-Step Nowhere
  pb_decode_noinit-Shrinks (suc depth) fields dest_struct =
      let inner =
        λ (message dest : ℕ). pb_decode_noinit-Shrinks depth (env.messages message) dest in
      decode_message-Shrinks env (suc depth) _ callbacks extensions
        (record {
          decode = λ message dest.
              init_and_decode-Shrinks depth (env.messages message) dest
                (pb_decode_noinit env depth (env.messages message) dest) (inner message dest);
          decode_noinit = inner;
        })
        fields dest_struct

  -- The calls for submessages that `pb_decode_noinit` makes keep to the rule that the theorems above ask of such calls.
  submessages-Nested :
      (depth : ℕ)
      → Nested Nowhere (record {
        decode = λ message dest.
            init_and_decode env depth
              (env.messages message)
              dest
              (pb_decode_noinit env depth (env.messages message) dest);
        decode_noinit = λ message dest. pb_decode_noinit env depth (env.messages message) dest;
      })
  submessages-Nested depth = record {
    decode = λ message dest.
        init_and_decode-Shrinks depth (env.messages message) dest
          (pb_decode_noinit env depth (env.messages message) dest)
          (pb_decode_noinit-Shrinks depth (env.messages message) dest);
    decode_noinit = λ message dest. pb_decode_noinit-Shrinks depth (env.messages message) dest;
  }
