-- ===== src/Decode/RequiredRuns.antt =====
-- `pb_decode_noinit` of nanopb/pb_decode.c succeeds only if it met every required field.
use pincushion.Prelude.{ℕ, suc, ◌≤◌, ◌<◌, ◌≡◌, refl, sym, ap, ◌∙◌, arith, Bool, true}
use pincushion.Prelude.{false, ◌&&◌, List, [], ◌∷◌, ◌++◌, All, All-append}
use pincushion.Prelude.{◌==◌, if◌then◌else◌, ltb, Bool-cases, inl, inr, ok, fail, Outcome}
use pincushion.Prelude.{◌>>=◌, ◌>>◌}
use pincushion.Field.{Field, FieldIter, pos, htype, htype_required}
use pincushion.Field.{pb_field_iter_find}
use pincushion.Decode.{State, return_error}
use pincushion.Decode.Env.{Env, put, inside}
use pincushion.Decode.Static.{Submessages}
use pincushion.Decode.Message.{Progress}
use pincushion.Decode.Message.{fixed_count_full}
use pincushion.Decode.Message.{max_required_fields, mark, fields_loop}
use pincushion.Decode.Entry.{first_progress, required_count, all_seen, check_fixed_count}
use pincushion.Decode.Entry.{check_required, decode_message}
use pincushion.Decode.Termination.{Runs, ends, stops, no_tag, refuses, goes_on}
use pincushion.Decode.Termination.{fields_loop-Runs}
use pincushion.Decode.Required.{all_seen-member}
use pincushion.Decode.Bitmap.{member, marks}
use pincushion.Decode.PointerSteps.{Nowhere}
use pincushion.Decode.CallbackSteps.{Callbacks}
use pincushion.Decode.MessageSteps.{Extensions}
use pincushion.Decode.StaticSteps.{Nested}
use pincushion.Decode.SeenFields.{Result, required_index, index_of, marked}
use pincushion.Decode.SeenFields.{decode_tagged-Gives}

module _ (env : Env) (depth : ℕ) (subs : Submessages) where
  -- The indices of the required fields that a run decodes, the last one first.
  unfoldable pub required_of :
      {p : Progress} {s : State} {o : Outcome State Progress} → Runs env depth subs p s o → List ℕ
  required_of (ends p s e) = []
  required_of (stops p s t ne e d) = []
  required_of (no_tag p s t ne e d) = []
  required_of (refuses p s s' tag t ne e d) = []
  required_of (goes_on p p' s s' tag t o ne e d r) = required_of r ++ required_index p tag

  marked-append : (seen js ks : List ℕ) → marked seen (js ++ ks) ≡ marked (marked seen ks) js
  unfolding marked
  marked-append seen [] ks = refl
  marked-append seen (j ∷ js) ks = ap (λ seen. mark seen j) (marked-append seen js ks)

  -- Where the loop of `pb_decode_noinit` ends without an error, `fields_seen` is what `mark` makes of it with the index of
  -- each required field that the run decoded.
  pub run-marked :
      {p : Progress} {s : State} {o : Outcome State Progress} (r : Runs env depth subs p s o)
      → Result (λ p'. p'.fields_seen ≡ marked p.fields_seen (required_of r)) o
  unfolding required_of marked
  run-marked (ends p s e) = refl
  run-marked (stops p s t ne e d) = refl
  run-marked (no_tag p s t ne e d) = tt
  run-marked (refuses p s s' tag t ne e d) = tt
  run-marked (goes_on p p' s s' tag t o ne e d r) =
      let given = (decode_tagged-Gives env depth subs tag p).at (inside t s) in
      let first : p'.fields_seen ≡ marked p.fields_seen (required_index p tag) = rw d at given in
      follow o (run-marked r) (
        ap (λ seen. marked seen (required_of r)) first
        ∙ sym (marked-append p.fields_seen (required_of r) (required_index p tag)))
    where
      follow :
          (o : Outcome State Progress) {x y : List ℕ}
          → Result (λ p'. p'.fields_seen ≡ x) o
          → x ≡ y
          → Result (λ p'. p'.fields_seen ≡ y) o
      follow (ok p s) h e = h ∙ e
      follow (fail s) h e = tt

  pub marks-marked : (js : List ℕ) → marked (0 ∷ 0 ∷ []) js ≡ marks js
  unfolding marked marks
  marks-marked [] = refl
  marks-marked (j ∷ js) = ap (λ seen. mark seen j) (marks-marked js)

  index_of-All :
      (found : Bool) (iter : FieldIter) → All (λ j. j < 64) (if found then index_of iter else [])
  index_of-All false iter = tt
  index_of-All true iter =
      elim (Bool-cases
        (htype (pos iter) == htype_required && ltb iter.required_field_index max_required_fields)) [
          | inl e ↦ rw e (ground arith, tt)
          | inr e ↦ rw e tt
        ]

  pub required_of-All :
      {p : Progress} {s : State} {o : Outcome State Progress} (r : Runs env depth subs p s o)
      → All (λ j. j < 64) (required_of r)
  unfolding required_of required_index
  required_of-All (ends p s e) = tt
  required_of-All (stops p s t ne e d) = tt
  required_of-All (no_tag p s t ne e d) = tt
  required_of-All (refuses p s s' tag t ne e d) = tt
  required_of-All (goes_on p p' s s' tag t o ne e d r) =
      let (iter, found) = pb_field_iter_find p.iter tag.tag in
      All-append (λ j. j < 64) (required_of r) (if found then index_of iter else [])
        (required_of-All r) (index_of-All found iter)

  required_count-bound : (iter : FieldIter) → required_count iter ≤ 64
  unfolding required_count
  required_count-bound iter = ground arith

  both_checks :
      (b c : Bool) (s t : State)
      → ((λ (s : State).
              if b
              then ok tt s
              else return_error {A = Unit {0}} "wrong size for fixed count field" s)
            >> (λ (s : State).
                if c then ok tt s else return_error {A = Unit {0}} "missing required field" s))
          s
        ≡ ok tt t
      → c ≡ true
  both_checks true true s t e = refl
  both_checks true false s t e = absurd (ground arith)
  both_checks false c s t e = absurd (ground arith)

  -- The checks at the end pass only if the bitmap does.
  checked :
      (p : Progress) (s t : State)
      → (check_fixed_count env depth p >> check_required p) s ≡ ok tt t
      → all_seen p.fields_seen (required_count p.iter) ≡ true
  unfolding check_fixed_count check_required
  checked p s t e =
      both_checks (fixed_count_full env depth p s.memory)
        (all_seen p.fields_seen (required_count p.iter)) s t e

  module _ (fields : List Field) (dest_struct : ℕ) where
    -- A run of the loop of a message that ended in these variables, with every required field in it.
    abbrev pub Complete : State → Type 0
    Complete s =
        let s' = put (env.fixed_count_size depth) 4 0 s in
        (p : Progress) × (u : State) × (r : Runs env depth subs (first_progress fields dest_struct)
          s' (ok p u))
        × ((k : ℕ) → k < required_count p.iter → member k (required_of r) ≡ true)

    complete :
        (s t : State) (o : Outcome State Progress)
        → Runs env depth subs
            (first_progress fields dest_struct)
            (put (env.fixed_count_size depth) 4 0 s)
            o
        → ((λ _. o) >>= λ p. check_fixed_count env depth p >> check_required p) s ≡ ok tt t
        → Complete s
    complete s t (fail u) r e = absurd (ground arith)
    complete s t (ok p u) r e =
        let seen = run-marked r in
        let whole : p.fields_seen ≡ marks (required_of r) = seen ∙ marks-marked (required_of r) in
        let test = checked p u t e in
        (
          p,
          u,
          r,
          all_seen-member (required_of r) (required_count p.iter) (required_count-bound p.iter)
              (required_of-All r) (rw whole at test),
        )

    module _ (callbacks : Callbacks env) (extensions : Extensions env)
        (nested : Nested Nowhere subs) where
      -- `pb_decode_noinit` returns true only if each of the required fields that it counts at its end, the first 64 at most, was
      -- decoded in a run of its loop: the index of each is the index among the required fields of a field
      -- that a tag of the run led to. The functions of the user and the calls for submessages leave no more
      -- bytes than they find, and leave a stream over a buffer one over a buffer.
      pub decode_message-Complete :
          (s t : State) → decode_message env depth subs fields dest_struct s ≡ ok tt t → Complete s
      unfolding decode_message
      decode_message-Complete s t e =
          let s' = put (env.fixed_count_size depth) 4 0 s in
          let p = first_progress fields dest_struct in
          let fuel = suc s.stream.bytes_left in
          complete s t (fields_loop env depth subs fuel p s')
            (fields_loop-Runs env depth subs callbacks extensions nested fuel p s' (omega arith)) e
