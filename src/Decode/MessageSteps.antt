-- ===== src/Decode/MessageSteps.antt =====
-- A round of the loop of `pb_decode_noinit` in nanopb/pb_decode.c does not make `bytes_left` larger, so the
-- loop ends.
use pincushion.Prelude.{ℕ, zero, suc, ◌-◌, ◌^◌, ◌≡◌, refl, Bool, true, false, Option, some}
use pincushion.Prelude.{none}
use pincushion.Prelude.{ok, fail, pure, final, Leads, ltb, ◌==◌, ◌&&◌, ◌||◌, not, Outcome, ◌>>◌}
use pincushion.Prelude.{if◌then◌else◌, inl, inr, Bool-cases}
use pincushion.Memory.{load, load_pointer}
use pincushion.Wire.{pb_skip_field, Tag}
use pincushion.Wire.Advance.{pb_skip_field-Advances}
use pincushion.Field.{FieldIter, pos, htype, atype, atype_static, atype_pointer, atype_callback}
use pincushion.Field.{htype_oneof, htype_repeated, pb_field_iter_find}
use pincushion.Decode.{State, Decode, from_stream}
use pincushion.Decode.Env.{Env, put, iter_from_extension, type_of, next_extension, found_of}
use pincushion.Decode.Static.{Submessages}
use pincushion.Decode.Release.{pb_release_union_field, pb_release_single_field, find_again}
use pincushion.Decode.ReleaseStream.{pb_release_single_field-stream}
use pincushion.Decode.Message.{decode_by_atype, decode_field, default_extension_decoder}
use pincushion.Decode.Message.{try_extension, decode_extension_loop, decode_extension}
use pincushion.Decode.Message.{find_extension_field, Progress, try_range, unknown_field}
use pincushion.Decode.Message.{fixed_count_full, same_index, note_fixed_count, note_required}
use pincushion.Decode.Message.{known_field, decode_tagged}
use pincushion.Decode.Steps.{Step-refl, Step-trans, bind, choose, pure-Step, fail-Step}
use pincushion.Decode.Steps.{error-Step, from_stream-Step}
use pincushion.Decode.StaticSteps.{Nested}
use pincushion.Decode.PointerSteps.{Nowhere, Shrinks, same_stream}
use pincushion.Decode.CallbackSteps.{Callbacks}
use pincushion.Decode.PointerSteps.{decode_static_field-Shrinks, decode_pointer_field-Shrinks}
use pincushion.Decode.CallbackSteps.{decode_callback_field-Shrinks}

-- A test of the result of a call, with the states that it gives.
pub split_on :
    {A : Type 0} {m n : Decode A} (b : Bool)
    → Leads Shrinks m
    → Leads Shrinks n
    → Leads Shrinks (λ s. if b then m s else n s)
split_on true hm hn = record { at = hm.at }
split_on false hm hn = record { at = hn.at }

-- The decode functions of extension types leave no more bytes than they find.
abbrev pub Extensions : Env → Type 0
Extensions env =
    (p : ℕ) (decode : ℕ → ℕ → ℕ → Decode (Unit {0}))
    → (env.extension_types p).decode ≡ some decode
    → (extension tag wire_type : ℕ) → Leads Shrinks (decode extension tag wire_type)

module _ (env : Env) (depth : ℕ) (subs : Submessages) (callbacks : Callbacks env)
    (extensions : Extensions env) (nested : Nested Nowhere subs) where
  decode_by_atype-Shrinks :
      (wire_type : ℕ) (iter : FieldIter)
      → Leads Shrinks (decode_by_atype env depth subs wire_type iter)
  unfolding decode_by_atype
  decode_by_atype-Shrinks wire_type iter =
      choose Nowhere (atype (pos iter) == atype_static)
        (decode_static_field-Shrinks env depth subs wire_type iter nested)
        (choose Nowhere (atype (pos iter) == atype_pointer)
          (decode_pointer_field-Shrinks env depth iter subs wire_type nested)
          (choose Nowhere (atype (pos iter) == atype_callback)
            (decode_callback_field-Shrinks env wire_type iter callbacks)
            (error-Step Nowhere "invalid field type")))

  find_again-Shrinks : (tag : ℕ) (iter : FieldIter) → Leads Shrinks (find_again tag iter)
  unfolding find_again
  find_again-Shrinks tag iter =
      let (iter', found) = pb_field_iter_find iter tag in
      split_on found (pure-Step Nowhere iter') (error-Step Nowhere "iterator error")

  released :
      (old : FieldIter) (tag : ℕ)
      → Leads Shrinks (λ s. find_again tag old (pb_release_single_field env depth old s))
  released old tag = record {
    at = λ s.
        let t = pb_release_single_field env depth old s in
        Step-trans Nowhere s t _ (same_stream s t (pb_release_single_field-stream env depth old s))
          ((find_again-Shrinks tag old).at t);
  }

  union-Shrinks : (iter : FieldIter) → Leads Shrinks (pb_release_union_field env depth iter)
  unfolding pb_release_union_field
  union-Shrinks iter = record {
    at = λ s.
        let old_tag = load s.memory iter.p_size 4 in
        let new_tag = (pos iter).tag in
        let (old, found) = pb_field_iter_find iter old_tag in
        (split_on (old_tag == 0) (pure-Step Nowhere iter) (
            split_on (old_tag == new_tag) (pure-Step Nowhere iter)
              (split_on found (released old new_tag) (error-Step Nowhere "invalid union tag")))).at
          s;
  }

  decode_field-Shrinks :
      (wire_type : ℕ) (iter : FieldIter)
      → Leads Shrinks (decode_field env depth subs wire_type iter)
  unfolding decode_field
  decode_field-Shrinks wire_type iter =
      bind Nowhere
        (choose Nowhere (htype (pos iter) == htype_oneof) (union-Shrinks iter)
          (pure-Step Nowhere iter))
        (λ iter'.
          bind Nowhere (decode_by_atype-Shrinks wire_type iter') (λ _. pure-Step Nowhere iter'))

  default-Shrinks :
      (extension tag wire_type : ℕ)
      → Leads Shrinks (default_extension_decoder env depth subs extension tag wire_type)
  unfolding default_extension_decoder
  default-Shrinks extension tag wire_type = record {
    at = λ s.
        let s' = put (found_of extension) 1 1 s in
        elim (Bool-cases ((type_of env s.memory extension).arg.tag == tag)) [
          | inl e ↦ rw e (
              Step-trans Nowhere s s' _ (same_stream s s' refl) (
                (bind Nowhere
                    (decode_field-Shrinks wire_type (iter_from_extension env s.memory extension))
                    (λ _. pure-Step Nowhere tt)).at
                  s'))
          | inr e ↦ rw e (Step-refl Nowhere s)
        ];
  }

  by_type :
      (extension tag wire_type : ℕ) (s : State) (o : Option (ℕ → ℕ → ℕ → Decode (Unit {0})))
      → ((decode : ℕ → ℕ → ℕ → Decode (Unit {0}))
          → o ≡ some decode
          → Leads Shrinks (decode extension tag wire_type))
      → Shrinks s (
          final {A = Unit {0}} (elim o [
            | none ↦ default_extension_decoder env depth subs extension tag wire_type s
            | some decode ↦ decode extension tag wire_type s
          ]))
  by_type extension tag wire_type s none h = (default-Shrinks extension tag wire_type).at s
  by_type extension tag wire_type s (some decode) h = (h decode refl).at s

  try_extension-Shrinks :
      (extension tag wire_type : ℕ)
      → Leads Shrinks (try_extension env depth subs extension tag wire_type)
  unfolding try_extension type_of
  try_extension-Shrinks extension tag wire_type = record {
    at = λ s.
        by_type extension tag wire_type s (type_of env s.memory extension).decode (λ decode e.
          extensions (load_pointer s.memory extension) decode e extension tag wire_type);
  }

  tried :
      (tag wire_type start fuel extension : ℕ) (s : State) (o : Outcome State (Unit {0}))
      → ((next : ℕ)
          → Leads Shrinks (decode_extension_loop env depth subs tag wire_type start fuel next))
      → Shrinks s (final o)
      → Shrinks s (
          final {A = Unit {0}} (elim o [
            | fail t ↦ fail t
            | ok _ t ↦
                decode_extension_loop env depth subs tag wire_type start fuel
                  (next_extension t.memory extension)
                  t
          ]))
  tried tag wire_type start fuel extension s (fail t) rest h = h
  tried tag wire_type start fuel extension s (ok _ t) rest h =
      Step-trans Nowhere s t _ h ((rest (next_extension t.memory extension)).at t)

  extension_loop-Shrinks :
      (tag wire_type start fuel extension : ℕ)
      → Leads Shrinks (decode_extension_loop env depth subs tag wire_type start fuel extension)
  unfolding decode_extension_loop
  extension_loop-Shrinks tag wire_type start zero extension = fail-Step Nowhere
  extension_loop-Shrinks tag wire_type start (suc fuel) extension = record {
    at = λ s. elim (Bool-cases (extension == 0 || not (s.stream.bytes_left == start))) [
      | inl e ↦ rw e (Step-refl Nowhere s)
      | inr e ↦ rw e (
          tried tag wire_type start fuel extension s
            (try_extension env depth subs extension tag wire_type s)
            (extension_loop-Shrinks tag wire_type start fuel)
            ((try_extension-Shrinks extension tag wire_type).at s))
    ];
  }

  decode_extension-Shrinks :
      (tag wire_type : ℕ) (iter : FieldIter)
      → Leads Shrinks (decode_extension env depth subs tag wire_type iter)
  unfolding decode_extension
  decode_extension-Shrinks tag wire_type iter = record {
    at = λ s.
        (extension_loop-Shrinks tag wire_type s.stream.bytes_left (suc depth)
            (load_pointer s.memory iter.p_data)).at
          s;
  }

  skip-Shrinks :
      (wire_type : ℕ) (p : Progress)
      → Leads Shrinks (from_stream (pb_skip_field wire_type) >> pure p)
  skip-Shrinks wire_type p =
      bind Nowhere (from_stream-Step Nowhere (pb_skip_field-Advances wire_type))
        (λ _. pure-Step Nowhere p)

  ranged :
      (wire_type : ℕ) (p : Progress) (s : State) (o : Outcome State (Unit {0}))
      → Shrinks s (final o)
      → Shrinks s (
          final {A = Progress} (elim o [
            | fail s' ↦ fail s'
            | ok _ s' ↦
                if s'.stream.bytes_left == s.stream.bytes_left
                then (from_stream (pb_skip_field wire_type) >> pure p) s'
                else ok p s'
          ]))
  ranged wire_type p s (fail s') h = h
  ranged wire_type p s (ok _ s') h = Step-trans Nowhere s s' _ h (
      (split_on (s'.stream.bytes_left == s.stream.bytes_left) (skip-Shrinks wire_type p)
          (pure-Step Nowhere p)).at
        s')

  try_range-Shrinks :
      (t : Tag) (p : Progress) (iter : FieldIter) (start : ℕ)
      → Leads Shrinks (try_range env depth subs t p iter start)
  unfolding try_range
  try_range-Shrinks t p iter start =
      let p' : Progress = record p { iter = iter; extension_range_start = start } in
      split_on (ltb t.tag start) (skip-Shrinks t.wire_type p') (record {
        at = λ s.
            ranged t.wire_type p' s (decode_extension env depth subs t.tag t.wire_type iter s)
              ((decode_extension-Shrinks t.tag t.wire_type iter).at s);
      })

  unknown_field-Shrinks :
      (t : Tag) (p : Progress) → Leads Shrinks (unknown_field env depth subs t p)
  unfolding unknown_field
  unknown_field-Shrinks t p =
      let (iter, found) = find_extension_field p.iter in
      choose Nowhere (ltb t.tag p.extension_range_start) (skip-Shrinks t.wire_type p)
        (try_range-Shrinks t p iter (if found then (pos iter).tag else 2 ^ 32 - 1))

  cleared : (address : ℕ) (p : Progress) → Leads Shrinks (λ s. ok p (put address 4 0 s))
  cleared address p = record { at = λ s. same_stream s (put address 4 0 s) refl }

  note_fixed_count-Shrinks : (p : Progress) → Leads Shrinks (note_fixed_count env depth p)
  unfolding note_fixed_count
  note_fixed_count-Shrinks p = record {
    at = λ s.
        let address = env.fixed_count_size depth in
        let here : Progress = record p { iter = record p.iter { p_size = address } } in
        (split_on (not (htype (pos p.iter) == htype_repeated && p.iter.p_size == p.iter.p_data))
            (pure-Step Nowhere p)
            (split_on (same_index p.fixed_count_field p.iter.index) (pure-Step Nowhere here) (
              split_on (not (fixed_count_full env depth p s.memory))
                (error-Step Nowhere "wrong size for fixed count field")
                (cleared address (record here { fixed_count_field = some p.iter.index }))))).at
          s;
  }

  known_field-Shrinks :
      (wire_type : ℕ) (p : Progress) → Leads Shrinks (known_field env depth subs wire_type p)
  unfolding known_field
  known_field-Shrinks wire_type p = bind Nowhere (note_fixed_count-Shrinks p) (λ q.
      bind Nowhere (decode_field-Shrinks wire_type q.iter)
        (λ iter'. pure-Step Nowhere (record (note_required q) { iter = iter' })))

  pub decode_tagged-Shrinks :
      (t : Tag) (p : Progress) → Leads Shrinks (decode_tagged env depth subs t p)
  unfolding decode_tagged
  decode_tagged-Shrinks t p =
      let (iter, found) = pb_field_iter_find p.iter t.tag in
      let q : Progress = record p { iter = iter } in
      choose Nowhere found (known_field-Shrinks t.wire_type q) (unknown_field-Shrinks t q)
