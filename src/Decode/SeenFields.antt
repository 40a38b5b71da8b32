-- ===== src/Decode/SeenFields.antt =====
-- What a round of the loop of `pb_decode_noinit` of nanopb/pb_decode.c does to the bitmap of required fields.
use pincushion.Prelude.{ℕ, ◌-◌, ◌^◌, ◌≡◌, refl, arith, Bool, true}
use pincushion.Prelude.{false, ◌&&◌, not, List, [], ◌∷◌}
use pincushion.Prelude.{◌==◌, if◌then◌else◌, ltb, ok, fail, pure, Outcome}
use pincushion.Prelude.{◌>>=◌, ◌>>◌}
use pincushion.Wire.{Tag, pb_skip_field}
use pincushion.Field.{FieldIter, pos, htype, htype_required, htype_repeated}
use pincushion.Field.{pb_field_iter_find}
use pincushion.Decode.{State, Decode, from_stream}
use pincushion.Decode.Env.{Env}
use pincushion.Decode.Static.{Submessages}
use pincushion.Decode.Message.{Progress, decode_field, decode_extension, find_extension_field}
use pincushion.Decode.Message.{try_range, unknown_field, fixed_count_full, same_index}
use pincushion.Decode.Message.{note_fixed_count, note_required, known_field, decode_tagged}
use pincushion.Decode.Message.{max_required_fields, mark}

-- The result of a call, if it succeeds, has a property.
abbrev pub Result : {A : Type 0} → (A → Type 0) → Outcome State A → Type 0
Result P (ok a s) = P a
Result P (fail s) = Unit {0}

pub record Gives {A : Type 0} (P : A → Type 0) (m : Decode A) : Type 0 where
  pub at : (s : State) → Result P (m s)

module _ {A : Type 0} (P : A → Type 0) where
  pure-Gives : (a : A) → P a → Gives P (pure a)
  pure-Gives a h = record { at = λ s. h }

  test-Gives :
      {m n : Decode A} (b : State → Bool)
      → Gives P m
      → Gives P n
      → Gives P (λ s. if b s then m s else n s)
  test-Gives {m} {n} b hm hn = record { at = λ s. either s (b s) }
    where
      either : (s : State) (c : Bool) → Result P (if c then m s else n s)
      either s true = hm.at s
      either s false = hn.at s

  module _ {B : Type 0} (Q : B → Type 0) (f : B → Decode A)
      (h : (b : B) → Q b → Gives P (f b)) where
    continued :
        (o : Outcome State B) → Result Q o → Result P (elim o [ ok b t ↦ f b t | fail t ↦ fail t ])
    continued (ok b t) q = (h b q).at t
    continued (fail t) q = tt

    bind-Gives : (m : Decode B) → Gives Q m → Gives P (m >>= f)
    bind-Gives m hm = record { at = λ s. continued (m s) (hm.at s) }

-- Any result.
trivial : {A : Type 0} (o : Outcome State A) → Result (λ _. Unit {0}) o
trivial (ok a s) = tt
trivial (fail s) = tt

anything : {A : Type 0} (m : Decode A) → Gives (λ _. Unit {0}) m
anything m = record { at = λ s. trivial (m s) }

-- The bits that a known field sets.
abbrev pub index_of : FieldIter → List ℕ
index_of iter =
    if htype (pos iter) == htype_required && ltb iter.required_field_index max_required_fields
    then iter.required_field_index ∷ []
    else []

-- The index among the required fields of the field that a tag leads to, where there is one and it is one of the
-- fields that are recorded.
unfoldable pub required_index : Progress → Tag → List ℕ
required_index p t =
    let (iter, found) = pb_field_iter_find p.iter t.tag in if found then index_of iter else []

-- The bitmap with a bit for each index of a list, the last one first.
unfoldable pub marked : List ℕ → List ℕ → List ℕ
marked seen [] = seen
marked seen (j ∷ js) = mark (marked seen js) j

module _ (env : Env) (depth : ℕ) (subs : Submessages) (seen : List ℕ) where
  abbrev Same : Progress → Type 0
  Same p = p.fields_seen ≡ seen

  skip-Gives :
      (wire_type : ℕ) (p : Progress)
      → Same p
      → Gives Same (from_stream (pb_skip_field wire_type) >> pure p)
  skip-Gives wire_type p h =
      bind-Gives Same (λ _. Unit {0}) (λ _. pure p) (λ _ _. pure-Gives Same p h)
        (from_stream (pb_skip_field wire_type)) (anything (from_stream (pb_skip_field wire_type)))

  ranged :
      (wire_type : ℕ) (p : Progress) (left : ℕ) (o : Outcome State (Unit {0}))
      → Same p
      → Result Same (elim o [
        | fail s' ↦ fail s'
        | ok _ s' ↦
            if s'.stream.bytes_left == left
            then (from_stream (pb_skip_field wire_type) >> pure p) s'
            else ok p s'
      ])
  ranged wire_type p left (fail s') h = tt
  ranged wire_type p left (ok _ s') h =
      (test-Gives Same (λ s'. s'.stream.bytes_left == left) (skip-Gives wire_type p h)
          (pure-Gives Same p h)).at
        s'

  unknown_field-Gives :
      (t : Tag) (p : Progress) → Same p → Gives Same (unknown_field env depth subs t p)
  unfolding unknown_field try_range
  unknown_field-Gives t p h =
      let (iter, found) = find_extension_field p.iter in
      let start = if found then (pos iter).tag else 2 ^ 32 - 1 in
      let p' : Progress = record p { iter = iter; extension_range_start = start } in
      either (ltb t.tag p.extension_range_start) (skip-Gives t.wire_type p h) (
        test-Gives Same (λ _. ltb t.tag start) (skip-Gives t.wire_type p' h)
          (record {
            at = λ s.
                ranged t.wire_type p' s.stream.bytes_left
                  (decode_extension env depth subs t.tag t.wire_type iter s) h;
          }))
    where
      either :
          {m n : Decode Progress} (b : Bool)
          → Gives Same m
          → Gives Same n
          → Gives Same (if b then m else n)
      either true hm hn = hm
      either false hm hn = hn

-- Where the progress stands on the same field.
record SameField (p q : Progress) : Type 0 where
  seen : q.fields_seen ≡ p.fields_seen
  fields : q.iter.start ≡ p.iter.start
  index : q.iter.index ≡ p.iter.index
  required : q.iter.required_field_index ≡ p.iter.required_field_index

note_required-marked :
    (p q : Progress)
    → SameField p q
    → (note_required q).fields_seen ≡ marked p.fields_seen (index_of p.iter)
unfolding note_required marked
note_required-marked p q h = ground (arith, h.seen, h.fields, h.index, h.required)

module _ (env : Env) (depth : ℕ) (subs : Submessages) where
  note_fixed_count-Gives : (p : Progress) → Gives (SameField p) (note_fixed_count env depth p)
  unfolding note_fixed_count
  note_fixed_count-Gives p =
      let P = SameField p in
      let same : SameField p p = record {
        seen = refl;
        fields = refl;
        index = refl;
        required = refl;
      } in
      let address = env.fixed_count_size depth in
      let here : Progress = record p { iter = record p.iter { p_size = address } } in
      let moved : SameField p here = record {
        seen = refl;
        fields = refl;
        index = refl;
        required = refl;
      } in
      test-Gives P
        (λ _. not (htype (pos p.iter) == htype_repeated && p.iter.p_size == p.iter.p_data))
        (pure-Gives P p same)
        (test-Gives P (λ _. same_index p.fixed_count_field p.iter.index) (pure-Gives P here moved)
          (test-Gives P (λ s. not (fixed_count_full env depth p s.memory)) (record { at = λ s. tt })
            (record {
              at = λ s. record { seen = refl; fields = refl; index = refl; required = refl };
            })))

  known_field-Gives :
      (wire_type : ℕ) (p : Progress)
      → Gives
          (λ p'. p'.fields_seen ≡ marked p.fields_seen (index_of p.iter))
          (known_field env depth subs wire_type p)
  unfolding known_field
  known_field-Gives wire_type p =
      let P = λ (p' : Progress). p'.fields_seen ≡ marked p.fields_seen (index_of p.iter) in
      bind-Gives P (SameField p)
        (λ q. decode_field env depth subs wire_type q.iter >>= λ iter'.
          pure (record (note_required q) { iter = iter' }))
        (λ q h.
          bind-Gives P (λ _. Unit {0}) (λ iter'. pure (record (note_required q) { iter = iter' }))
            (λ iter' _.
              pure-Gives P (record (note_required q) { iter = iter' }) (note_required-marked p q h))
            (decode_field env depth subs wire_type q.iter)
            (anything (decode_field env depth subs wire_type q.iter)))
        (note_fixed_count env depth p) (note_fixed_count-Gives p)

  pub decode_tagged-Gives :
      (t : Tag) (p : Progress)
      → Gives
          (λ p'. p'.fields_seen ≡ marked p.fields_seen (required_index p t))
          (decode_tagged env depth subs t p)
  unfolding decode_tagged required_index marked
  decode_tagged-Gives t p =
      let (iter, found) = pb_field_iter_find p.iter t.tag in
      let q : Progress = record p { iter = iter } in
      either found (index_of iter) (known_field-Gives t.wire_type q)
        (unknown_field-Gives env depth subs p.fields_seen t q refl)
    where
      either :
          (found : Bool) (l : List ℕ) {m n : Decode Progress}
          → Gives (λ p'. p'.fields_seen ≡ marked p.fields_seen l) m
          → Gives (λ p'. p'.fields_seen ≡ p.fields_seen) n
          → Gives
              (λ p'. p'.fields_seen ≡ marked p.fields_seen (if found then l else []))
              (if found then m else n)
      either true l hm hn = hm
      either false l hm hn = hn
