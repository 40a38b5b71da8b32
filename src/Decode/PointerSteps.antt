-- ===== src/Decode/PointerSteps.antt =====
-- `decode_pointer_field` of nanopb/pb_decode.c does not make `bytes_left` larger. What it writes comes from the
-- heap, so no address is kept.
use pincushion.Prelude.{ℕ, zero, suc, ◌+◌, ◌-◌, ◌^◌, ◌≤◌, ◌<◌, ◌≡◌, refl, arith, Bool, true}
use pincushion.Prelude.{false, some}
use pincushion.Prelude.{ok, fail, final, Leads, ltb, leb, ◌==◌, ◌&&◌, ◌||◌, Outcome, ◌>>◌}
use pincushion.Prelude.{if◌then◌else◌, inl, inr, Bool-cases, ◌⊎◌, u32}
use pincushion.Memory.{load}
use pincushion.Istream.Advance.{Advances-refl}
use pincushion.Wire.{wt_string}
use pincushion.Field.{Field, FieldIter, pos, ltype, htype, ltype_bytes, ltype_string}
use pincushion.Field.{ltype_last_packable, htype_required, htype_optional, htype_repeated}
use pincushion.Field.{htype_oneof, pb_size_max}
use pincushion.Decode.{State, Decode, allocate_field}
use pincushion.Decode.Env.{Env, put}
use pincushion.Decode.Static.{Submessages, Decoder, pb_decoders, item_at, reset_submessage}
use pincushion.Decode.Static.{decode_static_field}
use pincushion.Decode.ReleaseStream.{pb_release_single_field-stream}
use pincushion.Decode.Pointers.{initialize_pointer_field, pointed, decode_at, release_duplicate}
use pincushion.Decode.Pointers.{decode_single, grown, grow, packed_entry, entries_loop}
use pincushion.Decode.Pointers.{finish_entries, decode_entries, decode_entry}
use pincushion.Decode.Pointers.{decode_pointer_field}
use pincushion.Decode.Steps.{Step, Step-refl, Step-trans, bind, split, pure-Step}
use pincushion.Decode.Steps.{error-Step, allocate_field-Step}
use pincushion.Decode.SubSteps.{Closes, with_substream-Step, close_and_return-Closes}
use pincushion.Decode.StaticSteps.{Nested, Room, Layout, pb_decoders-Step}
use pincushion.Decode.StaticSteps.{decode_static_field-Step}

-- No address.
abbrev pub Nowhere : ℕ → Type 0
Nowhere q = ⊥

-- The relation that says nothing of the memory.
abbrev pub Shrinks : State → State → Type 0
Shrinks = Step Nowhere

-- A change of the state that leaves the stream.
pub same_stream : (s t : State) → t.stream ≡ s.stream → Shrinks s t
same_stream s t e = record { advances = rw e (Advances-refl s.stream); kept = λ b q k. absurd k }

-- A decoder behind such a change.
behind :
    {A : Type 0} (f : State → State) (m : Decode A)
    → ((s : State) → (f s).stream ≡ s.stream)
    → Leads Shrinks m
    → Leads Shrinks (λ s. m (f s))
behind f m same h = record {
  at =
      λ s. Step-trans Nowhere s (f s) (final (m (f s))) (same_stream s (f s) (same s)) (h.at (f s));
}

everywhere : (p n : ℕ) (q : ℕ) → Nowhere q → (q < p) ⊎ (p + n ≤ q)
everywhere p n q k = absurd k

pub Nowhere-Room : (field : Field) (dest : ℕ) → Room Nowhere field dest
Nowhere-Room field dest = record {
  value = λ q k. absurd k;
  fixed32 = λ e q k. absurd k;
  fixed64 = λ e q k. absurd k;
}

pub Nowhere-Layout : (iter : FieldIter) → Layout Nowhere iter
Nowhere-Layout iter = record {
  single = Nowhere-Room (pos iter) iter.p_data;
  items = λ i lt. Nowhere-Room (pos iter) (item_at iter iter.p_data i);
  flag = λ e q k. absurd k;
  count = λ e q k. absurd k;
}

pub decoders-Shrinks :
    (subs : Submessages) (field : Field) (dest : ℕ)
    → Nested Nowhere subs
    → Leads Shrinks (pb_decoders subs (ltype field) field dest)
decoders-Shrinks subs field dest n =
    pb_decoders-Step Nowhere subs field dest (λ e q k. k) (Nowhere-Room field dest) (λ e. n)

pub decode_static_field-Shrinks :
    (env : Env) (depth : ℕ) (subs : Submessages) (wire_type : ℕ) (iter : FieldIter)
    → Nested Nowhere subs
    → Leads Shrinks (decode_static_field env depth subs wire_type iter)
decode_static_field-Shrinks env depth subs wire_type iter n =
    decode_static_field-Step Nowhere env depth subs wire_type iter (λ e q k. k)
      (Nowhere-Layout iter) (λ e q k. k) (λ e. n)

-- Pointer fields.
module _ (env : Env) (depth : ℕ) (iter : FieldIter) where
  initialize-stream :
      (p_item : ℕ) (s : State)
      → (initialize_pointer_field env depth p_item iter s).stream ≡ s.stream
  unfolding initialize_pointer_field reset_submessage
  initialize-stream p_item s = ground arith

  release_duplicate-stream : (s : State) → (release_duplicate env depth iter s).stream ≡ s.stream
  unfolding release_duplicate
  release_duplicate-stream s = ground (arith, pb_release_single_field-stream env depth iter s)

  module _ (func : Decoder) (step : (dest : ℕ) → Leads Shrinks (func (pos iter) dest)) where
    decode_at-Shrinks : (p_item : ℕ) → Leads Shrinks (decode_at env depth func iter p_item)
    unfolding decode_at
    decode_at-Shrinks p_item =
        behind (initialize_pointer_field env depth p_item iter) (func (pos iter) p_item)
          (initialize-stream p_item) (step p_item)

    allocated :
        (data_size array_size : ℕ) (item : State → ℕ)
        → Leads Shrinks (
            allocate_field iter.p_data data_size array_size >> λ t.
            decode_at env depth func iter (item t) t)
    allocated data_size array_size item =
        bind Nowhere (allocate_field-Step Nowhere (λ q k. k) iter.p_data data_size array_size)
          (λ _. record { at = λ t. (decode_at-Shrinks (item t)).at t })

    decode_single-Shrinks : Leads Shrinks (decode_single env depth func iter)
    unfolding decode_single
    decode_single-Shrinks = record {
      at = λ s.
          let field = pos iter in
          let s₁ = release_duplicate env depth iter s in
          let s₂ = if htype field == htype_oneof then put iter.p_size 4 field.tag s₁ else s₁ in
          let same : s₂.stream ≡ s.stream = ground (arith, release_duplicate-stream s) in
          Step-trans Nowhere s s₂ _ (same_stream s s₂ same)
            (elim (Bool-cases (ltype field == ltype_string || ltype field == ltype_bytes)) [
              | inl e ↦ rw e ((step iter.p_data).at s₂)
              | inr e ↦ rw e ((allocated field.data_size 1 (pointed iter)).at s₂)
            ]);
    }

    grow-Shrinks : (n : ℕ) → Leads Shrinks (grow iter n)
    unfolding grow
    grow-Shrinks n = record {
      at = λ s.
          (split Nowhere (ltb n (load s.memory iter.p_size 4 + 1))
              (λ _.
                allocate_field-Step Nowhere (λ q k. k) iter.p_data (pos iter).data_size
                  (grown iter n s))
              (λ _. pure-Step Nowhere tt)).at
            s;
    }

    packed_entry-Shrinks : (n : ℕ) → Leads Shrinks (packed_entry env depth func iter n)
    unfolding packed_entry
    packed_entry-Shrinks n = bind Nowhere (grow-Shrinks n) (λ _. record {
      at = λ s.
          (decode_at-Shrinks (item_at iter (pointed iter s) (load s.memory iter.p_size 4))).at s;
    })

    -- A round of the loop over a packed array, behind its entry.
    entered :
        (fuel n : ℕ) (s : State) (o : Outcome State (Unit {0}))
        → Leads Shrinks (entries_loop env depth func iter fuel n)
        → Shrinks s (final o)
        → Shrinks s (
            final {A = Bool} (elim o [
              | fail t ↦ fail t
              | ok _ t ↦ elim (load t.memory iter.p_size 4 == pb_size_max) [
                | true ↦ ok true t
                | false ↦
                    entries_loop env depth func iter fuel n
                      (put iter.p_size 4 (u32 (load t.memory iter.p_size 4 + 1)) t)
              ]
            ]))
    entered fuel n s (fail t) rest h = h
    entered fuel n s (ok _ t) rest h =
        let t' = put iter.p_size 4 (u32 (load t.memory iter.p_size 4 + 1)) t in
        elim (Bool-cases (load t.memory iter.p_size 4 == pb_size_max)) [
          | inl e ↦ rw e h
          | inr e ↦ rw e (
              Step-trans Nowhere s t _ h
                (Step-trans Nowhere t t' _ (same_stream t t' refl) (rest.at t')))
        ]

    entries_loop-Shrinks : (fuel n : ℕ) → Leads Shrinks (entries_loop env depth func iter fuel n)
    unfolding entries_loop
    entries_loop-Shrinks zero n = pure-Step Nowhere false
    entries_loop-Shrinks (suc fuel) n = record {
      at = λ s. elim (Bool-cases (s.stream.bytes_left == 0)) [
        | inl e ↦ rw e (Step-refl Nowhere s)
        | inr e ↦ rw e (
            entered fuel (grown iter n s) s (packed_entry env depth func iter n s)
              (entries_loop-Shrinks fuel (grown iter n s)) ((packed_entry-Shrinks n).at s))
      ];
    }

    finish_entries-Closes : Closes Nowhere finish_entries
    unfolding finish_entries
    finish_entries-Closes s parent sub (ok false t) hp hs h =
        close_and_return-Closes Nowhere s parent sub (ok tt t) hp hs h
    finish_entries-Closes s parent sub (ok true t) hp hs h =
        close_and_return-Closes Nowhere s (record parent { errmsg = some "too many array entries" })
          sub (fail t) (record { fewer = hp.fewer; buffered = hp.buffered }) hs h
    finish_entries-Closes s parent sub (fail t) hp hs h =
        close_and_return-Closes Nowhere s parent sub (fail t) hp hs h

    decode_entries-Shrinks : Leads Shrinks (decode_entries env depth func iter)
    unfolding decode_entries
    decode_entries-Shrinks = record {
      at = λ s.
          (with_substream-Step Nowhere
              (λ t.
                entries_loop env depth func iter t.stream.bytes_left (load s.memory iter.p_size 4)
                  t)
              finish_entries
              (record {
                at = λ t.
                    (entries_loop-Shrinks t.stream.bytes_left (load s.memory iter.p_size 4)).at t;
              })
              finish_entries-Closes).at
            s;
    }

    decode_entry-Shrinks : Leads Shrinks (decode_entry env depth func iter)
    unfolding decode_entry
    decode_entry-Shrinks = record {
      at = λ s.
          let size = load s.memory iter.p_size 4 in
          let s' = put iter.p_size 4 (u32 (size + 1)) s in
          elim (Bool-cases (size == pb_size_max)) [
            | inl e ↦ rw e ((error-Step Nowhere {A = Unit {0}} "too many array entries").at s)
            | inr e ↦ rw e (
                Step-trans Nowhere s s' _ (same_stream s s' refl) (
                  (allocated (pos iter).data_size (u32 (size + 1)) (λ t.
                      item_at iter (pointed iter t)
                        (u32 (load t.memory iter.p_size 4 + (2 ^ 32 - 1))))).at
                    s'))
          ];
    }

  pub decode_pointer_field-Shrinks :
      (subs : Submessages) (wire_type : ℕ)
      → Nested Nowhere subs
      → Leads Shrinks (decode_pointer_field env depth subs wire_type iter)
  unfolding decode_pointer_field
  decode_pointer_field-Shrinks subs wire_type n =
      let field = pos iter in
      let func = pb_decoders subs (ltype field) in
      let step = λ (dest : ℕ). decoders-Shrinks subs field dest n in
      split Nowhere
        (htype field == htype_required
          || htype field == htype_optional
          || htype field == htype_oneof)
        (λ _. decode_single-Shrinks func step)
        (λ _.
          split Nowhere (htype field == htype_repeated)
            (λ _.
              split Nowhere (wire_type == wt_string && leb (ltype field) ltype_last_packable)
                (λ _. decode_entries-Shrinks func step) (λ _. decode_entry-Shrinks func step))
            (λ _. error-Step Nowhere "invalid field type"))
