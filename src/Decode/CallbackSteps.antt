-- ===== src/Decode/CallbackSteps.antt =====
-- `decode_callback_field` of nanopb/pb_decode.c does not make `bytes_left` larger, if the functions of the user do not.
use pincushion.Prelude.{ℕ, zero, suc, ◌+◌, refl, true}
use pincushion.Prelude.{false, List, ◌++◌, length, bit_and, get_or}
use pincushion.Prelude.{ok, fail, final, Leads, ◌==◌, Outcome}
use pincushion.Prelude.{inl, inr, Bool-cases, u64}
use pincushion.Memory.{load_pointer}
use pincushion.Istream.{Istream, Read, pb_read, pb_istream_from_buffer}
use pincushion.Istream
use pincushion.Istream.Advance.{Advances, Advances-refl, Advances-trans, IsBuffer}
use pincushion.Istream.Advance.{pb_read-Advances, pure-Advances, error-Advances}
use pincushion.Istream.Advance
use pincushion.Wire.{wt_string, wt_varint, wt_64bit, wt_32bit}
use pincushion.Wire.Advance.{pb_skip_field-Advances}
use pincushion.Field.{Field, FieldIter, pos}
use pincushion.Decode.{State, Decode}
use pincushion.Decode.Env.{Env, inside}
use pincushion.Decode.Callback.{raw_varint, read_raw_value, callback_loop, finish_callback}
use pincushion.Decode.Callback.{call_on_value, decode_callback_field}
use pincushion.Decode.Steps.{Step-trans, bind, split, fail-Step}
use pincushion.Decode.Steps.{error-Step, from_stream-Step}
use pincushion.Decode.SubSteps.{Closes, with_substream-Step, replaced, close_and_return-Closes}
use pincushion.Decode.PointerSteps.{Nowhere, Shrinks, same_stream}

-- Callback fields, where the functions of the user do not make `bytes_left` larger.
raw_varint-Advances : (room : ℕ) → Leads Advances (raw_varint room)
unfolding raw_varint
raw_varint-Advances zero = record { at = Advances-refl }
raw_varint-Advances (suc room) = Istream.Advance.bind (pb_read-Advances 1) (λ bytes.
    Istream.Advance.choose (bit_and (get_or bytes 0 0) 0x80 == 0) (pure-Advances bytes)
      (Istream.Advance.bind (raw_varint-Advances room) (λ more. pure-Advances (bytes ++ more))))

read_raw_value-Advances :
    (max_size wire_type : ℕ) → Leads Advances (read_raw_value max_size wire_type)
unfolding read_raw_value
read_raw_value-Advances max_size wire_type =
    Istream.Advance.choose (wire_type == wt_varint) (raw_varint-Advances max_size) (
      Istream.Advance.choose (wire_type == wt_64bit) (pb_read-Advances 8) (
        Istream.Advance.choose (wire_type == wt_32bit) (pb_read-Advances 4)
          (error-Advances "invalid wire_type")))

module _ (call : Decode (Unit {0})) (step : Leads Shrinks call) where
  called :
      (fuel : ℕ) (s : State) (o : Outcome State (Unit {0}))
      → Leads Shrinks (callback_loop call fuel)
      → Shrinks s (final o)
      → Shrinks s (
          final {A = Unit {0}} (elim o [
            | fail t ↦ fail t
            | ok _ t ↦ elim (t.stream.bytes_left == 0) [
              | true ↦ ok tt t
              | false ↦ callback_loop call fuel t
            ]
          ]))
  called fuel s (fail t) rest h = h
  called fuel s (ok _ t) rest h = elim (Bool-cases (t.stream.bytes_left == 0)) [
    | inl e ↦ rw e h
    | inr e ↦ rw e (Step-trans Nowhere s t _ h (rest.at t))
  ]

  callback_loop-Shrinks : (fuel : ℕ) → Leads Shrinks (callback_loop call fuel)
  unfolding callback_loop
  callback_loop-Shrinks zero = fail-Step Nowhere
  callback_loop-Shrinks (suc fuel) = record {
    at = λ s. called fuel s (call s) (callback_loop-Shrinks fuel) (step.at s);
  }

  finish_callback-Closes : Closes Nowhere finish_callback
  unfolding finish_callback
  finish_callback-Closes s parent sub (ok _ t) hp hs h =
      close_and_return-Closes Nowhere s parent sub (ok tt t) hp hs h
  finish_callback-Closes s parent sub (fail t) hp hs h =
      Step-trans Nowhere s (inside parent t) _ (replaced Nowhere s t sub parent hs h hp)
        ((error-Step Nowhere {A = Unit {0}} "callback failed").at (inside parent t))

  call_on_value-Shrinks : (value : List ℕ) → Leads Shrinks (call_on_value call value)
  unfolding call_on_value
  call_on_value-Shrinks value = record {
    at = λ s. valued s (call (inside (pb_istream_from_buffer value (length value)) s));
  }
    where
      valued :
          (s : State) (o : Outcome State (Unit {0}))
          → Shrinks s (
              final {A = Unit {0}}
                (elim o [ ok _ t ↦ ok tt (inside s.stream t) | fail t ↦ fail (inside s.stream t) ]))
      valued s (ok _ t) = same_stream s (inside s.stream t) refl
      valued s (fail t) = same_stream s (inside s.stream t) refl

-- The functions of the user behind callback fields leave no more bytes than they find, and a stream over a buffer one.
abbrev pub Callbacks : Env → Type 0
Callbacks env =
    (function : ℕ) (field : Field) (arg : ℕ) → Leads Shrinks (env.callbacks function field arg)

pub decode_callback_field-Shrinks :
    (env : Env) (wire_type : ℕ) (iter : FieldIter)
    → Callbacks env
    → Leads Shrinks (decode_callback_field env wire_type iter)
unfolding decode_callback_field
decode_callback_field-Shrinks env wire_type iter callbacks = record {
  at = λ s.
      let function = load_pointer s.memory iter.p_data in
      let call = env.callbacks function (pos iter) (u64 (iter.p_data + 8)) in
      let step = callbacks function (pos iter) (u64 (iter.p_data + 8)) in
      let skip = from_stream-Step Nowhere (pb_skip_field-Advances wire_type) in
      (split Nowhere (iter.p_data == 0) (λ _. skip)
          (λ _.
            split Nowhere (function == 0) (λ _. skip)
              (λ _.
                split Nowhere (wire_type == wt_string)
                  (λ _.
                    with_substream-Step Nowhere
                      (λ t. callback_loop call (suc t.stream.bytes_left) t) finish_callback
                      (record {
                        at = λ t. (callback_loop-Shrinks call step (suc t.stream.bytes_left)).at t;
                      })
                      (finish_callback-Closes call step))
                  (λ _.
                    bind Nowhere (from_stream-Step Nowhere (read_raw_value-Advances 10 wire_type))
                      (λ value. call_on_value-Shrinks call step value))))).at
        s;
}
