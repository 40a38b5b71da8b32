-- ===== src/Decode/Env.antt =====
-- What the message decoder of nanopb/pb_decode.c works with beside its state, and the parts that its
-- functions share: the functions of the user, substreams, and iterators for extensions.
use pincushion.Prelude.{ℕ, zero, suc, ◌+◌, List, [], ◌∷◌, ◌==◌, if◌then◌else◌, u64}
use pincushion.Prelude.{Outcome, ok, fail, final, Option}
use pincushion.Memory.{Memory, load_pointer, store}
use pincushion.Istream.{Istream}
use pincushion.Wire.{pb_close_string_substream, pb_make_string_substream}
use pincushion.Field.{Field, FieldIter, Ptr, null, submsg, initial, atype, atype_pointer}
use pincushion.Field.{pb_field_iter_begin, pb_field_iter_next}
use pincushion.Decode.{State, Decode}

-- `pb_extension_type_t`: its decode function, or NULL for the default, and the field in `arg`.
pub record ExtensionType : Type 0 where
  pub decode : Option (ℕ → ℕ → ℕ → Decode (Unit {0}))
  pub arg : Field

-- The field arrays and extension types that pointers in the memory lead to, the decode functions of the
-- user that callback fields hold, and the address of the variable `fixed_count_size` of a call of
-- `pb_decode_noinit`, by the depth of the call.
pub record Env : Type 0 where
  pub messages : ℕ → List Field
  pub extension_types : ℕ → ExtensionType
  pub callbacks : ℕ → Field → ℕ → Decode (Unit {0})
  pub fixed_count_size : ℕ → ℕ

-- The fields that the `ptr` of a submessage field leads to. There are none behind NULL, and a default
-- value there is an error of the field description, on which C has no defined behaviour.
unfoldable pub fields_of : Env → Ptr → List Field
fields_of env null = []
fields_of env (submsg message) = env.messages message
fields_of env (initial _) = []

-- A `pb_extension_t` is its type, the address of its data, the next extension and the flag `found`.
unfoldable pub type_of : Env → Memory → ℕ → ExtensionType
type_of env m extension = env.extension_types (load_pointer m extension)

unfoldable pub next_extension : Memory → ℕ → ℕ
next_extension m extension = load_pointer m (u64 (extension + 16))

abbrev pub found_of : ℕ → ℕ
found_of extension = u64 (extension + 24)

unfoldable pub iter_from_extension : Env → Memory → ℕ → FieldIter
unfolding type_of
iter_from_extension env m extension =
    let field = (type_of env m extension).arg in
    let dest = load_pointer m (u64 (extension + 8)) in
    record (pb_field_iter_begin (field ∷ []) dest) {
      p_data = if atype field == atype_pointer then u64 (extension + 8) else dest;
      p_size = found_of extension;
    }

-- The do-while loops over the fields of a message that change something for each, of
-- `pb_message_set_to_defaults` and `pb_release`, a round for each field.
unfoldable pub each_field : {S : Type 0} → (FieldIter → S → S) → ℕ → FieldIter → S → S
each_field one zero iter s = s
each_field one (suc fuel) iter s =
    let (next, more) = pb_field_iter_next iter in
    let rest = each_field one fuel next (one iter s) in if more then rest else one iter s

-- `*(type*)p = value`, without a result.
abbrev pub put : ℕ → ℕ → ℕ → State → State
put p size value s = record s { memory = store s.memory p size value }

-- A call on the substream `sub` of the stream of `s`.
abbrev pub inside : Istream → State → State
inside sub s = record s { stream = sub }

-- `if (!pb_close_string_substream(stream, &substream)) return false; return status;`, where the call on
-- the substream ended in `status`, and `parent` is the stream.
unfoldable pub close_and_return : Istream → Outcome State (Unit {0}) → Outcome State (Unit {0})
close_and_return parent status =
    let s = final status in
    elim (pb_close_string_substream s.stream parent) [
      | fail t ↦ fail (inside t s)
      | ok _ t ↦ elim status [ ok _ _ ↦ ok tt (inside t s) | fail _ ↦ fail (inside t s) ]
    ]

-- `if (!pb_make_string_substream(stream, &substream)) return false;`, then `body` on the substream and
-- `after` on the outcome of that and on the stream.
unfoldable pub with_substream :
    {A : Type 0}
    → Decode A
    → (Istream → Outcome State A → Outcome State (Unit {0}))
    → Decode (Unit {0})
with_substream body after s = elim (pb_make_string_substream s.stream) [
  | fail t ↦ fail (inside t s)
  | ok sub parent ↦ after parent (body (inside sub s))
]

unfoldable pub in_substream : Decode (Unit {0}) → Decode (Unit {0})
unfolding close_and_return
in_substream body = with_substream body close_and_return
