-- ===== src/Decode/Message.antt =====
-- nanopb/pb_decode.c: `decode_field`, extensions, and the loop of `pb_decode_noinit`.
use pincushion.Prelude.{ℕ, zero, suc, ◌-◌, ◌^◌, Bool, true, false, ◌&&◌, ◌||◌, not, List}
use pincushion.Prelude.{length, u32}
use pincushion.Prelude.{◌==◌, if◌then◌else◌, ltb, ok, fail, ◌>>◌, ◌>>=◌, Option, some, none}
use pincushion.Prelude.{get_or, set, bit_and, bit_or, ◌<<<◌, ◌>>>◌, pure}
use pincushion.Memory.{Memory, load, load_pointer}
use pincushion.Wire.{pb_decode_tag, pb_skip_field, Tag}
use pincushion.Field.{FieldIter, ltype, htype, atype, pos, field_at, ltype_extension}
use pincushion.Field.{htype_required}
use pincushion.Field.{htype_repeated, htype_oneof, atype_static, atype_pointer, atype_callback}
use pincushion.Field.{pb_field_iter_next, pb_field_iter_find}
use pincushion.Decode.{Decode, return_error, from_stream}
use pincushion.Decode.Env.{Env, put, inside, iter_from_extension, type_of, next_extension}
use pincushion.Decode.Env.{found_of}
use pincushion.Decode.Release.{pb_release_union_field}
use pincushion.Decode.Static.{Submessages, decode_static_field}
use pincushion.Decode.Pointers.{decode_pointer_field}
use pincushion.Decode.Callback.{decode_callback_field}

-- The switch of `decode_field`.
unfoldable pub decode_by_atype : Env → ℕ → Submessages → ℕ → FieldIter → Decode (Unit {0})
decode_by_atype env depth subs wire_type iter =
    if atype (pos iter) == atype_static
    then decode_static_field env depth subs wire_type iter
    else if atype (pos iter) == atype_pointer
    then decode_pointer_field env depth subs wire_type iter
    else if atype (pos iter) == atype_callback
    then decode_callback_field env wire_type iter
    else return_error "invalid field type"

-- `decode_field`; its result is the iterator, which the release of a union moves.
unfoldable pub decode_field : Env → ℕ → Submessages → ℕ → FieldIter → Decode FieldIter
decode_field env depth subs wire_type iter =
    (if htype (pos iter) == htype_oneof then pb_release_union_field env depth iter else pure iter)
    >>= λ iter'. decode_by_atype env depth subs wire_type iter' >> pure iter'

-- `default_extension_decoder`
unfoldable pub default_extension_decoder : Env → ℕ → Submessages → ℕ → ℕ → ℕ → Decode (Unit {0})
default_extension_decoder env depth subs extension tag wire_type s =
    let iter = iter_from_extension env s.memory extension in
    if (type_of env s.memory extension).arg.tag == tag
    then (decode_field env depth subs wire_type iter >>= λ _. pure tt)
        (put (found_of extension) 1 1 s)
    else ok tt s

unfoldable pub try_extension : Env → ℕ → Submessages → ℕ → ℕ → ℕ → Decode (Unit {0})
try_extension env depth subs extension tag wire_type s =
    elim (type_of env s.memory extension).decode [
      | none ↦ default_extension_decoder env depth subs extension tag wire_type s
      | some decode ↦ decode extension tag wire_type s
    ]

-- The loop of `decode_extension`; `start` is `pos`.
unfoldable pub decode_extension_loop : Env → ℕ → Submessages → ℕ → ℕ → ℕ → ℕ → ℕ → Decode (Unit {0})
unfolding try_extension
decode_extension_loop env depth subs tag wire_type start zero extension s = fail s
decode_extension_loop env depth subs tag wire_type start (suc fuel) extension s =
    if extension == 0 || not (s.stream.bytes_left == start)
    then ok tt s
    else elim (try_extension env depth subs extension tag wire_type s) [
      | fail t ↦ fail t
      | ok _ t ↦
          decode_extension_loop env depth subs tag wire_type start fuel
            (next_extension t.memory extension) t
    ]

unfoldable pub decode_extension : Env → ℕ → Submessages → ℕ → ℕ → FieldIter → Decode (Unit {0})
decode_extension env depth subs tag wire_type iter s =
    decode_extension_loop env depth subs tag wire_type s.stream.bytes_left (suc depth)
      (load_pointer s.memory iter.p_data) s

-- The do-while loop of `find_extension_field`; as many rounds as there are fields, and one for an empty
-- array, are enough.
unfoldable pub find_extension_loop : ℕ → ℕ → FieldIter → FieldIter × Bool
find_extension_loop zero home iter = (iter, false)
find_extension_loop (suc fuel) home iter =
    let next = (pb_field_iter_next iter).0 in
    let rest = find_extension_loop fuel home next in
    if ltype (pos iter) == ltype_extension
    then (iter, true)
    else if next.index == home
    then (next, false)
    else rest

unfoldable pub find_extension_field : FieldIter → FieldIter × Bool
find_extension_field iter = find_extension_loop (suc (length iter.start)) iter.index iter

-- The variables of `pb_decode_noinit` that the loop changes. `fixed_count_field` is an index into the fields, or NULL;
-- `fixed_count_size` lies in the memory, since the iterator points to it.
pub record Progress : Type 0 where
  pub iter : FieldIter
  pub fields_seen : List ℕ
  pub extension_range_start : ℕ
  pub fixed_count_field : Option ℕ

-- What an unknown tag does: it is decoded as an extension, or skipped.
unfoldable pub try_range : Env → ℕ → Submessages → Tag → Progress → FieldIter → ℕ → Decode Progress
try_range env depth subs t p iter start s =
    let p' = record p { iter = iter; extension_range_start = start } in
    let skip = from_stream (pb_skip_field t.wire_type) >> pure p' in
    if ltb t.tag start
    then skip s
    else elim (decode_extension env depth subs t.tag t.wire_type iter s) [
      | fail s' ↦ fail s'
      | ok _ s' ↦ if s'.stream.bytes_left == s.stream.bytes_left then skip s' else ok p' s'
    ]

unfoldable pub unknown_field : Env → ℕ → Submessages → Tag → Progress → Decode Progress
unfolding try_range
unknown_field env depth subs t p =
    let (iter, found) = find_extension_field p.iter in
    let start = if found then (pos iter).tag else 2 ^ 32 - 1 in
    if ltb t.tag p.extension_range_start
    then (from_stream (pb_skip_field t.wire_type) >> pure p)
    else try_range env depth subs t p iter start

-- The fixed count field behind the index, NULL being none, has its full number of entries.
unfoldable pub fixed_count_full : Env → ℕ → Progress → Memory → Bool
fixed_count_full env depth p m = elim p.fixed_count_field [
  | none ↦ true
  | some index ↦ load m (env.fixed_count_size depth) 4 == (field_at p.iter.start index).array_size
]

unfoldable pub same_index : Option ℕ → ℕ → Bool
same_index none j = false
same_index (some i) j = i == j

-- "If a repeated fixed count field was found, get size from 'fixed_count_field'."
unfoldable pub note_fixed_count : Env → ℕ → Progress → Decode Progress
unfolding same_index
note_fixed_count env depth p s =
    let address = env.fixed_count_size depth in
    let here = record p { iter = record p.iter { p_size = address } } in
    if not (htype (pos p.iter) == htype_repeated && p.iter.p_size == p.iter.p_data)
    then ok p s
    else if same_index p.fixed_count_field p.iter.index
    then ok here s
    else if not (fixed_count_full env depth p s.memory)
    then return_error "wrong size for fixed count field" s
    else ok (record here { fixed_count_field = some p.iter.index }) (put address 4 0 s)

-- PB_MAX_REQUIRED_FIELDS
abbrev pub max_required_fields : ℕ
max_required_fields = 64

-- `fields_seen[index >> 5] |= (uint32_t)1 << (index & 31)`
unfoldable pub mark : List ℕ → ℕ → List ℕ
mark seen index =
    set seen (index >>> 5) (bit_or (get_or seen (index >>> 5) 0) (u32 (1 <<< bit_and index 31)))

unfoldable pub note_required : Progress → Progress
note_required p =
    if htype (pos p.iter) == htype_required && ltb p.iter.required_field_index max_required_fields
    then record p { fields_seen = mark p.fields_seen p.iter.required_field_index }
    else p

unfoldable pub known_field : Env → ℕ → Submessages → ℕ → Progress → Decode Progress
known_field env depth subs wire_type p = note_fixed_count env depth p >>= λ q.
    decode_field env depth subs wire_type q.iter >>= λ iter'.
    pure (record (note_required q) { iter = iter' })

-- A round of the loop behind the tag.
unfoldable pub decode_tagged : Env → ℕ → Submessages → Tag → Progress → Decode Progress
decode_tagged env depth subs t p =
    let (iter, found) = pb_field_iter_find p.iter t.tag in
    let q = record p { iter = iter } in
    if found then known_field env depth subs t.wire_type q else unknown_field env depth subs t q

-- The while loop of `pb_decode_noinit`. Each round takes a byte at least, so one more than `bytes_left` rounds are
-- enough.
unfoldable pub fields_loop : Env → ℕ → Submessages → ℕ → Progress → Decode Progress
fields_loop env depth subs zero p s = fail s
fields_loop env depth subs (suc fuel) p s =
    if s.stream.bytes_left == 0
    then ok p s
    else let (outcome, eof) = pb_decode_tag s.stream in
      elim outcome [
        | fail t ↦ if eof then ok p (inside t s) else fail (inside t s)
        | ok tag t ↦ elim (decode_tagged env depth subs tag p (inside t s)) [
          | fail s' ↦ fail s'
          | ok p' s' ↦ fields_loop env depth subs fuel p' s'
        ]
      ]
