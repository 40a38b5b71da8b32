-- ===== src/Struct/Contents.antt =====
-- What the decoders of bytes, string and message fields of nanopb/pb_decode.c leave in a struct.
use pincushion.Prelude.{ℕ, ◌+◌, ◌-◌, ◌^◌, ◌<◌, ◌≤◌, ◌≡◌, refl, ap, ◌∙◌, arith, List, []}
use pincushion.Prelude.{◌∷◌, ◌++◌, length, ◌==◌, false, ok, inl, inr, ◌⊎◌, Option, String}
use mathlib.Core.List.{append_assoc}
use pincushion.Memory.{Memory, load, store, load_bytes, store_bytes, word_bytes}
use pincushion.Memory.Laws.{load-store, store_bytes-outside, length-word_bytes, load-ext}
use pincushion.Memory.Laws.{load_bytes-store_bytes}
use pincushion.Field.{Field, ltype, atype, atype_static, atype_pointer}
use pincushion.Field.{ltype_bytes, ltype_string, ltype_submessage, submsg}
use pincushion.Decode.{Heap}
use pincushion.Decode.Env.{Env}
use pincushion.Decode.Integers.{on}
use pincushion.Decode.Static.{Submessages, pb_decoders, pb_dec_submessage, submessage_by_ptr}
use pincushion.Decode.Strings.{pb_dec_string_lem, pb_dec_bytes_lem}
use pincushion.Decode.Delimited.{in_substream-whole}
use pincushion.Struct.{IsRequired}
use pincushion.Struct.Text.{stored_text, strnlen-stored, load-stored}
use pincushion.Struct.Values.{text, Values}
use pincushion.Struct.Values.{get_field, delimited}
use pincushion.Varint.{varint_bytes}
use pincushion.Prelude.{◌≢◌, All, length-append}
use pincushion.Struct.Encoders.{get-bytes, get-string}
use pincushion.Struct.Stays.{Keeps}

on-delimited :
    (bytes more : List ℕ) (n : ℕ) (msg : Option String) (m : Memory) (h : Heap)
    → let prefix = varint_bytes (length bytes) in
      on (delimited bytes ++ more) (length (delimited bytes) + n) msg m h
      ≡ on (prefix ++ (bytes ++ more)) (length prefix + (length bytes + n)) msg m h
on-delimited bytes more n msg m h =
    let prefix = varint_bytes (length bytes) in
    let sum : length (prefix ++ bytes) + n ≡ length prefix + (length bytes + n) =
      omega (arith, length-append prefix bytes) in
    rw (append_assoc prefix bytes more, sum) refl

-- Bytes and strings in a field that has room for them.
module _ (f : Field) (static : atype f ≡ atype_static) (at : ℕ) (bytes : List ℕ) (m : Memory) where
  not_pointer : (atype f == atype_pointer) ≡ false
  not_pointer = rw static refl

  abbrev pub stored_bytes : Memory
  stored_bytes = store_bytes (store m at 4 (length bytes)) (at + 4) bytes

  pub bytes-run :
      (subs : Submessages)
      → ltype f ≡ ltype_bytes
      → length bytes < 2 ^ 32
      → length bytes + 4 ≤ f.data_size
      → (more : List ℕ) (n : ℕ) (msg : Option String) (h : Heap)
      → pb_decoders subs
          (ltype f)
          f
          at
          (on (delimited bytes ++ more) (length (delimited bytes) + n) msg m h)
        ≡ ok tt (on more n msg stored_bytes h)
  unfolding pb_decoders
  bytes-run subs lt small fits more n msg h =
      rw (lt, on-delimited bytes more n msg m h)
        ((pb_dec_bytes_lem f not_pointer at bytes more n msg m h small).0 fits)

  pub bytes-got :
      (sub : ℕ → ℕ → Values)
      → ltype f ≡ ltype_bytes
      → length bytes < 2 ^ 32
      → get_field sub stored_bytes f at ≡ text bytes
  bytes-got sub lt small =
      let count : load stored_bytes at 4 ≡ length bytes =
        load-ext stored_bytes (store m at 4 (length bytes)) at 4 (λ q lo hi.
          store_bytes-outside (store m at 4 (length bytes)) (at + 4) bytes q (inl (omega arith)))
        ∙ load-store m at 4 (length bytes) (omega arith) in
      get-bytes sub stored_bytes f at lt
      ∙ ap (λ n. text (load_bytes stored_bytes (at + 4) n)) count
      ∙ ap text (load_bytes-store_bytes (store m at 4 (length bytes)) (at + 4) bytes)

  pub bytes-kept :
      (env : Env) → length bytes + 4 ≤ f.data_size → Keeps env at f.data_size m stored_bytes
  unfolding store
  bytes-kept env fits q c out =
      let word = word_bytes 4 (length bytes) in
      let len = length-word_bytes 4 (length bytes) in
      store_bytes-outside (store m at 4 (length bytes)) (at + 4) bytes q (apart 4 out)
      ∙ store_bytes-outside m at word q (rw len (start out))
    where
      apart :
          (k : ℕ) → (q < at) ⊎ (at + f.data_size ≤ q) → (q < at + 4) ⊎ (at + 4 + length bytes ≤ q)
      apart k (inl lt) = inl (omega arith)
      apart k (inr le) = inr (omega arith)

      start : (q < at) ⊎ (at + f.data_size ≤ q) → (q < at) ⊎ (at + 4 ≤ q)
      start (inl lt) = inl lt
      start (inr le) = inr (omega arith)

  pub string-run :
      (subs : Submessages)
      → ltype f ≡ ltype_string
      → length bytes < 2 ^ 32 - 1
      → length bytes < f.data_size
      → (more : List ℕ) (n : ℕ) (msg : Option String) (h : Heap)
      → (nonzero : All (λ b. b ≢ 0) bytes)
      → pb_decoders subs
          (ltype f)
          f
          at
          (on (delimited bytes ++ more) (length (delimited bytes) + n) msg m h)
        ≡ ok tt (on more n msg (stored_text m at bytes nonzero) h)
  unfolding pb_decoders
  string-run subs lt small fits more n msg h nonzero =
      rw (lt, on-delimited bytes more n msg m h)
        ((pb_dec_string_lem f not_pointer at bytes more n msg m h small).0 fits)

  pub string-got :
      (sub : ℕ → ℕ → Values) (nonzero : All (λ b. b ≢ 0) bytes)
      → ltype f ≡ ltype_string
      → length bytes < f.data_size
      → get_field sub (stored_text m at bytes nonzero) f at ≡ text bytes
  string-got sub nonzero lt fits =
      let t = stored_text m at bytes nonzero in
      get-string sub t f at lt
      ∙ ap (λ n. text (load_bytes t at n)) (strnlen-stored m at bytes nonzero f.data_size fits)
      ∙ ap text (load-stored m at bytes nonzero)

  pub string-kept :
      (env : Env) (nonzero : All (λ b. b ≢ 0) bytes)
      → length bytes < f.data_size
      → Keeps env at f.data_size m (stored_text m at bytes nonzero)
  unfolding store word_bytes
  string-kept env nonzero fits q c out =
      store_bytes-outside (store_bytes m at bytes) (at + length bytes) (0 ∷ []) q (ending out)
      ∙ store_bytes-outside m at bytes q (start out)
    where
      ending :
          (q < at) ⊎ (at + f.data_size ≤ q) → (q < at + length bytes) ⊎ (at + length bytes + 1 ≤ q)
      ending (inl lt) = inl (omega arith)
      ending (inr le) = inr (omega arith)

      start : (q < at) ⊎ (at + f.data_size ≤ q) → (q < at) ⊎ (at + length bytes ≤ q)
      start (inl lt) = inl lt
      start (inr le) = inr (omega arith)

-- The call for a message in its struct.
pub message-run :
    (subs : Submessages) (f : Field) (at k : ℕ) (bytes : List ℕ)
    → IsRequired f
    → ltype f ≡ ltype_submessage
    → f.ptr ≡ submsg k
    → length bytes < 2 ^ 32
    → (more : List ℕ) (n : ℕ) (msg : Option String) (m t : Memory) (h : Heap)
    → subs.decode_noinit k at (on (bytes ++ more) (length bytes) msg m h)
      ≡ ok tt (on more 0 msg t h)
    → pb_decoders subs
        (ltype f)
        f
        at
        (on (delimited bytes ++ more) (length (delimited bytes) + n) msg m h)
      ≡ ok tt (on more n msg t h)
unfolding pb_decoders pb_dec_submessage submessage_by_ptr
message-run subs f at k bytes r lt p small more n msg m t h e =
    rw (lt, p, r.required)
      (in_substream-whole (subs.decode_noinit k at) bytes more n msg m t h small e)
