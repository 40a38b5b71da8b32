-- ===== src/Struct/Decoders.antt =====
-- The table of decoders of nanopb/pb_decode.c on the value of a field.
use pincushion.Prelude.{ℕ, ◌+◌, ◌^◌, ◌<◌, ◌≡◌, ap, ◌∙◌, List}
use pincushion.Prelude.{◌++◌, length, ok, Option, String}
use pincushion.Memory.{Memory, store, word_bytes}
use pincushion.Memory.Laws.{load-store, store_bytes-outside, length-word_bytes}
use pincushion.Field.{Field, ltype}
use pincushion.Decode.{Heap}
use pincushion.Decode.Env.{Env}
use pincushion.Decode.Integers.{on}
use pincushion.Decode.Static.{Submessages, pb_decoders}
use pincushion.Struct.{IsRequired}
use pincushion.Struct.Numbers.{number-decodes}
use pincushion.Struct.Text.{stored_text}
use pincushion.Struct.Values.{Value, number, message, Values, message_of}
use pincushion.Struct.Values.{get_field, content_bytes}
use pincushion.Struct.Values.{Holds, is_number, is_bytes, is_string, is_message}
use pincushion.Struct.Encoders.{get-number}
use pincushion.Struct.Encoders.{get-message}
use pincushion.Struct.Stays.{AllClear, Keeps}
use pincushion.Struct.Contents.{stored_bytes, bytes-run, bytes-got, bytes-kept, string-run}
use pincushion.Struct.Contents.{string-got, string-kept, message-run}

-- The decoders, over that of a message.
module _ (env : Env) (depth : ℕ) (subs : Submessages) (Sub : ℕ → ℕ → Values → Type 0)
    (sub_values : Memory → ℕ → ℕ → Values) (sub_bytes : ℕ → Values → List ℕ)
    (small : (k size : ℕ) (values : Values)
      → Sub k size values
      → length (sub_bytes k values) < 2 ^ 32)
    (decodes : (k size at : ℕ) (values : Values)
      → Sub k size values
      → at + size < 2 ^ 64
      → AllClear env at size
      → (more : List ℕ) (msg : Option String) (m : Memory) (h : Heap)
      → let bytes = sub_bytes k values in
        (t : Memory) × (subs.decode_noinit k at (on (bytes ++ more) (length bytes) msg m h)
          ≡ ok tt (on more 0 msg t h))
        × (sub_values t k at ≡ values)
        × Keeps env at size m t) where
  -- What `decode` leaves at an address.
  abbrev pub Leaves : Field → ℕ → Value → List ℕ → ℕ → Option String → Memory → Heap → Type 0
  Leaves f at v more n msg m h =
      let bytes = content_bytes sub_bytes f v in
      (t : Memory) × (pb_decoders subs (ltype f) f at
          (on (bytes ++ more) (length bytes + n) msg m h)
        ≡ ok tt (on more n msg t h))
      × (get_field (sub_values t) t f at ≡ v)
      × Keeps env at f.data_size m t

  pub value-decodes :
      (f : Field) (at : ℕ) (v : Value)
      → Holds Sub f v
      → IsRequired f
      → at + f.data_size < 2 ^ 64
      → AllClear env at f.data_size
      → (more : List ℕ) (n : ℕ) (msg : Option String) (m : Memory) (h : Heap)
      → Leaves f at v more n msg m h
  unfolding content_bytes store
  value-decodes f at v (is_number word k fits) r room clear more n msg m h =
      let t = store m at f.data_size word in
      (
        t,
        number-decodes subs f at word fits more n msg m h k,
        get-number (sub_values t) t f at k ∙ ap number (load-store m at f.data_size word fits),
        λ q c out.
            store_bytes-outside m at (word_bytes f.data_size word) q
              (rw (length-word_bytes f.data_size word) out),
      )
  value-decodes f at v (is_bytes bytes lt short fits) r room clear more n msg m h = (
    stored_bytes f r.static at bytes m,
    bytes-run f r.static at bytes m subs lt short fits more n msg h,
    bytes-got f r.static at bytes m (sub_values (stored_bytes f r.static at bytes m)) lt short,
    bytes-kept f r.static at bytes m env fits,
  )
  value-decodes f at v (is_string bytes lt short fits nonzero) r room clear more n msg m h = (
    stored_text m at bytes nonzero,
    string-run f r.static at bytes m subs lt short fits more n msg h nonzero,
    string-got f r.static at bytes m (sub_values (stored_text m at bytes nonzero)) nonzero lt fits,
    string-kept f r.static at bytes m env nonzero fits,
  )
  value-decodes f at v (is_message k values lt p s) r room clear more n msg m h =
      let (t, e, got, keeps) = decodes k f.data_size at values s room clear more msg m h in
      (
        t,
        rw (ap message_of p) (
            message-run subs f at k (sub_bytes k values) r lt p (small k f.data_size values s) more
              n msg m t h e),
        get-message (sub_values t) t f at k lt p ∙ ap message got,
        keeps,
      )
