-- ===== src/Struct/Stays.antt =====
-- What stays of the values of a struct when the memory elsewhere changes.
use pincushion.Prelude.{ℕ, zero, suc, ◌+◌, ◌<◌, ◌≤◌, ◌≡◌, refl, ap, sym, ◌∙◌, arith, List, []}
use pincushion.Prelude.{◌∷◌, length, ◌⊎◌}
use pincushion.Memory.{Memory, load, load_bytes}
use pincushion.Memory.Laws.{load-ext}
use pincushion.Memory.Laws.{load_bytes-ext, length-load_bytes}
use pincushion.Field.{Field}
use pincushion.Encode.{strnlen}
use pincushion.Decode.Env.{Env}
use pincushion.Struct.{extent}
use pincushion.Struct.Text.{strnlen-ext}
use pincushion.Struct.Values.{Value, number, text, message, Values, empty, field}
use pincushion.Struct.Values.{get_field, get_fields}
use pincushion.Struct.Values.{Holds, is_number, is_bytes, is_string, is_message, AllHold}
use pincushion.Struct.Encoders.{text_of, message_values, get-number, get-bytes, get-string}
use pincushion.Struct.Encoders.{get-message}
use pincushion.Struct.Values.{struct_values, IsMessage, Nested}

-- An address that is not that of a `fixed_count_size`, a local variable of `pb_decode_noinit`.
abbrev pub Clear : Env → ℕ → Type 0
Clear env q = (depth : ℕ) → (q < env.fixed_count_size depth) ⊎ (env.fixed_count_size depth + 4 ≤ q)

-- Every address of the struct is.
abbrev pub AllClear : Env → ℕ → ℕ → Type 0
AllClear env at size = (q : ℕ) → at ≤ q → q < at + size → Clear env q

-- `t` is `m` but for `size` bytes at an address, and those variables.
abbrev pub Keeps : Env → ℕ → ℕ → Memory → Memory → Type 0
Keeps env at size m t = (q : ℕ) → Clear env q → (q < at) ⊎ (at + size ≤ q) → t q ≡ m q

-- The memories are the same there.
abbrev pub Agree : ℕ → ℕ → Memory → Memory → Type 0
Agree at size m t = (q : ℕ) → at ≤ q → q < at + size → t q ≡ m q

abbrev first_of : Values → Value
first_of empty = number 0
first_of (field v values) = v

abbrev others_of : Values → Values
others_of empty = empty
others_of (field v values) = values

-- Values stay where the memory does.
module _ (Sub : ℕ → ℕ → Values → Type 0) (sub_values : Memory → ℕ → ℕ → Values)
    (stays : (k size at : ℕ) (values : Values) (m t : Memory)
      → Sub k size values
      → sub_values m k at ≡ values
      → Agree at size m t
      → sub_values t k at ≡ values) where
  pub value-stays :
      (f : Field) (at : ℕ) (v : Value) (m t : Memory)
      → Holds Sub f v
      → get_field (sub_values m) m f at ≡ v
      → Agree at f.data_size m t
      → get_field (sub_values t) t f at ≡ v
  value-stays f at v m t (is_number word n fits) e same =
      get-number (sub_values t) t f at n
      ∙ ap number (load-ext t m at f.data_size same)
      ∙ sym (get-number (sub_values m) m f at n)
      ∙ e
  value-stays f at v m t (is_bytes bytes lt small fits) e same =
      let whole = sym (get-bytes (sub_values m) m f at lt) ∙ e in
      let size : length bytes ≡ load m at 4 =
        ap (λ v. length (text_of v)) (sym whole) ∙ length-load_bytes m (at + 4) (load m at 4) in
      let count : load t at 4 ≡ load m at 4 =
        load-ext t m at 4 (λ q lo hi. same q lo (omega arith)) in
      let content =
        load_bytes-ext t m (at + 4) (load m at 4)
          (λ q lo hi. same q (omega arith) (omega (arith, size))) in
      get-bytes (sub_values t) t f at lt
      ∙ ap (λ n. text (load_bytes t (at + 4) n)) count
      ∙ ap text content
      ∙ whole
  value-stays f at v m t (is_string bytes lt small fits nonzero) e same =
      let n = strnlen m f.data_size at in
      let whole = sym (get-string (sub_values m) m f at lt) ∙ e in
      let size : length bytes ≡ n =
        ap (λ v. length (text_of v)) (sym whole) ∙ length-load_bytes m at n in
      let count : strnlen t f.data_size at ≡ n = strnlen-ext t m f.data_size at same in
      let content = load_bytes-ext t m at n (λ q lo hi. same q lo (omega (arith, size))) in
      get-string (sub_values t) t f at lt
      ∙ ap (λ n. text (load_bytes t at n)) count
      ∙ ap text content
      ∙ whole
  value-stays f at v m t (is_message k values lt p s) e same =
      let inner : sub_values m k at ≡ values =
        ap message_values (sym (get-message (sub_values m) m f at k lt p) ∙ e) in
      get-message (sub_values t) t f at k lt p
      ∙ ap message (stays k f.data_size at values m t s inner same)

  pub fields-stay :
      (fields : List Field) (p : ℕ) (values : Values) (m t : Memory)
      → AllHold (Holds Sub) fields values
      → get_fields (get_field (sub_values m) m) p fields ≡ values
      → Agree p (extent fields) m t
      → get_fields (get_field (sub_values t) t) p fields ≡ values
  unfolding get_fields extent
  fields-stay [] p values m t all e same = e
  fields-stay (f ∷ fields) p empty m t all e same = elim all [ ]
  fields-stay (f ∷ fields) p (field v values) m t (r, holds, all) e same =
      let at = p + f.data_offset in
      let here =
        value-stays f at v m t holds (ap first_of e)
          (λ q lo hi. same q (omega arith) (omega arith)) in
      let behind =
        fields-stay fields (at + f.data_size) values m t all (ap others_of e)
          (λ q lo hi. same q (omega arith) (omega arith)) in
      rw (here, behind) refl

module _ (messages : ℕ → List Field) where
  -- The values of a struct stay where its memory does.
  pub struct_values-stays :
      (depth : ℕ) (fields : List Field) (p : ℕ) (values : Values) (m t : Memory)
      → IsMessage messages depth fields values
      → struct_values messages depth m fields p ≡ values
      → Agree p (extent fields) m t
      → struct_values messages depth t fields p ≡ values
  unfolding struct_values
  struct_values-stays zero fields p values m t is e same = elim is [ ]
  struct_values-stays (suc depth) fields p values m t (distinct, all) e same =
      fields-stay (Nested messages depth) (λ m k at. struct_values messages depth m (messages k) at)
        (λ k size at sub m t s e same.
          struct_values-stays depth (messages k) at sub m t s.2 e
            (λ q lo hi. same q lo (omega (arith, s.0))))
        fields p values m t all e same
