-- ===== src/Struct/RoundTrip.antt =====
-- `pb_decode` of nanopb/pb_decode.c on what `pb_encode` of nanopb/pb_encode.c writes for a struct.
use pincushion.Prelude.{ℕ, zero, suc, ◌+◌, ◌^◌, ◌<◌, ◌≤◌, ◌≡◌, refl, arith, List, ◌++◌, length}
use pincushion.Prelude.{ok}
use pincushion.Prelude.{Option, String, inl, inr}
use pincushion.Memory.{Memory}
use mathlib.Core.Path.{subst, sym}
use native.Mathlib.Nat.{add-zero}
use pincushion.Ostream.Write.{Emits}
use pincushion.Field.{Field}
use pincushion.Encode
use pincushion.Encode.Message.{pb_encode, pb_encode_delimited}
use pincushion.Encode.Size.{pb_encode_delimited-Emits}
use pincushion.Decode.{State, Decode, Heap}
use pincushion.Decode.Env.{Env}
use pincushion.Decode.Delimited.{in_substream-whole}
use pincushion.Decode.Integers.{on}
use pincushion.Decode.Default.{pb_message_set_to_defaults}
use pincushion.Decode.Static.{Submessages}
use pincushion.Decode.Entry.{init_and_decode, pb_decode_noinit, pb_decode, pb_decode_delimited}
use pincushion.Struct.{extent}
use pincushion.Struct.Values.{Values, Holds, Nested, struct_values, values_bytes, IsMessage}
use pincushion.Struct.Values.{delimited}
use pincushion.Struct.Stays.{AllClear, Keeps, struct_values-stays}
use pincushion.Struct.Encode.{AllHold-IsRequired, pb_encode-Emits}
use pincushion.Struct.Decode.{message-decodes}

module _ (env : Env) where
  abbrev messages : ℕ → List Field
  messages = env.messages

  -- What a decoder leaves at an address, given the bytes of values.
  abbrev pub Restores :
      ℕ
      → List Field
      → ℕ
      → Values
      → List ℕ
      → Option String
      → Memory
      → Heap
      → Decode (Unit {0})
      → Memory
      → Type 0
  Restores depth fields dest values more msg m h decode start =
      let bytes = values_bytes messages depth fields values in
      (t : Memory) × (decode (on (bytes ++ more) (length bytes) msg m h)
        ≡ ok tt (on more 0 msg t h))
      × (struct_values messages depth t fields dest ≡ values)
      × Keeps env dest (extent fields) start t

  Keeps-more :
      (at size size' : ℕ) (m t : Memory)
      → size ≤ size'
      → Keeps env at size m t
      → Keeps env at size' m t
  Keeps-more at size size' m t le kept q c (inl lt) = kept q c (inl lt)
  Keeps-more at size size' m t le kept q c (inr ge) = kept q c (inr (omega arith))

  -- `pb_decode_noinit` refines the abstract decoder: on the bytes of the values of a message, as `IsMessage` describes it,
  -- of required numbers, strings, bytes and messages that fit their fields, with distinct tags below 2 ^ 29, nested
  -- no deeper than `depth`, for a struct that ends below 2 ^ 64 and has none of the variables `fixed_count_size` in it, it
  -- returns true, takes the bytes and no more, leaves these values in the struct, and changes no other memory but
  -- those variables.
  pub pb_decode_noinit-values_bytes :
      (depth : ℕ) (fields : List Field) (dest_struct : ℕ) (values : Values)
      → IsMessage messages depth fields values
      → dest_struct + extent fields < 2 ^ 64
      → AllClear env dest_struct (extent fields)
      → (more : List ℕ) (msg : Option String) (m : Memory) (h : Heap)
      → Restores depth fields dest_struct values more msg m h
          (pb_decode_noinit env depth fields dest_struct)
          m
  unfolding pb_decode_noinit struct_values values_bytes
  pb_decode_noinit-values_bytes zero fields dest values is room clear more msg m h = elim is [ ]
  pb_decode_noinit-values_bytes (suc depth) fields dest values (distinct, all) room clear more msg m
        h =
      let noinit = λ (message dest : ℕ). pb_decode_noinit env depth (messages message) dest in
      let init = λ (message dest : ℕ).
        init_and_decode env depth (messages message) dest (noinit message dest) in
      let subs : Submessages = record { decode = init; decode_noinit = noinit } in
      message-decodes env (suc depth) subs (Nested messages depth)
        (λ m k at. struct_values messages depth m (messages k) at)
        (λ k sub. values_bytes messages depth (messages k) sub) (λ k size sub s. s.1)
        (λ k size at sub m t s e same.
          struct_values-stays messages depth (messages k) at sub m t s.2 e
            (λ q lo hi. same q lo (omega (arith, s.0))))
        (λ k size at sub s room clear more msg m h.
          let (t, run, got, kept) =
            pb_decode_noinit-values_bytes depth (messages k) at sub s.2 (omega (arith, s.0))
              (λ q lo hi. clear q lo (omega (arith, s.0))) more msg m h in
          (t, run, got, Keeps-more at (extent (messages k)) size m t s.0 kept))
        fields dest (AllHold-IsRequired (Holds (Nested messages depth)) fields values all) distinct
        room clear values all more msg m h

initialized :
    (env : Env) (depth : ℕ) (fields : List Field) (dest_struct : ℕ) (noinit : Decode (Unit {0}))
    (s t : State)
    → noinit
        (record s { memory = pb_message_set_to_defaults env depth fields dest_struct s.memory })
      ≡ ok tt t
    → init_and_decode env depth fields dest_struct noinit s ≡ ok tt t
unfolding init_and_decode
initialized env depth fields dest_struct noinit s t e = rw (e, init_and_decode) refl

module _ (from : Encode.Env) (to : Env) (same : from.messages ≡ to.messages) (depth : ℕ)
    (fields : List Field) (src_struct dest_struct : ℕ) where
  abbrev pub values : Values
  values = struct_values from.messages depth from.memory fields src_struct

  -- The bytes of these values.
  abbrev pub written : List ℕ
  written = values_bytes from.messages depth fields values

  -- A decoder leaves the same values at `dest_struct`; it takes `n` bytes fewer than it may read, and `more` follows.
  abbrev pub Copied : Decode (Unit {0}) → List ℕ → ℕ → Type 0
  Copied decode bytes n =
      (more : List ℕ) (msg : Option String) (m : Memory) (h : Heap)
      → (t : Memory) × (decode (on (bytes ++ more) (length bytes + n) msg m h)
          ≡ ok tt (on more n msg t h))
        × (struct_values from.messages depth t fields dest_struct ≡ values)
        × Keeps to dest_struct (extent fields)
            (pb_message_set_to_defaults to depth fields dest_struct m) t

  module _ (is : IsMessage from.messages depth fields values) (positive : 0 < src_struct)
      (room : src_struct + extent fields < 2 ^ 64) (room' : dest_struct + extent fields < 2 ^ 64)
      (clear : AllClear to dest_struct (extent fields)) where
    copied :
        (more : List ℕ) (msg : Option String) (m : Memory) (h : Heap)
        → (t : Memory) × (pb_decode to depth fields dest_struct
              (on (written ++ more) (length written) msg m h)
            ≡ ok tt (on more 0 msg t h))
          × (struct_values from.messages depth t fields dest_struct ≡ values)
          × Keeps to dest_struct
              (extent fields)
              (pb_message_set_to_defaults to depth fields dest_struct m)
              t
    unfolding pb_decode
    copied more msg m h =
        let is' = subst (λ messages. IsMessage messages depth fields values) same is in
        let start = pb_message_set_to_defaults to depth fields dest_struct m in
        let (t, run, got, kept) =
          subst
            (λ messages.
              let bytes = values_bytes messages depth fields values in
              (t : Memory) × (pb_decode_noinit to depth fields dest_struct
                  (on (bytes ++ more) (length bytes) msg start h)
                ≡ ok tt (on more 0 msg t h))
              × (struct_values messages depth t fields dest_struct ≡ values)
              × Keeps to dest_struct (extent fields) start t)
            (sym same)
            (pb_decode_noinit-values_bytes to depth fields dest_struct values is' room' clear more
              msg start h) in
        (
          t,
          initialized to depth fields dest_struct (pb_decode_noinit to depth fields dest_struct)
              (on (written ++ more) (length written) msg m h) (on more 0 msg t h) run,
          got,
          kept,
        )

    -- The round trip of messages: for a struct of required numbers, strings, bytes and messages that does not start at
    -- NULL and ends below 2 ^ 64, `pb_encode` writes the bytes of `values_bytes`, on a stream that counts and into a buffer
    -- with room for them, failing in one that is too small, as `Emits` says, and from these bytes `pb_decode` makes a struct with the same values, whatever follows them and
    -- whatever the memory was. It returns true, takes exactly these bytes, and of the memory
    -- behind `pb_message_set_to_defaults` it changes that struct and its own variables only. As `IsMessage` says, the tags
    -- of a message are distinct and below 2 ^ 29, numbers, strings and bytes fit their fields, messages inside it
    -- have fewer than 2 ^ 32 bytes and fit their structs, and the nesting is no deeper than `depth`. The message types are
    -- the same on both sides. The new struct ends below 2 ^ 64 and has none of those variables in it.
    pub pb_decode-pb_encode :
        Emits (pb_encode from depth fields src_struct) written
        × Copied (pb_decode to depth fields dest_struct) written 0
    pb_decode-pb_encode = (
      pb_encode-Emits from depth fields src_struct is positive room,
      λ more msg m h. rw add-zero (copied more msg m h),
    )

    -- `pb_encode_delimited` writes such a message, of fewer than 2 ^ 32 bytes, as the varint of its length and the bytes of
    -- `values_bytes`, on streams as `Emits` says, and from these `pb_decode_delimited` makes a struct
    -- with the same values and leaves the stream, of which any number of bytes may still be read, behind the message:
    -- messages can follow each other. The structs lie between NULL and 2 ^ 64, the message is one of `IsMessage`, of the
    -- same types on both sides, and the new struct has none of the variables of `pb_decode_noinit` in it.
    pub pb_decode_delimited-pb_encode_delimited :
        length written < 2 ^ 32
        → Emits (pb_encode_delimited from depth fields src_struct) (delimited written)
          × ((n : ℕ)
              → Copied (pb_decode_delimited to depth fields dest_struct) (delimited written) n)
    unfolding pb_decode_delimited
    pb_decode_delimited-pb_encode_delimited small = (
      pb_encode_delimited-Emits from depth fields src_struct written (omega arith)
          (pb_encode-Emits from depth fields src_struct is positive room),
      λ n more msg m h.
          let (t, run, got, kept) = copied more msg m h in
          (
            t,
            in_substream-whole (pb_decode to depth fields dest_struct) written more n msg m t h
                small run,
            got,
            kept,
          ),
    )
