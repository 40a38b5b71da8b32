-- ===== src/Decode/FieldSteps.antt =====
-- The functions of the table PB_DECODERS write only into the field that they decode.
use pincushion.Prelude.{ℕ, ◌+◌, ◌≤◌, ◌≡◌, refl, arith, Bool, true, false, String}
use pincushion.Prelude.{ok, fail, final, Leads, ltb, ◌==◌, not, Outcome, ◌>>=◌, if◌then◌else◌}
use pincushion.Prelude.{inl, inr, Bool-cases, u32, length-replicate, replicate, ==_iff}
use pincushion.Memory.{load_pointer}
use pincushion.Varint.Advance.{pb_decode_varint-Advances, pb_decode_varint32-Advances}
use pincushion.Wire.Advance.{pb_decode_svarint-Advances, pb_decode_fixed32-Advances}
use pincushion.Wire.Advance.{pb_decode_fixed64-Advances}
use pincushion.Field.{Field, atype, atype_pointer, pb_size_max}
use pincushion.Encode.{bytes_array_allocsize}
use pincushion.Decode.{State, Decode, return_error, read_to, store_integer, store_by_data_size}
use pincushion.Decode.{clamp_signed, clamp_unsigned}
use pincushion.Decode.{pb_dec_varint, pb_dec_uvarint, pb_dec_svarint, pb_dec_fixed32}
use pincushion.Decode.{pb_dec_fixed64, pb_dec_bytes, pb_dec_string, pb_dec_fixed_length_bytes}
use pincushion.Decode.{place, terminated}
use pincushion.Decode.Steps.{Step, Step-trans, Avoids, bind, choose, when, test, pure-Step}
use pincushion.Decode.Steps.{fail-Step, error-Step, from_stream-Step, write_word-Step}
use pincushion.Decode.Steps.{write_bytes-Step, read_to-Step, allocate_field-Step}

module _ (K : ℕ → Type 0) where
  -- Fewer bytes, from a later address on, avoid the set too.
  within : (p n q m : ℕ) → Avoids K p n → p ≤ q → q + m ≤ p + n → Avoids K q m
  within p n q m av lo hi x k = let a = av x k in ground arith

  store_integer-Step :
      (clamp : ℕ → ℕ → ℕ) (dest value size : ℕ)
      → Avoids K dest size
      → Leads (Step K) (store_integer clamp dest value size)
  unfolding store_integer
  store_integer-Step clamp dest value size av = record {
    at = λ s.
        (bind K (write_word-Step K dest size value av) (λ _.
            test K (λ _. clamp size value == value) (pure-Step K tt)
              (error-Step K "integer too large"))).at
          s;
  }

  -- The chain of tests ends at the store of the size that was found.
  by_size :
      (clamp : ℕ → ℕ → ℕ) (dest value data_size size : ℕ) {other : Decode (Unit {0})}
      → Avoids K dest data_size
      → Leads (Step K) other
      → Leads (Step K) (if data_size == size then store_integer clamp dest value size else other)
  by_size clamp dest value data_size size av h = elim (Bool-cases (data_size == size)) [
    | inl e ↦
        let same = (==_iff data_size size).0 e in
        rw e (store_integer-Step clamp dest value size (rw same at av))
    | inr e ↦ rw e h
  ]

  store_by_data_size-Step :
      (clamp : ℕ → ℕ → ℕ) (dest value data_size : ℕ)
      → Avoids K dest data_size
      → Leads (Step K) (store_by_data_size clamp dest value data_size)
  unfolding store_by_data_size
  store_by_data_size-Step clamp dest value data_size av =
      let step = by_size clamp dest value data_size in
      by_size clamp dest value data_size 8 av (
        by_size clamp dest value data_size 4 av (
          by_size clamp dest value data_size 2 av
            (by_size clamp dest value data_size 1 av (error-Step K "invalid data_size"))))

  pub pb_dec_varint-Step :
      (field : Field) (dest : ℕ)
      → Avoids K dest field.data_size
      → Leads (Step K) (pb_dec_varint field dest)
  unfolding pb_dec_varint
  pb_dec_varint-Step field dest av = bind K (from_stream-Step K pb_decode_varint-Advances) (λ value.
      store_by_data_size-Step clamp_signed dest
        (if field.data_size == 8 then value else clamp_signed 4 value) field.data_size av)

  pub pb_dec_uvarint-Step :
      (field : Field) (dest : ℕ)
      → Avoids K dest field.data_size
      → Leads (Step K) (pb_dec_uvarint field dest)
  unfolding pb_dec_uvarint
  pb_dec_uvarint-Step field dest av =
      bind K (from_stream-Step K pb_decode_varint-Advances)
        (λ value. store_by_data_size-Step clamp_unsigned dest value field.data_size av)

  pub pb_dec_svarint-Step :
      (field : Field) (dest : ℕ)
      → Avoids K dest field.data_size
      → Leads (Step K) (pb_dec_svarint field dest)
  unfolding pb_dec_svarint
  pb_dec_svarint-Step field dest av =
      bind K (from_stream-Step K pb_decode_svarint-Advances)
        (λ value. store_by_data_size-Step clamp_signed dest value field.data_size av)

  pub pb_dec_fixed32-Step :
      (field : Field) (dest : ℕ) → Avoids K dest 4 → Leads (Step K) (pb_dec_fixed32 field dest)
  unfolding pb_dec_fixed32
  pb_dec_fixed32-Step field dest av =
      bind K (from_stream-Step K pb_decode_fixed32-Advances)
        (λ value. write_word-Step K dest 4 value av)

  pub pb_dec_fixed64-Step :
      (field : Field) (dest : ℕ) → Avoids K dest 8 → Leads (Step K) (pb_dec_fixed64 field dest)
  unfolding pb_dec_fixed64
  pb_dec_fixed64-Step field dest av =
      bind K (from_stream-Step K pb_decode_fixed64-Advances)
        (λ value. write_word-Step K dest 8 value av)

  -- A pointer is followed only where nothing is kept.
  abbrev pub Static : Field → Type 0
  Static field = (atype field == atype_pointer) ≡ true → (q : ℕ) → ¬ K q

  placed_by :
      (dest : ℕ) (msg : String) (pointer large : Bool) {m : Decode ℕ} {f : ℕ → Decode (Unit {0})}
      → (pointer ≡ true → Leads (Step K) m × ((p : ℕ) → Leads (Step K) (f p)))
      → (large ≡ false → Leads (Step K) (f dest))
      → Leads
          (Step K)
          ((λ s. if pointer then m s else if large then return_error msg s else ok dest s) >>= f)
  placed_by dest msg true large hm h = bind K (hm refl).0 (hm refl).1
  placed_by dest msg false true hm h = record { at = (error-Step K {A = Unit {0}} msg).at }
  placed_by dest msg false false hm h = record { at = (h refl).at }

  placed :
      (field : Field) (dest alloc_size : ℕ) (msg : String) {f : ℕ → Decode (Unit {0})}
      → Static field
      → Avoids K dest field.data_size
      → ((p : ℕ) → Avoids K p alloc_size → Leads (Step K) (f p))
      → Leads (Step K) (place field dest alloc_size msg >>= f)
  unfolding place
  placed field dest alloc_size msg {f} static av h =
      placed_by dest msg (atype field == atype_pointer) (ltb field.data_size alloc_size)
        (λ e. (
          bind K (allocate_field-Step K (static e) dest alloc_size 1)
              (λ _. record { at = λ s. (pure-Step K (load_pointer s.memory dest)).at s }),
          λ p. h p (λ q k. absurd (static e q k)),
        ))
        (λ e. h dest (within dest field.data_size dest alloc_size av (omega arith) (ground arith)))

  pub pb_dec_bytes-Step :
      (field : Field) (dest : ℕ)
      → Static field
      → Avoids K dest field.data_size
      → Leads (Step K) (pb_dec_bytes field dest)
  unfolding pb_dec_bytes
  pb_dec_bytes-Step field dest static av =
      bind K (from_stream-Step K pb_decode_varint32-Advances) (λ size.
        when K (ltb pb_size_max size) (λ _. error-Step K "bytes overflow")
          (λ e.
            let alloc_size = bytes_array_allocsize size in
            choose K (ltb alloc_size size) (error-Step K "size too large") (
              placed field dest alloc_size "bytes overflow" static av (λ p room.
                let all : alloc_size ≡ size + 4 = ground arith in
                bind K
                  (write_word-Step K p 4 size
                    (within p alloc_size p 4 room (omega arith) (omega arith)))
                  (λ _.
                    read_to-Step K (p + 4) size
                      (within p alloc_size (p + 4) size room (omega arith) (omega arith)))))))

  terminated-Step :
      (p : ℕ) (s : State) (o : Outcome State (Unit {0}))
      → Avoids K p 1
      → Step K s (final o)
      → Step K s (final (terminated p o))
  unfolding terminated
  terminated-Step p s (ok a t) av h = Step-trans K s t _ h ((write_word-Step K p 1 0 av).at t)
  terminated-Step p s (fail t) av h =
      Step-trans K s t _ h
        ((bind K (write_word-Step K p 1 0 av) (λ _. fail-Step K {A = Unit {0}})).at t)

  pub pb_dec_string-Step :
      (field : Field) (dest : ℕ)
      → Static field
      → Avoids K dest field.data_size
      → Leads (Step K) (pb_dec_string field dest)
  unfolding pb_dec_string
  pb_dec_string-Step field dest static av =
      bind K (from_stream-Step K pb_decode_varint32-Advances) (λ size.
        let alloc_size = u32 (size + 1) in
        when K (ltb alloc_size size) (λ _. error-Step K "size too large")
          (λ e. placed field dest alloc_size "string overflow" static av (λ p room.
            let all : alloc_size ≡ size + 1 = ground arith in
            record {
              at = λ s.
                  terminated-Step (p + size) s (read_to p size s)
                    (within p alloc_size (p + size) 1 room (omega arith) (omega arith))
                    ((read_to-Step K p size
                        (within p alloc_size p size room (omega arith) (omega arith))).at
                      s);
            })))

  pub pb_dec_fixed_length_bytes-Step :
      (field : Field) (dest : ℕ)
      → Avoids K dest field.data_size
      → Leads (Step K) (pb_dec_fixed_length_bytes field dest)
  unfolding pb_dec_fixed_length_bytes
  pb_dec_fixed_length_bytes-Step field dest av =
      bind K (from_stream-Step K pb_decode_varint32-Advances) (λ size.
        choose K (ltb pb_size_max size) (error-Step K "bytes overflow") (
          choose K (size == 0)
            (write_bytes-Step K dest (replicate field.data_size 0) field.data_size
              (omega (arith, length-replicate {A = ℕ} field.data_size 0)) av)
            (choose K (not (size == field.data_size))
              (error-Step K "incorrect fixed length bytes size")
              (read_to-Step K dest field.data_size av))))
