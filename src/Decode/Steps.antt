-- ===== src/Decode/Steps.antt =====
-- What every decoder of nanopb/pb_decode.c keeps: `bytes_left` does not grow, and a stream over a buffer leaves
-- the memory as it is at the addresses of a set `K` that the decoder has nothing to write to.
use pincushion.Prelude.{ℕ, ◌+◌, ◌*◌, ◌≤◌, ◌<◌, ◌≡◌, refl, ◌∙◌, arith, Bool, true, false, List}
use pincushion.Prelude.{length, String}
use pincushion.Prelude.{ok, fail, pure, final, Leads, Leads-bind, Leads-if, Leads-test, ◌==◌}
use pincushion.Prelude.{◌||◌, Outcome, ◌>>=◌, if◌then◌else◌, inl, inr, Bool-cases, ◌⊎◌, u64}
use pincushion.Memory.{store_bytes, store, load_pointer, pointer_size, word_bytes}
use pincushion.Memory.Laws.{store_bytes-outside, length-word_bytes}
use pincushion.Istream.{Istream, Read, pb_read}
use pincushion.Istream.Advance.{Advances, Advances-refl, Advances-trans, IsBuffer, Delivers}
use pincushion.Istream.Advance.{pb_read-Delivers, pb_read-Advances}
use pincushion.Decode.{State, Decode, return_error, from_stream, write_bytes, write_word}
use pincushion.Decode.{read_to, allocate_field, too_large, reallocate, ask_heap, grant, Grant}

module _ (K : ℕ → Type 0) where
  pub record Step (s t : State) : Type 0 where
    pub advances : Advances s.stream t.stream
    pub kept : IsBuffer s.stream.source → (q : ℕ) → K q → t.memory q ≡ s.memory q

  -- `n` bytes from `p` on have no address of the set.
  abbrev pub Avoids : ℕ → ℕ → Type 0
  Avoids p n = (q : ℕ) → K q → (q < p) ⊎ (p + n ≤ q)

  pub Step-refl : (s : State) → Step s s
  Step-refl s = record { advances = Advances-refl s.stream; kept = λ b q k. refl }

  pub Step-trans : (s t u : State) → Step s t → Step t u → Step s u
  Step-trans s t u h k = record {
    advances = Advances-trans h.advances k.advances;
    kept = λ b q i. k.kept (h.advances.buffered b) q i ∙ h.kept b q i;
  }

  pub bind :
      {A B : Type 0} {m : Decode A} {f : A → Decode B}
      → Leads Step m
      → ((a : A) → Leads Step (f a))
      → Leads Step (m >>= f)
  bind {m = m} {f = f} = Leads-bind Step Step-trans m f

  pub choose :
      {A : Type 0} {m n : Decode A} (b : Bool)
      → Leads Step m
      → Leads Step n
      → Leads Step (if b then m else n)
  choose = Leads-if Step

  -- A test whose branches are taken under its outcomes.
  pub when :
      {m n : Decode (Unit {0})} (b : Bool)
      → (b ≡ true → Leads Step m)
      → (b ≡ false → Leads Step n)
      → Leads Step (if b then m else n)
  when true hm hn = hm refl
  when false hm hn = hn refl

  -- The same for a test behind the state.
  pub split :
      {m n : Decode (Unit {0})} (b : Bool)
      → (b ≡ true → Leads Step m)
      → (b ≡ false → Leads Step n)
      → Leads Step (λ s. if b then m s else n s)
  split true hm hn = record { at = (hm refl).at }
  split false hm hn = record { at = (hn refl).at }

  pub test :
      {A : Type 0} {m n : Decode A} (b : State → Bool)
      → Leads Step m
      → Leads Step n
      → Leads Step (λ s. if b s then m s else n s)
  test = Leads-test Step

  pub pure-Step : {A : Type 0} (a : A) → Leads Step (pure a)
  pure-Step a = record { at = Step-refl }

  pub fail-Step : {A : Type 0} → Leads {A = A} Step fail
  fail-Step = record { at = Step-refl }

  pub error-Step : {A : Type 0} (msg : String) → Leads Step (return_error {A = A} msg)
  error-Step msg = record {
    at = λ s. record {
      advances = record { fewer = omega arith; buffered = λ b. b };
      kept = λ b q k. refl;
    };
  }

  on_stream :
      {A : Type 0} (s : State) (o : Outcome Istream A)
      → Advances s.stream (final o)
      → Step s (final (from_stream (λ _. o) s))
  on_stream s (ok a t) h = record { advances = h; kept = λ b q k. refl }
  on_stream s (fail t) h = record { advances = h; kept = λ b q k. refl }

  pub from_stream-Step :
      {A : Type 0} {read : Read A} → Leads Advances read → Leads Step (from_stream read)
  from_stream-Step {read = read} h = record {
    at = λ s. on_stream s (read s.stream) (h.at s.stream);
  }

  -- A store into bytes that the set does not have.
  pub put-Step :
      (s : State) (dest : ℕ) (bytes : List ℕ) (n : ℕ)
      → (IsBuffer s.stream.source → length bytes ≤ n)
      → Avoids dest n
      → Step s (record s { memory = store_bytes s.memory dest bytes })
  put-Step s dest bytes n h av = record {
    advances = Advances-refl s.stream;
    kept = λ b q k.
        let le = h b in let a = av q k in store_bytes-outside s.memory dest bytes q (ground arith);
  }

  pub write_word-Step :
      (dest size value : ℕ) → Avoids dest size → Leads Step (write_word dest size value)
  unfolding store
  write_word-Step dest size value av = record {
    at = λ s.
        put-Step s dest (word_bytes size value) size
          (λ b. omega (arith, length-word_bytes size value)) av;
  }

  pub write_bytes-Step :
      (dest : ℕ) (bytes : List ℕ) (n : ℕ)
      → length bytes ≤ n
      → Avoids dest n
      → Leads Step (write_bytes dest bytes)
  write_bytes-Step dest bytes n h av = record { at = λ s. put-Step s dest bytes n (λ _. h) av }

  read_into :
      (dest count : ℕ) (s : State) (o : Outcome Istream (List ℕ))
      → Avoids dest count
      → Advances s.stream (final o)
      → (IsBuffer s.stream.source → Delivers count o)
      → Step s (final ((from_stream (λ _. o) >>= write_bytes dest) s))
  read_into dest count s (ok bytes t) av h d = record {
    advances = h;
    kept = λ b q k.
        let le = d b in let a = av q k in store_bytes-outside s.memory dest bytes q (ground arith);
  }
  read_into dest count s (fail t) av h d = record { advances = h; kept = λ b q k. refl }

  pub read_to-Step : (dest count : ℕ) → Avoids dest count → Leads Step (read_to dest count)
  unfolding read_to
  read_to-Step dest count av = record {
    at = λ s.
        read_into dest count s (pb_read count s.stream) av ((pb_read-Advances count).at s.stream)
          (pb_read-Delivers count s.stream);
  }

  -- Memory from the heap may lie anywhere, so nothing is said of the memory behind `allocate_field`.
  anywhere : ((q : ℕ) → ¬ K q) → (s t : State) → Advances s.stream t.stream → Step s t
  anywhere none s t h = record { advances = h; kept = λ b q k. absurd (none q k) }

  granted :
      (p_data : ℕ) (s : State) (g : Grant)
      → Advances s.stream
          (final {S = State} {A = Unit {0}} (elim g [
            | grant q m h ↦
                if q == 0
                then return_error "realloc failed" (record s { memory = m; heap = h })
                else ok tt (record s { memory = store m p_data pointer_size q; heap = h })
          ])).stream
  granted p_data s (grant q m h) = elim (Bool-cases (q == 0)) [
    | inl e ↦ rw e (record { fewer = omega arith; buffered = λ b. b })
    | inr e ↦ rw e (record { fewer = omega arith; buffered = λ b. b })
  ]

  pub allocate_field-Step :
      ((q : ℕ) → ¬ K q)
      → (p_data data_size array_size : ℕ) → Leads Step (allocate_field p_data data_size array_size)
  unfolding allocate_field reallocate
  allocate_field-Step none p_data data_size array_size =
      test (λ _. data_size == 0 || array_size == 0) (error-Step "invalid size")
        (test (λ _. too_large data_size array_size) (error-Step "size too large")
          (record {
            at = λ s. anywhere none s _ (
                granted p_data s (
                  ask_heap s.heap s.memory (load_pointer s.memory p_data)
                    (u64 (array_size * data_size))));
          }))
