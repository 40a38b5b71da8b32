-- ===== src/Decode/ReleaseStream.antt =====
-- The release of messages in nanopb/pb_decode.c does not touch the stream.
use pincushion.Prelude.{ℕ, zero, suc, ◌+◌, ◌≡◌, refl, ◌∙◌, Bool, true, false, List, length}
use pincushion.Prelude.{if◌then◌else◌, ◌==◌, ◌&&◌, ◌||◌, not, u64}
use pincushion.Memory.{load, load_pointer, pointer_size}
use pincushion.Field.{Field, FieldIter, ltype, htype, atype, pos, ltype_extension}
use pincushion.Field.{ltype_submessage, ltype_string, ltype_bytes, htype_repeated, htype_oneof}
use pincushion.Field.{atype_pointer, pb_field_iter_begin, pb_field_iter_next, nonempty}
use pincushion.Decode.{State, pb_free, give_back, freed, Freed}
use pincushion.Decode.Env.{Env, each_field, fields_of, iter_from_extension, next_extension, put}
use pincushion.Decode.Release.{release_extensions, release_items, submessage_count}
use pincushion.Decode.Release.{release_submessages, release_entries, release_pointer}
use pincushion.Decode.Release.{release_message, pb_release_single_field, pb_release}

-- The stream is the same after a change of the state.
abbrev pub SameStream : (State → State) → Type 0
SameStream f = (s : State) → (f s).stream ≡ s.stream

choice :
    (b : Bool) (s : State) (x y : State)
    → x.stream ≡ s.stream
    → y.stream ≡ s.stream
    → (if b then x else y).stream ≡ s.stream
choice true s x y hx hy = hx
choice false s x y hx hy = hy

pb_free-stream : (ptr : ℕ) → SameStream (pb_free ptr)
unfolding pb_free
pb_free-stream ptr s = given s (give_back s.heap s.memory ptr)
  where
    given :
        (s : State) (g : Freed)
        → let t : State = elim g [ freed m h ↦ record s { memory = m; heap = h } ] in
          t.stream ≡ s.stream
    given s (freed m h) = refl

module _ (self : FieldIter → State → State)
    (same : (iter : FieldIter) → SameStream (self iter)) where
  release_extensions-stream :
      (env : Env) (fuel ext : ℕ) → SameStream (release_extensions env self fuel ext)
  unfolding release_extensions
  release_extensions-stream env zero ext s = refl
  release_extensions-stream env (suc fuel) ext s =
      let s' = self (iter_from_extension env s.memory ext) s in
      choice (ext == 0) s s _ refl (
        release_extensions-stream env fuel (next_extension s'.memory ext) s'
        ∙ same (iter_from_extension env s.memory ext) s)

  each_field-stream : (fuel : ℕ) (iter : FieldIter) → SameStream (each_field self fuel iter)
  unfolding each_field
  each_field-stream zero iter s = refl
  each_field-stream (suc fuel) iter s =
      let (next, more) = pb_field_iter_next iter in
      choice more s _ _ (each_field-stream fuel next (self iter s) ∙ same iter s) (same iter s)

  release_message-stream :
      (fields : List Field) (dest : ℕ) → SameStream (release_message self fields dest)
  unfolding release_message
  release_message-stream fields dest s =
      let iter = pb_field_iter_begin fields dest in
      choice (dest == 0) s s _ refl
        (choice (nonempty iter) s _ s (each_field-stream (length fields) iter s) refl)

module _ (message : ℕ → State → State) (same : (p : ℕ) → SameStream (message p)) where
  release_items-stream :
      (data_size count p_item : ℕ) → SameStream (release_items message data_size count p_item)
  unfolding release_items
  release_items-stream data_size zero p_item s = refl
  release_items-stream data_size (suc count) p_item s =
      release_items-stream data_size count (u64 (p_item + data_size)) (message p_item s)
      ∙ same p_item s

release_submessages-stream :
    (env : Env) (message : List Field → ℕ → State → State) (iter : FieldIter)
    → ((fields : List Field) (p : ℕ) → SameStream (message fields p))
    → SameStream (release_submessages env message iter)
unfolding release_submessages
release_submessages-stream env message iter same s =
    let p_item =
      if atype (pos iter) == atype_pointer
      then load_pointer s.memory iter.p_data
      else iter.p_data in
    let fields = fields_of env (pos iter).ptr in
    choice (p_item == 0) s s _ refl (
      release_items-stream (message fields) (same fields) (pos iter).data_size
        (submessage_count iter s.memory) p_item s)

release_entries-stream : (count p_item : ℕ) → SameStream (release_entries count p_item)
unfolding release_entries
release_entries-stream zero p_item s = refl
release_entries-stream (suc count) p_item s =
    let ptr = load_pointer s.memory p_item in
    release_entries-stream count (u64 (p_item + pointer_size))
      (put p_item pointer_size 0 (pb_free ptr s))
    ∙ pb_free-stream ptr s

release_pointer-stream : (iter : FieldIter) → SameStream (release_pointer iter)
unfolding release_pointer
release_pointer-stream iter s =
    let repeated = htype (pos iter) == htype_repeated in
    let entries =
      release_entries (load s.memory iter.p_size 4) (load_pointer s.memory iter.p_data) s in
    let strings =
      repeated && (ltype (pos iter) == ltype_string || ltype (pos iter) == ltype_bytes) in
    let s₁ = if strings then entries else s in
    let s₂ = if repeated then put iter.p_size 4 0 s₁ else s₁ in
    let first : s₁.stream ≡ s.stream =
      choice strings s entries s
        (release_entries-stream (load s.memory iter.p_size 4) (load_pointer s.memory iter.p_data) s)
        refl in
    let second : s₂.stream ≡ s₁.stream = choice repeated s₁ (put iter.p_size 4 0 s₁) s₁ refl refl in
    pb_free-stream (load_pointer s₂.memory iter.p_data) s₂ ∙ (second ∙ first)

pub pb_release_single_field-stream :
    (env : Env) (depth : ℕ) (iter : FieldIter) → SameStream (pb_release_single_field env depth iter)
unfolding pb_release_single_field
pb_release_single_field-stream env zero iter s = refl
pb_release_single_field-stream env (suc depth) iter s =
    let self = pb_release_single_field env depth in
    let same = pb_release_single_field-stream env depth in
    let s' =
      if ltype (pos iter) == ltype_extension
      then release_extensions env self (suc depth) (load_pointer s.memory iter.p_data) s
      else if ltype (pos iter) == ltype_submessage
      then release_submessages env (release_message self) iter s
      else s in
    let inner : s'.stream ≡ s.stream =
      choice (ltype (pos iter) == ltype_extension) s _ _
        (release_extensions-stream self same env (suc depth) (load_pointer s.memory iter.p_data) s)
        (choice (ltype (pos iter) == ltype_submessage) s _ s
          (release_submessages-stream env (release_message self) iter
            (release_message-stream self same) s)
          refl) in
    choice (htype (pos iter) == htype_oneof && not (load s.memory iter.p_size 4 == (pos iter).tag))
      s s _ refl
      (choice (atype (pos iter) == atype_pointer) s _ s' (release_pointer-stream iter s' ∙ inner)
        inner)

pub pb_release-stream :
    (env : Env) (depth : ℕ) (fields : List Field) (dest : ℕ)
    → SameStream (pb_release env depth fields dest)
unfolding pb_release
pb_release-stream env depth fields dest =
    release_message-stream (pb_release_single_field env depth)
      (pb_release_single_field-stream env depth) fields dest
