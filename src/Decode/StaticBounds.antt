-- ===== src/Decode/StaticBounds.antt =====
-- `decode_static_field` of nanopb/pb_decode.c stays inside the field, whatever bytes it is given.
use pincushion.Prelude.{ℕ, suc, ◌+◌, ◌*◌, ◌^◌, ◌≤◌, ◌<◌, ◌≡◌, ◌≢◌, arith, true, max, u32, u64}
use pincushion.Prelude.{◌==◌, ==_iff}
use pincushion.Prelude.{final, ◌⊎◌, if◌then◌else◌}
use native.Mathlib.Nat.{mul-suc, mul-le-mul_left, mod-eq_of_lt}
use pincushion.Istream.Advance.{IsBuffer}
use pincushion.Field.{FieldIter, pos, ltype, htype, atype, atype_static, atype_pointer}
use pincushion.Field.{ltype_submessage, ltype_fixed32, ltype_fixed64, htype_optional}
use pincushion.Decode.{State}
use pincushion.Decode.Env.{Env}
use pincushion.Decode.Static.{Submessages, item_at, decode_static_field}
use pincushion.Decode.StaticSteps.{Room, Layout, decode_static_field-Step}

-- The bytes that a field has in the message: an array of `array_size` items, or one item.
abbrev pub extent : FieldIter → ℕ
extent iter = (pos iter).data_size * max 1 (pos iter).array_size

-- The bytes of the flag of an optional field, or of a count.
abbrev pub mark_size : FieldIter → ℕ
mark_size iter = if htype (pos iter) == htype_optional then 1 else 4

-- An address outside the field and its flag or count.
abbrev pub Outside : FieldIter → ℕ → Type 0
Outside iter q =
    ((q < iter.p_data) ⊎ (iter.p_data + extent iter ≤ q))
    × ((q < iter.p_size) ⊎ (iter.p_size + mark_size iter ≤ q))

-- A static field that is no submessage, that is large enough for its type, and that does not wrap around.
pub record Fits (iter : FieldIter) : Type 0 where
  pub static : atype (pos iter) ≡ atype_static
  pub flat : ltype (pos iter) ≢ ltype_submessage
  pub fixed32 : ltype (pos iter) ≡ ltype_fixed32 → 4 ≤ (pos iter).data_size
  pub fixed64 : ltype (pos iter) ≡ ltype_fixed64 → 8 ≤ (pos iter).data_size
  pub small : extent iter < 2 ^ 32
  pub low : iter.p_data + extent iter < 2 ^ 64

item_at-inside :
    (iter : FieldIter) (i : ℕ)
    → Fits iter
    → i < max 1 (pos iter).array_size
    → let p = item_at iter iter.p_data i in
      (iter.p_data ≤ p) × (p + (pos iter).data_size ≤ iter.p_data + extent iter)
item_at-inside iter i fits lt =
    let size = (pos iter).data_size in
    let most : size * suc i ≤ extent iter = mul-le-mul_left size lt in
    let next = mul-suc size i in
    let small = fits.small in
    let low = fits.low in
    let inner : u32 (size * i) ≡ size * i = mod-eq_of_lt (omega arith) in
    let outer : u64 (iter.p_data + size * i) ≡ iter.p_data + size * i =
      mod-eq_of_lt (omega arith) in
    (omega arith, omega arith)

-- An item inside the field leaves the rest alone.
item-Room :
    (iter : FieldIter) (p : ℕ)
    → Fits iter
    → iter.p_data ≤ p
    → p + (pos iter).data_size ≤ iter.p_data + extent iter
    → Room (Outside iter) (pos iter) p
item-Room iter p fits lo hi = record {
  value = λ q k. let a = k.0 in omega arith;
  fixed32 = λ e q k. let a = k.0 in let le = fits.fixed32 ((==_iff _ _).0 e) in omega arith;
  fixed64 = λ e q k. let a = k.0 in let le = fits.fixed64 ((==_iff _ _).0 e) in omega arith;
}

Fits-Layout : (iter : FieldIter) → Fits iter → Layout (Outside iter) iter
Fits-Layout iter fits = record {
  single = item-Room iter iter.p_data fits (omega arith) (
      let most : (pos iter).data_size * 1 ≤ extent iter =
        mul-le-mul_left (pos iter).data_size (omega arith) in
      omega arith);
  items = λ i lt.
      let b = item_at-inside iter i fits (omega arith) in
      item-Room iter (item_at iter iter.p_data i) fits b.0 b.1;
  flag = λ e q k. let a = k.1 in rw e at a;
  count = λ e q k. let a = k.1 in rw e at a;
}

static_or_pointer : (iter : FieldIter) → Fits iter → (atype (pos iter) == atype_pointer) ≡ true → ⊥
static_or_pointer iter fits e =
    let static = fits.static in let pointer = (==_iff _ _).0 e in omega (arith, static, pointer)

-- Whatever the bytes of its buffer are, `decode_static_field` changes no byte of the memory outside of the field
-- and its flag or count, whether it succeeds or fails and however many items the bytes hold. The field is
-- static and no submessage, its `data_size` is large enough where it is a fixed integer, and it ends below 2 ^ 64
-- and has fewer than 2 ^ 32 bytes.
pub decode_static_field-Outside :
    (env : Env) (depth : ℕ) (subs : Submessages) (wire_type : ℕ) (iter : FieldIter) (s : State)
    → Fits iter
    → IsBuffer s.stream.source
    → (q : ℕ) → Outside iter q
    → (final (decode_static_field env depth subs wire_type iter s)).memory q ≡ s.memory q
decode_static_field-Outside env depth subs wire_type iter s fits buffered q outside =
    let step =
      (decode_static_field-Step (Outside iter) env depth subs wire_type iter
          (λ e. absurd (static_or_pointer iter fits e)) (Fits-Layout iter fits)
          (λ e. absurd (fits.flat ((==_iff _ _).0 e)))
          (λ e. absurd (fits.flat ((==_iff _ _).0 e)))).at
        s in
    step.kept buffered q outside
