-- ===== src/Apdu/WriteLaws.antt =====
-- The writing helpers of bridge-core/src/apdu.rs write the bytes of the wire format.
use micro_bacnet_bridge.Base.{ℕ, ◌+◌, ◌*◌, ◌%◌, ◌^◌, ◌≤◌, ◌<◌, ◌≡◌, refl, arith, bit_or}
use micro_bacnet_bridge.Base.{List, ◌∷◌, leb, leb→le, le→leb, Bool-cases, inl, inr, length}
use micro_bacnet_bridge.Base.{Option, none, some}
use micro_bacnet_bridge.Base.Bits.{or_disjoint, and_low}
use native.Mathlib.Nat.{mod-eq_of_lt}
use micro_bacnet_bridge.Slice.Writing.{Emits, Emits-emit, Emits-skip}
use micro_bacnet_bridge.Bacnet.{
  ObjectId, to_raw, BacnetValue, null, boolean, unsigned_int, signed_int,
}
use micro_bacnet_bridge.Bacnet.{real, char_string, enumerated, object_id}
use micro_bacnet_bridge.Bacnet.Values.{IsValue}
use micro_bacnet_bridge.Apdu.Write.{
  be_bytes, tag_high, within_i32, encode_minimal, encode_app_unsigned, encode_context_unsigned,
  encode_app_object_id, encode_context_object_id, encode_app_enumerated, encode_opening_tag,
  encode_closing_tag, encode_text, encode_app_value,
}
use micro_bacnet_bridge.Apdu.Encode.{encode_optional}
use micro_bacnet_bridge.Apdu.Wire.{
  uint_bytes, sized, context, context_uint, context_id, opening, closing, text_bytes, value_bytes,
  optional_bytes,
}

Emits-minimal :
    (base v : ℕ)
    → Emits
        (encode_minimal (base + 1) (base + 2) (base + 3) (base + 4) v)
        (sized base (uint_bytes v))
unfolding encode_minimal
Emits-minimal base v = elim (Bool-cases (leb v 0xFF)) [
  | inl a ↦ rw a (Emits-emit 2 _ refl (omega arith))
  | inr a ↦ elim (Bool-cases (leb v 0xFFFF)) [
    | inl b ↦ rw (a, b) (Emits-emit 3 _ refl (omega arith))
    | inr b ↦ elim (Bool-cases (leb v 0xFF_FFFF)) [
      | inl c ↦ rw (a, b, c) (Emits-emit 4 _ refl (omega arith))
      | inr c ↦ rw (a, b, c) (Emits-emit 5 _ refl (omega arith))
    ]
  ]
]

pub Emits-app_unsigned : (v : ℕ) → Emits (encode_app_unsigned v) (sized 0x20 (uint_bytes v))
unfolding encode_app_unsigned
Emits-app_unsigned v = Emits-minimal 0x20 v

pub Emits-app_enumerated : (v : ℕ) → Emits (encode_app_enumerated v) (sized 0x90 (uint_bytes v))
unfolding encode_app_enumerated
Emits-app_enumerated v = Emits-minimal 0x90 v

context_tag : (tag i : ℕ) → tag < 16 → i < 16 → bit_or (tag_high tag) i ≡ tag * 16 + i
context_tag tag i h hi =
    let e : tag_high tag ≡ tag * 2 ^ 4 = omega (arith, and_low 4 tag) in
    rw e (or_disjoint 4 tag i hi)

length_tag :
    (tag i n : ℕ) → tag < 16 → i < 16 → i ≡ 8 + n → bit_or (tag_high tag) i ≡ context tag + n
length_tag tag i n h hi e = omega (arith, context_tag tag i h hi)

pub Emits-context_unsigned :
    (tag v : ℕ) → tag < 16 → Emits (encode_context_unsigned tag v) (context_uint tag v)
unfolding encode_context_unsigned
Emits-context_unsigned tag v h =
    rw
      (
        length_tag tag 0x09 1 h (omega arith) refl,
        length_tag tag 0x0A 2 h (omega arith) refl,
        length_tag tag 0x0B 3 h (omega arith) refl,
        length_tag tag 0x0C 4 h (omega arith) refl,
      )
      (Emits-minimal (context tag) v)

pub Emits-app_object_id :
    (id : ObjectId) → Emits (encode_app_object_id id) (sized 0xC0 (be_bytes (to_raw id)))
unfolding encode_app_object_id
Emits-app_object_id id = Emits-emit 5 _ refl (omega arith)

pub Emits-context_object_id :
    (tag : ℕ) (id : ObjectId)
    → tag < 16
    → Emits (encode_context_object_id tag id) (context_id tag id)
unfolding encode_context_object_id
Emits-context_object_id tag id h =
    rw (length_tag tag 0x0C 4 h (omega arith) refl) (Emits-emit 5 _ refl (omega arith))

pub Emits-opening_tag : (tag : ℕ) → tag < 16 → Emits (encode_opening_tag tag) (opening tag)
unfolding encode_opening_tag
Emits-opening_tag tag h =
    rw (context_tag tag 0x0E h (omega arith)) (Emits-emit 1 _ refl (omega arith))

pub Emits-closing_tag : (tag : ℕ) → tag < 16 → Emits (encode_closing_tag tag) (closing tag)
unfolding encode_closing_tag
Emits-closing_tag tag h =
    rw (context_tag tag 0x0F h (omega arith)) (Emits-emit 1 _ refl (omega arith))

pub Emits-optional :
    (tag : ℕ) (o : Option ℕ) → tag < 16 → Emits (encode_optional tag o) (optional_bytes tag o)
Emits-optional tag none h = Emits-skip
Emits-optional tag (some v) h = Emits-context_unsigned tag v h

Emits-text : (s : List ℕ) → length s ≤ 64 → Emits (encode_text (length s + 1) s) (text_bytes s)
unfolding encode_text
Emits-text s h = elim (Bool-cases (leb (length s + 1) 4)) [
  | inl a ↦
      let n : length s + 1 ≤ 4 = leb→le _ _ a in
      let tag : bit_or 0x70 ((length s + 1) % 256) ≡ 0x70 + length (0x00 ∷ s) =
        rw (mod-eq_of_lt {n = length s + 1} {m = 256} (omega arith))
          (omega (arith, or_disjoint 4 7 (length s + 1) (omega arith))) in
      rw (a, tag) (Emits-emit _ _ (omega arith) (omega arith))
  | inr a ↦
      let n : (length s + 1) % 256 ≡ length s + 1 = omega arith in
      rw (a, le→leb (length s + 1) 253 (omega arith), n)
        (Emits-emit (2 + (length s + 1)) _ (omega arith) (omega arith))
]

-- A value of the Rust type is written as the wire format has it.
pub Emits-app_value : (v : BacnetValue) → IsValue v → Emits (encode_app_value v) (value_bytes v)
unfolding encode_app_value
Emits-app_value null h = Emits-emit 1 _ refl (omega arith)
Emits-app_value (boolean b) h = Emits-emit 1 _ refl (omega arith)
Emits-app_value (unsigned_int v) h = Emits-app_unsigned v
Emits-app_value (signed_int v) h = elim (Bool-cases (within_i32 128 v)) [
  | inl a ↦ rw a (Emits-emit 2 _ refl (omega arith))
  | inr a ↦ elim (Bool-cases (within_i32 32768 v)) [
    | inl b ↦ rw (a, b) (Emits-emit 3 _ refl (omega arith))
    | inr b ↦ rw (a, b) (Emits-emit 5 _ refl (omega arith))
  ]
]
Emits-app_value (real v) h = Emits-emit 5 _ refl (omega arith)
Emits-app_value (char_string s) h = Emits-text s h.fits
Emits-app_value (enumerated v) h = Emits-app_enumerated v
Emits-app_value (object_id id) h = Emits-app_object_id id
