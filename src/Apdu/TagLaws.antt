-- ===== src/Apdu/TagLaws.antt =====
-- `decode_tag`, `decode_unsigned` and `decode_signed` of bridge-core/src/apdu.rs on the tags and
-- contents that the wire format has.
use micro_bacnet_bridge.Base.{
  ℕ, suc, ◌+◌, ◌-◌, ◌*◌, ◌/◌, ◌%◌, ◌^◌, ◌<◌, ◌≡◌, refl, ap, arith, bit_or, bit_and,
}
use micro_bacnet_bridge.Base.{
  if◌then◌else◌, List, [], ◌∷◌, ◌++◌, leb, ltb, ◌==◌, leb→le, Bool-cases, inl, inr, Bool, true,
  false, length, length-append,
}
use micro_bacnet_bridge.Base.{ok}
use micro_bacnet_bridge.Base.Bits.{
  or_disjoint, all_below, eq_below, high_nibble, class_bit, low_three,
}
use micro_bacnet_bridge.Slice.{IsSlice, add_usize, dneed}
use micro_bacnet_bridge.Slice.Reading.{byte_at-here, byte_at-second, dneed-append}
use micro_bacnet_bridge.Slice.Writing.{snoc, next_index}
use micro_bacnet_bridge.Apdu.Write.{byte, be_bytes, within_i32}
use micro_bacnet_bridge.Apdu.Read.{TagInfo, decode_tag, decode_unsigned, decode_signed, shift_in}
use micro_bacnet_bridge.Apdu.Wire.{context, uint_bytes}

abbrev pub tag_info : ℕ → Bool → ℕ → ℕ → TagInfo
tag_info n c l h = record { number = n; context = c; lvt = l; header_len = h }

pub decode_tag-context :
    (pre s : List ℕ) (tag n : ℕ)
    → tag < 15
    → n < 5
    → IsSlice (pre ++ ((context tag + n) ∷ s))
    → decode_tag (pre ++ ((context tag + n) ∷ s)) (length pre) ≡ ok (tag_info tag true n 1)
unfolding decode_tag
decode_tag-context pre s tag n ht hn h = ground (
  arith,
  dneed-append pre ((context tag + n) ∷ s) 1 h,
  byte_at-here pre (context tag + n) s h,
  high_nibble (context tag + n),
  class_bit (context tag + n),
  low_three (context tag + n),
)

pub decode_tag-bracket :
    (pre s : List ℕ) (tag n : ℕ)
    → tag < 15
    → 5 < n
    → n < 8
    → IsSlice (pre ++ ((context tag + n) ∷ s))
    → decode_tag (pre ++ ((context tag + n) ∷ s)) (length pre) ≡ ok (tag_info tag true n 1)
unfolding decode_tag
decode_tag-bracket pre s tag n ht lo hn h = ground (
  arith,
  dneed-append pre ((context tag + n) ∷ s) 1 h,
  byte_at-here pre (context tag + n) s h,
  high_nibble (context tag + n),
  class_bit (context tag + n),
  low_three (context tag + n),
)

pub decode_tag-app :
    (pre s : List ℕ) (tag n : ℕ)
    → tag < 15
    → n < 5
    → IsSlice (pre ++ ((tag * 16 + n) ∷ s))
    → decode_tag (pre ++ ((tag * 16 + n) ∷ s)) (length pre) ≡ ok (tag_info tag false n 1)
unfolding decode_tag
decode_tag-app pre s tag n ht hn h = ground (
  arith,
  dneed-append pre ((tag * 16 + n) ∷ s) 1 h,
  byte_at-here pre (tag * 16 + n) s h,
  high_nibble (tag * 16 + n),
  class_bit (tag * 16 + n),
  low_three (tag * 16 + n),
)

-- The extended length of one byte that a text has.
pub decode_tag-extended :
    (pre s : List ℕ) (n : ℕ)
    → n < 254
    → IsSlice (pre ++ (0x75 ∷ n ∷ s))
    → decode_tag (pre ++ (0x75 ∷ n ∷ s)) (length pre) ≡ ok (tag_info 7 false n 2)
unfolding decode_tag
decode_tag-extended pre s n hn h = ground (
  arith,
  dneed-append pre (0x75 ∷ n ∷ s) 1 h,
  dneed-append pre (0x75 ∷ n ∷ s) 2 h,
  byte_at-here pre 0x75 (n ∷ s) h,
  byte_at-second pre 0x75 n s h,
)

-- What `shift_in` makes of bytes.
pub be_fold : List ℕ → ℕ → ℕ
be_fold [] val = val
be_fold (b ∷ bs) val = be_fold bs (bit_or (val * 2 ^ 8 % 2 ^ 32) b)

shift_in-append :
    (bs pre rest : List ℕ) (pos i val : ℕ)
    → add_usize pos i ≡ length pre
    → IsSlice (pre ++ (bs ++ rest))
    → shift_in (pre ++ (bs ++ rest)) pos i (length bs) val ≡ ok (be_fold bs val)
unfolding shift_in be_fold
shift_in-append [] pre rest pos i val e h = refl
shift_in-append (b ∷ bs) pre rest pos i val e h =
    let val' = bit_or (val * 2 ^ 8 % 2 ^ 32) b in
    let l : length pre < 2 ^ 31 = omega (arith, length-append pre (b ∷ (bs ++ rest))) in
    let e' : add_usize pos (i + 1) ≡ length (pre ++ (b ∷ [])) =
      omega (arith, e, length-append pre (b ∷ [])) in
    let h' : IsSlice ((pre ++ (b ∷ [])) ++ (bs ++ rest)) = rw (snoc pre b (bs ++ rest)) at h in
    let later : shift_in (pre ++ (b ∷ (bs ++ rest))) pos (i + 1) (length bs) val'
        ≡ ok (be_fold bs val') =
      rw (snoc pre b (bs ++ rest))
        (shift_in-append bs (pre ++ (b ∷ [])) rest pos (i + 1) val' e' h') in
    rw (e, byte_at-here pre b (bs ++ rest) h) later

decode_unsigned-append :
    (bs pre rest : List ℕ)
    → IsSlice (pre ++ (bs ++ rest))
    → decode_unsigned (pre ++ (bs ++ rest)) (length pre) (length bs) ≡ ok (be_fold bs 0)
unfolding decode_unsigned
decode_unsigned-append bs pre rest h = ground (
  arith,
  length-append pre (bs ++ rest),
  length-append bs rest,
  dneed-append pre (bs ++ rest) (length bs) h,
  shift_in-append bs pre rest (length pre) 0 0,
)

-- The same behind the tag byte.
pub decode_unsigned-content :
    (bs pre rest : List ℕ) (t : ℕ)
    → IsSlice (pre ++ (t ∷ (bs ++ rest)))
    → decode_unsigned (pre ++ (t ∷ (bs ++ rest))) (add_usize (length pre) 1) (length bs)
      ≡ ok (be_fold bs 0)
decode_unsigned-content bs pre rest t h =
    let h' : IsSlice ((pre ++ (t ∷ [])) ++ (bs ++ rest)) = rw (snoc pre t (bs ++ rest)) at h in
    rw
      (
        snoc pre t (bs ++ rest),
        next_index pre t (omega (arith, length-append pre (t ∷ (bs ++ rest)))),
      )
      (decode_unsigned-append bs (pre ++ (t ∷ [])) rest h')

or_shift : (val b : ℕ) → b < 256 → bit_or (val * 2 ^ 8 % 2 ^ 32) b ≡ val * 2 ^ 8 % 2 ^ 32 + b
or_shift val b h =
    let e : val * 2 ^ 8 % 2 ^ 32 ≡ val % 2 ^ 24 * 2 ^ 8 = omega arith in
    rw e (or_disjoint 8 (val % 2 ^ 24) b h)

be_fold-cons :
    (b val : ℕ) (bs : List ℕ)
    → b < 256
    → be_fold (b ∷ bs) val ≡ be_fold bs (val * 2 ^ 8 % 2 ^ 32 + b)
unfolding be_fold
be_fold-cons b val bs h = ap (be_fold bs) (or_shift val b h)

be_fold-one : (b val : ℕ) → b < 256 → be_fold (b ∷ []) val ≡ val * 2 ^ 8 % 2 ^ 32 + b
unfolding be_fold
be_fold-one b val h = or_shift val b h

pub be_fold-be_bytes : (v val : ℕ) → v < 2 ^ 32 → be_fold (be_bytes v) val ≡ v
be_fold-be_bytes v val h =
    rw
      (
        be_fold-cons (byte v 24) val (byte v 16 ∷ byte v 8 ∷ byte v 0 ∷ []) (omega arith),
        be_fold-cons (byte v 16) _ (byte v 8 ∷ byte v 0 ∷ []) (omega arith),
        be_fold-cons (byte v 8) _ (byte v 0 ∷ []) (omega arith),
        be_fold-one (byte v 0) _ (omega arith),
      )
      (omega arith)

pub be_fold-uint_bytes : (v : ℕ) → v < 2 ^ 32 → be_fold (uint_bytes v) 0 ≡ v
be_fold-uint_bytes v h = elim (Bool-cases (leb v 0xFF)) [
  | inl a ↦ rw (a, be_fold-one (byte v 0) 0 (omega arith)) (omega (arith, leb→le v 0xFF a))
  | inr a ↦ elim (Bool-cases (leb v 0xFFFF)) [
    | inl b ↦
        rw
          (
            a,
            b,
            be_fold-cons (byte v 8) 0 (byte v 0 ∷ []) (omega arith),
            be_fold-one (byte v 0) _ (omega arith),
          )
          (omega (arith, leb→le v 0xFFFF b))
    | inr b ↦ elim (Bool-cases (leb v 0xFF_FFFF)) [
      | inl c ↦
          rw
            (
              a,
              b,
              c,
              be_fold-cons (byte v 16) 0 (byte v 8 ∷ byte v 0 ∷ []) (omega arith),
              be_fold-cons (byte v 8) _ (byte v 0 ∷ []) (omega arith),
              be_fold-one (byte v 0) _ (omega arith),
            )
            (omega (arith, leb→le v 0xFF_FFFF c))
      | inr c ↦ rw (a, b, c) (be_fold-be_bytes v 0 h)
    ]
  ]
]

pub length-uint_bytes : (v : ℕ) → (0 < length (uint_bytes v)) × (length (uint_bytes v) < 5)
length-uint_bytes v = ground arith

sign_bit : (b : ℕ) → b < 256 → bit_and b 0x80 ≡ b / 128 * 128
unfolding all_below
sign_bit = eq_below 256 _ _ refl

-- What `decode_signed` starts from.
abbrev pub sign_of : ℕ → ℕ
sign_of b = if bit_and b 0x80 == 0 then 0 else 2 ^ 32 - 1

sign_of_lem : (b : ℕ) → b < 256 → sign_of b ≡ (if ltb b 128 then 0 else 2 ^ 32 - 1)
sign_of_lem b h = ground (arith, sign_bit b h)

pub int_fold-one :
    (v : ℕ)
    → v < 2 ^ 32
    → within_i32 128 v ≡ true
    → be_fold (byte v 0 ∷ []) (sign_of (byte v 0)) ≡ v
int_fold-one v h w =
    rw
      (
        be_fold-one (byte v 0) (sign_of (byte v 0)) (omega arith),
        sign_of_lem (byte v 0) (omega arith),
      )
      (ground arith)

pub int_fold-two :
    (v : ℕ)
    → v < 2 ^ 32
    → within_i32 32768 v ≡ true
    → be_fold (byte v 8 ∷ byte v 0 ∷ []) (sign_of (byte v 8)) ≡ v
int_fold-two v h w =
    rw
      (
        be_fold-cons (byte v 8) (sign_of (byte v 8)) (byte v 0 ∷ []) (omega arith),
        be_fold-one (byte v 0) _ (omega arith),
        sign_of_lem (byte v 8) (omega arith),
      )
      (ground arith)

decode_signed-append :
    (bs pre rest : List ℕ) (b : ℕ)
    → IsSlice (pre ++ (b ∷ (bs ++ rest)))
    → decode_signed (pre ++ (b ∷ (bs ++ rest))) (length pre) (suc (length bs))
      ≡ ok (be_fold (b ∷ bs) (sign_of b))
unfolding decode_signed
decode_signed-append bs pre rest b h =
    let room : dneed (pre ++ (b ∷ (bs ++ rest))) (length pre) (suc (length bs)) ≡ ok tt = ground (
      arith,
      length-append pre (b ∷ (bs ++ rest)),
      length-append bs rest,
      dneed-append pre (b ∷ (bs ++ rest)) (suc (length bs)) h,
    ) in
    let here : add_usize (length pre) 0 ≡ length pre =
      omega (arith, length-append pre (b ∷ (bs ++ rest))) in
    rw (room, byte_at-here pre b (bs ++ rest) h)
      (shift_in-append (b ∷ bs) pre rest (length pre) 0 (sign_of b) here h)

pub decode_signed-content :
    (bs pre rest : List ℕ) (t b : ℕ)
    → IsSlice (pre ++ (t ∷ b ∷ (bs ++ rest)))
    → decode_signed (pre ++ (t ∷ b ∷ (bs ++ rest))) (add_usize (length pre) 1) (suc (length bs))
      ≡ ok (be_fold (b ∷ bs) (sign_of b))
decode_signed-content bs pre rest t b h =
    let s : List ℕ = b ∷ (bs ++ rest) in
    let h' : IsSlice ((pre ++ (t ∷ [])) ++ s) = rw (snoc pre t s) at h in
    rw (snoc pre t s, next_index pre t (omega (arith, length-append pre (t ∷ s))))
      (decode_signed-append bs (pre ++ (t ∷ [])) rest b h')
