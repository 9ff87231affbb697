-- ===== src/Mqtt/Groups.antt =====
-- The groups of seven bits of a remaining length in bridge-core/src/mqtt.rs, the lowest first, as they
-- are written and read.
use micro_bacnet_bridge.Base.{
  ℕ, zero, suc, ◌+◌, ◌*◌, ◌/◌, ◌%◌, ◌^◌, ◌≤◌, ◌<◌, ◌≡◌, inl, inr, refl, arith, bit_and, bit_or,
  List, [], ◌∷◌, ◌++◌, length, length-append, ltb, leb, ◌==◌, if◌then◌else◌, Bool-cases, some,
  get_elem?, get_elem?-lt, get_elem?-append, lt→leb_false, ltb→lt, ok, err, true, false,
  le→ltb_false, ◌∙◌, ap,
}
use native.Mathlib.Nat.{pow-suc, div-add-mod, mul-le-mul_left, mul_assoc, mul_comm}
use micro_bacnet_bridge.Base.Bits.{all_below, eq_below, and_low}
use micro_bacnet_bridge.Error.{EncodeError, invalid_data}
use micro_bacnet_bridge.Slice.{IsSlice, add_usize, byte_at}
use micro_bacnet_bridge.Slice.Writing.{snoc, Emits, written, Emits-⟫, store-append}
use micro_bacnet_bridge.Slice.Decoder.{◌>>=◌, lift, pure}
use micro_bacnet_bridge.Slice.Reading.{Reads}
use micro_bacnet_bridge.Mqtt.{
  max_remaining_length, write_u8, write_groups, write_remaining_length,
  remaining_length_encoded_size, read_u8, read_groups, decode_remaining_length,
}

-- The groups of `len`, with the top bit set on all but the last.
unfoldable pub groups : ℕ → ℕ → List ℕ
groups zero len = len ∷ []
groups (suc k) len =
    let rest = groups k (len / 128) in if ltb len 128 then len ∷ [] else (len % 128 + 128) ∷ rest

pub remaining_bytes : ℕ → List ℕ
unfolding groups
remaining_bytes len = groups 3 len

write_u8_run :
    (b : ℕ) (pre old : List ℕ)
    → IsSlice (pre ++ old)
    → write_u8 b (pre ++ old) (length pre) ≡ written pre (b ∷ []) old
unfolding write_u8
write_u8_run b pre [] h = ground (arith, length-append pre [])
write_u8_run b pre (o ∷ old) h =
    ground
      (arith, length-append pre (o ∷ old), store-append {E = EncodeError} (b ∷ []) pre (o ∷ old) h)

pub Emits-write_u8 : (b : ℕ) → Emits (write_u8 b) (b ∷ [])
Emits-write_u8 b = record { run = λ pre old h. write_u8_run b pre old h }

low_group : (len : ℕ) → bit_and len 0x7F % 256 ≡ len % 128
low_group len = omega (arith, and_low 7 len)

set_top_bit : (g : ℕ) → g < 128 → bit_or g 0x80 ≡ g + 128
unfolding all_below
set_top_bit = eq_below 128 _ _ refl

groups_run :
    (k len : ℕ) (pre old : List ℕ)
    → len < 128 ^ suc k
    → IsSlice (pre ++ old)
    → write_groups (suc k) len (pre ++ old) (length pre) ≡ written pre (groups k len) old
unfolding write_groups groups
groups_run zero len pre old small h =
    let last : bit_and len 0x7F % 256 ≡ len = omega (arith, low_group len) in
    let top : ltb 0 (len / 2 ^ 7) ≡ false = ground arith in
    rw (top, last) (write_u8_run len pre old h)
groups_run (suc k) len pre old small h = elim (Bool-cases (ltb len 128)) [
  | inl e ↦
      let last : bit_and len 0x7F % 256 ≡ len = ground (arith, low_group len) in
      let top : ltb 0 (len / 2 ^ 7) ≡ false = ground arith in
      rw (top, last, e) (write_u8_run len pre old h)
  | inr e ↦
      let top : ltb 0 (len / 2 ^ 7) ≡ true = ground arith in
      let byte : bit_or (bit_and len 0x7F % 256) 0x80 ≡ len % 128 + 128 =
        rw (low_group len) (set_top_bit (len % 128) (omega arith)) in
      let rest : Emits (write_groups (suc k) (len / 2 ^ 7)) (groups k (len / 2 ^ 7)) = record {
        run =
            λ pre old h. groups_run k (len / 2 ^ 7) pre old (omega (arith, pow-suc 128 (suc k))) h;
      } in
      rw (top, byte, e) ((Emits-⟫ (Emits-write_u8 (len % 128 + 128)) rest).run pre old h)
]

pub Emits-write_remaining_length :
    (len : ℕ)
    → len ≤ max_remaining_length
    → Emits (write_remaining_length len) (remaining_bytes len)
unfolding write_remaining_length remaining_bytes
Emits-write_remaining_length len small = record {
  run = λ pre old h.
      rw (le→ltb_false max_remaining_length len small) (groups_run 3 len pre old (omega arith) h);
}

-- The size computed in advance is the size of the groups.
pub length-remaining_bytes :
    (len : ℕ) → length (remaining_bytes len) ≡ remaining_length_encoded_size len
unfolding remaining_bytes groups remaining_length_encoded_size
length-remaining_bytes len = ground arith

pub read_u8_run :
    (b pos : ℕ) (xs : List ℕ)
    → get_elem? xs pos ≡ some b
    → IsSlice xs
    → read_u8 xs pos ≡ ok (b, pos + 1)
unfolding read_u8 byte_at
read_u8_run b pos xs byte h =
    let there = get_elem?-lt xs pos byte in
    let more : leb (length xs) pos ≡ false = lt→leb_false (length xs) pos there in
    let next : add_usize pos 1 ≡ pos + 1 = omega arith in rw (more, byte, next) refl

-- One round of the loop, on a byte that is there.
module _ (fuel m v b pos : ℕ) (xs : List ℕ) (byte : get_elem? xs pos ≡ some b) (slice : IsSlice xs)
    (width : m ≤ 128 ^ 3) (bound : v + b % 128 * m ≤ max_remaining_length) where
  pub read_step : read_groups (suc fuel) m v xs pos ≡ (
      if bit_and b 0x80 == 0
      then ok (v + b % 128 * m, pos + 1)
      else if leb (128 ^ 4) (m * 128)
      then err invalid_data
      else read_groups fuel (m * 128) (v + b % 128 * m) xs (pos + 1))
  unfolding read_groups ◌>>=◌ lift pure
  read_step =
      let low : bit_and b 0x7F ≡ b % 128 = and_low 7 b in
      let wrap : b % 128 * m % 2 ^ 32 ≡ b % 128 * m = omega arith in
      let sum : ltb (v + b % 128 * m) (2 ^ 32) ≡ true = ground arith in
      let next : ltb (m * 128) (2 ^ 32) ≡ true = ground arith in
      rw (read_u8_run b pos xs byte slice, low, wrap, sum, next)
        (elim (Bool-cases (bit_and b 0x80 == 0)) [
          | inl e ↦ rw e refl
          | inr e ↦ elim (Bool-cases (leb (128 ^ 4) (m * 128))) [
            | inl f ↦ rw (e, f) refl
            | inr f ↦ rw (e, f) refl
          ]
        ])

pub top_bit : (b : ℕ) → b < 256 → bit_and b 0x80 ≡ b / 128 * 128
unfolding all_below
top_bit = eq_below 256 _ _ refl

-- The round over a group `g`, the last one and one that is not.
module _ (fuel m v g : ℕ) (pre s : List ℕ) (small : g < 128) (width : m ≤ 128 ^ 3)
    (bound : v + g * m ≤ max_remaining_length) where
  last_group :
      IsSlice (pre ++ (g ∷ s))
      → read_groups (suc fuel) m v (pre ++ (g ∷ s)) (length pre) ≡ ok (v + g * m, length pre + 1)
  last_group h =
      let low : g % 128 ≡ g = omega arith in
      let top : (bit_and g 0x80 == 0) ≡ true = ground (arith, top_bit g) in
      rw
        (
          read_step fuel m v g (length pre) (pre ++ (g ∷ s)) (get_elem?-append pre g s) h width
              (rw low bound),
          top,
          low,
        )
        refl

  inner_group :
      m * 128 < 128 ^ 4
      → IsSlice (pre ++ ((g + 128) ∷ s))
      → read_groups (suc fuel) m v (pre ++ ((g + 128) ∷ s)) (length pre)
        ≡ read_groups fuel (m * 128) (v + g * m) (pre ++ ((g + 128) ∷ s)) (length pre + 1)
  inner_group room h =
      let low : (g + 128) % 128 ≡ g = omega arith in
      let top : (bit_and (g + 128) 0x80 == 0) ≡ false = ground (arith, top_bit (g + 128)) in
      let under = lt→leb_false (128 ^ 4) (m * 128) room in
      rw
        (
          read_step fuel m v (g + 128) (length pre) (pre ++ ((g + 128) ∷ s))
              (get_elem?-append pre (g + 128) s) h width (rw low bound),
          top,
          under,
          low,
        )
        refl

-- The lowest group and the rest, both times the multiplier.
split_length : (m len : ℕ) → len * m ≡ len % 128 * m + len / 128 * (m * 128)
split_length m len = omega (arith, ap (λ (t : ℕ). t * m) (div-add-mod len 128))

pub shift_multiplier : (m k : ℕ) → m * 128 ^ suc (suc k) ≡ 128 ^ 4 → m * 128 * 128 ^ suc k ≡ 128 ^ 4
shift_multiplier m k e = omega (
  arith,
  ap (λ (t : ℕ). m * t) (pow-suc 128 (suc k)),
  mul_assoc m 128 (128 ^ suc k),
  mul_comm 128 (128 ^ suc k),
)

power_pos : (k : ℕ) → 0 < 128 ^ k
power_pos zero = omega arith
power_pos (suc k) = omega (arith, pow-suc 128 k, power_pos k)

pub multiplier_room : (m k : ℕ) → m * 128 ^ suc k ≡ 128 ^ 4 → m < 128 ^ 4
multiplier_room m k e =
    let big : 2 ≤ 128 ^ suc k = omega (arith, pow-suc 128 k, power_pos k) in
    omega (arith, mul-le-mul_left m big)

groups_read :
    (k m v len : ℕ) (pre rest : List ℕ)
    → len < 128 ^ suc k
    → m * 128 ^ suc k ≡ 128 ^ 4
    → v + len * m ≤ max_remaining_length
    → IsSlice (pre ++ (groups k len ++ rest))
    → read_groups (suc k) m v (pre ++ (groups k len ++ rest)) (length pre)
      ≡ ok (v + len * m, length pre + length (groups k len))
unfolding groups
groups_read zero m v len pre rest small mult fits h =
    last_group 0 m v len pre rest small (omega arith) fits h
groups_read (suc k) m v len pre rest small mult fits h = elim (Bool-cases (ltb len 128)) [
  | inl e ↦ rw e (
      last_group (suc k) m v len pre rest (ltb→lt _ _ e)
        (omega (arith, multiplier_room (m * 128) k (shift_multiplier m k mult))) fits (rw e at h))
  | inr e ↦
      let g = len % 128 in
      let whole = split_length m len in
      let next = shift_multiplier m k mult in
      let room = multiplier_room (m * 128) k next in
      let tail : List ℕ = groups k (len / 128) ++ rest in
      let shorter = snoc pre (g + 128) tail in
      let h' : IsSlice (pre ++ ((g + 128) ∷ tail)) = rw e at h in
      let size : length pre + 1 ≡ length (pre ++ ((g + 128) ∷ [])) =
        omega (arith, length-append pre ((g + 128) ∷ [])) in
      let head =
        inner_group (suc k) m v g pre tail (omega arith) (omega arith) (omega arith) room h' in
      let below =
        groups_read k (m * 128) (v + g * m) (len / 128) (pre ++ ((g + 128) ∷ [])) rest
          (omega (arith, pow-suc 128 (suc k))) next (omega arith) (rw shorter at h') in
      rw (e, head, shorter, size, below) (ground (arith, whole, size))
]

-- What was written is read back, and no byte behind it is taken.
pub Reads-remaining_length :
    (len : ℕ) (rest : List ℕ)
    → len ≤ max_remaining_length
    → Reads decode_remaining_length (remaining_bytes len) rest len
unfolding decode_remaining_length remaining_bytes
Reads-remaining_length len rest small = record {
  run = λ pre h. groups_read 3 1 0 len pre rest (omega arith) refl (omega arith) h ∙ ground arith;
}
