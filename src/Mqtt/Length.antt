-- ===== src/Mqtt/Length.antt =====
-- The decoder of the remaining length in bridge-core/src/mqtt.rs on any bytes.
use micro_bacnet_bridge.Base.{All}
use micro_bacnet_bridge.Base.{
  ℕ, zero, suc, ◌+◌, ◌*◌, ◌%◌, ◌^◌, ◌≤◌, ◌<◌, ◌≡◌, ◌⊎◌, inl, inr, refl, arith, bit_and, List, [],
  ◌∷◌, ◌++◌, length, length-append, ltb, leb, ◌==◌, if◌then◌else◌, Bool-cases, Result, le→leb,
  get_elem?-append, lt→leb_false, ltb→lt, ok, err, true, false, ◌∙◌, ap,
}
use native.Mathlib.Nat.{mul-le-mul_right, mul_assoc, mul_comm, mul-add}
use micro_bacnet_bridge.Error.{DecodeError, unexpected_end, invalid_data}
use micro_bacnet_bridge.Slice.{IsSlice, IsByte}
use micro_bacnet_bridge.Slice.Writing.{snoc}
use micro_bacnet_bridge.Slice.Decoder.{◌>>=◌, lift, pure}
use micro_bacnet_bridge.Mqtt.{max_remaining_length, read_u8, read_groups, decode_remaining_length}
use micro_bacnet_bridge.Mqtt.Groups.{read_step, top_bit, shift_multiplier, multiplier_room}

-- MQTT's number of a sequence of bytes: seven bits of each, the lowest ones first.
abbrev pub spelled : List ℕ → ℕ
spelled [] = 0
spelled (b ∷ bs) = b % 128 + 128 * spelled bs

abbrev pub IsMore : ℕ → Type 0
IsMore b = 128 ≤ b

-- What an answer on the bytes `rest`, at the position `pos`, has to be, with room for `k` bytes that
-- have their top bit set and one more: the number of those bytes and the first one without it, added
-- to `v` in units of `m`; or an error, where there is no such byte.
abbrev pub Answers : ℕ → ℕ → ℕ → Result DecodeError (ℕ × ℕ) → List ℕ → ℕ → Type 0
Answers k m v r rest pos =
    ((more : List ℕ) × (last : ℕ) × (after : List ℕ) × (rest ≡ more ++ (last ∷ after))
      × (length more ≤ k)
      × All IsMore more
      × (last < 128)
      × (r ≡ ok (v + m * spelled (more ++ (last ∷ [])), pos + length more + 1))
      × (v + m * spelled (more ++ (last ∷ [])) ≤ max_remaining_length))
    ⊎ (((length rest ≤ k) × All IsMore rest × (r ≡ err unexpected_end))
        ⊎ ((more : List ℕ) × (after : List ℕ) × (rest ≡ more ++ after)
            × (length more ≡ suc k)
            × All IsMore more
            × (r ≡ err invalid_data)))

no_byte :
    (fuel m v pos : ℕ) (xs : List ℕ)
    → length xs ≤ pos
    → read_groups (suc fuel) m v xs pos ≡ err unexpected_end
unfolding read_groups ◌>>=◌ lift pure read_u8
no_byte fuel m v pos xs h = rw (le→leb (length xs) pos h) refl

-- The round over a byte, with and without its top bit.
round_end :
    (k m v b : ℕ) (pre rest : List ℕ)
    → IsSlice (pre ++ (b ∷ rest))
    → m ≤ 128 ^ 3
    → v < m
    → b < 128
    → read_groups (suc k) m v (pre ++ (b ∷ rest)) (length pre)
      ≡ ok (v + b % 128 * m, length pre + 1)
round_end k m v b pre rest h width small low =
    let part : b % 128 * m ≤ 127 * m = mul-le-mul_right m (omega arith) in
    let top : (bit_and b 0x80 == 0) ≡ true = ground (arith, top_bit b, low) in
    rw
      (
        read_step k m v b (length pre) (pre ++ (b ∷ rest)) (get_elem?-append pre b rest) h width
            (omega arith),
        top,
      )
      refl

round_more :
    (k m v b : ℕ) (pre rest : List ℕ)
    → IsSlice (pre ++ (b ∷ rest))
    → m ≤ 128 ^ 3
    → v < m
    → IsByte b
    → IsMore b
    → read_groups (suc k) m v (pre ++ (b ∷ rest)) (length pre) ≡ (
        if leb (128 ^ 4) (m * 128)
        then err invalid_data
        else read_groups k (m * 128) (v + b % 128 * m) (pre ++ (b ∷ rest)) (length pre + 1))
round_more k m v b pre rest h width small byte more =
    let part : b % 128 * m ≤ 127 * m = mul-le-mul_right m (omega arith) in
    let top : (bit_and b 0x80 == 0) ≡ false = ground (arith, top_bit b, byte, more) in
    rw
      (
        read_step k m v b (length pre) (pre ++ (b ∷ rest)) (get_elem?-append pre b rest) h width
            (omega arith),
        top,
      )
      refl

-- The answer behind a byte with its top bit set.
Answers-more :
    (k m v b pos next : ℕ) (rest : List ℕ) {r tail : Result DecodeError (ℕ × ℕ)}
    → IsMore b
    → pos + 1 ≡ next
    → r ≡ tail
    → Answers k (m * 128) (v + b % 128 * m) tail rest next
    → Answers (suc k) m v r (b ∷ rest) pos
Answers-more k m v b pos next rest more place same
      (inl (bs, last, after, whole, few, all, low, e, small)) =
    let n = spelled (bs ++ (last ∷ [])) in
    let sum : v + b % 128 * m + m * 128 * n ≡ v + m * (b % 128 + 128 * n) =
      omega (arith, mul-add m (b % 128) (128 * n), mul_comm (b % 128) m, mul_assoc m 128 n) in
    let end : next + length bs + 1 ≡ pos + suc (length bs) + 1 = omega (arith, place) in
    inl (
      b ∷ bs,
      last,
      after,
      ap (◌∷◌ b) whole,
      omega arith,
      (more, all),
      low,
      same ∙ e ∙ rw (sum, end) refl,
      omega (arith, sum),
    )
Answers-more k m v b pos next rest more place same (inr (inl (few, all, e))) =
    inr (inl (omega arith, (more, all), same ∙ e))
Answers-more k m v b pos next rest more place same (inr (inr (bs, after, whole, four, all, e))) =
    inr (inr (b ∷ bs, after, ap (◌∷◌ b) whole, omega arith, (more, all), same ∙ e))

ends :
    (k m v b : ℕ) (pre rest : List ℕ)
    → IsSlice (pre ++ (b ∷ rest))
    → m ≤ 128 ^ 3
    → v < m
    → b < 128
    → Answers k m v
        (read_groups (suc k) m v (pre ++ (b ∷ rest)) (length pre))
        (b ∷ rest)
        (length pre)
ends k m v b pre rest h width small low =
    let part : b % 128 * m ≤ 127 * m = mul-le-mul_right m (omega arith) in
    let sum : v + b % 128 * m ≡ v + m * (b % 128 + 128 * 0) =
      omega (arith, mul_comm m (b % 128 + 128 * 0)) in
    let place : length pre + 1 ≡ length pre + 0 + 1 = omega arith in
    inl (
      [],
      b,
      rest,
      refl,
      omega arith,
      tt,
      low,
      round_end k m v b pre rest h width small low ∙ rw (sum, place) refl,
      omega (arith, sum),
    )

groups_answer :
    (k m v : ℕ) (pre rest : List ℕ)
    → IsSlice (pre ++ rest)
    → All IsByte rest
    → m * 128 ^ suc k ≡ 128 ^ 4
    → v < m
    → Answers k m v (read_groups (suc k) m v (pre ++ rest) (length pre)) rest (length pre)
groups_answer k m v pre [] h bytes mult small = inr (
    inl (
      omega arith,
      tt,
      no_byte k m v (length pre) (pre ++ []) (omega (arith, length-append pre [])),
    ))
groups_answer zero m v pre (b ∷ rest) h (byte, bytes) mult small = elim (Bool-cases (ltb b 128)) [
  | inl low ↦ ends zero m v b pre rest h (omega arith) small (ltb→lt b 128 low)
  | inr high ↦
      let more : IsMore b = ground (arith, high) in
      let full : leb (128 ^ 4) (m * 128) ≡ true = le→leb (128 ^ 4) (m * 128) (omega arith) in
      inr (
        inr (
          b ∷ [],
          rest,
          refl,
          refl,
          (more, tt),
          round_more zero m v b pre rest h (omega arith) small byte more ∙ rw (full) refl,
        ))
]
groups_answer (suc k) m v pre (b ∷ rest) h (byte, bytes) mult small =
    let next = shift_multiplier m k mult in
    let room = multiplier_room (m * 128) k next in
    elim (Bool-cases (ltb b 128)) [
      | inl low ↦ ends (suc k) m v b pre rest h (omega arith) small (ltb→lt b 128 low)
      | inr high ↦
          let more : IsMore b = ground (arith, high) in
          let part : b % 128 * m ≤ 127 * m = mul-le-mul_right m (omega arith) in
          let shorter = snoc pre b rest in
          let size : length pre + 1 ≡ length (pre ++ (b ∷ [])) =
            omega (arith, length-append pre (b ∷ [])) in
          let step = round_more (suc k) m v b pre rest h (omega arith) small byte more in
          let on = lt→leb_false (128 ^ 4) (m * 128) room in
          let tail =
            groups_answer k (m * 128) (v + b % 128 * m) (pre ++ (b ∷ [])) rest (rw shorter at h)
              bytes next (omega arith) in
          Answers-more k m v b (length pre) _ rest more size (step ∙ rw (on, shorter, size) refl)
            tail
    ]

-- On any slice of bytes, `rest` behind `pre`, the decoder of the remaining length ends. Where one of
-- the first four bytes of `rest` has no top bit, it returns the number that the bytes up to the first
-- such one spell, seven bits of each and the lowest first, which is at most 268435455, and the
-- position behind them. Where `rest` has fewer than four bytes and all have their top bit, it says
-- that the data ends; where its first four have, that they are invalid.
pub decode_remaining_length_lem :
    (pre rest : List ℕ)
    → IsSlice (pre ++ rest)
    → All IsByte rest
    → Answers 3 1 0 (decode_remaining_length (pre ++ rest) (length pre)) rest (length pre)
unfolding decode_remaining_length
decode_remaining_length_lem pre rest h bytes =
    groups_answer 3 1 0 pre rest h bytes refl (omega arith)
