-- ===== src/Base/Bits.antt =====
-- The bit operations of the codecs as arithmetic: disjoint `|`, and masks over a byte.
use Prim.Native.Nat.{ℕ, zero, suc, ◌+◌, ◌-◌, ◌*◌, ◌/◌, ◌%◌, ◌^◌, ◌≤◌, ◌<◌, min, max}
use Prim.Native.Nat.{bit_and, bit_or, digits, bit_and-bitwise, bit_or-bitwise}
use mathlib.Core.Path.{◌≡◌, refl, ap, ◌∙◌}
use mathlib.Core.Bool.{Bool, true, ◌&&◌}
use native.Mathlib.Omega.{arith}
use native.Mathlib.Nat.{pow-suc, mod-eq_of_lt, mod-lt, div-add-mod, mul-add-mod_self_left}
use micro_bacnet_bridge.Base.Tests.{◌==◌, ==_iff}

-- A test that every number below a bound passes, run over all of them.
unfoldable pub all_below : ℕ → (ℕ → Bool) → Bool
all_below zero test = true
all_below (suc top) test = all_below top test && test top

pub all_below_sound :
    (bound : ℕ) (test : ℕ → Bool) (k : ℕ) → all_below bound test ≡ true → k < bound → test k ≡ true
unfolding all_below
all_below_sound zero test k passed below = elim below [ ]
all_below_sound (suc top) test k passed below = ground (arith, all_below_sound top test k)

-- Two functions that agree by table agree at each value below the bound.
pub eq_below :
    (n : ℕ) (f g : ℕ → ℕ) → all_below n (λ x. f x == g x) ≡ true → (x : ℕ) → x < n → f x ≡ g x
eq_below n f g h x lt = (==_iff _ _).0 (all_below_sound n (λ x. f x == g x) x h lt)

-- More digits than the first number has are as good as exactly as many.
module _ (last : ℕ → ℕ) (digit : ℕ → ℕ → ℕ) where
  digits_zero : (b k : ℕ) → digits last digit k 0 b ≡ last b
  digits_zero b zero = refl
  digits_zero b (suc k) = refl

  pub digits_enough :
      (a b k l : ℕ) → a ≤ k → a ≤ l → digits last digit k a b ≡ digits last digit l a b
  digits_enough a b zero zero hk hl = refl
  digits_enough zero b (suc k) zero hk hl = refl
  digits_enough zero b k (suc l) hk hl = digits_zero b k
  digits_enough (suc a) b (suc k) (suc l) hk hl =
      ap (λ (rest : ℕ). rest * 2 + digit (suc a % 2) (b % 2))
        (digits_enough (suc a / 2) (b / 2) k l (omega arith) (omega arith))
  digits_enough (suc a) b zero l hk hl = elim hk [ ]
  digits_enough (suc a) b k zero hk hl = elim hl [ ]

zero-bit_or : (b : ℕ) → bit_or 0 b ≡ b
zero-bit_or b = bit_or-bitwise 0 b

pub bit_or_halves : (x y : ℕ) → bit_or x y ≡ bit_or (x / 2) (y / 2) * 2 + max (x % 2) (y % 2)
bit_or_halves zero y = omega (arith, zero-bit_or y, zero-bit_or (y / 2))
bit_or_halves (suc x) y = omega (
  arith,
  bit_or-bitwise (suc x) y,
  bit_or-bitwise (suc x / 2) (y / 2),
  digits_enough (λ c. c) max (suc x / 2) (y / 2) x (suc x / 2) (omega arith) (omega arith),
)

bit_or-zero_upto : (count x : ℕ) → x ≤ count → bit_or x 0 ≡ x
bit_or-zero_upto count zero small = refl
bit_or-zero_upto zero (suc x) small = absurd (omega arith)
bit_or-zero_upto (suc count) (suc x) small =
    omega (arith, bit_or_halves (suc x) 0, bit_or-zero_upto count (suc x / 2) (omega arith))

pub bit_or-zero : (a : ℕ) → bit_or a 0 ≡ a
bit_or-zero a = bit_or-zero_upto a a (omega arith)

bit_or_double : (m b : ℕ) → bit_or (m * 2) b ≡ bit_or m (b / 2) * 2 + b % 2
bit_or_double m b =
    let e : m * 2 / 2 ≡ m = omega arith in
    omega (arith, bit_or_halves (m * 2) b, ap (λ (t : ℕ). bit_or t (b / 2)) e)

-- `(k << n) | b` is a sum where `b` has at most `n` bits.
pub or_disjoint : (n k b : ℕ) → b < 2 ^ n → bit_or (k * 2 ^ n) b ≡ k * 2 ^ n + b
or_disjoint zero k b h =
    let e : b ≡ 0 = omega arith in omega (arith, ap (bit_or (k * 1)) e, bit_or-zero (k * 1))
or_disjoint (suc n) k b h =
    let e : k * 2 ^ suc n ≡ k * 2 ^ n * 2 = omega (arith, ap (λ (t : ℕ). k * t) (pow-suc 2 n)) in
    rw e (
      omega (
        arith,
        pow-suc 2 n,
        bit_or_double (k * 2 ^ n) b,
        or_disjoint n k (b / 2) (omega (arith, pow-suc 2 n)),
      ))

-- The same at the shifts that the codecs make, with the shifted operand cut to its width.
pub or_byte : (m k b : ℕ) → k * 2 ^ 8 < m → b < 2 ^ 8 → bit_or (k * 2 ^ 8 % m) b ≡ k * 2 ^ 8 + b
or_byte m k b hk hb = rw (mod-eq_of_lt hk) (or_disjoint 8 k b hb)

bit_and_halves : (x y : ℕ) → bit_and x y ≡ bit_and (x / 2) (y / 2) * 2 + min (x % 2) (y % 2)
bit_and_halves zero y = omega (arith, bit_and-bitwise 0 y, bit_and-bitwise 0 (y / 2))
bit_and_halves (suc x) y = omega (
  arith,
  bit_and-bitwise (suc x) y,
  bit_and-bitwise (suc x / 2) (y / 2),
  digits_enough (λ c. zero) min (suc x / 2) (y / 2) x (suc x / 2) (omega arith) (omega arith),
)

bit_and-zero_upto : (count x : ℕ) → x ≤ count → bit_and x 0 ≡ 0
bit_and-zero_upto count zero small = refl
bit_and-zero_upto zero (suc x) small = absurd (omega arith)
bit_and-zero_upto (suc count) (suc x) small =
    omega (arith, bit_and_halves (suc x) 0, bit_and-zero_upto count (suc x / 2) (omega arith))

pub pow_pos : (n : ℕ) → 0 < 2 ^ n
pow_pos zero = omega arith
pow_pos (suc n) = omega (arith, pow-suc 2 n, pow_pos n)

mod_double : (p a : ℕ) → 0 < p → a % (p * 2) ≡ a / 2 % p * 2 + a % 2
mod_double p a h =
    let c = a / 2 % p * 2 + a % 2 in
    let split : a ≡ p * 2 * (a / 2 / p) + c = omega (arith, div-add-mod (a / 2) p) in
    let small : c < p * 2 = omega (arith, mod-lt (a / 2) h) in
    ap (λ (t : ℕ). t % (p * 2)) split
    ∙ mul-add-mod_self_left (p * 2) (a / 2 / p) c
    ∙ mod-eq_of_lt small

-- A mask of the `n` low bits is a remainder.
pub and_low : (n a : ℕ) → bit_and a (2 ^ n - 1) ≡ a % 2 ^ n
and_low zero a = omega (arith, bit_and-zero_upto a a (omega arith))
and_low (suc n) a =
    let half : (2 ^ suc n - 1) / 2 ≡ 2 ^ n - 1 = omega (arith, pow-suc 2 n, pow_pos n) in
    omega (
      arith,
      pow-suc 2 n,
      pow_pos n,
      bit_and_halves a (2 ^ suc n - 1),
      ap (bit_and (a / 2)) half,
      and_low n (a / 2),
      mod_double (2 ^ n) a (pow_pos n),
      ap (λ (t : ℕ). a % t) (pow-suc 2 n),
    )

-- `b >> 4` and the masks of a tag byte.
pub high_nibble : (b : ℕ) → b < 256 → bit_and (b / 2 ^ 4) 0x0F ≡ b / 16
unfolding all_below
high_nibble = eq_below 256 _ _ refl

pub pdu_nibble : (b : ℕ) → b < 256 → bit_and b 0xF0 ≡ b / 16 * 16
unfolding all_below
pdu_nibble = eq_below 256 _ _ refl

pub class_bit : (b : ℕ) → b < 256 → bit_and b 0x08 ≡ b / 8 % 2 * 8
unfolding all_below
class_bit = eq_below 256 _ _ refl

pub low_three : (b : ℕ) → b < 256 → bit_and b 0x07 ≡ b % 8
unfolding all_below
low_three = eq_below 256 _ _ refl

pub low_nibble : (b : ℕ) → b < 256 → bit_and b 0x0F ≡ b % 16
unfolding all_below
low_nibble = eq_below 256 _ _ refl

-- Four bytes put together in network order, as a `u32`.
pub or_four :
    (a b c d : ℕ)
    → a < 256
    → b < 256
    → c < 256
    → d < 256
    → bit_or (bit_or (bit_or (a * 2 ^ 24 % 2 ^ 32) (b * 2 ^ 16 % 2 ^ 32)) (c * 2 ^ 8 % 2 ^ 32)) d
      ≡ ((a * 2 ^ 8 + b) * 2 ^ 8 + c) * 2 ^ 8 + d
or_four a b c d ha hb hc hd =
    let ea : a * 2 ^ 24 % 2 ^ 32 ≡ a * 2 ^ 24 = omega arith in
    let eb : b * 2 ^ 16 % 2 ^ 32 ≡ b * 2 ^ 16 = omega arith in
    let ec : c * 2 ^ 8 % 2 ^ 32 ≡ c * 2 ^ 8 = omega arith in
    let ab : a * 2 ^ 24 + b * 2 ^ 16 ≡ (a * 2 ^ 8 + b) * 2 ^ 16 = omega arith in
    let abc : (a * 2 ^ 8 + b) * 2 ^ 16 + c * 2 ^ 8 ≡ ((a * 2 ^ 8 + b) * 2 ^ 8 + c) * 2 ^ 8 =
      omega arith in
    rw
      (
        ea,
        eb,
        ec,
        or_disjoint 24 a (b * 2 ^ 16) (omega arith),
        ab,
        or_disjoint 16 (a * 2 ^ 8 + b) (c * 2 ^ 8) (omega arith),
        abc,
        or_disjoint 8 ((a * 2 ^ 8 + b) * 2 ^ 8 + c) d hd,
      )
      (refl)
