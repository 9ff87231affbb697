-- ===== src/Ipc/Slots.antt =====
-- The slot of a counter in the ring of bridge-core/src/ipc.rs: it survives the wrap of the counter,
-- and the slots of as many counters in a row as the ring has are different.
use native.Mathlib.Nat.{
  mod-mod_of_dvd, dvd_of_mod-eq-zero, mod-add-mod, mod-eq_of_lt, mod-eq-sub-mod, mod-lt,
}
use micro_bacnet_bridge.Base.{
  ℕ, ◌+◌, ◌-◌, ◌%◌, ◌^◌, ◌≤◌, ◌<◌, ◌≡◌, ◌≢◌, refl, sym, ◌∙◌, arith, true, ◌==◌,
}
use micro_bacnet_bridge.Base.{==_iff, Bool-cases, leb, leb→le, inl, inr}
use micro_bacnet_bridge.Base.Bits.{all_below, all_below_sound, pow_pos}

-- What the compile-time check of the source demands of `N`, with what a 32-bit target can hold.
pub record IsCapacity (n : ℕ) : Type 0 where
  pub exponent : ℕ
  pub small : exponent < 32
  pub power : n ≡ 2 ^ exponent

divides_table : all_below 32 (λ e. (2 ^ 32 % 2 ^ e) == 0) ≡ true
unfolding all_below
divides_table = refl

capacity_divides : {n : ℕ} → IsCapacity n → 2 ^ 32 % n ≡ 0
capacity_divides c = rw (c.power) (
    (==_iff (2 ^ 32 % 2 ^ c.exponent) 0).0
      (all_below_sound 32 (λ e. (2 ^ 32 % 2 ^ e) == 0) c.exponent divides_table c.small))

pub capacity_pos : {n : ℕ} → IsCapacity n → 0 < n
capacity_pos c = rw (c.power) (pow_pos c.exponent)

power_table : all_below 32 (λ e. leb (2 ^ e) (2 ^ 31)) ≡ true
unfolding all_below
power_table = refl

pub capacity_small : {n : ℕ} → IsCapacity n → n ≤ 2 ^ 31
capacity_small c =
    rw (c.power)
      (leb→le _ _ (all_below_sound 32 (λ e. leb (2 ^ e) (2 ^ 31)) c.exponent power_table c.small))

pub slot_wrap : {n : ℕ} → IsCapacity n → (a : ℕ) → a % 2 ^ 32 % n ≡ a % n
slot_wrap {n} c a = mod-mod_of_dvd n a (dvd_of_mod-eq-zero n (capacity_divides c))

pub slot_ne : {n : ℕ} → IsCapacity n → (a k : ℕ) → 0 < k → k < n → a % n ≢ (a + k) % n
slot_ne {n} c a k pos below e =
    let r = a % n in
    let small : r < n = mod-lt a (capacity_pos c) in
    let same : (r + k) % n ≡ r = mod-add-mod a n k ∙ sym e in
    elim (Bool-cases (leb n (r + k))) [
      | inl over ↦
          let le : n ≤ r + k = leb→le _ _ over in
          let wrapped : (r + k) % n ≡ (r + k - n) % n = mod-eq-sub-mod le in
          let at : (r + k - n) % n ≡ r + k - n = mod-eq_of_lt (omega arith) in omega arith
      | inr under ↦ let at : (r + k) % n ≡ r + k = mod-eq_of_lt (ground arith) in omega arith
    ]
