-- ===== src/Auth/Laws.antt =====
-- bridge-core/src/auth.rs: the comparison in constant time is equality, and whom a password admits.
use Prim.Native.Nat.{bit_xor, differ, bit_xor-bitwise, bit_or-bitwise}
use micro_bacnet_bridge.Base.{
  ℕ, zero, suc, ◌+◌, ◌*◌, ◌/◌, ◌%◌, min, ◌≤◌, ◌≡◌, ◌≢◌, ◌↔◌, ◌⊎◌, inl, inr, refl, ap, sym, ◌∙◌,
  arith, bit_or, List, [], ◌∷◌, ◌++◌, append_assoc, length, length-append, length-drop, take,
  length-take, drop, replicate, Bool, true, false, Bool-cases, ==_iff, ok, Result,
}
use micro_bacnet_bridge.Base.Bits.{digits_enough, bit_or_halves, bit_or-zero}
use micro_bacnet_bridge.Error.{DecodeError}
use micro_bacnet_bridge.Slice.{bytes_eq_iff, IsSlice, store, bytes_eq}
use micro_bacnet_bridge.Slice.Writing.{store-append}
use micro_bacnet_bridge.Slice.Reading.{slice-append}
use micro_bacnet_bridge.Auth.{difference, constant_time_eq, hash_password, verify_password}

zero-bit_xor : (b : ℕ) → bit_xor 0 b ≡ b
zero-bit_xor b = bit_xor-bitwise 0 b

bit_xor_halves : (x y : ℕ) → bit_xor x y ≡ bit_xor (x / 2) (y / 2) * 2 + differ (x % 2) (y % 2)
bit_xor_halves zero y = omega (arith, zero-bit_xor y, zero-bit_xor (y / 2))
bit_xor_halves (suc x) y = omega (
  arith,
  bit_xor-bitwise (suc x) y,
  bit_xor-bitwise (suc x / 2) (y / 2),
  digits_enough (λ c. c) differ (suc x / 2) (y / 2) x (suc x / 2) (omega arith) (omega arith),
)

differ-eq : (a b : ℕ) → differ a b ≡ 0 → a ≡ b
differ-eq zero b e = sym e
differ-eq (suc a) zero e = e
differ-eq (suc a) (suc b) e = ap suc (differ-eq a b e)

differ_self : (a : ℕ) → differ a a ≡ 0
differ_self zero = refl
differ_self (suc a) = differ_self a

bit_xor-eq_upto : (count x y : ℕ) → x ≤ count → bit_xor x y ≡ 0 → x ≡ y
bit_xor-eq_upto count zero y small e = sym e ∙ zero-bit_xor y
bit_xor-eq_upto zero (suc x) y small e = absurd (omega arith)
bit_xor-eq_upto (suc count) (suc x) y small e =
    let halves = bit_xor_halves (suc x) y in
    let high = bit_xor-eq_upto count (suc x / 2) (y / 2) (omega arith) (omega arith) in
    let low = differ-eq (suc x % 2) (y % 2) (omega arith) in omega arith

bit_xor_self_upto : (count x : ℕ) → x ≤ count → bit_xor x x ≡ 0
bit_xor_self_upto count zero small = zero-bit_xor 0
bit_xor_self_upto zero (suc x) small = absurd (omega arith)
bit_xor_self_upto (suc count) (suc x) small = omega (
  arith,
  bit_xor_halves (suc x) (suc x),
  bit_xor_self_upto count (suc x / 2) (omega arith),
  differ_self (suc x % 2),
)

bit_or-eq_zero_upto : (count x y : ℕ) → x ≤ count → bit_or x y ≡ 0 → (x ≡ 0) × (y ≡ 0)
bit_or-eq_zero_upto count zero y small e = (refl, sym (bit_or-bitwise 0 y) ∙ e)
bit_or-eq_zero_upto zero (suc x) y small e = absurd (omega arith)
bit_or-eq_zero_upto (suc count) (suc x) y small e =
    let halves = bit_or_halves (suc x) y in
    let high = bit_or-eq_zero_upto count (suc x / 2) (y / 2) (omega arith) (omega arith) in
    omega arith

difference_iff :
    (diff : ℕ) (xs ys : List ℕ)
    → length xs ≡ length ys
    → (difference diff xs ys ≡ 0) ↔ ((diff ≡ 0) × (xs ≡ ys))
unfolding difference
difference_iff diff [] [] same = (λ e. (e, refl), λ (e, _). e)
difference_iff diff [] (y ∷ ys) same = absurd (omega arith)
difference_iff diff (x ∷ xs) [] same = absurd (omega arith)
difference_iff diff (x ∷ xs) (y ∷ ys) same =
    let (there, back) = difference_iff (bit_or diff (bit_xor x y)) xs ys (omega arith) in
    (
      λ e.
          let (bits, rest) = there e in
          let (d, bit) = bit_or-eq_zero_upto diff diff (bit_xor x y) (omega arith) bits in
          let byte = bit_xor-eq_upto x x y (omega arith) bit in (d, cc (byte, rest)),
      λ (d, e).
          let byte : x ≡ y = cc e in
          let rest : xs ≡ ys = cc e in
          let nothing = bit_xor_self_upto y y (omega arith) in
          back (rw (d, byte, nothing) (bit_or-zero 0), rest),
    )

-- On arrays of one size, the comparison in constant time is equality.
pub constant_time_eq_iff :
    (a b : List ℕ) → length a ≡ length b → (constant_time_eq a b ≡ true) ↔ (a ≡ b)
unfolding constant_time_eq
constant_time_eq_iff a b same =
    let (there, back) = difference_iff 0 a b same in
    (
      λ e. (there ((==_iff (difference 0 a b) 0).0 e)).1,
      λ e. (==_iff (difference 0 a b) 0).1 (back (refl, e)),
    )

take-min : (n : ℕ) (xs : List ℕ) → take (min (length xs) n) xs ≡ take n xs
take-min zero xs = let nothing : min (length xs) 0 ≡ 0 = omega arith in rw nothing refl
take-min (suc n) [] = let nothing : min 0 (suc n) ≡ 0 = omega arith in rw nothing refl
take-min (suc n) (x ∷ xs) =
    let step : min (length (x ∷ xs)) (suc n) ≡ suc (min (length xs) n) = omega arith in
    rw step (ap (◌∷◌ x) (take-min n xs))

fill :
    (bs salt rest : List ℕ)
    → length salt ≡ 32
    → IsSlice (salt ++ rest)
    → length bs ≤ length rest
    → store {E = DecodeError} (salt ++ rest) 32 bs ≡ ok (salt ++ (bs ++ drop (length bs) rest))
fill bs salt rest size h room = rw size at (store-append {E = DecodeError} bs salt rest h room)

-- A Boolean answer with what it decides.
answers {ℓ} :
    {P : Type ℓ} (r : Result DecodeError Bool) (b : Bool)
    → r ≡ ok b
    → (b ≡ true) ↔ P
    → ((r ≡ ok true) ↔ P) × ((r ≡ ok true) ⊎ (r ≡ ok false))
answers r true e (there, back) = ((λ _. there refl, λ _. e), inl e)
answers r false e (there, back) = ((λ h. there (cc (e, h)), λ p. e ∙ ap ok (back p)), inr e)

module _ (sha256 : List ℕ → List ℕ) where
  hash_password_lem :
      (password salt : List ℕ)
      → length salt ≡ 32
      → hash_password sha256 password salt ≡ ok (sha256 (salt ++ take 64 password))
  unfolding hash_password
  hash_password_lem password salt size =
      let zeros : List ℕ = replicate 96 0 in
      let pw_len = min (length password) 64 in
      let pw = take pw_len password in
      let short : length pw ≡ pw_len = omega (arith, length-take pw_len password) in
      let rest = drop (length salt) zeros in
      let left : length rest ≡ 64 = omega (arith, length-drop (length salt) zeros) in
      let salted = store-append {E = DecodeError} salt [] zeros (omega arith) (omega arith) in
      let filled = fill pw salt rest size (omega (arith, length-append salt rest)) (omega arith) in
      let shape = sym (append_assoc salt pw (drop (length pw) rest)) in
      let message =
        slice-append [] (salt ++ pw) (drop (length pw) rest) (32 + pw_len)
          (omega (arith, length-append salt pw)) in
      rw (salted, filled, shape, message, take-min 64 password) refl

  -- A password is accepted exactly where the account's digest is not all zeros and is the hash of the
  -- salt and the password's first 64 bytes; it is refused else. Salt and digest have 32 bytes, as
  -- what the hash function returns.
  pub verify_password_iff :
      (password salt stored_digest : List ℕ)
      → length salt ≡ 32
      → length stored_digest ≡ 32
      → ((message : List ℕ) → length (sha256 message) ≡ 32)
      → ((verify_password sha256 password salt stored_digest ≡ ok true) ↔ (
          (stored_digest ≢ replicate 32 0) × (sha256 (salt ++ take 64 password) ≡ stored_digest)))
        × ((verify_password sha256 password salt stored_digest ≡ ok true)
            ⊎ (verify_password sha256 password salt stored_digest ≡ ok false))
  unfolding verify_password
  verify_password_iff password salt stored_digest hs hd hash =
      elim (Bool-cases (bytes_eq stored_digest (replicate 32 0))) [
        | inl zeros ↦
            let same = (bytes_eq_iff stored_digest (replicate 32 0)).0 zeros in
            answers _ false (rw zeros refl) (λ h. cc h, λ (ne, _). absurd (ne same))
        | inr set_up ↦
            let ne : stored_digest ≢ replicate 32 0 = λ e.
              let both = (bytes_eq_iff stored_digest (replicate 32 0)).1 e in cc (both, set_up) in
            let digest = sha256 (salt ++ take 64 password) in
            let (there, back) = constant_time_eq_iff digest stored_digest (hash _ ∙ sym hd) in
            answers _ (constant_time_eq digest stored_digest)
              (rw (set_up, hash_password_lem password salt hs) refl)
              (λ h. (ne, there h), λ (_, e). back e)
      ]
