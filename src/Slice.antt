-- ===== src/Slice.antt =====
-- Byte slices with an index: what `data[i]`, `buf[i] = v`, `need` and `dneed` of
-- bridge-core/src/apdu.rs do. An index is a `usize` of the 32-bit target, whose sums wrap, since the
-- release profile has `overflow-checks = false`.
pub mod Writing
pub mod Reading
pub mod Decoder
use micro_bacnet_bridge.Base.{ℕ, ◌+◌, ◌-◌, ◌%◌, ◌^◌, ◌<◌, List, [], ◌∷◌, length, set, take, drop}
use micro_bacnet_bridge.Base.{
  Option, none, some, get_elem?, ltb, leb, if◌then◌else◌, ◌&&◌, ◌==◌, Bool, true, false,
}
use micro_bacnet_bridge.Base.{◌≡◌, ◌↔◌, arith}
use micro_bacnet_bridge.Base.{Result, ok, err, panic, ◌>>=◌, ◌>>◌}
use micro_bacnet_bridge.Error.{EncodeError, buffer_too_small, DecodeError, unexpected_end}

abbrev pub add_usize : ℕ → ℕ → ℕ
add_usize a b = (a + b) % 2 ^ 32

-- A slice has at most `isize::MAX` bytes.
abbrev pub IsSlice : List ℕ → Type 0
IsSlice xs = length xs < 2 ^ 31

abbrev pub IsByte : ℕ → Type 0
IsByte b = b < 256

-- Two byte slices compared, as `==` on slices does: by length and by element.
abbrev pub bytes_eq : List ℕ → List ℕ → Bool
bytes_eq [] [] = true
bytes_eq [] (y ∷ ys) = false
bytes_eq (x ∷ xs) [] = false
bytes_eq (x ∷ xs) (y ∷ ys) = (x == y) && bytes_eq xs ys

pub bytes_eq_iff : (a b : List ℕ) → (bytes_eq a b ≡ true) ↔ (a ≡ b)
bytes_eq_iff [] [] = ground arith
bytes_eq_iff [] (y ∷ b) = ground arith
bytes_eq_iff (x ∷ a) [] = ground arith
bytes_eq_iff (x ∷ a) (y ∷ b) = ground (arith, bytes_eq_iff a b)

-- An index out of bounds panics.
abbrev pub or_panic {ℓ κ} : {E : Type κ} {A : Type ℓ} → Option A → Result E A
or_panic none = panic
or_panic (some a) = ok a

unfoldable pub byte_at {κ} : {E : Type κ} → List ℕ → ℕ → Result E ℕ
byte_at xs i = or_panic (get_elem? xs i)

-- `&xs[i..]` and `&xs[i..j]`
unfoldable pub slice_from {κ} : {E : Type κ} → List ℕ → ℕ → Result E (List ℕ)
slice_from xs i = if leb i (length xs) then ok (drop i xs) else panic

unfoldable pub slice {κ} : {E : Type κ} → List ℕ → ℕ → ℕ → Result E (List ℕ)
slice xs i j = if leb i j && leb j (length xs) then ok (take (j - i) (drop i xs)) else panic

unfoldable pub set_at {κ} : {E : Type κ} → List ℕ → ℕ → ℕ → Result E (List ℕ)
set_at xs i v = if ltb i (length xs) then ok (set xs i v) else panic

-- The writes `buf[pos] = b0; buf[pos + 1] = b1; …`, and `buf[pos..pos + n].copy_from_slice(bytes)`
-- of as many bytes.
unfoldable pub store {κ} : {E : Type κ} → List ℕ → ℕ → List ℕ → Result E (List ℕ)
unfolding set_at
store buf pos [] = ok buf
store buf pos (b ∷ bs) = do buf' ← set_at buf pos b; store buf' (add_usize pos 1) bs

unfoldable pub need : List ℕ → ℕ → ℕ → Result EncodeError (Unit {0})
need buf pos n = if ltb (length buf) (add_usize pos n) then err buffer_too_small else ok tt

unfoldable pub dneed : List ℕ → ℕ → ℕ → Result DecodeError (Unit {0})
dneed xs pos n = if ltb (length xs) (add_usize pos n) then err unexpected_end else ok tt

-- What writes at `*pos` into `buf` and moves `*pos`: the new buffer and the new position.
abbrev pub Encoder : Type 0
Encoder = List ℕ → ℕ → Result EncodeError (List ℕ × ℕ)

-- `e(buf, pos)?; f(buf, pos)?`
infixr 6 ◌⟫◌
unfoldable pub ◌⟫◌ : Encoder → Encoder → Encoder
(e ⟫ f) buf pos = e buf pos >>= λ (buf', pos'). f buf' pos'

-- `need(buf, *pos, n)?; buf[*pos] = …; *pos += n;`
unfoldable pub emit : ℕ → List ℕ → Encoder
unfolding need store
emit n bytes buf pos = do need buf pos n; buf' ← store buf pos bytes; ok (buf', add_usize pos n)

abbrev pub skip : Encoder
skip buf pos = ok (buf, pos)
