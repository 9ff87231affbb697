-- ===== src/Mdns/Ends.antt =====
-- The reader of DNS names of bridge-core/src/mdns.rs ends on every packet, whatever its pointers say.
use native.Mathlib.Nat.{add-mul}
use mathlib.Core.Option.{none-ne-some}
use micro_bacnet_bridge.Base.{
  take, drop, All, All-get_elem?, ap, ℕ, zero, suc, ◌+◌, ◌-◌, ◌*◌, ◌^◌, ◌≤◌, ◌<◌, ◌≡◌, ◌⊎◌, inl,
  inr, refl, arith, bit_and, bit_or, List, [], ◌∷◌, ◌++◌, length, length-append, map, Option, none,
  some, Option-cases, Bool-cases, Bool, true, false, ltb, leb, le→leb, ◌==◌, if◌then◌else◌,
  lt-get_elem?, Result, ok, err, ◌>>=◌,
}
use micro_bacnet_bridge.Error.{DecodeError, unexpected_end, invalid_data, invalid_name_pointer}
use micro_bacnet_bridge.Slice.{IsSlice, IsByte, add_usize, byte_at, slice}
use micro_bacnet_bridge.Text.{push_all, latin1}
use micro_bacnet_bridge.Mdns.{or_first, separator, push_label, read_labels, read_name}

-- A name of at most 128 bytes with a position inside the packet, or an error: no panic, and no loop.
abbrev pub Ends : ℕ → Result DecodeError (List ℕ × ℕ) → Type 0
Ends size r =
    ((name : List ℕ) × (p : ℕ) × (r ≡ ok (name, p)) × (length name ≤ 128) × (p ≤ size))
    ⊎ ((e : DecodeError) × (r ≡ err e))

Ends-err : (size : ℕ) (e : DecodeError) → Ends size (err e)
Ends-err size e = inr (e, refl)

Ends-if :
    {size : ℕ} (test : Bool) {x y : Result DecodeError (List ℕ × ℕ)}
    → (test ≡ true → Ends size x)
    → (test ≡ false → Ends size y)
    → Ends size (if test then x else y)
Ends-if true yes_case no_case = yes_case refl
Ends-if false yes_case no_case = no_case refl

length-push_all :
    (pieces : List (List ℕ)) (room : ℕ) (text : List ℕ) {text' : List ℕ}
    → length text ≤ room
    → push_all room text pieces ≡ some text'
    → length text' ≤ room
length-push_all [] room text small e = ground (arith, e)
length-push_all (s ∷ pieces) room text small e =
    elim (Bool-cases (leb (length text + length s) room)) [
      | inl fits ↦
          length-push_all pieces room (text ++ s) (ground (arith, length-append text s))
            (rw (push_all, fits) at e)
      | inr full ↦ absurd (none-ne-some _ (rw (push_all, full) at e))
    ]

push_label_cases :
    (name label : List ℕ)
    → length name ≤ 128
    → ((name' : List ℕ) × (push_label name label ≡ ok name') × (length name' ≤ 128))
      ⊎ (push_label name label ≡ err invalid_data)
unfolding push_label
push_label_cases name label small =
    elim (Option-cases (push_all 128 name (separator name ++ map latin1 label))) [
      | inl e ↦ inr (rw e refl)
      | inr (name', e) ↦ inl (name', rw e refl, length-push_all _ 128 name small e)
    ]

slice_inside :
    (xs : List ℕ) (i j : ℕ)
    → i ≤ j
    → j ≤ length xs
    → (s : List ℕ) × (slice {E = DecodeError} xs i j ≡ ok s)
unfolding slice
slice_inside xs i j order inside =
    (take (j - i) (drop i xs), rw (le→leb i j order, le→leb j (length xs) inside) refl)

-- A round ends, if what follows a pointer and what follows a label do.
module _ (fuel : ℕ) (xs name : List ℕ) (pos : ℕ) (end_pos : Option ℕ) (hops : ℕ) (h : IsSlice xs)
    (few : hops ≤ 8) (small : length name ≤ 128) (first : or_first end_pos 0 ≤ length xs)
    (followed : (offset p : ℕ)
      → offset < length xs
      → p ≤ length xs
      → hops < 8
      → Ends (length xs) (read_labels fuel xs name offset (some p) (hops + 1)))
    (labelled : (name' : List ℕ) (next : ℕ)
      → length name' ≤ 128
      → pos < next
      → next ≤ length xs
      → Ends (length xs) (read_labels fuel xs name' next end_pos hops)) where
  or_first_inside : (p : ℕ) → p ≤ length xs → or_first end_pos p ≤ length xs
  or_first_inside p inside = go end_pos first
    where
      go : (o : Option ℕ) → or_first o 0 ≤ length xs → or_first o p ≤ length xs
      go none _ = inside
      go (some q) e = e

  follow-Ends :
      (b low : ℕ)
      → pos + 2 ≤ length xs
      → Ends (length xs) (
          let offset = bit_or (bit_and b 0x3F * 2 ^ 8) low in
          if leb pos offset
          then err invalid_name_pointer
          else (if leb (length xs) offset
              then err invalid_name_pointer
              else (if ltb 8 (add_usize hops 1)
                  then err invalid_name_pointer
                  else read_labels fuel xs name offset
                      (some (or_first end_pos (add_usize pos 2)))
                      (add_usize hops 1))))
  follow-Ends b low room =
      let next : add_usize hops 1 ≡ hops + 1 = omega arith in
      let behind : add_usize pos 2 ≡ pos + 2 = omega arith in
      rw (next, behind)
        (let offset = bit_or (bit_and b 0x3F * 2 ^ 8) low in
          Ends-if (leb pos offset) (λ _. Ends-err _ _)
            (λ _.
              Ends-if (leb (length xs) offset) (λ _. Ends-err _ _)
                (λ (inside : leb (length xs) offset ≡ false).
                  Ends-if (ltb 8 (hops + 1)) (λ _. Ends-err _ _)
                    (λ (fewer : ltb 8 (hops + 1) ≡ false).
                      followed _ _ (ground arith) (or_first_inside (pos + 2) room)
                        (ground arith)))))

  pointer-Ends :
      (b : ℕ)
      → pos < length xs
      → Ends (length xs) (
          if leb (length xs) (add_usize pos 1) then err unexpected_end else (do
            low ← byte_at xs (add_usize pos 1)
            let offset = bit_or (bit_and b 0x3F * 2 ^ 8) low
            if leb pos offset
                then err invalid_name_pointer
                else (if leb (length xs) offset
                    then err invalid_name_pointer
                    else (if ltb 8 (add_usize hops 1)
                        then err invalid_name_pointer
                        else read_labels fuel xs name offset
                            (some (or_first end_pos (add_usize pos 2)))
                            (add_usize hops 1)))))
  unfolding byte_at
  pointer-Ends b there =
      Ends-if (leb (length xs) (add_usize pos 1)) (λ _. Ends-err _ _)
        (λ (more : leb (length xs) (add_usize pos 1) ≡ false).
          let (low, e) = lt-get_elem? xs (add_usize pos 1) (ground arith) in
          rw e (follow-Ends b low (ground arith)))

  label-Ends :
      (b : ℕ)
      → pos < length xs
      → b < 2 ^ 31
      → Ends (length xs) (
          let start = add_usize pos 1 in
          if ltb (length xs) (add_usize start b) then err unexpected_end else (do
            label ← slice xs start (add_usize start b)
            name' ← push_label name label
            read_labels fuel xs name' (add_usize start b) end_pos hops))
  label-Ends b there byte =
      let start : add_usize pos 1 ≡ pos + 1 = omega arith in
      let behind : add_usize (pos + 1) b ≡ pos + 1 + b = omega arith in
      rw (start, behind)
        (Ends-if (ltb (length xs) (pos + 1 + b)) (λ _. Ends-err _ _)
          (λ (room : ltb (length xs) (pos + 1 + b) ≡ false).
            let (label, e) = slice_inside xs (pos + 1) (pos + 1 + b) (omega arith) (ground arith) in
            rw e (elim (push_label_cases name label small) [
              | inl (name', pushed, size) ↦
                  rw pushed (labelled name' (pos + 1 + b) size (omega arith) (ground arith))
              | inr full ↦ rw full (Ends-err _ _)
            ])))

  round-Ends : All IsByte xs → Ends (length xs) (read_labels (suc fuel) xs name pos end_pos hops)
  unfolding read_labels byte_at
  round-Ends bytes =
      Ends-if (leb (length xs) pos) (λ _. Ends-err _ _)
        (λ (long : leb (length xs) pos ≡ false).
          let there : pos < length xs = ground arith in
          let (b, byte) = lt-get_elem? xs pos there in
          let last : add_usize pos 1 ≡ pos + 1 = omega arith in
          let small_byte : b < 256 = All-get_elem? IsByte xs pos bytes byte in
          rw (byte) (
            Ends-if (b == 0)
              (λ _. inl (
                name,
                or_first end_pos (add_usize pos 1),
                refl,
                small,
                rw last (or_first_inside (pos + 1) (omega arith)),
              ))
              (λ _.
                Ends-if (bit_and b 0xC0 == 0xC0) (λ _. pointer-Ends b there)
                  (λ _. label-Ends b there (omega arith)))))

ends :
    (fuel k : ℕ) (xs name : List ℕ) (pos : ℕ) (end_pos : Option ℕ) (hops : ℕ)
    → IsSlice xs
    → All IsByte xs
    → hops + k ≡ 8
    → k * (length xs + 1) + (length xs - pos) < fuel
    → length name ≤ 128
    → or_first end_pos 0 ≤ length xs
    → Ends (length xs) (read_labels fuel xs name pos end_pos hops)
ends zero k xs name pos end_pos hops h bytes sum measure small first = absurd (omega arith)
ends (suc fuel) k xs name pos end_pos hops h bytes sum measure small first =
    round-Ends fuel xs name pos end_pos hops h (omega arith) small first
      (λ offset p inside here fewer.
        let same : k ≡ (k - 1) + 1 = omega arith in
        let fewer_hops = add-mul (k - 1) 1 (length xs + 1) in
        ends fuel (k - 1) xs name offset (some p) (hops + 1) h bytes (omega arith)
          (omega (arith, ap (λ (t : ℕ). t * (length xs + 1)) same)) small here)
      (λ name' next size later inside.
        ends fuel k xs name' next end_pos hops h bytes sum (omega arith) size first)
      bytes

-- From any start in any slice of bytes, the reader of names ends: within the model's 9 * (n + 1)
-- rounds for n bytes it returns a name of at most 128 bytes with a position inside the slice, or an
-- error; it follows no pointer for ever and indexes nothing out of bounds.
pub read_name-Ends :
    (xs : List ℕ) (start : ℕ) → IsSlice xs → All IsByte xs → Ends (length xs) (read_name xs start)
unfolding read_name
read_name-Ends xs start h bytes =
    ends (9 * (length xs + 1)) 8 xs [] start none 0 h bytes refl (omega arith) (omega arith)
      (omega arith)
