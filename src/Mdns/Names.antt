-- ===== src/Mdns/Names.antt =====
-- The names of bridge-core/src/mdns.rs: what the writer puts on the wire is read back.
use micro_bacnet_bridge.Base.{
  ℕ, zero, suc, ◌+◌, ◌%◌, ◌^◌, ◌≤◌, ◌<◌, ◌≡◌, refl, ap, sym, ◌∙◌, arith, bit_and, List, [], ◌∷◌,
  ◌++◌, append_assoc, append-nil, length, length-append, map, All, Option, some, false, ltb, leb,
  le→ltb_false, ◌==◌, get_elem?-append, ok,
}
use micro_bacnet_bridge.Base.Bits.{all_below, eq_below}
use micro_bacnet_bridge.Error.{EncodeError, DecodeError}
use micro_bacnet_bridge.Slice.{IsSlice, add_usize, byte_at, slice}
use micro_bacnet_bridge.Slice.Writing.{
  Emits, written, Emits-⟫, Emits-skip, Emits-emit, store-append, snoc,
}
use micro_bacnet_bridge.Slice.Reading.{slice-append}
use micro_bacnet_bridge.Text.{push_all, push_all-cons, latin1}
use micro_bacnet_bridge.Mdns.{
  dot, split, add_parts, write_label, write_labels, write_end, domain_parts, or_first, push_label,
  read_labels,
}

-- A label that DNS allows, in ASCII.
abbrev pub IsLabel : List ℕ → Type 0
IsLabel label = (0 < length label) × (length label ≤ 63) × All (λ b. b < 128) label

abbrev pub label_bytes : List (List ℕ) → List ℕ
label_bytes [] = []
label_bytes (label ∷ labels) = (length label ∷ label) ++ label_bytes labels

-- What the reader makes of labels behind a name.
abbrev pub joined : List ℕ → List (List ℕ) → List ℕ
joined name [] = name
joined [] (label ∷ labels) = joined label labels
joined (c ∷ name) (label ∷ labels) = joined ((c ∷ name) ++ (dot ∷ label)) labels

pub Emits-write_label :
    (label : List ℕ) → IsLabel label → Emits (write_label label) (length label ∷ label)
unfolding write_label
Emits-write_label label (some_bytes, small, ascii) =
    let byte : length label % 256 ≡ length label = omega arith in
    record {
      run = λ pre old h.
          rw (le→ltb_false 63 (length label) small, byte)
            ((Emits-emit (1 + length label) (length label ∷ label) (omega arith) (omega arith)).run
              pre old h);
    }

pub Emits-write_labels :
    (labels : List (List ℕ)) → All IsLabel labels → Emits (write_labels labels) (label_bytes labels)
Emits-write_labels [] h = Emits-skip
Emits-write_labels (label ∷ labels) (first, others) =
    Emits-⟫ (Emits-write_label label first) (Emits-write_labels labels others)

write_end_run :
    (pre old : List ℕ)
    → IsSlice (pre ++ old)
    → write_end (pre ++ old) (length pre) ≡ written pre (0 ∷ []) old
unfolding write_end
write_end_run pre [] h = ground (arith, length-append pre [])
write_end_run pre (o ∷ old) h =
    ground
      (arith, length-append pre (o ∷ old), store-append {E = EncodeError} (0 ∷ []) pre (o ∷ old) h)

pub Emits-write_end : Emits write_end (0 ∷ [])
Emits-write_end = record { run = λ pre old h. write_end_run pre old h }

-- The labels of a name in a domain.
abbrev pub labels_of : List ℕ → List ℕ → List (List ℕ)
labels_of name domain = split name ++ domain_parts domain

abbrev pub name_bytes : List ℕ → List ℕ → List ℕ
name_bytes name domain = label_bytes (split name) ++ (label_bytes (domain_parts domain) ++ (0 ∷ []))

-- The length that is checked in advance is that of the name on the wire.
pub add_parts_lem :
    (labels : List (List ℕ)) (n : ℕ)
    → All IsLabel labels
    → n + length (label_bytes labels) < 2 ^ 31
    → add_parts n labels ≡ n + length (label_bytes labels)
add_parts_lem [] n h small = omega arith
add_parts_lem ([] ∷ labels) n ((some_bytes, _, _), others) small = absurd (omega arith)
add_parts_lem ((c ∷ label) ∷ labels) n (first, others) small =
    let l = length-append label (label_bytes labels) in
    let n' = add_usize n (add_usize 1 (length (c ∷ label))) in
    omega (arith, add_parts_lem labels n' others (omega arith))

-- The ASCII characters are pushed as they are.
push_all-latin1 :
    (label text : List ℕ)
    → All (λ b. b < 128) label
    → length text + length label ≤ 128
    → push_all 128 text (map latin1 label) ≡ some (text ++ label)
push_all-latin1 [] text ascii fits = ap some (sym (append-nil text))
push_all-latin1 (b ∷ label) text (hb, ascii) fits =
    let one : latin1 b ≡ b ∷ [] = ground arith in
    let room = push_all-cons 128 text (b ∷ []) (map latin1 label) (omega arith) in
    rw (one, room)
      (push_all-latin1 label (text ++ (b ∷ [])) ascii (omega (arith, length-append text (b ∷ [])))
        ∙ ap some (append_assoc text (b ∷ []) label))

push_label_lem :
    (name label : List ℕ)
    → IsLabel label
    → length (joined name (label ∷ [])) ≤ 128
    → push_label name label ≡ ok (joined name (label ∷ []))
unfolding push_label
push_label_lem [] label (_, _, ascii) fits = rw (push_all-latin1 label [] ascii (omega arith)) refl
push_label_lem (c ∷ name) label (_, _, ascii) fits =
    let size = length-append name (dot ∷ label) in
    let dotted = (c ∷ name) ++ (dot ∷ []) in
    let room = push_all-cons 128 (c ∷ name) (dot ∷ []) (map latin1 label) (omega arith) in
    let rest = push_all-latin1 label dotted ascii (omega (arith, length-append name (dot ∷ []))) in
    rw (room, rest) (ap (λ (t : List ℕ). ok (c ∷ t)) (append_assoc name (dot ∷ []) label))

joined-cons :
    (name label : List ℕ) (labels : List (List ℕ))
    → joined name (label ∷ labels) ≡ joined (joined name (label ∷ [])) labels
joined-cons [] label labels = refl
joined-cons (c ∷ name) label labels = refl

length-joined : (name : List ℕ) (labels : List (List ℕ)) → length name ≤ length (joined name labels)
length-joined name [] = omega arith
length-joined [] (label ∷ labels) = omega arith
length-joined (c ∷ name) (label ∷ labels) =
    omega
      (arith, length-append name (dot ∷ label), length-joined ((c ∷ name) ++ (dot ∷ label)) labels)

-- A label's length is no pointer.
no_pointer : (n : ℕ) → n < 64 → (bit_and n 0xC0 == 0xC0) ≡ false
no_pointer n small =
    ground (arith, eq_below 64 (λ x. bit_and x 0xC0) (λ _. 0) (unfold all_below in refl) n small)

slice-behind :
    (pre : List ℕ) (n : ℕ) (label s : List ℕ)
    → slice {E = DecodeError}
        (pre ++ (n ∷ (label ++ s)))
        (length pre + 1)
        (length pre + 1 + length label)
      ≡ ok label
slice-behind pre n label s =
    let size : length pre + 1 ≡ length (pre ++ (n ∷ [])) =
      omega (arith, length-append pre (n ∷ [])) in
    rw (snoc pre n (label ++ s), size) (slice-append (pre ++ (n ∷ [])) label s _ refl)

-- The reader takes one label.
read_label :
    (fuel : ℕ) (name label pre s : List ℕ) (end_pos : Option ℕ) (hops : ℕ)
    → IsLabel label
    → length (joined name (label ∷ [])) ≤ 128
    → IsSlice (pre ++ ((length label ∷ label) ++ s))
    → read_labels (suc fuel) (pre ++ ((length label ∷ label) ++ s)) name (length pre) end_pos hops
      ≡ read_labels fuel
          ((pre ++ (length label ∷ label)) ++ s)
          (joined name (label ∷ []))
          (length (pre ++ (length label ∷ label)))
          end_pos
          hops
unfolding read_labels byte_at
read_label fuel name label pre s end_pos hops (some_bytes, small, ascii) fits h =
    let n = length label in
    let xs = pre ++ (n ∷ (label ++ s)) in
    let size = length-append pre (n ∷ (label ++ s)) in
    let inner = length-append label s in
    let inside : leb (length xs) (length pre) ≡ false = ground arith in
    let nonzero : (n == 0) ≡ false = ground arith in
    let start : add_usize (length pre) 1 ≡ length pre + 1 = omega arith in
    let behind : add_usize (length pre + 1) n ≡ length pre + 1 + n = omega arith in
    let room : ltb (length xs) (length pre + 1 + n) ≡ false = ground arith in
    let shape : pre ++ (n ∷ (label ++ s)) ≡ (pre ++ (n ∷ label)) ++ s =
      sym (append_assoc pre (n ∷ label) s) in
    let after : length pre + 1 + n ≡ length (pre ++ (n ∷ label)) =
      omega (arith, length-append pre (n ∷ label)) in
    rw
      (
        inside,
        get_elem?-append pre n (label ++ s),
        nonzero,
        no_pointer n (omega arith),
        start,
        behind,
        room,
        slice-behind pre n label s,
        push_label_lem name label (some_bytes, small, ascii) fits,
        after,
        shape,
      )
      refl

read_label_end :
    (fuel : ℕ) (name pre rest : List ℕ) (end_pos : Option ℕ) (hops : ℕ)
    → IsSlice (pre ++ (0 ∷ rest))
    → read_labels (suc fuel) (pre ++ (0 ∷ rest)) name (length pre) end_pos hops
      ≡ ok (name, or_first end_pos (length pre + 1))
unfolding read_labels byte_at
read_label_end fuel name pre rest end_pos hops h =
    let size = length-append pre (0 ∷ rest) in
    let inside : leb (length (pre ++ (0 ∷ rest))) (length pre) ≡ false = ground arith in
    let last : add_usize (length pre) 1 ≡ length pre + 1 = omega arith in
    rw (inside, get_elem?-append pre 0 rest, last) refl

pub read_labels_lem :
    (labels : List (List ℕ)) (fuel : ℕ) (name pre rest : List ℕ) (end_pos : Option ℕ) (hops : ℕ)
    → All IsLabel labels
    → length (joined name labels) ≤ 128
    → length labels < fuel
    → IsSlice (pre ++ (label_bytes labels ++ (0 ∷ rest)))
    → read_labels fuel (pre ++ (label_bytes labels ++ (0 ∷ rest))) name (length pre) end_pos hops
      ≡ ok (joined name labels, or_first end_pos (length pre + length (label_bytes labels) + 1))
read_labels_lem labels zero name pre rest end_pos hops h fits few slice = absurd (omega arith)
read_labels_lem [] (suc fuel) name pre rest end_pos hops h fits few slice =
    read_label_end fuel name pre rest end_pos hops slice ∙ ground arith
read_labels_lem (label ∷ labels) (suc fuel) name pre rest end_pos hops (first, others) fits few
      slice =
    let more = label_bytes labels ++ (0 ∷ rest) in
    let head = (length label ∷ label) in
    let split_bytes : label_bytes (label ∷ labels) ++ (0 ∷ rest) ≡ head ++ more =
      append_assoc head (label_bytes labels) (0 ∷ rest) in
    let shape : pre ++ (head ++ more) ≡ (pre ++ head) ++ more = sym (append_assoc pre head more) in
    let step = joined-cons name label labels in
    let one =
      read_label fuel name label pre more end_pos hops first
        (omega (arith, ap length step, length-joined (joined name (label ∷ [])) labels))
        (rw split_bytes at slice) in
    let ih =
      read_labels_lem labels fuel (joined name (label ∷ [])) (pre ++ head) rest end_pos hops others
        (rw step at fits) (omega arith) (rw (split_bytes, shape) at slice) in
    rw (split_bytes, one, ih, step)
      (ap (λ (t : ℕ). ok (joined (joined name (label ∷ [])) labels, or_first end_pos t))
        (omega (arith, length-append pre head, length-append label (label_bytes labels))))
