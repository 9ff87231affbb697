-- ===== src/Mdns/RoundTrip.antt =====
-- The names that bridge-core/src/mdns.rs writes are read back.
use micro_bacnet_bridge.Base.{
  ℕ, ◌+◌, ◌*◌, ◌≤◌, ◌≡◌, inl, inr, refl, ap, sym, ◌∙◌, arith, List, [], ◌∷◌, ◌++◌, append_assoc,
  length, length-append, drop, length-drop, All, none, Bool-cases, ltb, ok, err,
}
use micro_bacnet_bridge.Error.{string_too_long}
use micro_bacnet_bridge.Slice.{IsSlice}
use micro_bacnet_bridge.Slice.Writing.{written, Emits-⟫}
use micro_bacnet_bridge.Mdns.{split, add_parts, domain_parts, write_name, read_name}
use micro_bacnet_bridge.Mdns.Names.{
  IsLabel, label_bytes, labels_of, name_bytes, Emits-write_labels, Emits-write_end, read_labels_lem,
}
use micro_bacnet_bridge.Mdns.Joined.{dotted, joined-labels_of, All-append_left, All-append_right}

label_bytes-append :
    (xs ys : List (List ℕ)) → label_bytes (xs ++ ys) ≡ label_bytes xs ++ label_bytes ys
label_bytes-append [] ys = refl
label_bytes-append (x ∷ xs) ys =
    ap (λ (t : List ℕ). (length x ∷ x) ++ t) (label_bytes-append xs ys)
    ∙ sym (append_assoc (length x ∷ x) (label_bytes xs) (label_bytes ys))

-- Each label takes a byte at least.
labels_fit : (labels : List (List ℕ)) → length labels ≤ length (label_bytes labels)
labels_fit [] = omega arith
labels_fit (x ∷ labels) = omega (arith, labels_fit labels, length-append x (label_bytes labels))

name_shape :
    (name domain rest : List ℕ)
    → name_bytes name domain ++ rest ≡ label_bytes (labels_of name domain) ++ (0 ∷ rest)
name_shape name domain rest =
    let a = label_bytes (split name) in
    let b = label_bytes (domain_parts domain) in
    rw (label_bytes-append (split name) (domain_parts domain)) (
      append_assoc a (b ++ (0 ∷ [])) rest
      ∙ ap (λ (t : List ℕ). a ++ t) (append_assoc b (0 ∷ []) rest)
      ∙ sym (append_assoc a b (0 ∷ rest)))

-- Where `write_name` succeeds, it has written the labels and their end.
write_name_ok :
    (name domain pre old : List ℕ) {buf' : List ℕ} {p : ℕ}
    → All IsLabel (labels_of name domain)
    → IsSlice (pre ++ old)
    → write_name name domain (pre ++ old) (length pre) ≡ ok (buf', p)
    → written pre (name_bytes name domain) old ≡ ok (buf', p)
unfolding write_name
write_name_ok name domain pre old {buf'} {p} labels h e =
    elim (Bool-cases (ltb 255 (add_parts 1 (labels_of name domain)))) [
      | inl long ↦
          let failed : err string_too_long ≡ ok (buf', p) = rw (write_name, long) at e in cc failed
      | inr short ↦
          let emits =
            Emits-⟫
              (Emits-write_labels (split name)
                (All-append_left IsLabel (split name) (domain_parts domain) labels))
              (Emits-⟫
                (Emits-write_labels (domain_parts domain)
                  (All-append_right IsLabel (split name) (domain_parts domain) labels))
                Emits-write_end) in
          sym (emits.run pre old h) ∙ rw (write_name, short) at e
    ]

written_ok :
    (pre bs old : List ℕ) {buf' : List ℕ} {p : ℕ}
    → written pre bs old ≡ ok (buf', p)
    → (buf' ≡ pre ++ (bs ++ drop (length bs) old))
      × (p ≡ length pre + length bs)
      × (length bs ≤ length old)
written_ok pre bs old e = ground (arith, e)

-- A name in a domain that `write_name` wrote anywhere in a slice is read there: its labels joined
-- by dots, and the position behind it, where each label has 1 to 63 ASCII characters and the name
-- with its dots has at most 128.
pub read_name-write_name :
    (name domain pre old : List ℕ) {buf' : List ℕ} {p : ℕ}
    → All IsLabel (labels_of name domain)
    → length (dotted name domain) ≤ 128
    → IsSlice (pre ++ old)
    → write_name name domain (pre ++ old) (length pre) ≡ ok (buf', p)
    → read_name buf' (length pre) ≡ ok (dotted name domain, p)
unfolding read_name
read_name-write_name name domain pre old labels fits h e =
    let ls = labels_of name domain in
    let bs = name_bytes name domain in
    let rest = drop (length bs) old in
    let (content, last, room) =
      written_ok pre bs old (write_name_ok name domain pre old labels h e) in
    let slice : IsSlice (pre ++ (bs ++ rest)) = omega (
      arith,
      length-append pre (bs ++ rest),
      length-append bs rest,
      length-append pre old,
      length-drop (length bs) old,
    ) in
    let same = joined-labels_of name domain labels in
    let shape = name_shape name domain rest in
    let size : length bs ≡ length (label_bytes ls) + 1 =
      omega (
        arith,
        length-append bs rest,
        ap length shape,
        length-append (label_bytes ls) (0 ∷ rest),
      ) in
    let few = labels_fit ls in
    let there =
      read_labels_lem ls (9 * (length (pre ++ (label_bytes ls ++ (0 ∷ rest))) + 1)) [] pre rest none
        0 labels (rw same fits)
        (omega (
          arith,
          length-append pre (label_bytes ls ++ (0 ∷ rest)),
          length-append (label_bytes ls) (0 ∷ rest),
        ))
        (rw shape at slice) in
    rw (content, last, shape) (there ∙ ground (arith, size, same))
