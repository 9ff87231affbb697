-- ===== src/Mdns/Joined.antt =====
-- The dotted names of bridge-core/src/mdns.rs: joining the parts of a name gives the name back.
use micro_bacnet_bridge.Base.{
  ℕ, suc, ◌≤◌, ◌≡◌, inl, inr, refl, ap, sym, ◌∙◌, arith, List, [], ◌∷◌, ◌++◌, append_assoc,
  append-nil, All, Bool-cases, ◌==◌, ==_iff,
}
use micro_bacnet_bridge.Text.{cons_head, split_on}
use micro_bacnet_bridge.Mdns.{dot, split, domain_parts}
use micro_bacnet_bridge.Mdns.Names.{IsLabel, joined, labels_of}

-- Joining what was split.
abbrev onto : List ℕ → List (List ℕ) → List ℕ
onto name [] = name
onto name (label ∷ labels) = joined (name ++ label) labels

split_cons : (s : List ℕ) → (p : List ℕ) × (ps : List (List ℕ)) × (split s ≡ p ∷ ps)
unfolding split_on
split_cons [] = ([], [], refl)
split_cons (c ∷ s) = elim (Bool-cases (c == dot)) [
  | inl e ↦ ([], split s, rw e refl)
  | inr e ↦ let (p, ps, same) = split_cons s in (c ∷ p, ps, rw (e, same) refl)
]

onto-cons_head :
    (c d : ℕ) (name : List ℕ) (ps : List (List ℕ))
    → onto (c ∷ name) (cons_head d ps) ≡ onto ((c ∷ name) ++ (d ∷ [])) ps
onto-cons_head c d name [] = refl
onto-cons_head c d name (p ∷ ps) =
    ap (λ (t : List ℕ). joined (c ∷ t) ps) (sym (append_assoc name (d ∷ []) p))

joined-onto :
    (c : ℕ) (name s : List ℕ)
    → joined (c ∷ name) (split s) ≡ onto ((c ∷ name) ++ (dot ∷ [])) (split s)
joined-onto c name s =
    let (p, ps, same) = split_cons s in
    rw same (ap (λ (t : List ℕ). joined (c ∷ t) ps) (sym (append_assoc name (dot ∷ []) p)))

onto-split : (s : List ℕ) (c : ℕ) (name : List ℕ) → onto (c ∷ name) (split s) ≡ (c ∷ name) ++ s
unfolding split_on
onto-split [] c name = refl
onto-split (d ∷ s) c name = elim (Bool-cases (d == dot)) [
  | inl e ↦
      let same : d ≡ dot = (==_iff d dot).0 e in
      let nil = append-nil name in
      rw (same, nil)
        (joined-onto c name s
          ∙ onto-split s c (name ++ (dot ∷ []))
          ∙ ap (◌∷◌ c) (append_assoc name (dot ∷ []) s))
  | inr e ↦ rw e (
      onto-cons_head c d name (split s)
      ∙ onto-split s c (name ++ (d ∷ []))
      ∙ ap (◌∷◌ c) (append_assoc name (d ∷ []) s))
]

joined-behind : (c : ℕ) (name s : List ℕ) → joined (c ∷ name) (split s) ≡ (c ∷ name) ++ (dot ∷ s)
joined-behind c name s =
    joined-onto c name s
    ∙ onto-split s c (name ++ (dot ∷ []))
    ∙ ap (◌∷◌ c) (append_assoc name (dot ∷ []) s)

joined-first : (d : ℕ) (ps : List (List ℕ)) → joined [] (cons_head d ps) ≡ onto (d ∷ []) ps
joined-first d [] = refl
joined-first d (p ∷ ps) = refl

joined-split : (name : List ℕ) → All IsLabel (split name) → joined [] (split name) ≡ name
unfolding split_on
joined-split [] ((some_bytes, _, _), _) = absurd (omega arith)
joined-split (d ∷ name) h = elim (Bool-cases (d == dot)) [
  | inl e ↦ absurd (omega (arith, nonempty (rw (split_on, e) at h)))
  | inr e ↦ rw e (joined-first d (split name) ∙ onto-split name d [])
]
  where
    nonempty : All IsLabel ([] ∷ split name) → suc 0 ≤ 0
    nonempty ((some_bytes, _, _), _) = some_bytes

joined-append :
    (name : List ℕ) (xs ys : List (List ℕ)) → joined name (xs ++ ys) ≡ joined (joined name xs) ys
joined-append name [] ys = refl
joined-append [] (x ∷ xs) ys = joined-append x xs ys
joined-append (c ∷ name) (x ∷ xs) ys = joined-append ((c ∷ name) ++ (dot ∷ x)) xs ys

-- A name in a domain, with its dots.
abbrev pub dotted : List ℕ → List ℕ → List ℕ
dotted name [] = name
dotted name (c ∷ domain) = name ++ (dot ∷ c ∷ domain)

pub All-append_left {ℓ κ} :
    {A : Type ℓ} (P : A → Type κ) (xs ys : List A) → All P (xs ++ ys) → All P xs
All-append_left P [] ys h = tt
All-append_left P (x ∷ xs) ys (hx, hxs) = (hx, All-append_left P xs ys hxs)

pub All-append_right {ℓ κ} :
    {A : Type ℓ} (P : A → Type κ) (xs ys : List A) → All P (xs ++ ys) → All P ys
All-append_right P [] ys h = h
All-append_right P (x ∷ xs) ys (hx, hxs) = All-append_right P xs ys hxs

pub joined-labels_of :
    (name domain : List ℕ)
    → All IsLabel (labels_of name domain)
    → joined [] (labels_of name domain) ≡ dotted name domain
unfolding domain_parts split_on
joined-labels_of name domain h =
    joined-append [] (split name) (domain_parts domain)
    ∙ (rw (joined-split name (All-append_left IsLabel (split name) (domain_parts domain) h))
        (go name domain (All-append_left IsLabel (split name) (domain_parts domain) h)))
  where
    go :
        (name domain : List ℕ)
        → All IsLabel (split name)
        → joined name (domain_parts domain) ≡ dotted name domain
    go name [] h = refl
    go [] (c ∷ domain) ((some_bytes, _, _), _) = absurd (omega arith)
    go (n ∷ name) (c ∷ domain) h = joined-behind n name (c ∷ domain)
