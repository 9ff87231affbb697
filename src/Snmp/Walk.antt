-- ===== src/Snmp/Walk.antt =====
-- firmware/src/snmp.rs: a manager that asks for the next OID again and again.
use mathlib.Core.Option
use micro_bacnet_bridge.Base.{
  ℕ, zero, suc, ◌-◌, ◌≤◌, ◌<◌, ◌≡◌, ◌⊎◌, ◌↔◌, sym, All, ◌++◌, inl, inr, refl, ap, arith, List, [],
  ◌∷◌, true, Bool-cases, if◌then◌else◌, Option, none, some,
}
use micro_bacnet_bridge.Snmp.Agent.{oid_cmp, is_greater, first_greater, next_oid, oid_table}

-- The OIDs that the agent returns, one answer asked for after the other; `none` where the rounds run out.
unfoldable pub walk : ℕ → List ℕ → Option (List (List ℕ))
unfolding next_oid
walk zero oid = none
walk (suc rounds) oid = elim (next_oid oid) [
  | none ↦ some []
  | some next ↦ Option.map (◌∷◌ next) (walk rounds next)
]

-- The entries above an OID, in the order of the table.
unfoldable above : List (List ℕ) → List ℕ → List (List ℕ)
unfolding is_greater
above [] oid = []
above (t ∷ table) oid = let rest = above table oid in if is_greater t oid then t ∷ rest else rest

abbrev Ascending : List (List ℕ) → Type 0
Ascending [] = Unit {0}
Ascending (t ∷ []) = Unit {0}
Ascending (t ∷ u ∷ table) = (is_greater u t ≡ true) × Ascending (u ∷ table)

is_greater_trans :
    (a b c : List ℕ) → is_greater a b ≡ true → is_greater b c ≡ true → is_greater a c ≡ true
unfolding is_greater oid_cmp
is_greater_trans [] [] c e f = cc
is_greater_trans [] (y ∷ b) c e f = cc
is_greater_trans (x ∷ a) [] [] e f = cc
is_greater_trans (x ∷ a) [] (z ∷ c) e f = cc
is_greater_trans (x ∷ a) (y ∷ b) [] e f = refl
is_greater_trans (x ∷ a) (y ∷ b) (z ∷ c) e f = ground (arith, e, f, is_greater_trans a b c)

table-Ascending : Ascending oid_table
unfolding is_greater oid_cmp
table-Ascending = (refl, (refl, (refl, (refl, (refl, (refl, (refl, (refl, tt))))))))

above-all :
    (table : List (List ℕ)) (t oid : List ℕ)
    → Ascending (t ∷ table)
    → is_greater t oid ≡ true
    → above table oid ≡ table
unfolding above
above-all [] t oid h e = refl
above-all (u ∷ table) t oid (hu, h) e =
    let eu = is_greater_trans u t oid hu e in rw eu (ap (◌∷◌ u) (above-all table u oid h eu))

-- From each entry of the list, a walk of so many rounds finds the entries behind it.
abbrev Walks : ℕ → List (List ℕ) → Type 0
Walks rounds [] = Unit {0}
Walks rounds (t ∷ table) = (walk rounds t ≡ some table) × Walks rounds table

table-Walks : (k : ℕ) → Walks (suc (suc (suc (suc (suc (suc (suc (suc (suc k))))))))) oid_table
unfolding walk next_oid first_greater is_greater oid_cmp
table-Walks k = (refl, (refl, (refl, (refl, (refl, (refl, (refl, (refl, (refl, tt)))))))))

later : (t : List ℕ) (table : List (List ℕ)) → Ascending (t ∷ table) → Ascending table
later t [] h = tt
later t (u ∷ table) (_, h) = h

-- The first answer, and what a walk from it finds, are the entries above.
first_answer :
    (rounds : ℕ) (table : List (List ℕ)) (oid : List ℕ)
    → Ascending table
    → Walks rounds table
    → ((first_greater table oid ≡ none) × (above table oid ≡ []))
      ⊎ ((o : List ℕ) × (rest : List (List ℕ)) × (first_greater table oid ≡ some o)
          × (walk rounds o ≡ some rest)
          × (above table oid ≡ o ∷ rest))
unfolding first_greater above
first_answer rounds [] oid h w = inl (refl, refl)
first_answer rounds (t ∷ table) oid h (found, w) = elim (Bool-cases (is_greater t oid)) [
  | inl e ↦ inr (t, table, rw e refl, found, rw e (ap (◌∷◌ t) (above-all table t oid h e)))
  | inr e ↦ rw e (first_answer rounds table oid (later t table h) w)
]

-- The requests find what the agent takes to be above.
walk-above :
    (oid : List ℕ) (rounds : ℕ) → 10 ≤ rounds → walk rounds oid ≡ some (above oid_table oid)
walk-above oid rounds enough = rw same (go (rounds - 10))
  where
    same : rounds ≡ suc (suc (suc (suc (suc (suc (suc (suc (suc (suc (rounds - 10))))))))))
    same = omega arith

    go :
        (k : ℕ)
        → walk (suc (suc (suc (suc (suc (suc (suc (suc (suc (suc k)))))))))) oid
          ≡ some (above oid_table oid)
    go k = elim (first_answer _ oid_table oid table-Ascending (table-Walks k)) [
      | inl (last, nothing) ↦ unfold walk next_oid in rw (last, nothing) refl
      | inr (o, rest, next, found, all) ↦ unfold walk next_oid in rw (next, found, all) refl
    ]

-- The lexicographic order of OIDs: a prefix is below what it begins.
abbrev pub Below : List ℕ → List ℕ → Type 0
Below [] [] = ⊥
Below [] (y ∷ ys) = Unit {0}
Below (x ∷ xs) [] = ⊥
Below (x ∷ xs) (y ∷ ys) = (x < y) ⊎ ((x ≡ y) × Below xs ys)

is_greater-Below : (a b : List ℕ) → (is_greater b a ≡ true) ↔ Below a b
unfolding is_greater oid_cmp
is_greater-Below [] [] = ground arith
is_greater-Below [] (y ∷ ys) = ground arith
is_greater-Below (x ∷ xs) [] = ground arith
is_greater-Below (x ∷ xs) (y ∷ ys) = ground (arith, is_greater-Below xs ys)

above-Below : (table : List (List ℕ)) (oid : List ℕ) → All (Below oid) (above table oid)
unfolding above
above-Below [] oid = tt
above-Below (t ∷ table) oid = elim (Bool-cases (is_greater t oid)) [
  | inl e ↦ rw e ((is_greater-Below oid t).0 e, above-Below table oid)
  | inr e ↦ rw e (above-Below table oid)
]

-- An ascending table is the entries that are not above, and those that are.
Below-part :
    (table : List (List ℕ)) (oid : List ℕ)
    → Ascending table
    → (skipped : List (List ℕ)) × (table ≡ skipped ++ above table oid)
      × All (λ (t : List ℕ). ¬ Below oid t) skipped
unfolding above
Below-part [] oid h = ([], refl, tt)
Below-part (t ∷ table) oid h = elim (Bool-cases (is_greater t oid)) [
  | inl e ↦ rw e ([], ap (◌∷◌ t) (sym (above-all table t oid h e)), tt)
  | inr e ↦
      let (skipped, whole, lower) = Below-part table oid (later t table h) in
      let not_above : ¬ Below oid t = λ b. ground (arith, (is_greater-Below oid t).1 b, e) in
      rw e (t ∷ skipped, ap (◌∷◌ t) whole, (not_above, lower))
]

-- A manager that asks from any OID on for the next one, and then for the next of each answer, gets
-- the end of the agent's table, in its order, and then the end of the walk, after at most ten
-- requests: what it gets are the OIDs that are above the first in the lexicographic order, and those
-- of the table before them are not.
pub walk_lem :
    (oid : List ℕ) (rounds : ℕ)
    → 10 ≤ rounds
    → (skipped : List (List ℕ)) × (found : List (List ℕ)) × (walk rounds oid ≡ some found)
      × (oid_table ≡ skipped ++ found)
      × All (λ (t : List ℕ). ¬ Below oid t) skipped
      × All (Below oid) found
walk_lem oid rounds enough =
    let (skipped, whole, lower) = Below-part oid_table oid table-Ascending in
    (
      skipped,
      above oid_table oid,
      walk-above oid rounds enough,
      whole,
      lower,
      above-Below oid_table oid,
    )
