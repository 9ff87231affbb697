-- ===== src/Bridge/Rows.antt =====
-- The points of one device in bridge-core/src/bridge.rs as a map from object identifiers to points.
use mathlib.Core.Option
use mathlib.Core.Option.{some-injective}
use micro_bacnet_bridge.Base.{ℕ, zero, suc, ◌<◌, ◌≡◌, ◌≢◌, refl, sym, ap, ◌∙◌, arith, List, [], ◌∷◌}
use micro_bacnet_bridge.Base.{true, false, Option, none, some, length, set}
use micro_bacnet_bridge.Base.{if◌then◌else◌, Bool-cases, inl, inr}
use micro_bacnet_bridge.Bacnet.{ObjectType, type_code, type_from_code, ObjectId}
use micro_bacnet_bridge.Bacnet.Codes.{type_from_code-type_code}
use micro_bacnet_bridge.Bridge.{PointEntry, object_id_eq, find_point, change_point}

type_code_injective : (a b : ObjectType) → type_code a ≡ type_code b → a ≡ b
type_code_injective a b e =
    some-injective a b
      (sym (type_from_code-type_code a) ∙ ap type_from_code e ∙ type_from_code-type_code b)

pub object_id_eq_sound : (a b : ObjectId) → object_id_eq a b ≡ true → a ≡ b
unfolding object_id_eq
object_id_eq_sound a b e =
    let t = type_code_injective a.object_type b.object_type (ground (arith, e)) in
    let i : a.instance_num ≡ b.instance_num = ground (arith, e) in cc (t, i)

pub object_id_eq_refl : (a : ObjectId) → object_id_eq a a ≡ true
unfolding object_id_eq
object_id_eq_refl a = ground arith

abbrev pub Row : Type 0
Row = List (Option PointEntry)

map-map {ℓ κ μ} :
    {A : Type ℓ} {B : Type κ} {C : Type μ} (g : B → C) (h : A → B) (o : Option A)
    → Option.map g (Option.map h o) ≡ Option.map (λ x. g (h x)) o
map-map g h none = refl
map-map g h (some x) = refl

pub other_id : (a b c : ObjectId) → object_id_eq a b ≡ true → b ≢ c → object_id_eq a c ≡ false
other_id a b c e ne = elim (Bool-cases (object_id_eq a c)) [
  | inl same ↦ absurd (ne (sym (object_id_eq_sound a b e) ∙ object_id_eq_sound a c same))
  | inr other ↦ other
]

module _ (id : ObjectId) (f : PointEntry → PointEntry)
    (keeps : (p : PointEntry) → (f p).object_id ≡ p.object_id) where
  longer :
      (x : Option PointEntry) (n : ℕ) (row : Row)
      → Option.map (λ r. length r) (change_point n id f row)
        ≡ Option.map (λ r. length row) (change_point n id f row)
      → Option.map (λ r. length r) (Option.map (λ r. x ∷ r) (change_point n id f row))
        ≡ Option.map (λ r. suc (length row)) (Option.map (λ r. x ∷ r) (change_point n id f row))
  longer x n row e =
      map-map (λ r. length r) (λ r. x ∷ r) (change_point n id f row)
      ∙ sym (map-map suc (λ r. length r) (change_point n id f row))
      ∙ ap (Option.map suc) e
      ∙ map-map suc (λ r. length row) (change_point n id f row)
      ∙ sym (map-map (λ r. suc (length row)) (λ r. x ∷ r) (change_point n id f row))

  -- The change finds a point exactly where the search does, and the search then finds it changed.
  pub find-change :
      (n : ℕ) (row : Row)
      → Option.map (λ r. find_point n id r) (change_point n id f row)
        ≡ Option.map (λ p. some (f p)) (find_point n id row)
  unfolding change_point find_point
  find-change zero row = refl
  find-change (suc n) [] = refl
  find-change (suc n) (none ∷ row) =
      map-map (λ r. find_point (suc n) id r) (λ r. none ∷ r) (change_point n id f row)
      ∙ find-change n row
  find-change (suc n) (some p ∷ row) = elim (Bool-cases (object_id_eq p.object_id id)) [
    | inl same ↦ rw (same) (rw (keeps p, same) refl)
    | inr other ↦ rw (other) (
        map-map (λ r. find_point (suc n) id r) (λ r. some p ∷ r) (change_point n id f row)
        ∙ rw (other) (find-change n row))
  ]

  pub length-change :
      (n : ℕ) (row : Row)
      → Option.map (λ r. length r) (change_point n id f row)
        ≡ Option.map (λ r. length row) (change_point n id f row)
  unfolding change_point
  length-change zero row = refl
  length-change (suc n) [] = refl
  length-change (suc n) (none ∷ row) = longer none n row (length-change n row)
  length-change (suc n) (some p ∷ row) = elim (Bool-cases (object_id_eq p.object_id id)) [
    | inl same ↦ rw (same) refl
    | inr other ↦ rw (other) (longer (some p) n row (length-change n row))
  ]

  -- Other objects' points stay as they are.
  pub find-change_ne :
      (other : ObjectId) (n : ℕ) (row : Row)
      → id ≢ other
      → Option.map (λ r. find_point n other r) (change_point n id f row)
        ≡ Option.map (λ r. find_point n other row) (change_point n id f row)
  unfolding change_point find_point
  find-change_ne o zero row ne = refl
  find-change_ne o (suc n) [] ne = refl
  find-change_ne o (suc n) (none ∷ row) ne =
      map-map (λ r. find_point (suc n) o r) (λ r. none ∷ r) (change_point n id f row)
      ∙ find-change_ne o n row ne
      ∙ sym (map-map (λ r. find_point n o row) (λ r. none ∷ r) (change_point n id f row))
  find-change_ne o (suc n) (some p ∷ row) ne = elim (Bool-cases (object_id_eq p.object_id id)) [
    | inl same ↦
        let apart : object_id_eq p.object_id o ≡ false = other_id p.object_id id o same ne in
        rw (same) (rw (keeps p, apart) refl)
    | inr differs ↦ rw (differs) (
        map-map (λ r. find_point (suc n) o r) (λ r. some p ∷ r) (change_point n id f row)
        ∙ elim (Bool-cases (object_id_eq p.object_id o)) [
          | inl same ↦
              rw (same) (sym (map-map (λ r. some p) (λ r. some p ∷ r) (change_point n id f row)))
          | inr apart ↦ rw (apart) (
              find-change_ne o n row ne
              ∙ sym (map-map (λ r. find_point n o row) (λ r. some p ∷ r) (change_point n id f row)))
        ])
  ]

-- A point put behind the others is found where none of them is the one searched for.
pub find_point-set :
    (id : ObjectId) (p : PointEntry) (n : ℕ) (row : Row)
    → n < length row
    → find_point (suc n) id (set row n (some p)) ≡ elim (find_point n id row) [
      | some q ↦ some q
      | none ↦ if object_id_eq p.object_id id then some p else none
    ]
unfolding find_point
find_point-set id p n [] h = elim h [ ]
find_point-set id p zero (x ∷ row) h = refl
find_point-set id p (suc n) (none ∷ row) h = find_point-set id p n row (omega arith)
find_point-set id p (suc n) (some q ∷ row) h = elim (Bool-cases (object_id_eq q.object_id id)) [
  | inl same ↦ rw (same) refl
  | inr other ↦ rw (other) (find_point-set id p n row (omega arith))
]
