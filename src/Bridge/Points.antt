-- ===== src/Bridge/Points.antt =====
-- What bridge-core/src/bridge.rs keeps of the points: an update is found again, and changes nothing else.
use mathlib.Core.Option.{some-injective, none-ne-some}
use micro_bacnet_bridge.Base.{ℕ, suc, ◌+◌, ◌<◌, ◌≡◌, ◌≢◌, refl, sym, ◌∙◌, arith, List, []}
use micro_bacnet_bridge.Base.{
  false, Option, none, some, length, length-set, get_or, ◌==◌, ==_iff, ltb→lt, set, get_or-set_self,
}
use micro_bacnet_bridge.Base.{
  get_or-set_ne, ltb, leb, lt→leb_false, lt→ltb, Bool-cases, Option-cases, inl, inr,
}
use micro_bacnet_bridge.Bacnet.{ObjectId, BacnetValue}
use micro_bacnet_bridge.Bridge.{
  max_devices, max_points_per_device, PointEntry, BridgeState, find_point, change_point, new_point,
  object_id_eq, row_of, count_of, updated, update_point,
}
use micro_bacnet_bridge.Bridge.Rows.{
  object_id_eq_refl, find-change, find-change_ne, find_point-set, length-change, other_id,
}

-- The tables have the sizes of the source's arrays.
pub record IsState (s : BridgeState) : Type 0 where
  pub rows : length s.points ≡ max_devices
  pub counts : length s.point_counts ≡ max_devices
  pub row : (idx : ℕ) → idx < max_devices → length (row_of s idx) ≡ max_points_per_device

-- The point of an object in the table of a device.
abbrev pub point_of : ℕ → ObjectId → BridgeState → Option PointEntry
point_of idx id s = find_point (count_of s idx) id (row_of s idx)

-- What an update makes of the point that was there.
abbrev pub after_update : ObjectId → BacnetValue → ℕ → Option PointEntry → PointEntry
after_update id value unit none = new_point id value unit
after_update id value unit (some p) = updated value unit p

-- The point found in a changed row, by what the search finds in the old one.
found_changed :
    (id : ObjectId) (f : PointEntry → PointEntry) (n : ℕ) (row row' : List (Option PointEntry))
    → ((p : PointEntry) → (f p).object_id ≡ p.object_id)
    → change_point n id f row ≡ some row'
    → (p : PointEntry) × (find_point n id row ≡ some p) × (find_point n id row' ≡ some (f p))
found_changed id f n row row' keeps e =
    let both = rw (e) at (find-change id f keeps n row) in
    elim (Option-cases (find_point n id row)) [
      | inl absent ↦ absurd (none-ne-some _ (sym (rw (absent) at both)))
      | inr (p, found) ↦ (p, found, some-injective _ _ (rw (found) at both))
    ]

not_found :
    (id : ObjectId) (f : PointEntry → PointEntry) (n : ℕ) (row : List (Option PointEntry))
    → ((p : PointEntry) → (f p).object_id ≡ p.object_id)
    → change_point n id f row ≡ none
    → find_point n id row ≡ none
not_found id f n row keeps e =
    let both = rw (e) at (find-change id f keeps n row) in
    elim (Option-cases (find_point n id row)) [
      | inl absent ↦ absent
      | inr (p, found) ↦ absurd (none-ne-some _ (rw (found) at both))
    ]

new_point_found :
    (id : ObjectId) (value : BacnetValue) (unit n : ℕ) (row : List (Option PointEntry))
    → n < length row
    → find_point n id row ≡ none
    → find_point (n + 1) id (set row n (some (new_point id value unit)))
      ≡ some (new_point id value unit)
unfolding new_point
new_point_found id value unit n row h absent =
    let next : n + 1 ≡ suc n = omega arith in
    rw (next, find_point-set id (new_point id value unit) n row h, absent, object_id_eq_refl id)
      refl

-- In tables of their full size, after an update of a point of one of the eight devices, that was
-- known or that there is room for, the point is found with the new value and unit, marked dirty;
-- its other fields are the old ones, or those of a new point.
pub point_of-update_point :
    (idx : ℕ) (id : ObjectId) (value : BacnetValue) (unit : ℕ) (s : BridgeState)
    → IsState s
    → idx < max_devices
    → (point_of idx id s ≡ none → count_of s idx < max_points_per_device)
    → point_of idx id (update_point idx id value unit s)
      ≡ some (after_update id value unit (point_of idx id s))
unfolding update_point
point_of-update_point idx id value unit s w h room =
    let known = lt→leb_false max_devices idx h in
    let n = count_of s idx in
    let row = row_of s idx in
    let f = updated value unit in
    elim (Option-cases (change_point n id f row)) [
      | inl absent ↦
          let none_yet = not_found id f n row (λ p. refl) absent in
          let fits = room none_yet in
          rw (known, absent, lt→ltb n max_points_per_device fits, none_yet)
            (rw
              (
                get_or-set_self s.point_counts idx (n + 1) 0 (omega (arith, w.counts)),
                get_or-set_self s.points idx (set row n (some (new_point id value unit))) []
                    (omega (arith, w.rows)),
              )
              (new_point_found id value unit n row (omega (arith, fits, w.row idx h)) none_yet))
      | inr (row', e) ↦
          let (p, old, new) = found_changed id f n row row' (λ p. refl) e in
          rw (known, e, old, get_or-set_self s.points idx row' [] (omega (arith, w.rows))) new
    ]

new_point_passed :
    (id other : ObjectId) (value : BacnetValue) (unit n : ℕ) (row : List (Option PointEntry))
    → n < length row
    → id ≢ other
    → find_point (n + 1) other (set row n (some (new_point id value unit))) ≡ find_point n other row
unfolding new_point
new_point_passed id other value unit n row h ne =
    let next : n + 1 ≡ suc n = omega arith in
    let apart : object_id_eq id other ≡ false = other_id id id other (object_id_eq_refl id) ne in
    elim (Option-cases (find_point n other row)) [
      | inl absent ↦
          rw (next, find_point-set other (new_point id value unit) n row h, absent, apart) refl
      | inr (q, found) ↦
          rw (next, find_point-set other (new_point id value unit) n row h, found) refl
    ]

-- In tables of their full size, an update of a point of one of the eight devices leaves the
-- device's other points as they are.
pub point_of-update_point_ne :
    (idx : ℕ) (id other : ObjectId) (value : BacnetValue) (unit : ℕ) (s : BridgeState)
    → IsState s
    → idx < max_devices
    → id ≢ other
    → point_of idx other (update_point idx id value unit s) ≡ point_of idx other s
unfolding update_point
point_of-update_point_ne idx id other value unit s w h ne =
    let known = lt→leb_false max_devices idx h in
    let n = count_of s idx in
    let row = row_of s idx in
    let f = updated value unit in
    elim (Option-cases (change_point n id f row)) [
      | inl absent ↦ elim (Bool-cases (ltb n max_points_per_device)) [
        | inl fits ↦
            rw
              (
                known,
                absent,
                fits,
                get_or-set_self s.point_counts idx (n + 1) 0 (omega (arith, w.counts)),
                get_or-set_self s.points idx (set row n (some (new_point id value unit))) []
                    (omega (arith, w.rows)),
              )
              (new_point_passed id other value unit n row
                (omega (arith, ltb→lt n max_points_per_device fits, w.row idx h)) ne)
        | inr full ↦ rw (known, absent, full) refl
      ]
      | inr (row', e) ↦
          let same = rw (e) at (find-change_ne id f (λ p. refl) other n row ne) in
          rw (known, e, get_or-set_self s.points idx row' [] (omega (arith, w.rows)))
            (some-injective _ _ same)
    ]

row-set :
    (rows : List (List (Option PointEntry))) (idx : ℕ) (row' : List (Option PointEntry))
    → length rows ≡ max_devices
    → length row' ≡ max_points_per_device
    → ((j : ℕ) → j < max_devices → length (get_or rows j []) ≡ max_points_per_device)
    → (j : ℕ) → j < max_devices
    → length (get_or (set rows idx row') j []) ≡ max_points_per_device
row-set rows idx row' size l h j below = elim (Bool-cases (idx == j)) [
  | inl same ↦
      let e : idx ≡ j = (==_iff idx j).0 same in
      rw (e, get_or-set_self rows j row' [] (omega arith)) l
  | inr other ↦
      rw (get_or-set_ne rows {i = idx} {j = j} row' [] (λ e. ground (arith, e, other))) (h j below)
]

-- An update keeps the tables at their sizes.
pub update_point-IsState :
    (idx : ℕ) (id : ObjectId) (value : BacnetValue) (unit : ℕ) (s : BridgeState)
    → IsState s
    → IsState (update_point idx id value unit s)
unfolding update_point
update_point-IsState idx id value unit s w = elim (Bool-cases (leb max_devices idx)) [
  | inl unknown ↦ rw (unknown) w
  | inr known ↦
      let n = count_of s idx in
      let row = row_of s idx in
      let f = updated value unit in
      let h : idx < max_devices = ground (arith, known) in
      elim (Option-cases (change_point n id f row)) [
        | inl absent ↦ elim (Bool-cases (ltb n max_points_per_device)) [
          | inl fits ↦
              rw (known, absent, fits)
                (record {
                  rows =
                      length-set s.points idx (set row n (some (new_point id value unit))) ∙ w.rows;
                  counts = length-set s.point_counts idx (n + 1) ∙ w.counts;
                  row =
                      row-set s.points idx (set row n (some (new_point id value unit))) w.rows
                        (length-set row n (some (new_point id value unit)) ∙ w.row idx h) w.row;
                })
          | inr full ↦ rw (known, absent, full) w
        ]
        | inr (row', e) ↦
            let same = some-injective _ _ (rw (e) at (length-change id f (λ p. refl) n row)) in
            rw (known, e)
              (record {
                rows = length-set s.points idx row' ∙ w.rows;
                counts = w.counts;
                row = row-set s.points idx row' w.rows (same ∙ w.row idx h) w.row;
              })
      ]
]
