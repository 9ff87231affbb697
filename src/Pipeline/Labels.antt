-- ===== src/Pipeline/Labels.antt =====
-- The state labels of bridge-core/src/pipeline.rs: what is displayed is written back as the state.
use micro_bacnet_bridge.Base.{ℕ, zero, suc, ◌+◌, ◌-◌, ◌<◌, ◌≡◌, refl, ap, ◌∙◌, arith, List, [], ◌∷◌}
use micro_bacnet_bridge.Base.{true, false, Option, none, some, get_elem?, if◌then◌else◌, le→leb}
use mathlib.Core.Option.{some-injective, none-ne-some}
use micro_bacnet_bridge.Slice.{bytes_eq}
use micro_bacnet_bridge.Bacnet.{ObjectId, BacnetValue, char_string, enumerated}
use micro_bacnet_bridge.Bridge.{max_devices, max_points_per_device, BridgeState, count_of}
use micro_bacnet_bridge.Bridge.Points.{IsState, point_of, after_update, point_of-update_point}
use micro_bacnet_bridge.Pipeline.{
  Floats, Processor, map_states, PointMode, ignore, passthrough, processed, label_of,
  apply_map_states, find_label, apply_all, process_value, reverse_walk, reverse_value,
  update_point_with_pipeline, is_active,
}

bytes_eq_refl : (s : List ℕ) → bytes_eq s s ≡ true
bytes_eq_refl [] = refl
bytes_eq_refl (x ∷ s) = ground (arith, bytes_eq_refl s)

-- No label before the one at `i` is the same.
abbrev pub IsFirst : List (List ℕ) → ℕ → List ℕ → Type 0
IsFirst [] i l = Unit {0}
IsFirst (x ∷ xs) zero l = Unit {0}
IsFirst (x ∷ xs) (suc i) l = (bytes_eq x l ≡ false) × IsFirst xs i l

find_label-first :
    (l : List ℕ) (start i : ℕ) (labels : List (List ℕ))
    → get_elem? labels i ≡ some l
    → IsFirst labels i l
    → find_label l start labels ≡ some (start + i)
unfolding find_label
find_label-first l start i [] e first = absurd (none-ne-some l e)
find_label-first l start zero (x ∷ labels) e first =
    let same : x ≡ l = some-injective x l e in
    let found : bytes_eq x l ≡ true = rw (same) (bytes_eq_refl l) in
    rw (found) (ap some (omega arith))
find_label-first l start (suc i) (x ∷ labels) e (other, first) =
    rw (other) (find_label-first l (start + 1) i labels e first ∙ ap some (omega arith))

label_of-next :
    (i : ℕ) (l : List ℕ) (labels : List (List ℕ))
    → get_elem? labels i ≡ some l
    → label_of (i + 1) labels ≡ some l
unfolding label_of
label_of-next i l labels e =
    let index : i + 1 - 1 ≡ i = omega arith in rw (le→leb 1 (i + 1) (omega arith), index) e

-- With a table of labels as its processor, a state is displayed as its label, and a label that no
-- earlier state has is written back as the state.
pub label_round_trip :
    (fl : Floats) (labels : List (List ℕ)) (i : ℕ) (l : List ℕ)
    → get_elem? labels i ≡ some l
    → IsFirst labels i l
    → (process_value fl (enumerated (i + 1)) processed (map_states labels ∷ []) ≡ char_string l)
      × (reverse_value fl l (map_states labels ∷ []) ≡ some (enumerated (i + 1)))
unfolding process_value apply_all apply_map_states label_of reverse_value reverse_walk
label_round_trip fl labels i l e first = (
  ap (λ (o : Option (List ℕ)). elim o [ some x ↦ char_string x | none ↦ enumerated (i + 1) ])
      (label_of-next i l labels e),
  ap
        (λ (o : Option ℕ). elim o [
          | some idx ↦ some (enumerated (idx + 1))
          | none ↦ reverse_walk fl l []
        ])
        (find_label-first l 0 i labels e first)
      ∙ ap (λ (k : ℕ). some (enumerated k)) (omega arith),
)

-- In tables of their full size, an active point's update through the pipeline, for one of the
-- eight devices, stores the processed value under the point, where it was known or there is room;
-- an ignored point's update changes nothing of the point.
pub point_of-update_point_with_pipeline :
    (fl : Floats) (idx : ℕ) (id : ObjectId) (raw : BacnetValue) (unit : ℕ) (mode : PointMode)
    (processors : List Processor) (s : BridgeState)
    → IsState s
    → idx < max_devices
    → (point_of idx id s ≡ none → count_of s idx < max_points_per_device)
    → point_of idx id (update_point_with_pipeline fl idx id raw unit mode processors s) ≡ (
        if is_active mode
        then some (after_update id (process_value fl raw mode processors) unit (point_of idx id s))
        else point_of idx id s)
unfolding update_point_with_pipeline is_active process_value
point_of-update_point_with_pipeline fl idx id raw unit ignore ps s w h room = refl
point_of-update_point_with_pipeline fl idx id raw unit passthrough ps s w h room =
    point_of-update_point idx id raw unit s w h room
point_of-update_point_with_pipeline fl idx id raw unit processed ps s w h room =
    point_of-update_point idx id (process_value fl raw processed ps) unit s w h room
