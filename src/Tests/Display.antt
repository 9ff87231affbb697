-- ===== src/Tests/Display.antt =====
-- The pipeline of bridge-core/src/pipeline.rs at concrete labels and values.
use micro_bacnet_bridge.Base.{ℕ, ◌+◌, ◌-◌, ◌*◌, ◌/◌, ◌≡◌, refl, List, [], ◌∷◌, none, some, ◌==◌}
use micro_bacnet_bridge.Bacnet.{ObjectType, ObjectId, char_string, enumerated}
use micro_bacnet_bridge.Pipeline.{Floats, map_states, processed, process_value, reverse_value}
use micro_bacnet_bridge.Pipeline.Labels.{label_round_trip}

-- Whole numbers in place of `f32`; no text is a number.
abbrev pub whole : Floats
whole = record {
  mul = λ a b. a * b;
  add = λ a b. a + b;
  sub = λ a b. a - b;
  div = λ a b. a / b;
  from_u32 = λ n. n;
  from_i32 = λ n. n;
  is_zero = λ a. a == 0;
  parse = λ s. none;
}

-- "OFF", "LOW", "HIGH"
abbrev pub fan_labels : List (List ℕ)
fan_labels = (79 ∷ 70 ∷ 70 ∷ []) ∷ (76 ∷ 79 ∷ 87 ∷ []) ∷ (72 ∷ 73 ∷ 71 ∷ 72 ∷ []) ∷ []

label_round_trip_example :
    (process_value whole (enumerated 3) processed (map_states fan_labels ∷ [])
      ≡ char_string (72 ∷ 73 ∷ 71 ∷ 72 ∷ []))
    × (reverse_value whole (72 ∷ 73 ∷ 71 ∷ 72 ∷ []) (map_states fan_labels ∷ [])
        ≡ some (enumerated 3))
label_round_trip_example =
    label_round_trip whole fan_labels 2 (72 ∷ 73 ∷ 71 ∷ 72 ∷ []) refl (refl, (refl, tt))

abbrev pub fan : ObjectId
fan = record { object_type = ObjectType.analog_value; instance_num = 3 }
