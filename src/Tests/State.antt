-- ===== src/Tests/State.antt =====
-- The tables of bridge-core/src/bridge.rs at concrete devices and points, and a new configuration of
-- bridge-core/src/config.rs.
use micro_bacnet_bridge.Config.{default_bridge_config, validate}
use micro_bacnet_bridge.Config.Laws.{IsValidConfig, validate_iff}
use micro_bacnet_bridge.Base.{
  ◌≡◌, ◌≢◌, ◌↔◌, refl, arith, [], ◌∷◌, some, ap, true, length, ◌==◌, ==_iff, ◌<◌,
}
use micro_bacnet_bridge.Base.Bits.{all_below, all_below_sound}
use micro_bacnet_bridge.Bacnet.{ObjectType, ObjectId, type_code, real, unsigned_int}
use micro_bacnet_bridge.Bridge.{
  BridgeState, new_state, row_of, count_of, find_device, upsert_device, update_point,
}
use micro_bacnet_bridge.Bridge.Points.{
  IsState, point_of, after_update, point_of-update_point, point_of-update_point_ne,
  update_point-IsState,
}
use micro_bacnet_bridge.Bridge.Devices.{IsRegistry, find_device-upsert_device}

abbrev sensor : ObjectId
sensor = record { object_type = ObjectType.analog_input; instance_num = 1 }

abbrev valve : ObjectId
valve = record { object_type = ObjectType.analog_value; instance_num = 1 }

new_state-IsRegistry : IsRegistry new_state
unfolding new_state
new_state-IsRegistry = record { slots = refl; count = omega arith }

-- The two devices of the run below, the first one heard twice.
find_device-upsert_device_example :
    let s = (upsert_device 7 12 (0x41 ∷ 0x42 ∷ []) new_state).0 in
    (find_device 7 (upsert_device 7 13 [] s).0 ≡ some (upsert_device 7 13 [] s).1)
    × IsRegistry (upsert_device 7 13 [] s).0
find_device-upsert_device_example =
    find_device-upsert_device 7 13 [] (upsert_device 7 12 (0x41 ∷ 0x42 ∷ []) new_state).0
      (find_device-upsert_device 7 12 (0x41 ∷ 0x42 ∷ []) new_state new_state-IsRegistry).1

rows_table : all_below 8 (λ idx. length (row_of new_state idx) == 64) ≡ true
unfolding all_below new_state
rows_table = refl

pub new_state-IsState : IsState new_state
unfolding new_state
new_state-IsState = record {
  rows = refl;
  counts = refl;
  row = λ idx h.
      (==_iff (length (row_of new_state idx)) 64).0
        (all_below_sound 8 (λ idx. length (row_of new_state idx) == 64) idx rows_table h);
}

one_point-IsState : IsState (update_point 3 sensor (real 0x41AC_0000) 62 new_state)
one_point-IsState = update_point-IsState 3 sensor (real 0x41AC_0000) 62 new_state new_state-IsState

codes_differ : type_code ObjectType.analog_value ≢ type_code ObjectType.analog_input
unfolding type_code
codes_differ = omega arith

-- The point of the sensor is known when its second value comes.
abbrev one_point : BridgeState
one_point = update_point 3 sensor (real 0x41AC_0000) 62 new_state

count_after : count_of one_point 3 < 64
unfolding new_state update_point
count_after = omega arith

point_of-update_point_example :
    point_of 3 sensor (update_point 3 sensor (unsigned_int 5) 62 one_point)
    ≡ some (after_update sensor (unsigned_int 5) 62 (point_of 3 sensor one_point))
point_of-update_point_example =
    point_of-update_point 3 sensor (unsigned_int 5) 62 one_point one_point-IsState (omega arith)
      (λ absent. count_after)

point_of-update_point_ne_example :
    point_of 3 sensor (update_point 3 valve (unsigned_int 5) 62 one_point)
    ≡ point_of 3 sensor one_point
point_of-update_point_ne_example =
    point_of-update_point_ne 3 valve sensor (unsigned_int 5) 62 one_point one_point-IsState
      (omega arith) (λ same. codes_differ (ap (λ id. type_code id.object_type) same))

-- A new configuration is valid.
new_is_valid : validate default_bridge_config ≡ true
unfolding validate default_bridge_config
new_is_valid = refl

validate_iff_example : (validate default_bridge_config ≡ true) ↔ IsValidConfig default_bridge_config
validate_iff_example = validate_iff default_bridge_config
