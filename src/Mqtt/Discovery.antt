-- ===== src/Mqtt/Discovery.antt =====
-- bridge-core/src/mqtt.rs: the topic and the JSON document of Home Assistant's discovery. A text is
-- its bytes.
use micro_bacnet_bridge.Base.{
  ℕ, List, [], ◌∷◌, map, Bool, true, false, ◌||◌, ◌==◌, if◌then◌else◌, Result, ok_or, ◌>>=◌,
}
use micro_bacnet_bridge.Error.{EncodeError, string_too_long}
use micro_bacnet_bridge.Slice.{bytes_eq, Encoder, ◌⟫◌, skip}
use micro_bacnet_bridge.Text.{decimal, push_all}
use micro_bacnet_bridge.Mqtt.{write_bytes}
use micro_bacnet_bridge.Mqtt.Ascii

abbrev pub is_binary_object : List ℕ → Bool
is_binary_object object_type =
    bytes_eq object_type Ascii.binary_input
    || (bytes_eq object_type Ascii.binary_output || bytes_eq object_type Ascii.binary_value)

-- The new content of `buf: &mut String<128>`.
unfoldable pub ha_discovery_topic :
    List ℕ → List ℕ → List ℕ → List ℕ → ℕ → Result EncodeError (List ℕ)
unfolding decimal
ha_discovery_topic buf discovery_prefix device_name object_type object_instance =
    let component = if is_binary_object object_type then Ascii.binary_sensor else Ascii.sensor in
    ok_or
      (push_all 128 buf (
        discovery_prefix
        ∷ Ascii.slash
        ∷ component
        ∷ Ascii.slash
        ∷ device_name
        ∷ Ascii.underscore
        ∷ object_type
        ∷ Ascii.underscore
        ∷ decimal object_instance
        ∷ Ascii.config
        ∷ []))
      string_too_long

pub record HaDiscoveryParams : Type 0 where
  pub discovery_prefix : List ℕ
  pub device_name : List ℕ
  pub point_name : List ℕ
  pub object_type : List ℕ
  pub object_instance : ℕ
  pub unit : List ℕ
  pub state_topic : List ℕ

-- `if ch == '-' { '_' } else { ch }`, pushed character by character
abbrev pub underscored : List ℕ → List (List ℕ)
underscored = map (λ ch. (if ch == 45 then 95 else ch) ∷ [])

unfoldable pub unique_id : HaDiscoveryParams → Result EncodeError (List ℕ)
unfolding decimal
unique_id params = do
  named ←
      ok_or (push_all 64 [] (Ascii.bacnet ∷ params.device_name ∷ Ascii.underscore ∷ []))
        string_too_long
  typed ← ok_or (push_all 64 named (underscored params.object_type)) string_too_long
  ok_or (push_all 64 typed (Ascii.underscore ∷ decimal params.object_instance ∷ [])) string_too_long

-- The unit is left out for a binary sensor.
abbrev pub unit_of_measurement : Bool → List ℕ → Encoder
unit_of_measurement true unit = skip
unit_of_measurement false unit =
    write_bytes Ascii.unit_key ⟫ write_bytes unit ⟫ write_bytes Ascii.quote

unfoldable pub format_ha_discovery : List ℕ → HaDiscoveryParams → Result EncodeError (List ℕ × ℕ)
unfolding unique_id write_bytes ◌⟫◌
format_ha_discovery buf params = do
  id ← unique_id params
  (write_bytes Ascii.name
        ⟫ write_bytes params.point_name
        ⟫ write_bytes Ascii.unique_id_key
        ⟫ write_bytes id
        ⟫ write_bytes Ascii.state_topic_key
        ⟫ write_bytes params.state_topic
        ⟫ write_bytes Ascii.quote
        ⟫ unit_of_measurement (is_binary_object params.object_type) params.unit
        ⟫ write_bytes Ascii.device_key
        ⟫ write_bytes params.device_name
        ⟫ write_bytes Ascii.tail)
      buf 0
