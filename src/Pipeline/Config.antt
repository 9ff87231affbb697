-- ===== src/Pipeline/Config.antt =====
-- bridge-core/src/bacnet.rs: the configuration of a point that came before the processors, and the
-- conversions that it directs.
use micro_bacnet_bridge.Base.{ℕ, ◌+◌, List, [], Bool, true, not}
use micro_bacnet_bridge.Base.{Option, none, some, if◌then◌else◌}
use micro_bacnet_bridge.Bacnet.{
  BacnetValue, null, boolean, unsigned_int, signed_int, real, char_string, enumerated, object_id,
}
use micro_bacnet_bridge.Pipeline.{Floats, label_of, find_label, parse_boolean, parse_number}

-- `factor` is what the source names `scale`, as in the processors.
pub record PointConfig : Type 0 where
  pub object_type : ℕ
  pub object_instance : ℕ
  pub factor : ℕ
  pub offset : ℕ
  pub engineering_unit : ℕ
  pub show_on_dashboard : Bool
  pub bridge_to_bacnet_ip : Bool
  pub bridge_to_mqtt : Bool
  pub expose_in_api : Bool
  pub state_text : List (List ℕ)

pub data Exposure : Type 0 where
  dashboard bacnet_ip mqtt http_api : Exposure

-- The bits of 1.0 and of 0.0
unfoldable pub default_config : PointConfig
default_config = record {
  object_type = 0;
  object_instance = 0;
  factor = 0x3F800000;
  offset = 0;
  engineering_unit = 95;
  show_on_dashboard = true;
  bridge_to_bacnet_ip = true;
  bridge_to_mqtt = true;
  expose_in_api = true;
  state_text = [];
}

unfoldable pub is_exposed : PointConfig → Exposure → Bool
is_exposed config dashboard = config.show_on_dashboard
is_exposed config bacnet_ip = config.bridge_to_bacnet_ip
is_exposed config mqtt = config.bridge_to_mqtt
is_exposed config http_api = config.expose_in_api

module _ (fl : Floats) where
  abbrev scaled : PointConfig → ℕ → BacnetValue
  scaled config x = real (fl.add (fl.mul x config.factor) config.offset)

  -- The label of a state, and the scaled number where it has none.
  unfoldable state_or_scaled : PointConfig → ℕ → BacnetValue
  unfolding label_of
  state_or_scaled config n = elim (label_of n config.state_text) [
    | some label ↦ char_string label
    | none ↦ scaled config (fl.from_u32 n)
  ]

  unfoldable pub convert_from_bacnet : BacnetValue → PointConfig → BacnetValue
  unfolding state_or_scaled
  convert_from_bacnet (real f) config = scaled config f
  convert_from_bacnet (signed_int n) config = scaled config (fl.from_i32 n)
  convert_from_bacnet (unsigned_int n) config = state_or_scaled config n
  convert_from_bacnet (enumerated n) config = state_or_scaled config n
  convert_from_bacnet (boolean b) config = boolean b
  convert_from_bacnet (char_string s) config = char_string s
  convert_from_bacnet null config = null
  convert_from_bacnet (object_id id) config = object_id id

  unfoldable pub convert_to_bacnet : List ℕ → PointConfig → Option BacnetValue
  unfolding find_label parse_boolean parse_number
  convert_to_bacnet s config = elim (find_label s 0 config.state_text) [
    | some idx ↦ some (enumerated (idx + 1))
    | none ↦ elim (parse_boolean s) [
      | some b ↦ some (boolean b)
      | none ↦ parse_number fl s (λ parsed.
          if fl.is_zero config.factor
          then parsed
          else fl.div (fl.sub parsed config.offset) config.factor)
    ]
  ]

  unfoldable pub convert_for_exposure : BacnetValue → PointConfig → Exposure → Option BacnetValue
  unfolding is_exposed convert_from_bacnet
  convert_for_exposure value config exposure =
      if not (is_exposed config exposure) then none else some (convert_from_bacnet value config)

  unfoldable pub convert_write_for_exposure : List ℕ → PointConfig → Exposure → Option BacnetValue
  unfolding is_exposed convert_to_bacnet
  convert_write_for_exposure s config exposure =
      if not (is_exposed config exposure) then none else convert_to_bacnet s config
