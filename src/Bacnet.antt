-- ===== src/Bacnet.antt =====
-- bridge-core/src/bacnet.rs: object types, object and property identifiers, property values.
pub mod Codes
pub mod Values
pub mod Units
pub mod UnitCodes
pub mod Choices
use micro_bacnet_bridge.Base.{ℕ, ◌+◌, ◌*◌, ◌/◌, ◌%◌, ◌^◌, ◌≤◌, ◌<◌, bit_and, bit_or, List, [], ◌∷◌}
use micro_bacnet_bridge.Base.{Bool, true, false, Option, none, some, ltb, leb, ◌==◌, ◌&&◌}
use micro_bacnet_bridge.Base.{if◌then◌else◌, length, All, ◌≡◌}
use micro_bacnet_bridge.Slice.{IsByte}
use mathlib.Core.Option

pub data ObjectType : Type 0 where
  analog_input analog_output analog_value binary_input binary_output binary_value : ObjectType
  calendar device multi_state_input multi_state_output notification_class schedule : ObjectType
  multi_state_value trend_log : ObjectType

-- `ObjectType::code`
unfoldable pub type_code : ObjectType → ℕ
type_code analog_input = 0
type_code analog_output = 1
type_code analog_value = 2
type_code binary_input = 3
type_code binary_output = 4
type_code binary_value = 5
type_code calendar = 6
type_code device = 8
type_code multi_state_input = 13
type_code multi_state_output = 14
type_code notification_class = 15
type_code schedule = 17
type_code multi_state_value = 19
type_code trend_log = 20

-- `ObjectType::from_code`
unfoldable pub type_from_code : ℕ → Option ObjectType
type_from_code code =
    if code == 0
    then some analog_input
    else if code == 1
    then some analog_output
    else if code == 2
    then some analog_value
    else if code == 3
    then some binary_input
    else if code == 4
    then some binary_output
    else if code == 5
    then some binary_value
    else if code == 6
    then some calendar
    else if code == 8
    then some device
    else if code == 13
    then some multi_state_input
    else if code == 14
    then some multi_state_output
    else if code == 15
    then some notification_class
    else if code == 17
    then some schedule
    else if code == 19
    then some multi_state_value
    else if code == 20
    then some trend_log
    else none

pub record ObjectId : Type 0 where
  pub object_type : ObjectType
  pub instance_num : ℕ

abbrev pub instance_max : ℕ
instance_max = 0x003F_FFFE

-- `ObjectId::try_new`
unfoldable pub try_new : ObjectType → ℕ → Option ObjectId
try_new t n =
    if ltb instance_max n then none else some (record { object_type = t; instance_num = n })

unfoldable pub to_raw : ObjectId → ℕ
unfolding type_code
to_raw id =
    bit_or (type_code id.object_type * 2 ^ 22 % 2 ^ 32) (bit_and id.instance_num 0x003F_FFFF)

unfoldable pub from_raw : ℕ → Option ObjectId
unfolding type_from_code
from_raw raw =
    let code = bit_and (raw / 2 ^ 22) 0x3FF % 2 ^ 16 in
    let n = bit_and raw 0x003F_FFFF in
    Option.map (λ t. record { object_type = t; instance_num = n }) (type_from_code code)

pub data PropertyId : Type 0 where
  description device_type object_identifier object_name object_type : PropertyId
  out_of_service present_value status_flags units : PropertyId
  raw : ℕ → PropertyId

-- `PropertyId::from_code`
unfoldable pub property_from_code : ℕ → PropertyId
property_from_code code =
    if code == 28
    then description
    else if code == 31
    then device_type
    else if code == 75
    then object_identifier
    else if code == 77
    then object_name
    else if code == 79
    then object_type
    else if code == 81
    then out_of_service
    else if code == 85
    then present_value
    else if code == 111
    then status_flags
    else if code == 117
    then units
    else raw code

-- `PropertyId::code`
unfoldable pub property_code : PropertyId → ℕ
property_code description = 28
property_code device_type = 31
property_code object_identifier = 75
property_code object_name = 77
property_code object_type = 79
property_code out_of_service = 81
property_code present_value = 85
property_code status_flags = 111
property_code units = 117
property_code (raw v) = v

-- An `i32` and an `f32` are their 32 bits, a `String<64>` its bytes.
pub data BacnetValue : Type 0 where
  null : BacnetValue
  boolean : Bool → BacnetValue
  unsigned_int : ℕ → BacnetValue
  signed_int : ℕ → BacnetValue
  real : ℕ → BacnetValue
  char_string : List ℕ → BacnetValue
  enumerated : ℕ → BacnetValue
  object_id : ObjectId → BacnetValue
