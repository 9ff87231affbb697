-- ===== src/Bridge.antt =====
-- bridge-core/src/bridge.rs: the tables of discovered devices and of their points.
pub mod Rows
pub mod Points
pub mod Devices
use micro_bacnet_bridge.Base.{
  ℕ, zero, suc, ◌+◌, List, [], ◌∷◌, ◌++◌, Bool, true, false, ◌&&◌, ◌||◌, map,
}
use micro_bacnet_bridge.Base.{
  Option, none, some, length, get_or, set, take, replicate, ltb, leb, ◌==◌,
}
use micro_bacnet_bridge.Base.{if◌then◌else◌}
use mathlib.Core.Option
use micro_bacnet_bridge.Base
use micro_bacnet_bridge.Bacnet.{type_code, ObjectId, BacnetValue}

abbrev pub max_devices : ℕ
max_devices = 8

abbrev pub max_points_per_device : ℕ
max_points_per_device = 64

-- A name is the list of its characters.
pub record DeviceEntry : Type 0 where
  pub device_id : ℕ
  pub name : List ℕ
  pub vendor : List ℕ
  pub mac : ℕ
  pub online : Bool
  pub last_seen : ℕ
  pub addr : List ℕ
  pub points_loaded : Bool

-- `DeviceEntry::empty`
unfoldable pub empty_device : DeviceEntry
empty_device = record {
  device_id = 0;
  name = [];
  vendor = [];
  mac = 0xFF;
  online = false;
  last_seen = 0;
  addr = replicate 6 0;
  points_loaded = false;
}

pub record PointEntry : Type 0 where
  pub object_id : ObjectId
  pub name : List ℕ
  pub description : List ℕ
  pub present_value : Option BacnetValue
  pub unit : ℕ
  pub writable : Bool
  pub dirty : Bool

-- `BridgeStateInner`; a row has the points of one device.
pub record BridgeState : Type 0 where
  pub devices : List DeviceEntry
  pub device_count : ℕ
  pub points : List (List (Option PointEntry))
  pub point_counts : List ℕ

unfoldable pub new_state : BridgeState
new_state = record {
  devices = replicate max_devices empty_device;
  device_count = 0;
  points = replicate max_devices (replicate max_points_per_device none);
  point_counts = replicate max_devices 0;
}

-- The bytes that a character takes in UTF-8, and `String::push`, which leaves out a character that
-- does not fit, over the characters of a text.
abbrev utf8_len : ℕ → ℕ
utf8_len ch = if ltb ch 0x80 then 1 else if ltb ch 0x800 then 2 else if ltb ch 0x10000 then 3 else 4

unfoldable pub push_chars : ℕ → List ℕ → List ℕ
push_chars room [] = []
push_chars room (ch ∷ text) = elim (leb (utf8_len ch) room) [
  | true ↦ ch ∷ push_chars (Base.◌-◌ room (utf8_len ch)) text
  | false ↦ push_chars room text
]

-- `iter().position(|d| d.device_id == device_id)`
unfoldable pub position : ℕ → List DeviceEntry → Option ℕ
position id [] = none
position id (d ∷ ds) =
    let rest = position id ds in if d.device_id == id then some 0 else Option.map suc rest

unfoldable pub find_device : ℕ → BridgeState → Option ℕ
unfolding position
find_device id s = position id (take s.device_count s.devices)

-- The entry of a device that was not known.
unfoldable pub new_device : ℕ → ℕ → List ℕ → DeviceEntry
unfolding empty_device push_chars
new_device id mac name = record empty_device {
  device_id = id;
  mac = mac;
  name = push_chars 32 name;
}

-- The entry of a known device, heard from again.
unfoldable pub heard_again : ℕ → List ℕ → DeviceEntry → DeviceEntry
unfolding push_chars
heard_again mac [] d = record d { mac = mac }
heard_again mac (ch ∷ name) d = record d { mac = mac; name = push_chars 32 (ch ∷ name) }

-- The update of a known device's slot, and a new device's slot: the next one, or the first one where
-- the table is full.
unfoldable pub place : Option ℕ → ℕ → ℕ → List ℕ → BridgeState → BridgeState × ℕ
unfolding new_device heard_again
place (some idx) id mac name s = (
  record s {
    devices = set s.devices idx (heard_again mac name (get_or s.devices idx empty_device));
  },
  idx,
)
place none id mac name s =
    if ltb s.device_count max_devices
    then (
      record s {
        device_count = s.device_count + 1;
        devices = set s.devices s.device_count (new_device id mac name);
      },
      s.device_count,
    )
    else (
      record s {
        point_counts = set s.point_counts 0 0;
        points = set s.points 0 (map (λ slot. none) (get_or s.points 0 []));
        devices = set s.devices 0 (new_device id mac name);
      },
      0,
    )

unfoldable pub upsert_device : ℕ → ℕ → List ℕ → BridgeState → BridgeState × ℕ
unfolding find_device place
upsert_device id mac name s = place (find_device id s) id mac name s

-- The derived `PartialEq`: the object types have different codes.
unfoldable pub object_id_eq : ObjectId → ObjectId → Bool
object_id_eq a b =
    (type_code a.object_type == type_code b.object_type) && (a.instance_num == b.instance_num)

-- `for i in 0..count`: the first point of that object in a row. A count above 64 would index behind
-- the row's array and panic; the model stops at the end of the row. `update_point` alone writes a
-- count, one more than a count below 64, so that none exceeds it.
unfoldable pub find_point : ℕ → ObjectId → List (Option PointEntry) → Option PointEntry
unfolding object_id_eq
find_point zero id row = none
find_point (suc n) id [] = none
find_point (suc n) id (none ∷ row) = find_point n id row
find_point (suc n) id (some p ∷ row) =
    let rest = find_point n id row in if object_id_eq p.object_id id then some p else rest

-- The same loop, with a change of the point it finds; `none` where it finds none.
unfoldable pub change_point :
    ℕ
    → ObjectId
    → (PointEntry → PointEntry)
    → List (Option PointEntry)
    → Option (List (Option PointEntry))
unfolding object_id_eq
change_point zero id f row = none
change_point (suc n) id f [] = none
change_point (suc n) id f (none ∷ row) = Option.map (λ r. none ∷ r) (change_point n id f row)
change_point (suc n) id f (some p ∷ row) =
    let rest = change_point n id f row in
    if object_id_eq p.object_id id
    then some (some (f p) ∷ row)
    else Option.map (λ r. some p ∷ r) rest

unfoldable pub new_point : ObjectId → BacnetValue → ℕ → PointEntry
new_point id value unit = record {
  object_id = id;
  name = [];
  description = [];
  present_value = some value;
  unit = unit;
  writable = false;
  dirty = true;
}

-- `self.points[device_idx]` and `self.point_counts[device_idx]`, below eight.
abbrev pub row_of : BridgeState → ℕ → List (Option PointEntry)
row_of s idx = get_or s.points idx []

abbrev pub count_of : BridgeState → ℕ → ℕ
count_of s idx = get_or s.point_counts idx 0

abbrev pub updated : BacnetValue → ℕ → PointEntry → PointEntry
updated value unit p = record p { present_value = some value; unit = unit; dirty = true }

unfoldable pub update_point : ℕ → ObjectId → BacnetValue → ℕ → BridgeState → BridgeState
unfolding change_point new_point
update_point idx id value unit s =
    if leb max_devices idx
    then s
    else elim (change_point (count_of s idx) id (updated value unit) (row_of s idx)) [
      | some row ↦ record s { points = set s.points idx row }
      | none ↦
          if ltb (count_of s idx) max_points_per_device
          then record s {
            points =
                set s.points idx
                  (set (row_of s idx) (count_of s idx) (some (new_point id value unit)));
            point_counts = set s.point_counts idx (count_of s idx + 1);
          }
          else s
    ]

unfoldable pub update_point_unit : ℕ → ObjectId → ℕ → BridgeState → BridgeState
unfolding change_point
update_point_unit idx id unit s =
    if leb max_devices idx
    then s
    else elim (change_point (count_of s idx) id (λ p. record p { unit = unit }) (row_of s idx)) [
      | some row ↦ record s { points = set s.points idx row }
      | none ↦ s
    ]

unfoldable pub get_point_unit : ℕ → ObjectId → BridgeState → ℕ
unfolding find_point
get_point_unit idx id s =
    if leb max_devices idx
    then 0
    else elim (find_point (count_of s idx) id (row_of s idx)) [ none ↦ 0 | some p ↦ p.unit ]

unfoldable pub get_device_points : ℕ → BridgeState → List (Option PointEntry)
get_device_points idx s = if leb max_devices idx then [] else take (count_of s idx) (row_of s idx)

abbrev clean : Option PointEntry → Option PointEntry
clean none = none
clean (some p) = some (record p { dirty = false })

unfoldable pub mark_clean : ℕ → ℕ → BridgeState → BridgeState
mark_clean idx point s =
    if leb max_devices idx || leb max_points_per_device point then s else record s {
      points =
          set s.points idx (set (row_of s idx) point (clean (get_or (row_of s idx) point none)));
    }
