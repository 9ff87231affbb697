-- ===== src/Apdu/Messages.antt =====
-- The messages of ASHRAE 135 clause 21 that the bridge sends, as bytes behind their fixed header, and
-- which values of the Rust types they stand for.
use micro_bacnet_bridge.Base.{
  ℕ, ◌^◌, ◌≤◌, ◌<◌, List, [], ◌∷◌, ◌++◌, Option, none, some, if◌then◌else◌, length,
}
use micro_bacnet_bridge.Slice.{IsByte}
use micro_bacnet_bridge.Bacnet.{ObjectId, PropertyId, to_raw, property_code, BacnetValue}
use micro_bacnet_bridge.Bacnet.Codes.{IsInstance, IsCode, IsCanonical}
use micro_bacnet_bridge.Bacnet.Values.{IsValue, IsU32}
use micro_bacnet_bridge.Apdu.Types.{
  IAmData, ReadPropertyRequest, ReadPropertyAnswer, WritePropertyRequest, SubscribeCovRequest,
  CovNotification, max_values,
}
use micro_bacnet_bridge.Apdu.Write.{be_bytes}
use micro_bacnet_bridge.Apdu.Wire.{
  uint_bytes, sized, context_uint, context_id, opening, closing, value_bytes, optional_bytes,
}
use micro_bacnet_bridge.Apdu.ReadLaws.{IsOptional}

abbrev pub i_am_bytes : IAmData → List ℕ
i_am_bytes iam =
    sized 0xC0 (be_bytes (to_raw iam.device_id))
    ++ (sized 0x20 (uint_bytes iam.max_apdu)
        ++ (sized 0x90 (uint_bytes iam.segmentation) ++ sized 0x20 (uint_bytes iam.vendor_id)))

pub record IsIAm (iam : IAmData) : Type 0 where
  pub id : IsInstance iam.device_id.instance_num
  pub max_apdu : IsU32 iam.max_apdu
  pub segmentation : iam.segmentation < 2 ^ 8
  pub vendor_id : iam.vendor_id < 2 ^ 16

pub record IsProperty (p : PropertyId) : Type 0 where
  pub code : IsCode p
  pub canonical : IsCanonical p

abbrev pub property_bytes : ObjectId → PropertyId → List ℕ → List ℕ
property_bytes id p more = context_id 0 id ++ (context_uint 1 (property_code p) ++ more)

abbrev pub read_property_bytes : ReadPropertyRequest → List ℕ
read_property_bytes req =
    property_bytes req.object_id req.property_id (optional_bytes 2 req.array_index)

pub record IsReadProperty (req : ReadPropertyRequest) : Type 0 where
  pub id : IsInstance req.object_id.instance_num
  pub property : IsProperty req.property_id
  pub index : IsOptional req.array_index

abbrev pub bracketed : ℕ → BacnetValue → List ℕ → List ℕ
bracketed tag v more = opening tag ++ (value_bytes v ++ (closing tag ++ more))

abbrev pub read_property_ack_bytes : ReadPropertyAnswer → List ℕ
read_property_ack_bytes ack =
    property_bytes ack.object_id ack.property_id
      (optional_bytes 2 ack.array_index ++ bracketed 3 ack.value [])

pub record IsReadPropertyAnswer (ack : ReadPropertyAnswer) : Type 0 where
  pub id : IsInstance ack.object_id.instance_num
  pub property : IsProperty ack.property_id
  pub index : IsOptional ack.array_index
  pub value : IsValue ack.value

abbrev pub write_property_bytes : WritePropertyRequest → List ℕ
write_property_bytes req =
    property_bytes req.object_id req.property_id
      (optional_bytes 2 req.array_index ++ bracketed 3 req.value (optional_bytes 4 req.priority))

abbrev pub IsOptionalByte : Option ℕ → Type 0
IsOptionalByte none = Unit {0}
IsOptionalByte (some v) = IsByte v

pub record IsWriteProperty (req : WritePropertyRequest) : Type 0 where
  pub id : IsInstance req.object_id.instance_num
  pub property : IsProperty req.property_id
  pub index : IsOptional req.array_index
  pub value : IsValue req.value
  pub priority : IsOptionalByte req.priority

abbrev pub subscribe_cov_bytes : SubscribeCovRequest → List ℕ
subscribe_cov_bytes req =
    context_uint 0 req.subscriber_process_id
    ++ (context_id 1 req.monitored_object
        ++ (context_uint 2 (if req.issue_confirmed then 1 else 0) ++ optional_bytes 3 req.lifetime))

pub record IsSubscribeCov (req : SubscribeCovRequest) : Type 0 where
  pub process : IsU32 req.subscriber_process_id
  pub id : IsInstance req.monitored_object.instance_num
  pub lifetime : IsOptional req.lifetime

abbrev pub entry_bytes : PropertyId × BacnetValue → List ℕ
entry_bytes e = context_uint 0 (property_code e.0) ++ bracketed 2 e.1 []

abbrev pub entries_bytes : List (PropertyId × BacnetValue) → List ℕ
entries_bytes [] = []
entries_bytes (e ∷ es) = entry_bytes e ++ entries_bytes es

abbrev pub ucov_bytes : CovNotification → List ℕ
ucov_bytes n =
    context_uint 0 n.subscriber_process_id
    ++ (context_id 1 n.initiating_device
        ++ (context_id 2 n.monitored_object
            ++ (context_uint 3 n.time_remaining
                ++ (opening 4 ++ (entries_bytes n.values ++ closing 4)))))

abbrev pub AreEntries : List (PropertyId × BacnetValue) → Type 0
AreEntries [] = Unit {0}
AreEntries (e ∷ es) = IsProperty e.0 × IsValue e.1 × AreEntries es

pub record IsNotification (n : CovNotification) : Type 0 where
  pub process : IsU32 n.subscriber_process_id
  pub device : IsInstance n.initiating_device.instance_num
  pub monitored : IsInstance n.monitored_object.instance_num
  pub time : IsU32 n.time_remaining
  pub entries : AreEntries n.values
  pub fits : length n.values ≤ max_values
