-- ===== src/Apdu/Types.antt =====
-- bridge-core/src/apdu.rs: the parsed services.
use micro_bacnet_bridge.Base.{ℕ, Bool, Option, List}
use micro_bacnet_bridge.Bacnet.{ObjectId, PropertyId, BacnetValue}

pub record WhoIsRequest : Type 0 where
  pub low_limit : Option ℕ
  pub high_limit : Option ℕ

pub record IAmData : Type 0 where
  pub device_id : ObjectId
  pub max_apdu : ℕ
  pub segmentation : ℕ
  pub vendor_id : ℕ

pub record ReadPropertyRequest : Type 0 where
  pub object_id : ObjectId
  pub property_id : PropertyId
  pub array_index : Option ℕ

-- `ReadPropertyAck`
pub record ReadPropertyAnswer : Type 0 where
  pub object_id : ObjectId
  pub property_id : PropertyId
  pub array_index : Option ℕ
  pub value : BacnetValue

pub record WritePropertyRequest : Type 0 where
  pub object_id : ObjectId
  pub property_id : PropertyId
  pub array_index : Option ℕ
  pub value : BacnetValue
  pub priority : Option ℕ

pub record SubscribeCovRequest : Type 0 where
  pub subscriber_process_id : ℕ
  pub monitored_object : ObjectId
  pub issue_confirmed : Bool
  pub lifetime : Option ℕ

-- `values` is a `heapless::Vec` of at most `max_values` pairs.
pub record CovNotification : Type 0 where
  pub subscriber_process_id : ℕ
  pub initiating_device : ObjectId
  pub monitored_object : ObjectId
  pub time_remaining : ℕ
  pub values : List (PropertyId × BacnetValue)

abbrev pub max_values : ℕ
max_values = 8

-- A number behind a request is its invoke id.
pub data DecodedApdu : Type 0 where
  who_is : WhoIsRequest → DecodedApdu
  i_am : IAmData → DecodedApdu
  read_property : ReadPropertyRequest → ℕ → DecodedApdu
  read_property_ack : ReadPropertyAnswer → ℕ → DecodedApdu
  write_property : WritePropertyRequest → ℕ → DecodedApdu
  subscribe_cov : SubscribeCovRequest → ℕ → DecodedApdu
  unconfirmed_cov_notification : CovNotification → DecodedApdu
  simple_ack : ℕ → ℕ → DecodedApdu
  error : ℕ → ℕ → ℕ → ℕ → DecodedApdu
  unknown : ℕ → ℕ → DecodedApdu

abbrev pub pdu_confirmed_request : ℕ
pdu_confirmed_request = 0x00

abbrev pub pdu_unconfirmed_request : ℕ
pdu_unconfirmed_request = 0x10

abbrev pub pdu_simple_ack : ℕ
pdu_simple_ack = 0x20

abbrev pub pdu_complex_ack : ℕ
pdu_complex_ack = 0x30

abbrev pub pdu_error : ℕ
pdu_error = 0x50

abbrev pub service_who_is : ℕ
service_who_is = 0x08

abbrev pub service_i_am : ℕ
service_i_am = 0x00

abbrev pub service_ucov_notification : ℕ
service_ucov_notification = 0x02

abbrev pub service_subscribe_cov : ℕ
service_subscribe_cov = 0x05

abbrev pub service_read_property : ℕ
service_read_property = 0x0C

abbrev pub service_write_property : ℕ
service_write_property = 0x0F
