-- ===== src/Router.antt =====
-- firmware/src/bacnet_router.rs: what the bridge does with the services it decodes, and what it sends.
pub mod Rules
pub mod Values
use micro_bacnet_bridge.Base.{
  ℕ, zero, suc, ◌+◌, ◌%◌, ◌^◌, min, List, [], ◌∷◌, ◌++◌, length, take, drop, replicate,
}
use micro_bacnet_bridge.Base.{Bool, true, false, not, ◌&&◌, ◌||◌, ◌==◌, leb, ltb, if◌then◌else◌}
use micro_bacnet_bridge.Base.{Option, none, some, get_or, set, Result, ok, err, panic, stuck, ◌>>=◌}
use micro_bacnet_bridge.Error.{EncodeError}
use micro_bacnet_bridge.Slice.{Encoder, slice}
use micro_bacnet_bridge.Npdu.{decode_npdu}
use micro_bacnet_bridge.Apdu.Decode.{decode_apdu}
use micro_bacnet_bridge.Bacnet.{
  ObjectType, device, type_code, ObjectId, PropertyId, property_code, present_value, units,
  object_name, object_identifier, object_type, description, BacnetValue, char_string, object_id,
  enumerated,
}
use micro_bacnet_bridge.Apdu.Types.{
  IAmData, WhoIsRequest, ReadPropertyRequest, ReadPropertyAnswer, CovNotification, DecodedApdu,
  i_am, who_is, read_property_ack, read_property, unconfirmed_cov_notification, write_property,
  subscribe_cov, simple_ack, error, unknown, service_read_property,
}
use micro_bacnet_bridge.Apdu.Encode.{
  encode_error, encode_read_property_ack, encode_i_am, encode_who_is, encode_read_property,
}
use micro_bacnet_bridge.Ipc.{BacnetPdu, RingBuffer, new_pdu, pdu_max_data, push, pop}
use micro_bacnet_bridge.Bridge.{
  DeviceEntry, empty_device, BridgeState, find_device, PointEntry, get_device_points, upsert_device,
  get_point_unit, update_point_unit,
}
use micro_bacnet_bridge.Pipeline.{
  Floats, PointMode, passthrough, Processor, update_point_with_pipeline,
}
use micro_bacnet_bridge.Config.{BridgeConfig, find_point_rule_for_device}

abbrev pub bridge_device_id : ℕ
bridge_device_id = 0x3FFFF

abbrev pub router_vendor : ℕ
router_vendor = 0xFFFF

abbrev pub router_max_apdu : ℕ
router_max_apdu = 480

-- The slots of either ring.
abbrev pub ring_slots : ℕ
ring_slots = 8

-- What the task shares with the others: the tables, the configuration once it is read, the rings and
-- the next invoke id.
pub record RouterState : Type 0 where
  pub tables : BridgeState
  pub config : Option BridgeConfig
  pub mstp_to_ip : RingBuffer
  pub ip_to_mstp : RingBuffer
  pub invoke_id : ℕ

abbrev pub our_device : ObjectId
our_device = record { object_type = device; instance_num = bridge_device_id }

-- The first of the known devices with an address on the bus, from the index `i` on.
unfoldable pub first_with_mac : ℕ → ℕ → List DeviceEntry → Option ℕ
first_with_mac mac i [] = none
first_with_mac mac i (d ∷ devices) =
    let rest = first_with_mac mac (i + 1) devices in if d.mac == mac then some i else rest

abbrev pub known_devices : BridgeState → List DeviceEntry
known_devices s = take s.device_count s.devices

unfoldable pub no_device : DeviceEntry
unfolding empty_device
no_device = empty_device

-- A PDU with an APDU of at most 501 bytes.
unfoldable pub apdu_pdu : ℕ → List ℕ → ℕ → List ℕ → BacnetPdu
unfolding new_pdu
apdu_pdu net mac mac_len apdu =
    let len = min (length apdu) pdu_max_data in
    record new_pdu {
      dest_net = net;
      dest_mac = mac;
      dest_mac_len = mac_len;
      data_len = len;
      pdu_type = elim apdu [ [] ↦ 0xFF | b ∷ bs ↦ b ];
      bytes = take len apdu ++ drop len new_pdu.bytes;
    }

-- Behind an encoder's run on an empty buffer of `room` bytes; nothing is sent where it fails.
abbrev pub with_apdu :
    ℕ
    → Encoder
    → (List ℕ → RouterState → RouterState)
    → RouterState
    → Result EncodeError RouterState
with_apdu room e send s = elim (e (replicate room 0) 0) [
  | ok (buf, n) ↦ ok (send (take n buf) s)
  | err x ↦ ok s
  | panic ↦ panic
  | stuck ↦ stuck
]

to_ip : BacnetPdu → RouterState → RouterState
unfolding push
to_ip pdu s = record s { mstp_to_ip = (push ring_slots pdu s.mstp_to_ip).0 }

to_mstp : BacnetPdu → RouterState → RouterState
unfolding push
to_mstp pdu s = record s { ip_to_mstp = (push ring_slots pdu s.ip_to_mstp).0 }

-- An address of one byte is one on the bus.
unfoldable pub send_reply : BacnetPdu → List ℕ → RouterState → RouterState
unfolding to_ip to_mstp apdu_pdu
send_reply source apdu s =
    let pdu = apdu_pdu source.source_net source.source_mac source.source_mac_len apdu in
    if source.source_mac_len == 1 then to_mstp pdu s else to_ip pdu s

unfoldable pub send_i_am : RouterState → Result EncodeError RouterState
unfolding encode_i_am to_ip apdu_pdu
send_i_am s =
    with_apdu 32
      (encode_i_am (record {
        device_id = our_device;
        max_apdu = router_max_apdu;
        segmentation = 3;
        vendor_id = router_vendor;
      }))
      (λ apdu. to_ip (apdu_pdu 0 (replicate 7 0) 0 apdu)) s

unfoldable pub send_who_is_broadcast : RouterState → Result EncodeError RouterState
unfolding encode_who_is to_ip apdu_pdu
send_who_is_broadcast s =
    with_apdu 8 (encode_who_is none none) (λ apdu. to_ip (apdu_pdu 0 (replicate 7 0) 0 apdu)) s

-- The limits of a Who-Is only count together.
unfoldable pub is_asked : WhoIsRequest → Bool
is_asked req = elim req.low_limit [
  | none ↦ true
  | some lo ↦ elim req.high_limit [
    | none ↦ true
    | some hi ↦ leb lo bridge_device_id && leb bridge_device_id hi
  ]
]

unfoldable pub handle_i_am : IAmData → BacnetPdu → RouterState → RouterState
unfolding upsert_device
handle_i_am iam source s =
    let id = iam.device_id.instance_num in
    if id == bridge_device_id
    then s
    else record s { tables = (upsert_device id (get_or source.source_mac 0 0) [] s.tables).0 }

-- The rule of a point; without a configuration it passes through.
unfoldable pub rule_of : Option BridgeConfig → ℕ → ObjectId → PointMode × List Processor
unfolding find_point_rule_for_device
rule_of none device_id id = (passthrough, [])
rule_of (some config) device_id id =
    find_point_rule_for_device device_id (type_code id.object_type) id.instance_num config

abbrev pub unit_of : BacnetValue → ℕ
unit_of (enumerated code) = code % 2 ^ 16
unit_of _ = 0

-- The answers of the bridge's own device: "BACnet Bridge" and "Icomb Place BACnet".
unfoldable pub own_property : PropertyId → Option BacnetValue
own_property object_name =
    some (char_string (66 ∷ 65 ∷ 67 ∷ 110 ∷ 101 ∷ 116 ∷ 32 ∷ 66 ∷ 114 ∷ 105 ∷ 100 ∷ 103 ∷ 101 ∷ []))
own_property object_identifier = some (object_id our_device)
own_property object_type = some (enumerated 8)
own_property description = some (
    char_string (
      73 ∷ 99 ∷ 111 ∷ 109 ∷ 98 ∷ 32 ∷ 80 ∷ 108 ∷ 97 ∷ 99 ∷ 101 ∷ 32 ∷ 66 ∷ 65 ∷ 67 ∷ 110 ∷ 101 ∷ 116
      ∷ []))
own_property _ = none

unfoldable pub handle_read_property_request :
    ReadPropertyRequest → ℕ → BacnetPdu → RouterState → Result EncodeError RouterState
unfolding own_property encode_error encode_read_property_ack send_reply
handle_read_property_request req invoke_id source s =
    if not (type_code req.object_id.object_type == type_code device)
      || not (req.object_id.instance_num == bridge_device_id)
    then ok s
    else elim (own_property req.property_id) [
      | none ↦
          with_apdu 16 (encode_error invoke_id service_read_property 2 32) (send_reply source) s
      | some value ↦
          with_apdu 128
            (encode_read_property_ack
              (record {
                object_id = req.object_id;
                property_id = req.property_id;
                array_index = req.array_index;
                value = value;
              })
              invoke_id)
            (send_reply source) s
    ]

-- One request, and whether the ring took it. The invoke id is a `u8`.
unfoldable pub send_read_property :
    ℕ → ObjectId → PropertyId → RouterState → Result EncodeError (RouterState × Bool)
unfolding encode_read_property apdu_pdu push
send_read_property dest_mac id property s =
    let s' = record s { invoke_id = (s.invoke_id + 1) % 256 } in
    let req : ReadPropertyRequest = record {
      object_id = id;
      property_id = property;
      array_index = none;
    } in
    elim (encode_read_property req s.invoke_id (replicate 32 0) 0) [
      | ok (buf, n) ↦
          let pdu = apdu_pdu 0 (dest_mac ∷ replicate 6 0) 1 (take n buf) in
          let pushed = push ring_slots pdu s.ip_to_mstp in
          ok (record s' { ip_to_mstp = pushed.0 }, pushed.1)
      | err x ↦ ok (s', true)
      | panic ↦ panic
      | stuck ↦ stuck
    ]

-- The points of a device, until the ring is full.
unfoldable pub poll_points :
    ℕ → Bool → List (Option PointEntry) → RouterState → Result EncodeError (RouterState × Bool)
unfolding send_read_property
poll_points mac need_units [] s = ok (s, true)
poll_points mac need_units (none ∷ points) s = poll_points mac need_units points s
poll_points mac need_units (some p ∷ points) s =
    send_read_property mac p.object_id present_value s >>= λ (s1, sent).
    (if not sent
      then ok (s1, false)
      else if need_units
      then (send_read_property mac p.object_id units s1 >>= λ (s2, sent').
          (if not sent' then ok (s2, false) else poll_points mac need_units points s2))
      else poll_points mac need_units points s1)

-- The devices from the index `i` on.
unfoldable pub poll_devices : ℕ → List DeviceEntry → RouterState → Result EncodeError RouterState
unfolding poll_points get_device_points
poll_devices i [] s = ok s
poll_devices i (d ∷ devices) s =
    if not d.online
    then poll_devices (i + 1) devices s
    else (poll_points d.mac (not d.points_loaded) (get_device_points i s.tables) s >>= λ (s', all).
        (if all then poll_devices (i + 1) devices s' else ok s'))

unfoldable pub poll_device_points : RouterState → Result EncodeError RouterState
unfolding poll_devices
poll_device_points s = poll_devices 0 (known_devices s.tables) s

-- A unit's code for a point, and the mark that the device's units are known.
unfoldable pub store_unit : ReadPropertyAnswer → ℕ → BridgeState → BridgeState
unfolding first_with_mac update_point_unit
store_unit ack mac s = elim (first_with_mac mac 0 (known_devices s)) [
  | none ↦ s
  | some i ↦
      let s' = update_point_unit i ack.object_id (unit_of ack.value) s in
      record s' {
        devices =
            set s'.devices i (record (get_or s'.devices i no_device) { points_loaded = true });
      }
]

unfoldable pub is_present_value : PropertyId → Bool
is_present_value present_value = true
is_present_value _ = false

module _ (fl : Floats) where
  -- The new value of a point of the device with that address on the bus.
  unfoldable pub store_value :
      ReadPropertyAnswer → ℕ → BridgeState → Option BridgeConfig → BridgeState
  unfolding first_with_mac rule_of get_point_unit update_point_with_pipeline
  store_value ack mac s config = elim (first_with_mac mac 0 (known_devices s)) [
    | none ↦ s
    | some i ↦
        let rule = rule_of config (get_or s.devices i no_device).device_id ack.object_id in
        update_point_with_pipeline fl i ack.object_id ack.value (get_point_unit i ack.object_id s)
          rule.0 rule.1 s
  ]

  unfoldable pub handle_read_property_ack :
      ReadPropertyAnswer → BacnetPdu → RouterState → RouterState
  unfolding store_value store_unit
  handle_read_property_ack ack source s =
      let mac = get_or source.source_mac 0 0 in
      elim ack.property_id [
        | PropertyId.present_value ↦ record s { tables = store_value ack mac s.tables s.config }
        | PropertyId.units ↦ record s { tables = store_unit ack mac s.tables }
        | _ ↦ s
      ]

  unfoldable pub handle_cov_values :
      ℕ
      → ObjectId
      → PointMode × List Processor
      → List (PropertyId × BacnetValue)
      → BridgeState
      → BridgeState
  unfolding update_point_with_pipeline is_present_value
  handle_cov_values i id rule [] s = s
  handle_cov_values i id rule ((property, value) ∷ values) s = handle_cov_values i id rule values (
      if is_present_value property
      then update_point_with_pipeline fl i id value 0 rule.0 rule.1 s
      else s)

  unfoldable pub handle_cov_notification : CovNotification → RouterState → RouterState
  unfolding handle_cov_values find_device rule_of
  handle_cov_notification notif s =
      let id = notif.initiating_device.instance_num in
      elim (find_device id s.tables) [
        | none ↦ s
        | some i ↦ record s {
          tables =
              handle_cov_values i notif.monitored_object
                (rule_of s.config id notif.monitored_object) notif.values s.tables;
        }
      ]

  unfoldable pub handle_decoded_apdu :
      DecodedApdu → BacnetPdu → RouterState → Result EncodeError RouterState
  unfolding handle_i_am is_asked send_i_am handle_read_property_ack handle_read_property_request
      handle_cov_notification
  handle_decoded_apdu (i_am iam) source s = ok (handle_i_am iam source s)
  handle_decoded_apdu (who_is req) source s = if is_asked req then send_i_am s else ok s
  handle_decoded_apdu (read_property_ack ack invoke_id) source s =
      ok (handle_read_property_ack ack source s)
  handle_decoded_apdu (read_property req invoke_id) source s =
      handle_read_property_request req invoke_id source s
  handle_decoded_apdu (unconfirmed_cov_notification notif) source s =
      ok (handle_cov_notification notif s)
  handle_decoded_apdu (write_property req invoke_id) source s = ok s
  handle_decoded_apdu (error invoke_id service class code) source s = ok s
  handle_decoded_apdu (subscribe_cov req invoke_id) source s = ok s
  handle_decoded_apdu (simple_ack invoke_id service) source s = ok s
  handle_decoded_apdu (unknown kind service) source s = ok s

  -- The APDU of a payload, with a decoder's fuel of one round for each byte and one more.
  unfoldable pub handle_apdu : List ℕ → BacnetPdu → RouterState → Result EncodeError RouterState
  unfolding decode_apdu handle_decoded_apdu
  handle_apdu apdu source s = elim (decode_apdu (length apdu + 1) apdu) [
    | ok decoded ↦ handle_decoded_apdu decoded source s
    | err e ↦ ok s
    | panic ↦ panic
    | stuck ↦ stuck
  ]

  -- A payload that is no NPDU is taken for an APDU.
  unfoldable pub process_mstp_pdu : BacnetPdu → RouterState → Result EncodeError RouterState
  unfolding slice decode_npdu handle_apdu
  process_mstp_pdu pdu s =
      if pdu.data_len == 0
      then ok s
      else (slice pdu.bytes 0 pdu.data_len >>= λ payload. elim (decode_npdu payload) [
        | ok (h, apdu) ↦ if length apdu == 0 then ok s else handle_apdu apdu pdu s
        | err e ↦ handle_apdu payload pdu s
        | panic ↦ panic
        | stuck ↦ stuck
      ])

  unfoldable pub process_ip_pdu : BacnetPdu → RouterState → Result EncodeError RouterState
  unfolding slice handle_apdu
  process_ip_pdu pdu s =
      if pdu.data_len == 0
      then ok s
      else (slice pdu.bytes 0 pdu.data_len >>= λ payload. handle_apdu payload pdu s)

  -- `while let Some(pdu) = ring.pop()`, in at most `rounds` rounds.
  unfoldable pub process_mstp_pdus : ℕ → RouterState → Result EncodeError RouterState
  unfolding pop process_mstp_pdu
  process_mstp_pdus zero s = stuck
  process_mstp_pdus (suc rounds) s =
      let (r, popped) = pop ring_slots s.mstp_to_ip in
      let s' = record s { mstp_to_ip = r } in
      elim popped [ none ↦ ok s' | some pdu ↦ process_mstp_pdu pdu s' >>= process_mstp_pdus rounds ]

  unfoldable pub process_ip_pdus : ℕ → RouterState → Result EncodeError RouterState
  unfolding pop process_ip_pdu
  process_ip_pdus zero s = stuck
  process_ip_pdus (suc rounds) s =
      let (r, popped) = pop ring_slots s.ip_to_mstp in
      let s' = record s { ip_to_mstp = r } in
      elim popped [ none ↦ ok s' | some pdu ↦ process_ip_pdu pdu s' >>= process_ip_pdus rounds ]
