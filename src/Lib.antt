-- ===== src/Lib.antt =====
-- The verification library of micro-bacnet-bridge, firmware that joins a BACnet MS/TP bus to
-- BACnet/IP. It models the platform-independent crate bridge-core and, of the firmware, the SNMP
-- agent, the packets of the BACnet/IP task and the router.
--
-- The parts and how they interact. A datagram from the network passes the link header
-- (bridge-core/src/bvlc.rs), the network header (bridge-core/src/npdu.rs) and the service codec
-- (bridge-core/src/apdu.rs), which stands on the identifiers and values of bridge-core/src/bacnet.rs.
-- PDUs to and from the MS/TP core pass through a ring in shared memory (bridge-core/src/ipc.rs), and
-- firmware/src/bacnet_ip.rs moves them between the ring and the network;
-- firmware/src/bacnet_router.rs answers them, and asks the devices for their values.
-- Devices that were found and the values of their points are kept in the tables of
-- bridge-core/src/bridge.rs, the values after a pipeline of processors
-- (bridge-core/src/pipeline.rs) that the configuration (bridge-core/src/config.rs) names. The clock is set by SNTP (bridge-core/src/ntp.rs). Values
-- are published over MQTT (bridge-core/src/mqtt.rs), the bridge is found by mDNS
-- (bridge-core/src/mdns.rs), its counters are read over SNMP (bridge-core/src/snmp.rs, answered by
-- firmware/src/snmp.rs), its log is sent as bridge-core/src/syslog.rs
-- writes it, its users are checked by bridge-core/src/auth.rs, and new firmware passes
-- the checks of bridge-core/src/ota.rs. Errors are those of bridge-core/src/error.rs.
--
-- The files:
--   Base: tests on numbers, lists, the result type with `panic`, and the laws of bit operations.
--   Error: the error enums of error.rs.
--   Slice: indexing, `need` and `dneed` of apdu.rs; an index is a `usize` of 32 bits whose sums wrap,
--     as in the release build for the target. Slice/Writing and Slice/Reading are the calculus in
--     which encoders and decoders are put together: what is written, and what is read back.
--   Bacnet: `ObjectType`, `ObjectId`, `PropertyId`, `BacnetValue` and their codes (from_code, code,
--     to_raw, from_raw). Bacnet/Values has UTF-8 and the range of each value, Bacnet/Units the units
--     (unit_code is code, unit_from_code from_code), with ha_unit_str and convert_for_ha in
--     Bacnet/Units/HomeAssistant, Bacnet/Choices ApduType and ServiceChoice. The conversions that
--     PointConfig directs (convert_from_bacnet to convert_write_for_exposure) are in Pipeline/Config.
--   Apdu: Types (the parsed services), Write (encode_app_value and the tag encoders), Read
--     (decode_tag, decode_app_value and the tag decoders), Encode (encode_who_is to
--     encode_ucov_notification), Decode (decode_apdu and the service decoders), Wire (the wire format
--     as lists of bytes, as the code has it), Standard (the integers in the fewest octets, as ASHRAE 135
--     has them), and the laws. The loop over the values of a notification runs on fuel, and
--     `stuck` is running out of it; one turn more than the message has values is enough.
--   Bvlc: encode_bvlc, decode_bvlc. Npdu: encode_npdu, decode_npdu.
--   Ipc: BacnetPdu and RingBuffer (new, is_empty, is_full, push, pop, len) as one caller sees them;
--     Ipc/Ring and Ipc/Queue relate them to a bounded queue. Ipc/Cores is push on one core and pop on
--     the other, as sequences of single accesses to the shared memory in any order, where the fences
--     keep each core's accesses in the order of the program.
--   BacnetIp: handle_incoming and encode_bvlc_pdu; BacnetIp/Wire and BacnetIp/Delivery follow a PDU
--     from one bridge to another.
--   Config: the sections of the configuration with their defaults, validate, find_point_rule,
--     find_point_rule_for_device and resolve_rule (first_rule and find_convertor are their loops).
--   Router: the handlers, senders and loops of firmware/src/bacnet_router.rs, on a RouterState of what
--     the task shares with others. The loops over the rings run on fuel, which is an argument; a
--     decoder gets one round for each byte and one more, and no value of a message is shorter than
--     a byte. Router/Rules describes the rules of the configuration, and Router/Values
--     follows a value from the bus to the table.
--   Syslog: format_syslog and its writers; `◌▹◌` is one write to the staging vector and the next.
--   Ntp: encode_request, decode_response, decode_packet, ntp_to_unix_epoch.
--   Bridge: DeviceEntry, PointEntry and BridgeStateInner with find_device, upsert_device, update_point,
--     update_point_unit, get_point_unit, get_device_points and mark_clean; Bridge/Rows has the points of
--     one device as a map. A table of the source's size stands for its array, and an index that the
--     source's bounds and counts keep below that size is read without a test.
--   Pipeline: process_value and reverse_value with the processors, the modes of a point, and
--     update_point_with_pipeline. The operations on `f32` are a parameter, the record Floats.
--   Text: what the standard library and heapless do for texts: digits, split, bounded strings.
--   Mqtt: encode_connect to decode_connack; Mqtt/Groups and Mqtt/Length follow the groups of a
--     remaining length, which run on fuel 4, since a length that is written is checked to be below
--     2 ^ 28 and the reader stops at the fourth byte. Mqtt/Discovery and Mqtt/Ascii are
--     ha_discovery_topic and format_ha_discovery.
--   Mdns: write_name, write_label and read_name; Mdns/Records has DnsHeader, the four encoders and
--     decode_query. The loop of read_name runs on fuel of nine passes over the packet, enough for
--     its eight pointers.
--   Auth: hash_token to has_permission; the hash function is a parameter.
--   Ota: validate_firmware_image, is_uf2 and parse_uf2_block; Ota/Json is the scanner (find_bytes to
--     push_bytes), Ota/Manifest has parse_manifest and is_newer_version.
--   Snmp: decode_tlv to decode_oid; Snmp/Encode has encode_integer to encode_varbind, Snmp/Message
--     encode_get_response and decode_get_request, whose loop runs on fuel of one round for each byte
--     and one more. Snmp/Agent is firmware/src/snmp.rs: oid_cmp, next_oid, resolve_oid,
--     build_bindings and a round of snmp_task.
--   Tests: runs at concrete inputs.
--
-- Numbers are natural numbers with the width of the source written out where a shift, a cast or a sum
-- can leave it. An `i32`, an `i8` and an `f32` are kept as their bits, a string as its bytes. A panic
-- is a result of its own.
--
-- Not modelled: tls.rs of bridge-core, reading and writing the configuration, which serde does, and
-- the firmware's other tasks, which are input and output around these parts. Display and Debug are
-- text for logs.
pub mod Base
pub mod Error
pub mod Slice
pub mod Text
pub mod Bacnet
pub mod Apdu
pub mod Bvlc
pub mod Npdu
pub mod Ipc
pub mod Ntp
pub mod Bridge
pub mod BacnetIp
pub mod Syslog
pub mod Config
pub mod Router
pub mod Pipeline
pub mod Mqtt
pub mod Mdns
pub mod Auth
pub mod Ota
pub mod Snmp
pub mod Tests
