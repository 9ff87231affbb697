-- ===== src/Tests/Transport.antt =====
-- The headers, the ring and the clock of bridge-core/src/{bvlc,npdu,ipc,ntp}.rs at concrete inputs.
use micro_bacnet_bridge.Base.{
  ℕ, ◌+◌, ◌*◌, ◌%◌, ◌<◌, ◌≤◌, ◌≡◌, ◌≢◌, ◌↔◌, refl, arith, List, [], ◌∷◌, ◌++◌,
}
use micro_bacnet_bridge.Base.{true, false, not, ◌&&◌, ◌||◌, take, drop, replicate, length}
use micro_bacnet_bridge.Base.{ltb, leb, ◌==◌, if◌then◌else◌, ok, err, panic, ◌>>=◌}
use micro_bacnet_bridge.Error.{
  buffer_too_small, invalid_value, DecodeError, invalid_version, invalid_data,
}
use micro_bacnet_bridge.Bvlc.{bvlc_type, forwarded_npdu, header_size, encode_bvlc, decode_bvlc}
use micro_bacnet_bridge.Bvlc.Laws.{decode_bvlc_panics, bvlc_round_trip}
use micro_bacnet_bridge.Npdu.{max_mac_len, NpduHeader, npdu_bytes, encode_npdu, decode_npdu}
use micro_bacnet_bridge.Npdu.RoundTrip.{IsNpduHeader, encode_npdu_lem, npdu_round_trip}
use micro_bacnet_bridge.Ipc.{BacnetPdu, new_pdu, new_ring}
use micro_bacnet_bridge.Ipc.Slots.{IsCapacity}
use micro_bacnet_bridge.Ipc.Queue.{
  Call, push_call, pop_call, len_call, is_empty_call, is_full_call, ring_call, queue_call, replies,
  ring_refines_queue,
}
use micro_bacnet_bridge.Ipc.Cores.{
  p_loaded, c_loaded, start, produce, consume, Turn, producers, consumers, turn, run,
}
use micro_bacnet_bridge.Ipc.Cores.History.{cores_in_order, cores_no_race}
use micro_bacnet_bridge.Ntp.{
  sntp_packet_len, NtpTimestamp, NtpPacket, encode_request, version_of, decode_response,
  decode_packet,
}
use micro_bacnet_bridge.Ntp.Laws.{
  packet_bytes, encode_request_lem, decode_response-packet, decode_packet-packet_bytes,
}

abbrev who_is_npdu : List ℕ
who_is_npdu = 0x01 ∷ 0x00 ∷ 0x10 ∷ 0x08 ∷ []

bvlc_sent :
    encode_bvlc 0x0B who_is_npdu (replicate 10 0)
    ≡ ok (0x81 ∷ 0x0B ∷ 0x00 ∷ 0x08 ∷ 0x01 ∷ 0x00 ∷ 0x10 ∷ 0x08 ∷ 0 ∷ 0 ∷ [], 8)
unfolding encode_bvlc
bvlc_sent = refl

bvlc_round_trip_example :
    decode_bvlc (take 8 (0x81 ∷ 0x0B ∷ 0x00 ∷ 0x08 ∷ 0x01 ∷ 0x00 ∷ 0x10 ∷ 0x08 ∷ 0 ∷ 0 ∷ []))
    ≡ ok (record { function = 0x0B; total = 8 }, who_is_npdu)
bvlc_round_trip_example =
    bvlc_round_trip 0x0B who_is_npdu (replicate 10 0) (omega arith) (omega arith) bvlc_sent

decode_bvlc_panics_example :
    (decode_bvlc (0x81 ∷ 0x0A ∷ 0 ∷ 2 ∷ []) ≡ panic)
    ↔ ((0x81 ≡ bvlc_type) × (0x0A ≢ forwarded_npdu) × (0 * 256 + 2 < header_size))
decode_bvlc_panics_example = decode_bvlc_panics 0x81 0x0A 0 2 [] (omega arith) (omega arith)

-- To a station on network 2000, from one on network 5, with priority 3.
abbrev routed : NpduHeader
routed = record {
  version = 1;
  is_network_layer_msg = false;
  dest_present = true;
  dest_net = 2000;
  dest_mac = 12 ∷ 0 ∷ 0 ∷ 0 ∷ 0 ∷ 0 ∷ 0 ∷ [];
  dest_mac_len = 1;
  src_present = true;
  src_net = 5;
  src_mac = 192 ∷ 168 ∷ 1 ∷ 9 ∷ 0xBA ∷ 0xC0 ∷ 0 ∷ [];
  src_mac_len = 6;
  hop_count = 255;
  expecting_reply = true;
  priority = 3;
}

routed-IsNpduHeader : IsNpduHeader routed
routed-IsNpduHeader = record {
  version = refl;
  priority = omega arith;
  dest = (omega arith, omega arith, refl, refl);
  src = (omega arith, omega arith, refl, refl);
  hops = omega arith;
}

abbrev routed_wire : List ℕ
routed_wire =
    0x01 ∷ 0x2F ∷ 0x07 ∷ 0xD0 ∷ 1 ∷ 12 ∷ 0x00 ∷ 0x05 ∷ 6 ∷ 192 ∷ 168 ∷ 1 ∷ 9 ∷ 0xBA ∷ 0xC0 ∷ 255
    ∷ 0x10 ∷ 0x08 ∷ []

routed_sent :
    encode_npdu routed (0x10 ∷ 0x08 ∷ []) (replicate 20 0) ≡ ok (routed_wire ++ (0 ∷ 0 ∷ []), 18)
unfolding encode_npdu
routed_sent = refl

npdu_round_trip_example :
    decode_npdu (take 18 (routed_wire ++ (0 ∷ 0 ∷ []))) ≡ ok (routed, 0x10 ∷ 0x08 ∷ [])
npdu_round_trip_example =
    npdu_round_trip routed (0x10 ∷ 0x08 ∷ []) (replicate 20 0) routed-IsNpduHeader refl refl
      (omega arith) routed_sent

abbrev long_mac : NpduHeader
long_mac = record routed { src_mac_len = 8 }

encode_npdu_lem_example : encode_npdu long_mac [] (replicate 20 0) ≡ (
    if (true && ltb max_mac_len 1) || (true && ltb max_mac_len 8)
    then err invalid_value
    else if leb (length (npdu_bytes long_mac [])) 20
    then ok (
      npdu_bytes long_mac [] ++ drop (length (npdu_bytes long_mac [])) (replicate 20 0),
      length (npdu_bytes long_mac []),
    )
    else err buffer_too_small)
encode_npdu_lem_example = encode_npdu_lem long_mac [] (replicate 20 0) refl refl (omega arith)

two_slots : IsCapacity 2
two_slots = record { exponent = 1; small = omega arith; power = refl }

abbrev pdu : ℕ → BacnetPdu
pdu kind = record {
  source_net = 0;
  source_mac = replicate 7 0;
  source_mac_len = 0;
  dest_net = 0;
  dest_mac = replicate 7 0;
  dest_mac_len = 0;
  pdu_type = kind;
  data_len = 0;
  bytes = [];
}

abbrev calls : List Call
calls =
    pop_call
    ∷ push_call (pdu 1)
    ∷ push_call (pdu 2)
    ∷ push_call (pdu 3)
    ∷ is_full_call
    ∷ pop_call
    ∷ push_call (pdu 4)
    ∷ len_call
    ∷ pop_call
    ∷ pop_call
    ∷ is_empty_call
    ∷ []

ring_refines_queue_example :
    replies (ring_call 2) calls (new_ring 2) ≡ replies (queue_call 2) calls []
ring_refines_queue_example = ring_refines_queue 2 calls two_slots

-- The consumer looks while the producer is between its two writes, and again when it has published.
abbrev turns : List Turn
turns =
    producers (pdu 1)
    ∷ producers (pdu 1)
    ∷ producers (pdu 1)
    ∷ consumers
    ∷ producers (pdu 1)
    ∷ consumers
    ∷ consumers
    ∷ producers (pdu 2)
    ∷ consumers
    ∷ producers (pdu 2)
    ∷ consumers
    ∷ consumers
    ∷ []

cores_in_order_example :
    let s = run 2 turns (start 2) in
    (left : List BacnetPdu) × (s.sent ≡ s.received ++ left) × (length left ≤ 2)
cores_in_order_example = cores_in_order 2 turns two_slots

abbrev race : List Turn
race =
    producers (pdu 1)
    ∷ producers (pdu 1)
    ∷ producers (pdu 1)
    ∷ producers (pdu 1)
    ∷ producers (pdu 2)
    ∷ producers (pdu 2)
    ∷ consumers
    ∷ consumers
    ∷ []

race_producer : (run 2 race (start 2)).producer ≡ p_loaded (pdu 2) 1 0
unfolding run turn produce consume start new_ring new_pdu
race_producer = refl

race_consumer : (run 2 race (start 2)).consumer ≡ c_loaded 1 0
unfolding run turn produce consume start new_ring new_pdu
race_consumer = refl

cores_no_race_example : 1 % 2 ≢ 0 % 2
cores_no_race_example =
    cores_no_race 2 race (pdu 2) 1 0 1 0 two_slots race_producer refl race_consumer refl

encode_request_lem_example : encode_request {E = DecodeError} (1 ∷ 2 ∷ []) ≡ (
    if leb sntp_packet_len 2
    then ok (0x23 ∷ (replicate 47 0 ++ drop 48 (1 ∷ 2 ∷ [])), sntp_packet_len)
    else ok (1 ∷ 2 ∷ [], 0))
encode_request_lem_example = encode_request_lem (1 ∷ 2 ∷ []) (omega arith)

decode_response-packet_example : decode_response (0x24 ∷ replicate 47 9) ≡ (do
  p ← decode_packet (0x24 ∷ replicate 47 9)
  if not (version_of p.li_vn_mode == 3) && not (version_of p.li_vn_mode == 4)
      then err invalid_version
      else if p.stratum == 0
      then err invalid_data
      else ok p.transmit_ts)
decode_response-packet_example = decode_response-packet (0x24 ∷ replicate 47 9)

abbrev no_time : NtpTimestamp
no_time = record { seconds = 0; fraction = 0 }

abbrev reply : NtpPacket
reply = record {
  li_vn_mode = 0x24;
  stratum = 2;
  poll = 6;
  precision = 0xEC;
  root_delay = 0x1000;
  root_dispersion = 0x200;
  ref_id = 0xC0A8_0101;
  ref_ts = no_time;
  origin_ts = no_time;
  recv_ts = no_time;
  transmit_ts = record { seconds = 3900000000; fraction = 0x8000_0000 };
}

decode_packet-packet_bytes_example : decode_packet (packet_bytes reply (7 ∷ [])) ≡ ok reply
decode_packet-packet_bytes_example =
    decode_packet-packet_bytes reply (7 ∷ []) (omega arith) (omega arith) (omega arith)
      (omega arith, omega arith) (omega arith, omega arith) (omega arith, omega arith)
      (omega arith, omega arith)
