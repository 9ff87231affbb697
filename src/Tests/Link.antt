-- ===== src/Tests/Link.antt =====
-- The BACnet/IP task of firmware/src/bacnet_ip.rs at concrete inputs.
use micro_bacnet_bridge.Base.{ℕ, ◌≡◌, refl, arith, List, [], ◌∷◌, ◌++◌, take, replicate, ok}
use micro_bacnet_bridge.Npdu.{encode_npdu}
use micro_bacnet_bridge.Ipc.{BacnetPdu, new_ring, push}
use micro_bacnet_bridge.BacnetIp.{
  IpEndpoint, broadcast_endpoint, destination, pdu_header, encode_bvlc_pdu, handle_incoming,
}
use micro_bacnet_bridge.BacnetIp.Delivery.{IsPdu, same_delivered, handle_incoming-encode_bvlc_pdu}

-- A Who-Is from address 9 of network 3 to address 5 of network 2.
abbrev who_is_pdu : BacnetPdu
who_is_pdu = record {
  source_net = 3;
  source_mac = 9 ∷ replicate 6 0;
  source_mac_len = 1;
  dest_net = 2;
  dest_mac = 5 ∷ replicate 6 0;
  dest_mac_len = 1;
  pdu_type = 0x10;
  data_len = 2;
  bytes = 0x10 ∷ 0x08 ∷ replicate 499 0;
}

abbrev sender : IpEndpoint
sender = record { octet_0 = 192; octet_1 = 168; octet_2 = 1; octet_3 = 7; port = 47808 }

abbrev sent_datagram : List ℕ
sent_datagram =
    0x81 ∷ 0x0A ∷ 0 ∷ 17 ∷ 0x01 ∷ 0x28 ∷ 0 ∷ 2 ∷ 1 ∷ 5 ∷ 0 ∷ 3 ∷ 1 ∷ 9 ∷ 0xFF ∷ 0x10 ∷ 0x08 ∷ []

who_is_sent : encode_bvlc_pdu who_is_pdu (replicate 20 0) ≡ ok (sent_datagram ++ replicate 3 0, 17)
unfolding encode_bvlc_pdu encode_npdu pdu_header
who_is_sent = refl

who_is_pdu-IsPdu : IsPdu who_is_pdu
who_is_pdu-IsPdu = record {
  dest = record { word = omega arith; whole = refl; counted = omega arith };
  source = record { word = omega arith; whole = refl; counted = omega arith };
  payload = refl;
}

handle_incoming-encode_bvlc_pdu_example :
    handle_incoming 4 (take 17 (sent_datagram ++ replicate 3 0)) sender (new_ring 4)
    ≡ ok (push 4 (same_delivered sender who_is_pdu) (new_ring 4)).0
handle_incoming-encode_bvlc_pdu_example =
    handle_incoming-encode_bvlc_pdu 4 who_is_pdu sender (new_ring 4) (replicate 20 0)
      who_is_pdu-IsPdu (λ none. absurd (omega arith)) (λ none. absurd (omega arith)) (omega arith)
      who_is_sent

-- A remote broadcast loses its network: it is sent as a broadcast on the local network.
remote_broadcast :
    encode_bvlc_pdu (record who_is_pdu { dest_mac_len = 0; source_mac_len = 0 }) (replicate 8 0)
    ≡ ok (0x81 ∷ 0x0B ∷ 0 ∷ 8 ∷ 0x01 ∷ 0 ∷ 0x10 ∷ 0x08 ∷ [], 8)
unfolding encode_bvlc_pdu encode_npdu pdu_header
remote_broadcast = refl

short_address : destination who_is_pdu ≡ broadcast_endpoint
unfolding destination
short_address = refl
