-- ===== src/BacnetIp.antt =====
-- firmware/src/bacnet_ip.rs: the packets of BACnet/IP, between the UDP socket and the two rings.
pub mod Wire
pub mod Delivery
use micro_bacnet_bridge.Base.{ℕ, ◌+◌, ◌*◌, ◌/◌, ◌%◌, ◌^◌, min, bit_or, List, [], ◌∷◌, ◌++◌, length}
use micro_bacnet_bridge.Base.{
  true, false, not, ◌&&◌, ◌==◌, take, drop, ltb, leb, if◌then◌else◌, get_or, Result, ok, err, panic,
  stuck, ◌>>=◌,
}
use micro_bacnet_bridge.Error.{EncodeError, DecodeError}
use micro_bacnet_bridge.Slice.{byte_at, slice, slice_from, store}
use micro_bacnet_bridge.Npdu.{NpduHeader, local, encode_npdu, decode_npdu}
use micro_bacnet_bridge.Ipc.{BacnetPdu, RingBuffer, new_pdu, pdu_max_data, push}

abbrev pub bacnet_ip_port : ℕ
bacnet_ip_port = 47808

-- `BVLC_TYPE`, `BVLC_ORIGINAL_UNICAST` and `BVLC_ORIGINAL_BROADCAST`
abbrev pub ip_type : ℕ
ip_type = 0x81

abbrev pub ip_unicast : ℕ
ip_unicast = 0x0A

abbrev pub ip_broadcast : ℕ
ip_broadcast = 0x0B

-- An IPv4 address and a port, as `IpEndpoint` of embassy_net, which is compiled for IPv4 alone.
pub record IpEndpoint : Type 0 where
  pub octet_0 : ℕ
  pub octet_1 : ℕ
  pub octet_2 : ℕ
  pub octet_3 : ℕ
  pub port : ℕ

abbrev pub broadcast_endpoint : IpEndpoint
broadcast_endpoint = record {
  octet_0 = 255;
  octet_1 = 255;
  octet_2 = 255;
  octet_3 = 255;
  port = bacnet_ip_port;
}

-- `dst[..n].copy_from_slice(&src[..n])`
unfoldable copy_front {κ} : {E : Type κ} → List ℕ → ℕ → List ℕ → Result E (List ℕ)
copy_front dst n src =
    if leb n (length dst) && leb n (length src) then ok (take n src ++ drop n dst) else panic

-- Where a PDU is sent: an address of six or more bytes is an IPv4 address and a port.
unfoldable pub destination : BacnetPdu → IpEndpoint
destination pdu =
    let mac : ℕ → ℕ = λ i. get_or pdu.dest_mac i 0 in
    if pdu.dest_mac_len == 0
    then broadcast_endpoint
    else if leb 6 pdu.dest_mac_len
    then record {
      octet_0 = mac 0;
      octet_1 = mac 1;
      octet_2 = mac 2;
      octet_3 = mac 3;
      port = bit_or (mac 4 * 2 ^ 8 % 2 ^ 16) (mac 5);
    }
    else broadcast_endpoint

-- The address of the sender in the seven bytes of a new PDU.
abbrev pub sender_mac : IpEndpoint → List ℕ
sender_mac remote =
    remote.octet_0
    ∷ remote.octet_1
    ∷ remote.octet_2
    ∷ remote.octet_3
    ∷ remote.port / 2 ^ 8 % 256
    ∷ remote.port % 256
    ∷ 0
    ∷ []

-- The PDU for a decoded header and an APDU of at most `pdu_max_data` bytes.
unfoldable pub incoming_pdu : IpEndpoint → NpduHeader → List ℕ → Result DecodeError BacnetPdu
unfolding copy_front
incoming_pdu remote h apdu =
    let data_len = min (length apdu) pdu_max_data in
    do
      mac ←
          (if h.dest_present
            then copy_front new_pdu.dest_mac h.dest_mac_len h.dest_mac
            else ok new_pdu.dest_mac)
      bytes ← copy_front new_pdu.bytes data_len apdu
      ok (record {
        source_net = h.src_net;
        source_mac = sender_mac remote;
        source_mac_len = 6;
        dest_net = h.dest_net;
        dest_mac = mac;
        dest_mac_len = if h.dest_present then h.dest_mac_len else 0;
        pdu_type = elim apdu [ [] ↦ 0xFF | b ∷ bs ↦ b ];
        data_len = data_len;
        bytes = bytes;
      })

-- What the NPDU of a packet does to the ring of `n` slots; one that is not decoded does nothing.
unfoldable pub incoming_npdu : ℕ → List ℕ → IpEndpoint → RingBuffer → Result DecodeError RingBuffer
unfolding incoming_pdu
incoming_npdu n npdu remote r = elim (decode_npdu npdu) [
  | panic ↦ panic
  | stuck ↦ stuck
  | err e ↦ ok r
  | ok (h, apdu) ↦
      if ltb pdu_max_data (length apdu)
      then ok r
      else (do pdu ← incoming_pdu remote h apdu; ok (push n pdu r).0)
]

-- The ring of `n` slots behind a datagram. Every early return leaves it as it is.
unfoldable pub handle_incoming :
    ℕ → List ℕ → IpEndpoint → RingBuffer → Result DecodeError RingBuffer
unfolding incoming_npdu byte_at slice_from
handle_incoming n packet remote r = if ltb (length packet) 6 then ok r else (do
  kind ← byte_at packet 0
  function ← byte_at packet 1
  hi ← byte_at packet 2
  lo ← byte_at packet 3
  let total = bit_or (hi * 2 ^ 8 % 2 ^ 16) lo
  if not (kind == ip_type)
      then ok r
      else if not (total == length packet)
      then ok r
      else if not (function == ip_unicast) && not (function == ip_broadcast)
      then ok r
      else (do npdu ← slice_from packet 4; incoming_npdu n npdu remote r))

-- The destination and the source of a PDU in a header.
with_dest : ℕ → List ℕ → ℕ → NpduHeader → NpduHeader
with_dest net mac len h =
    if ltb 0 len
    then record h {
      dest_net = net;
      dest_present = true;
      dest_mac_len = len;
      dest_mac = mac;
      hop_count = 0xFF;
    }
    else record h { dest_net = net }

with_source : ℕ → List ℕ → ℕ → NpduHeader → NpduHeader
with_source net mac len h =
    if ltb 0 len
    then record h { src_net = net; src_present = true; src_mac_len = len; src_mac = mac }
    else record h { src_net = net }

unfoldable pub pdu_header : BacnetPdu → NpduHeader
unfolding with_dest with_source local
pdu_header pdu =
    with_source pdu.source_net pdu.source_mac pdu.source_mac_len
      (with_dest pdu.dest_net pdu.dest_mac pdu.dest_mac_len (local false))

-- The buffer and the number of bytes written; `err tt` is the `None` of the source.
unfoldable pub encode_bvlc_pdu : BacnetPdu → List ℕ → Result (Unit {0}) (List ℕ × ℕ)
unfolding slice store
encode_bvlc_pdu pdu buf = if ltb (length buf) 4 then err tt else (do
  apdu ← slice pdu.bytes 0 (min pdu.data_len pdu_max_data)
  elim (encode_npdu (pdu_header pdu) apdu (drop 4 buf)) [
    | panic ↦ panic
    | stuck ↦ stuck
    | err e ↦ err tt
    | ok (tail, npdu_len) ↦
        let total = 4 + npdu_len in
        let function = if pdu.dest_mac_len == 0 then ip_broadcast else ip_unicast in
        store (take 4 buf ++ tail) 0 (ip_type ∷ function ∷ total / 2 ^ 8 % 256 ∷ total % 256 ∷ [])
        >>= λ buf'. ok (buf', total)
  ])
