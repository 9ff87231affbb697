-- ===== src/BacnetIp/Delivery.antt =====
-- A PDU that one bridge sends by firmware/src/bacnet_ip.rs is put on the ring of the bridge that
-- receives it.
use micro_bacnet_bridge.Base.{
  ℕ, ◌+◌, ◌-◌, ◌*◌, ◌/◌, ◌%◌, ◌^◌, ◌≤◌, ◌<◌, ◌≡◌, ◌⊎◌, refl, sym, ap, ◌∙◌, arith,
}
use micro_bacnet_bridge.Base.{
  List, [], ◌∷◌, ◌++◌, length, length-append, length-take, length-drop, length-replicate,
}
use micro_bacnet_bridge.Base.{
  true, false, take, drop, take-append, drop-append, replicate, min, ltb, leb,
}
use micro_bacnet_bridge.Base.{
  not, ◌&&◌, Bool-cases, inl, inr, ltb→lt, le→leb, lt→leb_false, le→ltb_false, ◌==◌, bit_or,
  if◌then◌else◌, Result, ok, err, ◌>>=◌,
}
use micro_bacnet_bridge.Base.Bits.{or_byte}
use micro_bacnet_bridge.Error.{DecodeError, buffer_too_small}
use micro_bacnet_bridge.Slice.{IsSlice, slice, slice_from, store}
use micro_bacnet_bridge.Slice.Writing.{store-append}
use micro_bacnet_bridge.Npdu.{NpduHeader, npdu_bytes, needed, encode_npdu, decode_npdu}
use micro_bacnet_bridge.Npdu.RoundTrip.{needed_lem, encode_npdu_lem, decode_npdu-bytes}
use micro_bacnet_bridge.Ipc.{BacnetPdu, RingBuffer, new_pdu, pdu_max_data, push}
use micro_bacnet_bridge.BacnetIp.{
  IpEndpoint, ip_type, ip_unicast, ip_broadcast, sender_mac, pdu_header, encode_bvlc_pdu,
  incoming_pdu, incoming_npdu, handle_incoming,
}
use micro_bacnet_bridge.BacnetIp.Wire.{
  IsMac, padded, wire_net, wire_header, wire_header-IsNpduHeader, pdu_header-dest,
  pdu_header-source, npdu_bytes-pdu_header, length-padded, copy_mac, or_zero, copy_payload,
}

-- What the bridge's PDUs are: arrays of seven and of 501 bytes, and networks of 16 bits.
pub record IsPdu (pdu : BacnetPdu) : Type 0 where
  pub dest : IsMac pdu.dest_net pdu.dest_mac pdu.dest_mac_len
  pub source : IsMac pdu.source_net pdu.source_mac pdu.source_mac_len
  pub payload : length pdu.bytes ≡ pdu_max_data

abbrev pub apdu_of : BacnetPdu → List ℕ
apdu_of pdu = take (min pdu.data_len pdu_max_data) pdu.bytes

abbrev npdu_of : BacnetPdu → List ℕ
npdu_of pdu = npdu_bytes (wire_header pdu) (apdu_of pdu)

abbrev ip_header_function : BacnetPdu → ℕ
ip_header_function pdu = if pdu.dest_mac_len == 0 then ip_broadcast else ip_unicast

abbrev ip_header : BacnetPdu → ℕ → List ℕ
ip_header pdu total = ip_type ∷ ip_header_function pdu ∷ total / 2 ^ 8 % 256 ∷ total % 256 ∷ []

abbrev datagram : BacnetPdu → List ℕ
datagram pdu = ip_header pdu (4 + length (npdu_of pdu)) ++ npdu_of pdu

-- The PDU on the ring of the bridge that gets the datagram from `remote`. A network without an
-- address is lost.
abbrev pub delivered : IpEndpoint → BacnetPdu → BacnetPdu
delivered remote pdu = record {
  source_net = wire_net pdu.source_mac_len pdu.source_net;
  source_mac = sender_mac remote;
  source_mac_len = 6;
  dest_net = wire_net pdu.dest_mac_len pdu.dest_net;
  dest_mac = padded pdu.dest_mac_len pdu.dest_mac;
  dest_mac_len = pdu.dest_mac_len;
  pdu_type = elim (apdu_of pdu) [ [] ↦ 0xFF | b ∷ bs ↦ b ];
  data_len = min pdu.data_len pdu_max_data;
  bytes = apdu_of pdu ++ drop (min pdu.data_len pdu_max_data) (replicate pdu_max_data 0);
}

encode_npdu-pdu_header :
    (pdu : BacnetPdu) (buf : List ℕ)
    → IsPdu pdu
    → IsSlice buf
    → encode_npdu (pdu_header pdu) (apdu_of pdu) buf ≡ (
        if leb (length (npdu_of pdu)) (length buf)
        then ok (npdu_of pdu ++ drop (length (npdu_of pdu)) buf, length (npdu_of pdu))
        else err buffer_too_small)
encode_npdu-pdu_header pdu buf p h =
    let (dest, dest_small) = pdu_header-dest pdu p.dest in
    let (source, source_small) = pdu_header-source pdu p.source in
    let e = encode_npdu_lem (pdu_header pdu) (apdu_of pdu) buf dest source h in
    rw (e, dest_small, source_small, npdu_bytes-pdu_header pdu (apdu_of pdu) p.dest p.source) refl

take-apdu : (pdu : BacnetPdu) → IsPdu pdu → length (apdu_of pdu) ≡ min pdu.data_len pdu_max_data
take-apdu pdu p = omega (arith, p.payload, length-take (min pdu.data_len pdu_max_data) pdu.bytes)

apdu_slice :
    (pdu : BacnetPdu)
    → IsPdu pdu
    → slice {E = Unit {0}} pdu.bytes 0 (min pdu.data_len pdu_max_data) ≡ ok (apdu_of pdu)
unfolding slice
apdu_slice pdu p = ground (arith, p.payload)

behind_header :
    (pdu : BacnetPdu) (n : ℕ) (buf tail : List ℕ)
    → IsSlice (take 4 buf ++ tail)
    → 4 ≤ length buf
    → store {E = Unit {0}} (take 4 buf ++ tail) 0 (ip_header pdu n) ≡ ok (ip_header pdu n ++ tail)
behind_header pdu n buf tail h fits =
    let four : length (take 4 buf) ≡ 4 = omega (arith, length-take 4 buf) in
    let long : 4 ≤ length (take 4 buf ++ tail) =
      omega (arith, four, length-append (take 4 buf) tail) in
    let rest : drop 4 (take 4 buf ++ tail) ≡ tail =
      ap (λ (k : ℕ). drop k (take 4 buf ++ tail)) (sym four) ∙ drop-append (take 4 buf) tail in
    store-append {E = Unit {0}} (ip_header pdu n) [] (take 4 buf ++ tail) h long
    ∙ ap (λ (t : List ℕ). ok (ip_header pdu n ++ t)) rest

-- The datagram is written over the start of a buffer that holds it; no index is out of bounds.
pub encode_bvlc_pdu_lem :
    (pdu : BacnetPdu) (buf : List ℕ)
    → IsPdu pdu
    → IsSlice buf
    → 4 + length (npdu_of pdu) ≤ length buf
    → encode_bvlc_pdu pdu buf
      ≡ ok (datagram pdu ++ drop (length (npdu_of pdu)) (drop 4 buf), 4 + length (npdu_of pdu))
unfolding encode_bvlc_pdu
encode_bvlc_pdu_lem pdu buf p h fits =
    let n = length (npdu_of pdu) in
    let room : length (drop 4 buf) ≡ length buf - 4 = length-drop 4 buf in
    let tail = npdu_of pdu ++ drop n (drop 4 buf) in
    let size : length (take 4 buf ++ tail) ≡ length buf = omega (
      arith,
      room,
      length-take 4 buf,
      length-append (take 4 buf) tail,
      length-append (npdu_of pdu) (drop n (drop 4 buf)),
      length-drop n (drop 4 buf),
    ) in
    let written : encode_npdu (pdu_header pdu) (apdu_of pdu) (drop 4 buf) ≡ ok (tail, n) =
      encode_npdu-pdu_header pdu (drop 4 buf) p (omega (arith, room))
      ∙ rw (le→leb n (length (drop 4 buf)) (omega (arith, room))) refl in
    rw
      (
        le→ltb_false (length buf) 4 (omega arith),
        apdu_slice pdu p,
        ◌>>=◌,
        written,
        behind_header pdu (4 + n) buf tail (omega (arith, size)) (omega arith),
      )
      refl

-- A buffer that is shorter than the datagram is refused.
pub encode_bvlc_pdu_short :
    (pdu : BacnetPdu) (buf : List ℕ)
    → IsPdu pdu
    → IsSlice buf
    → length buf < 4 + length (npdu_of pdu)
    → encode_bvlc_pdu pdu buf ≡ err tt
unfolding encode_bvlc_pdu
encode_bvlc_pdu_short pdu buf p h short = elim (Bool-cases (ltb (length buf) 4)) [
  | inl tiny ↦ rw (tiny) refl
  | inr four ↦
      let n = length (npdu_of pdu) in
      let room : length (drop 4 buf) ≡ length buf - 4 = length-drop 4 buf in
      let refused : encode_npdu (pdu_header pdu) (apdu_of pdu) (drop 4 buf) ≡ err buffer_too_small =
        encode_npdu-pdu_header pdu (drop 4 buf) p (omega (arith, room))
        ∙ rw (lt→leb_false n (length (drop 4 buf)) (ground (arith, room, four))) refl in
      rw (four, apdu_slice pdu p, ◌>>=◌, refused) refl
]

small_npdu :
    (pdu : BacnetPdu)
    → IsPdu pdu
    → (2 ≤ length (npdu_of pdu)) × (length (npdu_of pdu) ≤ 2 + 10 + 10 + 1 + pdu_max_data)
unfolding needed
small_npdu pdu p =
    let d = p.dest in
    let s = p.source in
    let padded_dest = length-padded pdu.dest_mac_len pdu.dest_mac d.whole d.counted in
    let padded_source = length-padded pdu.source_mac_len pdu.source_mac s.whole s.counted in
    let e =
      needed_lem (wire_header pdu) (apdu_of pdu) (padded_dest, λ q. d.counted)
        (padded_source, λ q. s.counted) in
    ground (arith, e, take-apdu pdu p)

total_bytes : (n : ℕ) → n < 2 ^ 16 → bit_or (n / 2 ^ 8 % 256 * 2 ^ 8 % 2 ^ 16) (n % 256) ≡ n
total_bytes n h =
    rw (or_byte (2 ^ 16) (n / 2 ^ 8 % 256) (n % 256) (omega arith) (omega arith)) (omega arith)

-- What is behind the header of an original packet is taken for an NPDU.
handle_incoming-original :
    (c f hi lo : ℕ) (npdu : List ℕ) (remote : IpEndpoint) (r : RingBuffer)
    → (f ≡ ip_unicast) ⊎ (f ≡ ip_broadcast)
    → bit_or (hi * 2 ^ 8 % 2 ^ 16) lo ≡ 4 + length npdu
    → 2 ≤ length npdu
    → handle_incoming c (ip_type ∷ f ∷ hi ∷ lo ∷ npdu) remote r ≡ incoming_npdu c npdu remote r
unfolding handle_incoming
handle_incoming-original c f hi lo npdu remote r kind e h =
    let packet = ip_type ∷ f ∷ hi ∷ lo ∷ npdu in
    let same : (4 + length npdu == length packet) ≡ true = ground arith in
    let original : (not (f == ip_unicast) && not (f == ip_broadcast)) ≡ false =
      ground (arith, kind) in
    let behind : slice_from {E = DecodeError} packet 4 ≡ ok npdu =
      rw (le→leb 4 (length packet) (omega arith)) refl in
    rw (le→ltb_false (length packet) 6 (omega (arith, h)), e, same, original, behind, ◌>>=◌) refl

-- The PDU that is made of the decoded header and the APDU.
incoming_pdu-wire_header :
    (pdu : BacnetPdu) (remote : IpEndpoint)
    → IsPdu pdu
    → incoming_pdu remote (wire_header pdu) (apdu_of pdu) ≡ ok (delivered remote pdu)
unfolding incoming_pdu new_pdu
incoming_pdu-wire_header pdu remote p =
    let d = p.dest in
    let k = min pdu.data_len pdu_max_data in
    let size : length (apdu_of pdu) ≡ k = take-apdu pdu p in
    let same : min (length (apdu_of pdu)) pdu_max_data ≡ k = omega (arith, size) in
    let mac = copy_mac pdu.dest_mac_len pdu.dest_mac d.whole d.counted in
    let bytes =
      copy_payload (apdu_of pdu) k (replicate pdu_max_data 0) size
        (omega (arith, length-replicate {A = ℕ} pdu_max_data 0)) in
    rw (mac, same, ◌>>=◌, bytes, or_zero pdu.dest_mac_len) refl

incoming_npdu-decoded :
    (c : ℕ) (npdu : List ℕ) (remote : IpEndpoint) (r : RingBuffer) {h : NpduHeader} {apdu : List ℕ}
    {pdu : BacnetPdu}
    → decode_npdu npdu ≡ ok (h, apdu)
    → length apdu ≤ pdu_max_data
    → incoming_pdu remote h apdu ≡ ok pdu
    → incoming_npdu c npdu remote r ≡ ok (push c pdu r).0
unfolding incoming_npdu
incoming_npdu-decoded c npdu remote r {apdu} decoded small made =
    rw (incoming_npdu, decoded, le→ltb_false pdu_max_data (length apdu) small, made) refl

-- A datagram puts its PDU on the ring, as `push` does.
handle_incoming-datagram :
    (c : ℕ) (pdu : BacnetPdu) (remote : IpEndpoint) (r : RingBuffer)
    → IsPdu pdu
    → handle_incoming c (datagram pdu) remote r ≡ ok (push c (delivered remote pdu) r).0
handle_incoming-datagram c pdu remote r p =
    let (lower, upper) = small_npdu pdu p in
    let n = 4 + length (npdu_of pdu) in
    let kind : ((ip_header_function pdu) ≡ ip_unicast) ⊎ ((ip_header_function pdu) ≡ ip_broadcast) =
      elim (Bool-cases (pdu.dest_mac_len == 0)) [
        | inl b ↦ inr (rw (b) refl)
        | inr u ↦ inl (rw (u) refl)
      ] in
    let decoded : decode_npdu (npdu_of pdu) ≡ ok (wire_header pdu, apdu_of pdu) =
      decode_npdu-bytes (wire_header pdu) (apdu_of pdu)
        (wire_header-IsNpduHeader pdu p.dest p.source) (omega (arith, upper)) in
    handle_incoming-original c (ip_header_function pdu) (n / 2 ^ 8 % 256) (n % 256) (npdu_of pdu)
      remote r kind (total_bytes n (omega (arith, upper))) lower
    ∙ incoming_npdu-decoded c (npdu_of pdu) remote r decoded (omega (arith, take-apdu pdu p))
        (incoming_pdu-wire_header pdu remote p)

taken :
    (bs rest : List ℕ) (m : ℕ) {out : Result (Unit {0}) (List ℕ × ℕ)} {buf' : List ℕ} {n : ℕ}
    → length bs ≡ m
    → out ≡ ok (bs ++ rest, m)
    → out ≡ ok (buf', n)
    → take n buf' ≡ bs
taken bs rest m size written e = ground (arith, size, written, e, take-append bs rest)

-- What is written of a PDU, delivered.
handle_incoming-wire :
    (c : ℕ) (pdu : BacnetPdu) (remote : IpEndpoint) (r : RingBuffer) (buf : List ℕ) {buf' : List ℕ}
    {n : ℕ}
    → IsPdu pdu
    → IsSlice buf
    → encode_bvlc_pdu pdu buf ≡ ok (buf', n)
    → handle_incoming c (take n buf') remote r ≡ ok (push c (delivered remote pdu) r).0
handle_incoming-wire c pdu remote r buf {buf'} {n} p h e =
    let total = 4 + length (npdu_of pdu) in
    let rest = drop (length (npdu_of pdu)) (drop 4 buf) in
    elim (Bool-cases (ltb (length buf) total)) [
      | inl short ↦
          ground (arith, e, encode_bvlc_pdu_short pdu buf p h (ltb→lt (length buf) total short))
      | inr fits ↦
          let written = encode_bvlc_pdu_lem pdu buf p h (ground (arith, fits)) in
          let whole : take n buf' ≡ datagram pdu =
            taken (datagram pdu) rest total (omega arith) written e in
          rw (whole) (handle_incoming-datagram c pdu remote r p)
    ]

wire_net-kept : (len net : ℕ) → (len ≡ 0 → net ≡ 0) → wire_net len net ≡ net
wire_net-kept len net h = ground (arith, h)

-- A PDU as it was, with the address of the sender.
abbrev pub same_delivered : IpEndpoint → BacnetPdu → BacnetPdu
same_delivered remote pdu = record (delivered remote pdu) {
  source_net = pdu.source_net;
  dest_net = pdu.dest_net;
}

-- Of a PDU whose networks are 0 where they have no address, what one bridge sends is pushed by
-- another bridge on its ring with the same destination network and address, the same source network
-- and the same payload of at most 501 bytes, whose length and type are those of the payload; the
-- source address is that of the datagram, and behind an address there are zeros. Addresses are arrays
-- of seven bytes, and the buffer has fewer than 2 ^ 31. A full ring is left as it is.
pub handle_incoming-encode_bvlc_pdu :
    (c : ℕ) (pdu : BacnetPdu) (remote : IpEndpoint) (r : RingBuffer) (buf : List ℕ) {buf' : List ℕ}
    {n : ℕ}
    → IsPdu pdu
    → (pdu.dest_mac_len ≡ 0 → pdu.dest_net ≡ 0)
    → (pdu.source_mac_len ≡ 0 → pdu.source_net ≡ 0)
    → IsSlice buf
    → encode_bvlc_pdu pdu buf ≡ ok (buf', n)
    → handle_incoming c (take n buf') remote r ≡ ok (push c (same_delivered remote pdu) r).0
handle_incoming-encode_bvlc_pdu c pdu remote r buf p d s h e =
    let dest = wire_net-kept pdu.dest_mac_len pdu.dest_net d in
    let source = wire_net-kept pdu.source_mac_len pdu.source_net s in
    rw (← dest, ← source) (handle_incoming-wire c pdu remote r buf p h e)
