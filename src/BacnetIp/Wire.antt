-- ===== src/BacnetIp/Wire.antt =====
-- The header that firmware/src/bacnet_ip.rs makes of a PDU, and what of it is on the wire.
use micro_bacnet_bridge.Base.{ℕ, zero, suc, ◌^◌, ◌≤◌, ◌<◌, ◌≡◌, refl, sym, ap, ◌∙◌, arith}
use micro_bacnet_bridge.Base.{List, ◌++◌, length, length-append, length-take, length-drop}
use micro_bacnet_bridge.Base.{
  true, false, take, drop, take-append, take-length, leb, le→leb, ltb, lt→ltb, le→ltb_false,
  Bool-cases, inl, inr, ◌&&◌, if◌then◌else◌, ok,
}
use micro_bacnet_bridge.Error.{DecodeError}
use micro_bacnet_bridge.Npdu.{NpduHeader, max_mac_len, no_mac, npdu_version, npdu_bytes}
use micro_bacnet_bridge.Npdu.Fields.{IsSpecifier, IsHops}
use micro_bacnet_bridge.Npdu.RoundTrip.{IsNpduHeader}
use micro_bacnet_bridge.Ipc.{BacnetPdu}
use micro_bacnet_bridge.BacnetIp.{copy_front, pdu_header}

-- The bytes of an address that count, with zeros behind them.
abbrev pub padded : ℕ → List ℕ → List ℕ
padded len mac = take len mac ++ drop len no_mac

-- A network without an address is not written.
abbrev pub wire_net : ℕ → ℕ → ℕ
wire_net len net = if ltb 0 len then net else 0

-- The header that is read from what is written for `pdu`.
abbrev pub wire_header : BacnetPdu → NpduHeader
wire_header pdu = record {
  version = npdu_version;
  is_network_layer_msg = false;
  dest_present = ltb 0 pdu.dest_mac_len;
  dest_net = wire_net pdu.dest_mac_len pdu.dest_net;
  dest_mac = padded pdu.dest_mac_len pdu.dest_mac;
  dest_mac_len = pdu.dest_mac_len;
  src_present = ltb 0 pdu.source_mac_len;
  src_net = wire_net pdu.source_mac_len pdu.source_net;
  src_mac = padded pdu.source_mac_len pdu.source_mac;
  src_mac_len = pdu.source_mac_len;
  hop_count = if ltb 0 pdu.dest_mac_len then 0xFF else 0;
  expecting_reply = false;
  priority = 0;
}

-- The array of an address has seven bytes, and a length counts at most those.
pub record IsMac (net : ℕ) (mac : List ℕ) (len : ℕ) : Type 0 where
  pub word : net < 2 ^ 16
  pub whole : length mac ≡ max_mac_len
  pub counted : len ≤ max_mac_len

take-padded :
    (len : ℕ) (mac : List ℕ)
    → length mac ≡ max_mac_len
    → len ≤ max_mac_len
    → take len (padded len mac) ≡ take len mac
take-padded len mac e h =
    let n : length (take len mac) ≡ len = omega (arith, length-take len mac) in
    ap (λ (k : ℕ). take k (padded len mac)) (sym n) ∙ take-append (take len mac) (drop len no_mac)

pub length-padded :
    (len : ℕ) (mac : List ℕ)
    → length mac ≡ max_mac_len
    → len ≤ max_mac_len
    → length (padded len mac) ≡ max_mac_len
length-padded len mac e h = omega (
  arith,
  e,
  length-append (take len mac) (drop len no_mac),
  length-take len mac,
  length-drop len no_mac,
)

ltb-suc : (n : ℕ) → ltb 0 (suc n) ≡ true
ltb-suc n = lt→ltb 0 (suc n) (omega arith)

wire-IsSpecifier :
    (net : ℕ) (mac : List ℕ) (len : ℕ)
    → IsMac net mac len
    → IsSpecifier (ltb 0 len) (wire_net len net) (padded len mac) len
wire-IsSpecifier net mac zero m = (refl, refl, refl)
wire-IsSpecifier net mac (suc n) m = rw (ltb-suc n) (
  m.word,
  m.counted,
  length-padded (suc n) mac m.whole m.counted,
  ap (λ (t : List ℕ). t ++ drop (suc n) no_mac) (sym (take-padded (suc n) mac m.whole m.counted)),
)

wire-IsHops : (len : ℕ) → IsHops (ltb 0 len) (if ltb 0 len then 0xFF else 0)
wire-IsHops zero = refl
wire-IsHops (suc n) = rw (ltb-suc n) (omega arith)

pub wire_header-IsNpduHeader :
    (pdu : BacnetPdu)
    → IsMac pdu.dest_net pdu.dest_mac pdu.dest_mac_len
    → IsMac pdu.source_net pdu.source_mac pdu.source_mac_len
    → IsNpduHeader (wire_header pdu)
wire_header-IsNpduHeader pdu d s = record {
  version = refl;
  priority = omega arith;
  dest = wire-IsSpecifier pdu.dest_net pdu.dest_mac pdu.dest_mac_len d;
  src = wire-IsSpecifier pdu.source_net pdu.source_mac pdu.source_mac_len s;
  hops = wire-IsHops pdu.dest_mac_len;
}

pub pdu_header-dest :
    (pdu : BacnetPdu)
    → IsMac pdu.dest_net pdu.dest_mac pdu.dest_mac_len
    → (length (pdu_header pdu).dest_mac ≡ max_mac_len)
      × (((pdu_header pdu).dest_present && ltb max_mac_len (pdu_header pdu).dest_mac_len) ≡ false)
unfolding pdu_header
pdu_header-dest pdu m =
    let small : ltb max_mac_len pdu.dest_mac_len ≡ false = le→ltb_false _ _ m.counted in
    elim (Bool-cases (ltb 0 pdu.dest_mac_len)) [
      | inl d ↦ elim (Bool-cases (ltb 0 pdu.source_mac_len)) [
        | inl s ↦ rw (d, s, small) (m.whole, refl)
        | inr s ↦ rw (d, s, small) (m.whole, refl)
      ]
      | inr d ↦ elim (Bool-cases (ltb 0 pdu.source_mac_len)) [
        | inl s ↦ rw (d, s) (refl, refl)
        | inr s ↦ rw (d, s) (refl, refl)
      ]
    ]

pub pdu_header-source :
    (pdu : BacnetPdu)
    → IsMac pdu.source_net pdu.source_mac pdu.source_mac_len
    → (length (pdu_header pdu).src_mac ≡ max_mac_len)
      × (((pdu_header pdu).src_present && ltb max_mac_len (pdu_header pdu).src_mac_len) ≡ false)
unfolding pdu_header
pdu_header-source pdu m =
    let small : ltb max_mac_len pdu.source_mac_len ≡ false = le→ltb_false _ _ m.counted in
    elim (Bool-cases (ltb 0 pdu.dest_mac_len)) [
      | inl d ↦ elim (Bool-cases (ltb 0 pdu.source_mac_len)) [
        | inl s ↦ rw (d, s, small) (m.whole, refl)
        | inr s ↦ rw (d, s) (refl, refl)
      ]
      | inr d ↦ elim (Bool-cases (ltb 0 pdu.source_mac_len)) [
        | inl s ↦ rw (d, s, small) (m.whole, refl)
        | inr s ↦ rw (d, s) (refl, refl)
      ]
    ]

-- Of a PDU, the network of an absent address and the bytes behind an address are not written.
pub npdu_bytes-pdu_header :
    (pdu : BacnetPdu) (apdu : List ℕ)
    → IsMac pdu.dest_net pdu.dest_mac pdu.dest_mac_len
    → IsMac pdu.source_net pdu.source_mac pdu.source_mac_len
    → npdu_bytes (pdu_header pdu) apdu ≡ npdu_bytes (wire_header pdu) apdu
unfolding pdu_header npdu_bytes
npdu_bytes-pdu_header pdu apdu md ms =
    let dest = take-padded pdu.dest_mac_len pdu.dest_mac md.whole md.counted in
    let source = take-padded pdu.source_mac_len pdu.source_mac ms.whole ms.counted in
    elim (Bool-cases (ltb 0 pdu.dest_mac_len)) [
      | inl d ↦ elim (Bool-cases (ltb 0 pdu.source_mac_len)) [
        | inl s ↦ rw (d, s, dest, source) refl
        | inr s ↦ rw (d, s, dest) refl
      ]
      | inr d ↦ elim (Bool-cases (ltb 0 pdu.source_mac_len)) [
        | inl s ↦ rw (d, s, source) refl
        | inr s ↦ rw (d, s) refl
      ]
    ]

-- The copy of a written address into a new PDU.
pub copy_mac :
    (len : ℕ) (mac : List ℕ)
    → length mac ≡ max_mac_len
    → len ≤ max_mac_len
    → (if ltb 0 len then copy_front {E = DecodeError} no_mac len (padded len mac) else ok no_mac)
      ≡ ok (padded len mac)
unfolding copy_front
copy_mac zero mac e h = refl
copy_mac (suc n) mac e h =
    let len = suc n in
    let size = length-padded len mac e h in
    let fits : leb len (length (padded len mac)) ≡ true = le→leb _ _ (omega (arith, size)) in
    rw (ltb-suc n, le→leb len (length no_mac) h, fits, take-padded len mac e h) refl

pub or_zero : (len : ℕ) → (if ltb 0 len then len else 0) ≡ len
or_zero zero = refl
or_zero (suc n) = rw (ltb-suc n) refl

pub copy_payload :
    (apdu : List ℕ) (n : ℕ) (zeros : List ℕ)
    → length apdu ≡ n
    → n ≤ length zeros
    → copy_front {E = DecodeError} zeros n apdu ≡ ok (apdu ++ drop n zeros)
unfolding copy_front
copy_payload apdu n zeros e h =
    let whole : take n apdu ≡ apdu = ap (λ (k : ℕ). take k apdu) (sym e) ∙ take-length apdu in
    rw (le→leb n (length zeros) h, le→leb n (length apdu) (omega arith), whole) refl
