-- ===== src/Ntp/Laws.antt =====
-- What bridge-core/src/ntp.rs promises: packets are read whole, and the two decoders agree.
use micro_bacnet_bridge.Base.{
  ℕ, zero, suc, ◌+◌, ◌*◌, ◌/◌, ◌%◌, ◌^◌, ◌≤◌, ◌<◌, ◌≡◌, refl, ◌∙◌, arith,
}
use micro_bacnet_bridge.Base.{bit_or, List, [], ◌∷◌, ◌++◌, length, get_or}
use micro_bacnet_bridge.Base.{
  drop, replicate, not, ◌&&◌, ltb, leb, le→ltb_false, Bool-cases, inl, inr, ◌==◌, if◌then◌else◌, ok,
  err, ◌>>=◌,
}
use micro_bacnet_bridge.Base.Bits.{or_four}
use micro_bacnet_bridge.Error.{DecodeError, invalid_version, invalid_data}
use micro_bacnet_bridge.Slice.{IsSlice, byte_at}
use micro_bacnet_bridge.Slice.Writing.{store-append}
use micro_bacnet_bridge.Ntp.{
  sntp_packet_len, NtpTimestamp, NtpPacket, encode_request, read_u32, read_ntp_timestamp,
  version_of, decode_response, decode_packet,
}

-- The bytes of a `u32`, and of a packet, in network order.
abbrev pub u32_bytes : ℕ → List ℕ
u32_bytes v = v / 2 ^ 24 % 256 ∷ v / 2 ^ 16 % 256 ∷ v / 2 ^ 8 % 256 ∷ v % 256 ∷ []

abbrev pub timestamp_bytes : NtpTimestamp → List ℕ
timestamp_bytes t = u32_bytes t.seconds ++ u32_bytes t.fraction

abbrev pub packet_bytes : NtpPacket → List ℕ → List ℕ
packet_bytes p more =
    p.li_vn_mode
    ∷ p.stratum
    ∷ p.poll
    ∷ p.precision
    ∷ (u32_bytes p.root_delay
        ++ (u32_bytes p.root_dispersion
            ++ (u32_bytes p.ref_id
                ++ (timestamp_bytes p.ref_ts
                    ++ (timestamp_bytes p.origin_ts
                        ++ (timestamp_bytes p.recv_ts
                            ++ (timestamp_bytes p.transmit_ts ++ more)))))))

abbrev pub IsTimestamp : NtpTimestamp → Type 0
IsTimestamp t = (t.seconds < 2 ^ 32) × (t.fraction < 2 ^ 32)

-- The value at an offset that the bounds allow.
abbrev u32_at : List ℕ → ℕ → ℕ
u32_at xs i =
    bit_or
      (bit_or (bit_or (get_or xs i 0 * 2 ^ 24 % 2 ^ 32) (get_or xs (i + 1) 0 * 2 ^ 16 % 2 ^ 32))
        (get_or xs (i + 2) 0 * 2 ^ 8 % 2 ^ 32))
      (get_or xs (i + 3) 0)

abbrev timestamp_at : List ℕ → ℕ → NtpTimestamp
timestamp_at xs i = record { seconds = u32_at xs i; fraction = u32_at xs (i + 4) }

byte_at-in :
    (xs : List ℕ) (i : ℕ) → i < length xs → byte_at {E = DecodeError} xs i ≡ ok (get_or xs i 0)
unfolding byte_at
byte_at-in [] i h = elim h [ ]
byte_at-in (x ∷ xs) zero h = refl
byte_at-in (x ∷ xs) (suc i) h = byte_at-in xs i (omega arith)

read_u32-in : (xs : List ℕ) (i : ℕ) → i + 3 < length xs → read_u32 xs i ≡ ok (u32_at xs i)
unfolding read_u32
read_u32-in xs i h =
    rw
      (
        byte_at-in xs i (omega arith),
        byte_at-in xs (i + 1) (omega arith),
        byte_at-in xs (i + 2) (omega arith),
        byte_at-in xs (i + 3) h,
      )
      refl

read_ntp_timestamp-in :
    (xs : List ℕ) (i : ℕ) → i + 7 < length xs → read_ntp_timestamp xs i ≡ ok (timestamp_at xs i)
unfolding read_ntp_timestamp
read_ntp_timestamp-in xs i h =
    rw (read_u32-in xs i (omega arith), read_u32-in xs (i + 4) (omega arith)) refl

-- What a packet of at least 48 bytes is read as.
abbrev packet_at : List ℕ → NtpPacket
packet_at xs = record {
  li_vn_mode = get_or xs 0 0;
  stratum = get_or xs 1 0;
  poll = get_or xs 2 0;
  precision = get_or xs 3 0;
  root_delay = u32_at xs 4;
  root_dispersion = u32_at xs 8;
  ref_id = u32_at xs 12;
  ref_ts = timestamp_at xs 16;
  origin_ts = timestamp_at xs 24;
  recv_ts = timestamp_at xs 32;
  transmit_ts = timestamp_at xs 40;
}

decode_packet-in :
    (xs : List ℕ) → sntp_packet_len ≤ length xs → decode_packet xs ≡ ok (packet_at xs)
unfolding decode_packet
decode_packet-in xs h =
    rw
      (
        le→ltb_false (length xs) sntp_packet_len h,
        byte_at-in xs 0 (omega arith),
        byte_at-in xs 1 (omega arith),
        byte_at-in xs 2 (omega arith),
        byte_at-in xs 3 (omega arith),
        read_u32-in xs 4 (omega arith),
        read_u32-in xs 8 (omega arith),
        read_u32-in xs 12 (omega arith),
        read_ntp_timestamp-in xs 16 (omega arith),
        read_ntp_timestamp-in xs 24 (omega arith),
        read_ntp_timestamp-in xs 32 (omega arith),
        read_ntp_timestamp-in xs 40 (omega arith),
      )
      refl

u32_joined :
    (v : ℕ)
    → v < 2 ^ 32
    → bit_or
        (bit_or
          (bit_or (v / 2 ^ 24 % 256 * 2 ^ 24 % 2 ^ 32) (v / 2 ^ 16 % 256 * 2 ^ 16 % 2 ^ 32))
          (v / 2 ^ 8 % 256 * 2 ^ 8 % 2 ^ 32))
        (v % 256)
      ≡ v
u32_joined v h =
    or_four (v / 2 ^ 24 % 256) (v / 2 ^ 16 % 256) (v / 2 ^ 8 % 256) (v % 256) (omega arith)
      (omega arith) (omega arith) (omega arith)
    ∙ omega arith

-- Whatever the buffer's size, below 2 ^ 31, `encode_request` does not panic: it writes the 48
-- bytes of a client's request of version 4 over the start, or nothing at all.
pub encode_request_lem :
    (buf : List ℕ)
    → IsSlice buf
    → encode_request {E = DecodeError} buf ≡ (
        if leb sntp_packet_len (length buf)
        then ok (0x23 ∷ (replicate 47 0 ++ drop 48 buf), sntp_packet_len)
        else ok (buf, 0))
unfolding encode_request
encode_request_lem buf s = elim (Bool-cases (ltb (length buf) sntp_packet_len)) [
  | inl short ↦ rw (short) (ground arith)
  | inr enough ↦
      let h : sntp_packet_len ≤ length buf = ground arith in
      let zeroed = store-append {E = DecodeError} (replicate sntp_packet_len 0) [] buf s h in
      ground (arith, enough, zeroed)
]

-- `decode_response` is `decode_packet` with a check of the version and of the stratum, in this order.
pub decode_response-packet :
    (xs : List ℕ)
    → decode_response xs ≡ (do
      p ← decode_packet xs
      if not (version_of p.li_vn_mode == 3) && not (version_of p.li_vn_mode == 4)
          then err invalid_version
          else if p.stratum == 0
          then err invalid_data
          else ok p.transmit_ts)
unfolding decode_response decode_packet
decode_response-packet xs = elim (Bool-cases (ltb (length xs) sntp_packet_len)) [
  | inl short ↦ rw (short) refl
  | inr enough ↦
      let h : sntp_packet_len ≤ length xs = ground arith in
      rw
        (
          decode_packet-in xs h,
          enough,
          byte_at-in xs 0 (omega arith),
          byte_at-in xs 1 (omega arith),
          read_ntp_timestamp-in xs 40 (omega arith),
        )
        refl
]

-- A packet's bytes in network order, with any bytes behind them, are decoded to the packet, where
-- its words are of 32 bits.
pub decode_packet-packet_bytes :
    (p : NtpPacket) (more : List ℕ)
    → p.root_delay < 2 ^ 32
    → p.root_dispersion < 2 ^ 32
    → p.ref_id < 2 ^ 32
    → IsTimestamp p.ref_ts
    → IsTimestamp p.origin_ts
    → IsTimestamp p.recv_ts
    → IsTimestamp p.transmit_ts
    → decode_packet (packet_bytes p more) ≡ ok p
decode_packet-packet_bytes p more hd hp hi hr ho hv ht =
    decode_packet-in (packet_bytes p more) (omega arith)
    ∙ rw
        (
          u32_joined p.root_delay hd,
          u32_joined p.root_dispersion hp,
          u32_joined p.ref_id hi,
          u32_joined p.ref_ts.seconds hr.0,
          u32_joined p.ref_ts.fraction hr.1,
          u32_joined p.origin_ts.seconds ho.0,
          u32_joined p.origin_ts.fraction ho.1,
          u32_joined p.recv_ts.seconds hv.0,
          u32_joined p.recv_ts.fraction hv.1,
          u32_joined p.transmit_ts.seconds ht.0,
          u32_joined p.transmit_ts.fraction ht.1,
        )
        refl
