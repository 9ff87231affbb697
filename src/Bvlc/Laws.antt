-- ===== src/Bvlc/Laws.antt =====
-- What bridge-core/src/bvlc.rs promises: a packet is read back from its bytes, and where the decoder
-- panics.
use micro_bacnet_bridge.Base.{
  ℕ, ◌+◌, ◌*◌, ◌/◌, ◌%◌, ◌^◌, ◌≤◌, ◌<◌, ◌≡◌, ◌≢◌, ◌↔◌, arith, bit_or, List, [], ◌∷◌, ◌++◌, length,
  length-append, take, drop, append-nil, take-append, ok, panic,
}
use micro_bacnet_bridge.Error.{EncodeError}
use micro_bacnet_bridge.Base.Bits.{or_byte}
use micro_bacnet_bridge.Slice.{IsSlice, IsByte}
use micro_bacnet_bridge.Slice.Writing.{store-append}
use micro_bacnet_bridge.Bvlc.{bvlc_type, forwarded_npdu, header_size, encode_bvlc, decode_bvlc}

abbrev pub packet : ℕ → List ℕ → List ℕ
packet function npdu =
    let total = header_size + length npdu in
    bvlc_type ∷ function ∷ total / 2 ^ 8 % 256 ∷ total % 256 ∷ npdu

-- `encode_bvlc` writes a packet of at most 65535 bytes over the start of a buffer that holds it
-- and has fewer than 2 ^ 31 bytes, changes no byte behind it, and returns its length.
pub encode_bvlc_lem :
    (function : ℕ) (npdu buf : List ℕ)
    → IsSlice buf
    → header_size + length npdu ≤ 65535
    → header_size + length npdu ≤ length buf
    → encode_bvlc function npdu buf
      ≡ ok (packet function npdu ++ drop (header_size + length npdu) buf, header_size + length npdu)
unfolding encode_bvlc
encode_bvlc_lem function npdu buf h small fits =
    ground (arith, store-append {E = EncodeError} (packet function npdu) [] buf h (omega arith))

total_bytes : (n : ℕ) → n < 2 ^ 16 → bit_or (n / 2 ^ 8 % 256 * 2 ^ 8 % 2 ^ 16) (n % 256) ≡ n
total_bytes n h =
    rw (or_byte (2 ^ 16) (n / 2 ^ 8 % 256) (n % 256) (omega arith) (omega arith)) (omega arith)

-- The NPDU of a packet that is no forwarded one is read back, whatever stands behind the packet.
pub decode_bvlc-packet :
    (function : ℕ) (npdu more : List ℕ)
    → function ≢ forwarded_npdu
    → header_size + length npdu ≤ 65535
    → decode_bvlc (packet function npdu ++ more)
      ≡ ok (record { function = function; total = header_size + length npdu }, npdu)
unfolding decode_bvlc
decode_bvlc-packet function npdu more ne small =
    let n = header_size + length npdu in
    ground (arith, total_bytes n (omega arith), length-append npdu more, take-append npdu more)

-- On at least four bytes, the decoder panics exactly where the type is 0x81, the packet is not a
-- forwarded one, and it announces fewer bytes than its own header has; the two length bytes are
-- bytes.
pub decode_bvlc_panics :
    (kind function hi lo : ℕ) (more : List ℕ)
    → IsByte hi
    → IsByte lo
    → (decode_bvlc (kind ∷ function ∷ hi ∷ lo ∷ more) ≡ panic)
      ↔ ((kind ≡ bvlc_type) × (function ≢ forwarded_npdu) × (hi * 256 + lo < header_size))
unfolding decode_bvlc
decode_bvlc_panics kind function hi lo more hh hl = ground (arith, or_byte (2 ^ 16) hi lo)

encoded_fits :
    (function : ℕ) (npdu buf : List ℕ) {buf' : List ℕ} {n : ℕ}
    → encode_bvlc function npdu buf ≡ ok (buf', n)
    → (header_size + length npdu ≤ 65535) × (header_size + length npdu ≤ length buf)
unfolding encode_bvlc
encoded_fits function npdu buf e = ground (arith, e)

-- What was encoded into a buffer of fewer than 2 ^ 31 bytes, under any function code but that of a
-- forwarded packet, is decoded to that code, the packet's length and the NPDU.
pub bvlc_round_trip :
    (function : ℕ) (npdu buf : List ℕ) {buf' : List ℕ} {n : ℕ}
    → function ≢ forwarded_npdu
    → IsSlice buf
    → encode_bvlc function npdu buf ≡ ok (buf', n)
    → decode_bvlc (take n buf') ≡ ok (record { function = function; total = n }, npdu)
bvlc_round_trip function npdu buf {buf'} {n} ne h e =
    let (small, fits) = encoded_fits function npdu buf e in
    let total = header_size + length npdu in
    let written = encode_bvlc_lem function npdu buf h small fits in
    let whole : take n buf' ≡ packet function npdu ++ [] =
      ground
        (arith, e, written, take-append (packet function npdu) (drop total buf), append-nil npdu) in
    let same : n ≡ total = ground (arith, e, written) in
    rw (whole, same) (decode_bvlc-packet function npdu [] ne small)
