-- ===== src/Bvlc.antt =====
-- bridge-core/src/bvlc.rs: the four-byte header of BACnet/IP packets.
pub mod Laws
use micro_bacnet_bridge.Base.{
  ℕ, ◌+◌, ◌*◌, ◌/◌, ◌%◌, ◌^◌, bit_or, List, [], ◌∷◌, length, ltb, ◌==◌, not, if◌then◌else◌,
}
use micro_bacnet_bridge.Base.{Result, ok, err, ◌>>=◌}
use micro_bacnet_bridge.Error.{
  EncodeError, buffer_too_small, invalid_value, DecodeError, unexpected_end, invalid_version,
  length_out_of_bounds,
}
use micro_bacnet_bridge.Slice.{byte_at, slice, store}

abbrev pub bvlc_type : ℕ
bvlc_type = 0x81

abbrev pub forwarded_npdu : ℕ
forwarded_npdu = 0x04

abbrev pub header_size : ℕ
header_size = 4

abbrev pub forwarded_extra : ℕ
forwarded_extra = 6

pub record BvlcHeader : Type 0 where
  pub function : ℕ
  pub total : ℕ

-- The new buffer and the number of bytes written.
unfoldable pub encode_bvlc : ℕ → List ℕ → List ℕ → Result EncodeError (List ℕ × ℕ)
unfolding store
encode_bvlc function npdu buf =
    let total = header_size + length npdu in
    if ltb 65535 total
    then err invalid_value
    else if ltb (length buf) total
    then err buffer_too_small
    else (do
      buf' ← store buf 0 (bvlc_type ∷ function ∷ total / 2 ^ 8 % 256 ∷ total % 256 ∷ npdu)
      ok (buf', total))

-- Where the NPDU starts: behind the address of the sender in a forwarded packet.
npdu_start : ℕ → ℕ → Result DecodeError ℕ
npdu_start function total =
    if function == forwarded_npdu
    then (if ltb total (header_size + forwarded_extra)
        then err unexpected_end
        else ok (header_size + forwarded_extra))
    else ok header_size

unfoldable pub decode_bvlc : List ℕ → Result DecodeError (BvlcHeader × List ℕ)
unfolding byte_at slice npdu_start
decode_bvlc xs = if ltb (length xs) header_size then err unexpected_end else (do
  kind ← byte_at xs 0
  if not (kind == bvlc_type) then err invalid_version else (do
    function ← byte_at xs 1
    hi ← byte_at xs 2
    lo ← byte_at xs 3
    let total = bit_or (hi * 2 ^ 8 % 2 ^ 16) lo
    if ltb (length xs) total then err length_out_of_bounds else (do
      start ← npdu_start function total
      npdu ← slice xs start total
      ok (record { function = function; total = total }, npdu))))
