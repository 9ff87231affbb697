-- ===== src/Ntp.antt =====
-- bridge-core/src/ntp.rs: the SNTP packets of the bridge's clock.
pub mod Laws
use micro_bacnet_bridge.Base.{
  ℕ, ◌+◌, ◌-◌, ◌*◌, ◌/◌, ◌%◌, ◌^◌, bit_and, bit_or, List, [], ◌∷◌, length, replicate,
}
use micro_bacnet_bridge.Base.{
  Bool, true, false, not, ◌&&◌, Option, none, some, ltb, ◌==◌, if◌then◌else◌,
}
use micro_bacnet_bridge.Base.{Result, ok, err, ◌>>=◌}
use micro_bacnet_bridge.Error.{DecodeError, unexpected_end, invalid_version, invalid_data}
use micro_bacnet_bridge.Slice.{byte_at, store}

abbrev pub sntp_packet_len : ℕ
sntp_packet_len = 48

abbrev pub ntp_unix_offset : ℕ
ntp_unix_offset = 2208988800

pub record NtpTimestamp : Type 0 where
  pub seconds : ℕ
  pub fraction : ℕ

-- `precision` is an `i8`, kept as its byte.
pub record NtpPacket : Type 0 where
  pub li_vn_mode : ℕ
  pub stratum : ℕ
  pub poll : ℕ
  pub precision : ℕ
  pub root_delay : ℕ
  pub root_dispersion : ℕ
  pub ref_id : ℕ
  pub ref_ts : NtpTimestamp
  pub origin_ts : NtpTimestamp
  pub recv_ts : NtpTimestamp
  pub transmit_ts : NtpTimestamp

-- The new buffer and the number of bytes written: zeros, and then the first byte.
unfoldable pub encode_request {ℓ} : {E : Type ℓ} → List ℕ → Result E (List ℕ × ℕ)
unfolding store
encode_request buf = if ltb (length buf) sntp_packet_len then ok (buf, 0) else (do
  zeroed ← store buf 0 (replicate sntp_packet_len 0)
  buf' ← store zeroed 0 (0x23 ∷ [])
  ok (buf', sntp_packet_len))

unfoldable pub read_u32 : List ℕ → ℕ → Result DecodeError ℕ
unfolding byte_at
read_u32 xs offset = do
  a ← byte_at xs offset
  b ← byte_at xs (offset + 1)
  c ← byte_at xs (offset + 2)
  d ← byte_at xs (offset + 3)
  ok (bit_or (bit_or (bit_or (a * 2 ^ 24 % 2 ^ 32) (b * 2 ^ 16 % 2 ^ 32)) (c * 2 ^ 8 % 2 ^ 32)) d)

unfoldable pub read_ntp_timestamp : List ℕ → ℕ → Result DecodeError NtpTimestamp
unfolding read_u32
read_ntp_timestamp xs offset = do
  seconds ← read_u32 xs offset
  fraction ← read_u32 xs (offset + 4)
  ok (record { seconds = seconds; fraction = fraction })

-- `(data[0] >> 3) & 0x07`
abbrev pub version_of : ℕ → ℕ
version_of b = bit_and (b / 2 ^ 3) 0x07

unfoldable pub decode_response : List ℕ → Result DecodeError NtpTimestamp
unfolding byte_at
decode_response xs = if ltb (length xs) sntp_packet_len then err unexpected_end else (do
  first ← byte_at xs 0
  if not (version_of first == 3) && not (version_of first == 4) then err invalid_version else (do
    stratum ← byte_at xs 1
    if stratum == 0 then err invalid_data else read_ntp_timestamp xs 40))

unfoldable pub decode_packet : List ℕ → Result DecodeError NtpPacket
unfolding byte_at
decode_packet xs = if ltb (length xs) sntp_packet_len then err unexpected_end else (do
  li_vn_mode ← byte_at xs 0
  stratum ← byte_at xs 1
  poll ← byte_at xs 2
  precision ← byte_at xs 3
  root_delay ← read_u32 xs 4
  root_dispersion ← read_u32 xs 8
  ref_id ← read_u32 xs 12
  ref_ts ← read_ntp_timestamp xs 16
  origin_ts ← read_ntp_timestamp xs 24
  recv_ts ← read_ntp_timestamp xs 32
  transmit_ts ← read_ntp_timestamp xs 40
  ok (record {
    li_vn_mode = li_vn_mode;
    stratum = stratum;
    poll = poll;
    precision = precision;
    root_delay = root_delay;
    root_dispersion = root_dispersion;
    ref_id = ref_id;
    ref_ts = ref_ts;
    origin_ts = origin_ts;
    recv_ts = recv_ts;
    transmit_ts = transmit_ts;
  }))

-- `ntp_secs.checked_sub(NTP_UNIX_OFFSET)`
unfoldable pub ntp_to_unix_epoch : ℕ → Option ℕ
ntp_to_unix_epoch ntp_secs =
    if ltb ntp_secs ntp_unix_offset then none else some (ntp_secs - ntp_unix_offset)
