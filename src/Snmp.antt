-- ===== src/Snmp.antt =====
-- bridge-core/src/snmp.rs: the ASN.1 BER values of SNMP, read from a slice. An `i32` is its 32 bits,
-- and a `usize` is one of the 32-bit target.
pub mod Encode
pub mod Message
pub mod Agent
pub mod Walk
use micro_bacnet_bridge.Base.{
  ℕ, zero, suc, ◌+◌, ◌-◌, ◌*◌, ◌/◌, ◌%◌, ◌^◌, bit_and, bit_or, List, [], ◌∷◌, ◌++◌, length, drop,
  Bool, true, false, Option, none, some,
}
use micro_bacnet_bridge.Base.{
  ltb, leb, ◌==◌, not, ◌&&◌, ◌||◌, if◌then◌else◌, Result, ok, err, ok_or, ◌>>=◌,
}
use micro_bacnet_bridge.Error.{DecodeError, unexpected_end, invalid_data, length_out_of_bounds}
use micro_bacnet_bridge.Slice.{add_usize, byte_at, slice}

abbrev pub tag_sequence : ℕ
tag_sequence = 0x30

abbrev pub tag_integer : ℕ
tag_integer = 0x02

abbrev pub tag_octet_string : ℕ
tag_octet_string = 0x04

abbrev pub tag_null : ℕ
tag_null = 0x05

abbrev pub tag_oid : ℕ
tag_oid = 0x06

abbrev pub tag_counter32 : ℕ
tag_counter32 = 0x41

abbrev pub tag_gauge32 : ℕ
tag_gauge32 = 0x42

abbrev pub tag_timeticks : ℕ
tag_timeticks = 0x43

abbrev pub tag_get_request : ℕ
tag_get_request = 0xA0

abbrev pub tag_get_next_request : ℕ
tag_get_next_request = 0xA1

abbrev pub tag_get_response : ℕ
tag_get_response = 0xA2

pub data SnmpValue : Type 0 where
  integer : ℕ → SnmpValue
  octet_string : List ℕ → SnmpValue
  counter32 gauge32 time_ticks : ℕ → SnmpValue
  null : SnmpValue

pub record VarBind : Type 0 where
  pub oid : List ℕ
  pub value : SnmpValue

pub record SnmpRequest : Type 0 where
  pub version : ℕ
  pub community : List ℕ
  pub request_id : ℕ
  pub pdu_type : ℕ
  pub oids : List (List ℕ)

-- `(tag, value_start, value_end)`; the source's fourth component is `value_end` once more.
pub record Tlv : Type 0 where
  pub tag : ℕ
  pub value_start : ℕ
  pub value_end : ℕ

-- `len = (len << 8) | byte` over `n` bytes
unfoldable pub read_length : ℕ → List ℕ → ℕ → ℕ → Result DecodeError ℕ
unfolding byte_at
read_length zero xs pos len = ok len
read_length (suc n) xs pos len = do
  b ← byte_at xs pos
  read_length n xs (add_usize pos 1) (bit_or (len * 2 ^ 8 % 2 ^ 32) b)

-- The length with the position of the value's first byte, in its short or its long form.
unfoldable pub tlv_length : List ℕ → ℕ → ℕ → Result DecodeError (ℕ × ℕ)
unfolding read_length
tlv_length xs pos len_byte =
    if bit_and len_byte 0x80 == 0
    then ok (len_byte, pos)
    else (let num_len_bytes = bit_and len_byte 0x7F in
        if (num_len_bytes == 0) || ltb 4 num_len_bytes
        then err length_out_of_bounds
        else (if ltb (length xs) (add_usize pos num_len_bytes) then err unexpected_end else (do
          len ← read_length num_len_bytes xs pos 0
          ok (len, add_usize pos num_len_bytes))))

-- `value_start.checked_add(length)`
abbrev pub checked_end : ℕ → ℕ → Option ℕ
checked_end start len = if ltb (start + len) (2 ^ 32) then some (start + len) else none

unfoldable pub decode_tlv : List ℕ → ℕ → Result DecodeError Tlv
unfolding byte_at tlv_length
decode_tlv xs pos = if leb (length xs) pos then err unexpected_end else (do
  tag ← byte_at xs pos
  let pos1 = add_usize pos 1
  if leb (length xs) pos1 then err unexpected_end else (do
    len_byte ← byte_at xs pos1
    (len, value_start) ← tlv_length xs (add_usize pos1 1) len_byte
    value_end ← ok_or (checked_end value_start len) length_out_of_bounds
    if ltb (length xs) value_end
        then err length_out_of_bounds
        else (ok (record { tag = tag; value_start = value_start; value_end = value_end }))))

-- `val = (val << 8) | b` over bytes, on 32 bits
unfoldable pub shift_bytes : ℕ → List ℕ → ℕ
shift_bytes v [] = v
shift_bytes v (b ∷ bs) = shift_bytes (bit_or (v * 2 ^ 8 % 2 ^ 32) b) bs

-- All bits set where the first byte has its top bit set.
unfoldable pub sign_bits : List ℕ → ℕ
sign_bits [] = 0
sign_bits (b ∷ bs) = if bit_and b 0x80 == 0 then 0 else 2 ^ 32 - 1

-- `value_end.checked_sub(value_start)`
abbrev pub checked_size : ℕ → ℕ → Option ℕ
checked_size start last = if leb start last then some (last - start) else none

unfoldable pub decode_integer : List ℕ → ℕ → ℕ → Result DecodeError ℕ
unfolding slice shift_bytes sign_bits
decode_integer xs value_start value_end = do
  len ← ok_or (checked_size value_start value_end) invalid_data
  if (len == 0) || ltb 4 len
      then err invalid_data
      else (do bytes ← slice xs value_start value_end; ok (shift_bytes (sign_bits bytes) bytes))

-- A leading zero of five bytes is skipped.
unfoldable pub effective : List ℕ → List ℕ
effective [] = []
effective (b ∷ bs) = if (length (b ∷ bs) == 5) && (b == 0) then bs else b ∷ bs

unfoldable pub decode_u32 : List ℕ → ℕ → ℕ → Result DecodeError ℕ
unfolding slice shift_bytes effective
decode_u32 xs value_start value_end = do
  len ← ok_or (checked_size value_start value_end) invalid_data
  if (len == 0) || ltb 5 len then err invalid_data else (do
    bytes ← slice xs value_start value_end
    if ltb 4 (length (effective bytes))
        then err invalid_data
        else (ok (shift_bytes 0 (effective bytes))))

-- `oid.push(sub_id)` on at most 16 sub-identifiers
abbrev pub push_sub : List ℕ → ℕ → Option (List ℕ)
push_sub oid sub = if ltb (length oid) 16 then some (oid ++ (sub ∷ [])) else none

abbrev pub first_subs : ℕ → ℕ × ℕ
first_subs b = if ltb b 40 then (0, b) else if ltb b 80 then (1, b - 40) else (2, b - 80)

-- The two loops over the rest of the bytes, a byte a round: `inside` is set within a sub-identifier.
unfoldable pub read_subs : Bool → ℕ → List ℕ → List ℕ → Result DecodeError (List ℕ)
read_subs true sub_id oid [] = err unexpected_end
read_subs false sub_id oid [] = ok oid
read_subs inside sub_id oid (b ∷ bs) =
    if ltb 0x00FFFFFF sub_id
    then err invalid_data
    else (let sub_id' = bit_or (sub_id * 2 ^ 7 % 2 ^ 32) (bit_and b 0x7F) in
        let more = read_subs true sub_id' oid bs in
        if bit_and b 0x80 == 0
        then ok_or (push_sub oid sub_id') invalid_data >>= (λ oid'. read_subs false 0 oid' bs)
        else more)

unfoldable pub read_oid : List ℕ → Result DecodeError (List ℕ)
unfolding read_subs
read_oid [] = err invalid_data
read_oid (b ∷ bs) = let (sub0, sub1) = first_subs b in read_subs false 0 (sub0 ∷ sub1 ∷ []) bs

unfoldable pub decode_oid : List ℕ → ℕ → ℕ → Result DecodeError (List ℕ)
unfolding slice read_oid
decode_oid xs value_start value_end = do bytes ← slice xs value_start value_end; read_oid bytes
