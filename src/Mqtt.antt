-- ===== src/Mqtt.antt =====
-- bridge-core/src/mqtt.rs: the packets of the publish-only MQTT client. Strings are their bytes, and
-- a `usize` is one of the 32-bit target.

pub mod Groups
pub mod Length
pub mod Packets
pub mod Broker
pub mod Ascii
pub mod Discovery
use micro_bacnet_bridge.Base
use micro_bacnet_bridge.Base.{
  ℕ, zero, suc, ◌+◌, ◌*◌, ◌/◌, ◌%◌, ◌^◌, bit_and, bit_or, List, [], ◌∷◌, length, Bool, true, false,
  Option, none, some,
}
use micro_bacnet_bridge.Base.{ltb, leb, ◌==◌, not, if◌then◌else◌, Result, ok, err, stuck, ok_or}
use micro_bacnet_bridge.Error.{
  EncodeError, buffer_too_small, string_too_long, invalid_value, DecodeError, unexpected_end,
  invalid_data,
}
use micro_bacnet_bridge.Slice.{add_usize, byte_at, store, Encoder, ◌⟫◌, skip}
use micro_bacnet_bridge.Slice.Decoder.{Decoder, ◌>>=◌, lift, pure}

abbrev pub packet_type_connect : ℕ
packet_type_connect = 1

abbrev pub packet_type_connack : ℕ
packet_type_connack = 2

abbrev pub packet_type_publish : ℕ
packet_type_publish = 3

abbrev pub packet_type_pingreq : ℕ
packet_type_pingreq = 12

abbrev pub packet_type_disconnect : ℕ
packet_type_disconnect = 14

abbrev pub connack_accepted : ℕ
connack_accepted = 0

abbrev pub connect_flag_clean_session : ℕ
connect_flag_clean_session = 0x02

abbrev pub connect_flag_password : ℕ
connect_flag_password = 0x40

abbrev pub connect_flag_username : ℕ
connect_flag_username = 0x80

abbrev pub max_remaining_length : ℕ
max_remaining_length = 268435455

-- `checked_add` and `checked_mul` of a `usize`
abbrev pub checked : ℕ → Option ℕ
checked n = if ltb n (2 ^ 32) then some n else none

unfoldable pub write_u8 : ℕ → Encoder
unfolding store
write_u8 v buf pos =
    if leb (length buf) pos
    then err buffer_too_small
    else Base.◌>>=◌ (store buf pos (v ∷ [])) (λ buf'. ok (buf', add_usize pos 1))

unfoldable pub write_u16 : ℕ → Encoder
unfolding store
write_u16 v buf pos =
    if ltb (length buf) (add_usize pos 2)
    then err buffer_too_small
    else Base.◌>>=◌ (store buf pos (v / 2 ^ 8 % 256 ∷ bit_and v 0xFF ∷ []))
        (λ buf'. ok (buf', add_usize pos 2))

unfoldable pub write_bytes : List ℕ → Encoder
unfolding store
write_bytes bytes buf pos =
    Base.◌>>=◌ (ok_or (checked (pos + length bytes)) buffer_too_small) (λ last.
      if ltb (length buf) last
      then err buffer_too_small
      else Base.◌>>=◌ (store buf pos bytes) (λ buf'. ok (buf', last)))

unfoldable pub write_mqtt_str : List ℕ → Encoder
unfolding write_u16 write_bytes ◌⟫◌
write_mqtt_str s buf pos =
    if ltb 0xFFFF (length s)
    then err string_too_long
    else (write_u16 (length s % 2 ^ 16) ⟫ write_bytes s) buf pos

-- One round of the loop a group of seven bits; a length that passes the check has at most four.
unfoldable pub write_groups : ℕ → ℕ → Encoder
unfolding write_u8 ◌⟫◌
write_groups zero len buf pos = stuck
write_groups (suc fuel) len buf pos =
    let byte = bit_and len 0x7F % 256 in
    let more = len / 2 ^ 7 in
    let rest = write_groups fuel more in
    if ltb 0 more then (write_u8 (bit_or byte 0x80) ⟫ rest) buf pos else write_u8 byte buf pos

unfoldable pub write_remaining_length : ℕ → Encoder
unfolding write_groups
write_remaining_length len buf pos =
    if ltb max_remaining_length len then err invalid_value else write_groups 4 len buf pos

unfoldable pub remaining_length_encoded_size : ℕ → ℕ
remaining_length_encoded_size len =
    if ltb len 128 then 1 else if ltb len 16384 then 2 else if ltb len 2097152 then 3 else 4

unfoldable pub read_u8 : Decoder ℕ
unfolding byte_at
read_u8 xs pos =
    if leb (length xs) pos
    then err unexpected_end
    else Base.◌>>=◌ (byte_at xs pos) (λ b. ok (b, add_usize pos 1))

-- The loop ends at the fourth byte at the latest.
unfoldable pub read_groups : ℕ → ℕ → ℕ → Decoder ℕ
unfolding read_u8 ◌>>=◌ lift pure
read_groups zero multiplier value = lift stuck
read_groups (suc fuel) multiplier value = do
  byte ← read_u8
  sum ← lift (ok_or (checked (value + bit_and byte 0x7F * multiplier % 2 ^ 32)) invalid_data)
  if bit_and byte 0x80 == 0 then pure sum else (do
    multiplier' ← lift (ok_or (checked (multiplier * 128)) invalid_data)
    if leb (128 * 128 * 128 * 128) multiplier'
        then lift (err invalid_data)
        else read_groups fuel multiplier' sum)

unfoldable pub decode_remaining_length : Decoder ℕ
unfolding read_groups
decode_remaining_length = read_groups 4 1 0

-- The optional strings of a CONNECT packet.
abbrev pub is_some : Option (List ℕ) → Bool
is_some none = false
is_some (some s) = true

abbrev pub write_optional : Option (List ℕ) → Encoder
write_optional none = skip
write_optional (some s) = write_mqtt_str s

abbrev pub add_optional : ℕ → Option (List ℕ) → ℕ
add_optional n none = n
add_optional n (some s) = add_usize n (add_usize 2 (length s))

abbrev pub or_if : Bool → ℕ → ℕ → ℕ
or_if test bit flags = if test then bit_or flags bit else flags

abbrev pub connect_flags : Option (List ℕ) → Option (List ℕ) → ℕ
connect_flags username password =
    or_if (is_some password) connect_flag_password
      (or_if (is_some username) connect_flag_username connect_flag_clean_session)

-- The bytes of "MQTT"
abbrev pub protocol_name : List ℕ
protocol_name = 77 ∷ 81 ∷ 84 ∷ 84 ∷ []

abbrev pub connect_remaining : List ℕ → Option (List ℕ) → Option (List ℕ) → ℕ
connect_remaining client_id username password =
    add_usize 10 (add_optional (add_optional (add_usize 2 (length client_id)) username) password)

unfoldable pub encode_connect :
    List ℕ → List ℕ → ℕ → Option (List ℕ) → Option (List ℕ) → Result EncodeError (List ℕ × ℕ)
unfolding write_u8 write_remaining_length write_u16 write_bytes write_mqtt_str ◌⟫◌
    remaining_length_encoded_size
encode_connect buf client_id keep_alive username password =
    let remaining = connect_remaining client_id username password in
    let total = add_usize (add_usize 1 (remaining_length_encoded_size remaining)) remaining in
    if ltb (length buf) total
    then err buffer_too_small
    else (write_u8 (packet_type_connect * 2 ^ 4)
          ⟫ write_remaining_length remaining
          ⟫ write_u16 4
          ⟫ write_bytes protocol_name
          ⟫ write_u8 4
          ⟫ write_u8 (connect_flags username password)
          ⟫ write_u16 keep_alive
          ⟫ write_mqtt_str client_id
          ⟫ write_optional username
          ⟫ write_optional password)
        buf 0

unfoldable pub encode_publish : List ℕ → List ℕ → List ℕ → Bool → Result EncodeError (List ℕ × ℕ)
unfolding write_u8 write_remaining_length write_u16 write_bytes ◌⟫◌ remaining_length_encoded_size
encode_publish buf topic payload retain =
    if ltb 0xFFFF (length topic)
    then err string_too_long
    else (let remaining = add_usize (add_usize 2 (length topic)) (length payload) in
        let total = add_usize (add_usize 1 (remaining_length_encoded_size remaining)) remaining in
        if ltb (length buf) total
        then err buffer_too_small
        else (write_u8 (bit_or (packet_type_publish * 2 ^ 4) (if retain then 0x01 else 0x00))
              ⟫ write_remaining_length remaining
              ⟫ write_u16 (length topic % 2 ^ 16)
              ⟫ write_bytes topic
              ⟫ write_bytes payload)
            buf 0)

-- PINGREQ and DISCONNECT: two bytes.
unfoldable pub encode_pingreq : List ℕ → Result EncodeError (List ℕ × ℕ)
unfolding store
encode_pingreq buf =
    if ltb (length buf) 2
    then err buffer_too_small
    else Base.◌>>=◌ (store buf 0 (packet_type_pingreq * 2 ^ 4 ∷ 0 ∷ [])) (λ buf'. ok (buf', 2))

unfoldable pub encode_disconnect : List ℕ → Result EncodeError (List ℕ × ℕ)
unfolding store
encode_disconnect buf =
    if ltb (length buf) 2
    then err buffer_too_small
    else Base.◌>>=◌ (store buf 0 (packet_type_disconnect * 2 ^ 4 ∷ 0 ∷ [])) (λ buf'. ok (buf', 2))

unfoldable pub decode_packet_type : List ℕ → Result DecodeError (ℕ × ℕ)
unfolding byte_at decode_remaining_length
decode_packet_type xs =
    if length xs == 0
    then err unexpected_end
    else Base.◌>>=◌ (byte_at xs 0) (λ first.
      Base.◌>>=◌ (decode_remaining_length xs 1)
        (λ (remaining, pos). ok (bit_and (first / 2 ^ 4) 0x0F, remaining)))

unfoldable pub decode_connack : List ℕ → Result DecodeError Bool
unfolding byte_at
decode_connack xs =
    if ltb (length xs) 4
    then err unexpected_end
    else Base.◌>>=◌ (byte_at xs 0) (λ first.
      if not (first / 2 ^ 4 == packet_type_connack)
      then err invalid_data
      else Base.◌>>=◌ (byte_at xs 1) (λ second.
        if not (second == 2)
        then err invalid_data
        else Base.◌>>=◌ (byte_at xs 3) (λ return_code. ok (return_code == connack_accepted))))
