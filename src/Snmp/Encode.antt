-- ===== src/Snmp/Encode.antt =====
-- bridge-core/src/snmp.rs: the ASN.1 BER values of SNMP, written at a position of a buffer.
use micro_bacnet_bridge.Base.{
  ℕ, zero, suc, ◌+◌, ◌-◌, ◌*◌, ◌/◌, ◌%◌, ◌^◌, bit_and, bit_or, List, [], ◌∷◌, ◌++◌, length, Bool,
  ltb, leb, ◌==◌, not, ◌&&◌, ◌||◌, if◌then◌else◌, Result, ok, err, ◌>>=◌,
}
use micro_bacnet_bridge.Error.{EncodeError, buffer_too_small, invalid_value}
use micro_bacnet_bridge.Slice.{add_usize, store, emit, Encoder, ◌⟫◌, slice}
use micro_bacnet_bridge.Snmp.{
  tag_sequence, tag_integer, tag_octet_string, tag_null, tag_oid, tag_counter32, tag_gauge32,
  tag_timeticks, SnmpValue, integer, octet_string, counter32, gauge32, time_ticks, null, VarBind,
}

-- `v.to_be_bytes()` of a `u32`
abbrev pub be_bytes : ℕ → List ℕ
be_bytes v = v / 2 ^ 24 % 256 ∷ v / 2 ^ 16 % 256 ∷ v / 2 ^ 8 % 256 ∷ v % 256 ∷ []

unfoldable pub encode_tlv_header : ℕ → ℕ → Encoder
unfolding emit
encode_tlv_header tag len buf pos =
    if leb len 127
    then emit 2 (tag ∷ len % 256 ∷ []) buf pos
    else if leb len 0xFF
    then emit 3 (tag ∷ 0x81 ∷ len % 256 ∷ []) buf pos
    else if leb len 0xFFFF
    then emit 4 (tag ∷ 0x82 ∷ len / 2 ^ 8 % 256 ∷ len % 256 ∷ []) buf pos
    else err invalid_value

-- A leading byte that only repeats the sign of the next one is trimmed; one byte is kept.
abbrev pub is_redundant : ℕ → ℕ → Bool
is_redundant hi next =
    ((hi == 0x00) && (bit_and next 0x80 == 0)) || ((hi == 0xFF) && not (bit_and next 0x80 == 0))

unfoldable pub minimal_signed : List ℕ → List ℕ
minimal_signed [] = []
minimal_signed (b ∷ []) = b ∷ []
minimal_signed (hi ∷ next ∷ bytes) =
    let shorter = minimal_signed (next ∷ bytes) in
    if is_redundant hi next then shorter else hi ∷ next ∷ bytes

-- A header and the content that it announces, where the content is checked after the header is
-- written.
unfoldable pub encode_content : ℕ → List ℕ → Encoder
unfolding encode_tlv_header emit ◌⟫◌
encode_content tag content = encode_tlv_header tag (length content) ⟫ emit (length content) content

unfoldable pub encode_integer : ℕ → Encoder
unfolding minimal_signed encode_content
encode_integer val = encode_content tag_integer (minimal_signed (be_bytes val))

unfoldable pub encode_octet_string : List ℕ → Encoder
unfolding encode_content
encode_octet_string val = encode_content tag_octet_string val

unfoldable pub encode_null : Encoder
unfolding emit
encode_null = emit 2 (tag_null ∷ 0x00 ∷ [])

-- The groups of seven bits, the lowest first: at most five for a `u32`.
unfoldable pub low_groups : ℕ → ℕ → List ℕ
low_groups zero v = []
low_groups (suc fuel) v =
    let rest = low_groups fuel (v / 2 ^ 7) in if v == 0 then [] else bit_and v 0x7F % 256 ∷ rest

-- They are written from the last one on, with the top bit set on all but the first.
unfoldable pub marked : List ℕ → List ℕ
marked [] = []
marked (g ∷ groups) = marked groups ++ (bit_or g 0x80 ∷ [])

unfoldable pub high_first : List ℕ → List ℕ
unfolding marked
high_first [] = []
high_first (g ∷ groups) = marked groups ++ (g ∷ [])

unfoldable pub base128 : ℕ → List ℕ
unfolding low_groups high_first
base128 val = if val == 0 then 0 ∷ [] else high_first (low_groups 5 val)

-- What `encode_base128` appends to the first `length tmp` bytes of its 128.
unfoldable pub encode_base128 : ℕ → List ℕ → Result EncodeError (List ℕ)
unfolding base128
encode_base128 val tmp =
    if ltb 128 (length tmp + length (base128 val))
    then err buffer_too_small
    else ok (tmp ++ base128 val)

unfoldable pub encode_subs : List ℕ → List ℕ → Result EncodeError (List ℕ)
unfolding encode_base128
encode_subs [] tmp = ok tmp
encode_subs (sub ∷ oid) tmp = encode_base128 sub tmp >>= λ tmp'. encode_subs oid tmp'

-- The content of an OID: its first two sub-identifiers as one, on 32 bits.
unfoldable pub oid_content : List ℕ → Result EncodeError (List ℕ)
unfolding encode_base128 encode_subs
oid_content [] = err invalid_value
oid_content (x ∷ []) = err invalid_value
oid_content (x ∷ y ∷ oid) =
    encode_base128 ((40 * x % 2 ^ 32 + y) % 2 ^ 32) [] >>= λ tmp. encode_subs oid tmp

unfoldable pub encode_oid : List ℕ → Encoder
unfolding oid_content encode_content
encode_oid oid buf pos = oid_content oid >>= λ content. encode_content tag_oid content buf pos

-- The bytes of an unsigned number: five where the first of the four has its top bit set, and else
-- without the leading zeros.
unfoldable pub trim_zeros : List ℕ → List ℕ
trim_zeros [] = []
trim_zeros (b ∷ []) = b ∷ []
trim_zeros (b ∷ c ∷ bytes) =
    let rest = trim_zeros (c ∷ bytes) in if b == 0 then rest else b ∷ c ∷ bytes

abbrev pub u32_content : ℕ → List ℕ
u32_content val =
    if bit_and (val / 2 ^ 24 % 256) 0x80 == 0
    then trim_zeros (be_bytes val)
    else 0x00 ∷ be_bytes val

unfoldable pub encode_u32_app : ℕ → ℕ → Encoder
unfolding encode_content trim_zeros
encode_u32_app tag val = encode_content tag (u32_content val)

unfoldable pub encode_snmp_value : SnmpValue → Encoder
unfolding encode_integer encode_octet_string encode_u32_app encode_null
encode_snmp_value (integer v) = encode_integer v
encode_snmp_value (octet_string s) = encode_octet_string s
encode_snmp_value (counter32 v) = encode_u32_app tag_counter32 v
encode_snmp_value (gauge32 v) = encode_u32_app tag_gauge32 v
encode_snmp_value (time_ticks v) = encode_u32_app tag_timeticks v
encode_snmp_value null = encode_null

unfoldable pub ber_header_size : ℕ → ℕ
ber_header_size inner_len = if leb inner_len 127 then 2 else if leb inner_len 255 then 3 else 4

-- `buf.copy_within(from..to, target)`
unfoldable pub copy_within : List ℕ → ℕ → ℕ → ℕ → Result EncodeError (List ℕ)
unfolding slice store
copy_within buf start last target = do bytes ← slice buf start last; store buf target bytes

-- The content is written behind the space of the longest header, and shifted left to the header.
unfoldable pub encode_varbind : VarBind → Encoder
unfolding encode_oid encode_snmp_value ber_header_size copy_within encode_tlv_header ◌⟫◌
encode_varbind vb buf pos = do
  let inner_start = add_usize pos 4
  (written, after_value) ← (encode_oid vb.oid ⟫ encode_snmp_value vb.value) buf inner_start
  let inner_len = after_value - inner_start
  let final_start = add_usize pos (ber_header_size inner_len)
  shifted ←
      (if ltb final_start inner_start
        then copy_within written inner_start after_value final_start
        else ok written)
  (headed, _) ← encode_tlv_header tag_sequence inner_len shifted pos
  ok (headed, add_usize (add_usize pos (ber_header_size inner_len)) inner_len)
