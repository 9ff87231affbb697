-- ===== src/Mdns/Records.antt =====
-- bridge-core/src/mdns.rs: the responses with one record, and the first question of a query.
use micro_bacnet_bridge.Base.{
  ℕ, ◌+◌, ◌-◌, ◌*◌, ◌/◌, ◌%◌, ◌^◌, List, [], ◌∷◌, ◌++◌, length, ltb, ◌==◌, if◌then◌else◌, Result,
  ok, err, ◌>>=◌,
}
use micro_bacnet_bridge.Error.{
  EncodeError, buffer_too_small, string_too_long, DecodeError, unexpected_end, invalid_data,
}
use micro_bacnet_bridge.Slice.{add_usize, byte_at, store, set_at, Encoder, ◌⟫◌, skip}
use micro_bacnet_bridge.Mdns.{write_name, read_name}

abbrev pub type_a : ℕ
type_a = 1

abbrev pub type_ptr : ℕ
type_ptr = 12

abbrev pub type_txt : ℕ
type_txt = 16

abbrev pub type_srv : ℕ
type_srv = 33

abbrev pub class_in_flush : ℕ
class_in_flush = 0x8001

abbrev pub class_in : ℕ
class_in = 0x0001

abbrev pub mdns_ttl : ℕ
mdns_ttl = 4500

-- The bytes of "local"
abbrev pub local_domain : List ℕ
local_domain = 108 ∷ 111 ∷ 99 ∷ 97 ∷ 108 ∷ []

pub record DnsHeader : Type 0 where
  pub id : ℕ
  pub flags : ℕ
  pub qd_count : ℕ
  pub an_count : ℕ
  pub ns_count : ℕ
  pub ar_count : ℕ

abbrev pub response : ℕ → DnsHeader
response an_count = record {
  id = 0;
  flags = 0x8400;
  qd_count = 0;
  an_count = an_count;
  ns_count = 0;
  ar_count = 0;
}

-- The slice panics where the caller has not checked the room.
unfoldable pub write_u16 : ℕ → Encoder
unfolding store
write_u16 v buf pos = do
  buf' ← store buf pos (v / 2 ^ 8 % 256 ∷ v % 256 ∷ [])
  ok (buf', add_usize pos 2)

unfoldable pub write_u32 : ℕ → Encoder
unfolding store
write_u32 v buf pos = do
  buf' ← store buf pos (v / 2 ^ 24 % 256 ∷ v / 2 ^ 16 % 256 ∷ v / 2 ^ 8 % 256 ∷ v % 256 ∷ [])
  ok (buf', add_usize pos 4)

unfoldable pub read_u16 : List ℕ → ℕ → Result DecodeError ℕ
unfolding byte_at
read_u16 xs pos = do hi ← byte_at xs pos; lo ← byte_at xs (add_usize pos 1); ok (hi * 2 ^ 8 + lo)

-- `if buf.len() < *pos + n { return Err(BufferTooSmall) }` before what needs `n` bytes
abbrev pub with_room : ℕ → Encoder → Encoder
with_room n e buf pos =
    if ltb (length buf) (add_usize pos n) then err buffer_too_small else e buf pos

unfoldable pub encode_header : DnsHeader → Encoder
unfolding write_u16 ◌⟫◌
encode_header h = with_room 12 (
    write_u16 h.id
    ⟫ write_u16 h.flags
    ⟫ write_u16 h.qd_count
    ⟫ write_u16 h.an_count
    ⟫ write_u16 h.ns_count
    ⟫ write_u16 h.ar_count)

unfoldable pub decode_header : List ℕ → Result DecodeError (DnsHeader × ℕ)
unfolding read_u16
decode_header xs = if ltb (length xs) 12 then err unexpected_end else (do
  id ← read_u16 xs 0
  flags ← read_u16 xs 2
  qd_count ← read_u16 xs 4
  an_count ← read_u16 xs 6
  ns_count ← read_u16 xs 8
  ar_count ← read_u16 xs 10
  ok (
    record {
      id = id;
      flags = flags;
      qd_count = qd_count;
      an_count = an_count;
      ns_count = ns_count;
      ar_count = ar_count;
    },
    12,
  ))

unfoldable pub write_rr_header : ℕ → ℕ → ℕ → ℕ → Encoder
unfolding write_u16 write_u32 ◌⟫◌
write_rr_header rr_type class ttl rdlength =
    with_room 10 (write_u16 rr_type ⟫ write_u16 class ⟫ write_u32 ttl ⟫ write_u16 rdlength)

-- The record's length is written over the placeholder once its data stands.
unfoldable pub backfill : ℕ → ℕ → Encoder
unfolding set_at
backfill rdlength_pos rdata_start buf pos =
    let rdata_len = pos - rdata_start in
    if ltb 65535 rdata_len then err string_too_long else (do
      hi ← set_at buf rdlength_pos (rdata_len % 2 ^ 16 / 2 ^ 8 % 256)
      lo ← set_at hi (add_usize rdlength_pos 1) (rdata_len % 2 ^ 16 % 256)
      ok (lo, pos))

-- The header of a record and its data, with the backfilled length.
unfoldable pub write_record : ℕ → ℕ → Encoder → Encoder
unfolding write_rr_header backfill
write_record rr_type class rdata buf pos = do
  (headed, rdata_start) ← write_rr_header rr_type class mdns_ttl 0 buf pos
  (buf', after) ← rdata headed rdata_start
  backfill (add_usize pos 8) rdata_start buf' after

unfoldable pub encode_a_response : List ℕ → List ℕ → List ℕ → Result EncodeError (List ℕ × ℕ)
unfolding encode_header write_name write_rr_header store ◌⟫◌
encode_a_response hostname ip buf =
    (encode_header (response 1)
        ⟫ write_name hostname local_domain
        ⟫ write_rr_header type_a class_in_flush mdns_ttl 4
        ⟫ with_room 4 (λ b pos. do b' ← store b pos ip; ok (b', add_usize pos 4)))
      buf 0

unfoldable pub encode_ptr_response : List ℕ → List ℕ → List ℕ → Result EncodeError (List ℕ × ℕ)
unfolding encode_header write_name write_record ◌⟫◌
encode_ptr_response service instance_name buf =
    (encode_header (response 1)
        ⟫ write_name service []
        ⟫ write_record type_ptr class_in (write_name instance_name []))
      buf 0

unfoldable pub encode_srv_response : List ℕ → List ℕ → ℕ → List ℕ → Result EncodeError (List ℕ × ℕ)
unfolding encode_header write_name write_record write_u16 ◌⟫◌
encode_srv_response instance_name hostname port buf =
    (encode_header (response 1)
        ⟫ write_name instance_name []
        ⟫ write_record type_srv class_in_flush (
            with_room 6 (write_u16 0 ⟫ write_u16 0 ⟫ write_u16 port)
            ⟫ write_name hostname local_domain))
      buf 0

-- "key=value", or the key alone where the value is empty
abbrev pub pair_bytes : List ℕ × List ℕ → List ℕ
pair_bytes (key, []) = key
pair_bytes (key, c ∷ val) = key ++ (61 ∷ c ∷ val)

unfoldable pub write_pair : List ℕ × List ℕ → Encoder
unfolding store
write_pair pair buf pos =
    let bytes = pair_bytes pair in
    let pair_len = length bytes in
    if ltb 255 pair_len
    then err string_too_long
    else (if ltb (length buf) (add_usize (add_usize pos 1) pair_len)
        then err buffer_too_small
        else (do
          buf' ← store buf pos (pair_len % 256 ∷ bytes)
          ok (buf', add_usize (add_usize pos 1) pair_len)))

abbrev pub write_pairs : List (List ℕ × List ℕ) → Encoder
write_pairs [] = skip
write_pairs (pair ∷ txt) = write_pair pair ⟫ write_pairs txt

unfoldable pub encode_txt_response :
    List ℕ → List (List ℕ × List ℕ) → List ℕ → Result EncodeError (List ℕ × ℕ)
unfolding encode_header write_name write_record write_pair ◌⟫◌
encode_txt_response instance_name txt buf =
    (encode_header (response 1)
        ⟫ write_name instance_name []
        ⟫ write_record type_txt class_in_flush (write_pairs txt))
      buf 0

pub record DnsQuery : Type 0 where
  pub name : List ℕ
  pub qtype : ℕ
  pub qclass : ℕ

unfoldable pub decode_query : List ℕ → Result DecodeError DnsQuery
unfolding decode_header read_name read_u16
decode_query xs = do
  (hdr, pos) ← decode_header xs
  if hdr.qd_count == 0 then err invalid_data else (do
    (name, new_pos) ← read_name xs pos
    if ltb (length xs) (add_usize new_pos 4) then err unexpected_end else (do
      qtype ← read_u16 xs new_pos
      qclass ← read_u16 xs (add_usize new_pos 2)
      ok (record { name = name; qtype = qtype; qclass = qclass })))
