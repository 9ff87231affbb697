-- ===== src/Snmp/Message.antt =====
-- bridge-core/src/snmp.rs: the messages of SNMP v2c, a request read and a response written.
use micro_bacnet_bridge.Base.{
  ℕ, zero, suc, ◌+◌, List, [], ◌∷◌, ◌++◌, length, replicate, ltb, leb, ◌==◌, not, ◌&&◌,
  if◌then◌else◌, Result, ok, err, stuck, ◌>>=◌,
}
use micro_bacnet_bridge.Error.{
  EncodeError, buffer_too_small, DecodeError, invalid_data, invalid_version,
}
use micro_bacnet_bridge.Slice.{store, slice, Encoder, ◌⟫◌, skip}
use micro_bacnet_bridge.Snmp.{
  tag_sequence, tag_integer, tag_octet_string, tag_oid, tag_get_request, tag_get_next_request,
  tag_get_response, VarBind, SnmpRequest, Tlv, decode_tlv, decode_integer, decode_oid,
}
use micro_bacnet_bridge.Snmp.Encode.{
  encode_tlv_header, encode_integer, encode_octet_string, encode_varbind, ber_header_size,
  copy_within,
}

abbrev pub scratch_size : ℕ
scratch_size = 512

abbrev pub write_varbinds : List VarBind → Encoder
write_varbinds [] = skip
write_varbinds (vb ∷ bindings) = encode_varbind vb ⟫ write_varbinds bindings

-- The list of the bindings in its sequence: written at the start, then shifted right.
unfoldable pub varbind_list : List VarBind → Result EncodeError (List ℕ)
unfolding encode_varbind ber_header_size copy_within encode_tlv_header slice ◌⟫◌
varbind_list bindings = do
  (scratch, inner_len) ← write_varbinds bindings (replicate scratch_size 0) 0
  let total = ber_header_size inner_len + inner_len
  if ltb scratch_size total then err buffer_too_small else (do
    shifted ← copy_within scratch 0 inner_len (ber_header_size inner_len)
    (headed, _) ← encode_tlv_header tag_sequence inner_len shifted 0
    slice headed 0 total)

-- The three integers of the PDU and its bindings, in a scratch area of their own.
unfoldable pub pdu_content : ℕ → ℕ → ℕ → List ℕ → Result EncodeError (List ℕ)
unfolding encode_integer store slice ◌⟫◌
pdu_content request_id error_status error_index vbl_bytes = do
  (content, pp) ←
      (encode_integer request_id ⟫ encode_integer error_status ⟫ encode_integer error_index)
        (replicate scratch_size 0) 0
  if ltb (length content) (pp + length vbl_bytes)
      then err buffer_too_small
      else (do filled ← store content pp vbl_bytes; slice filled 0 (pp + length vbl_bytes))

-- The version, the community and the PDU, in a third one.
unfoldable pub message_content : List ℕ → List ℕ → Result EncodeError (List ℕ)
unfolding encode_integer encode_octet_string encode_tlv_header ber_header_size store slice ◌⟫◌
message_content community pdu = do
  (content, mp) ← (encode_integer 1 ⟫ encode_octet_string community) (replicate scratch_size 0) 0
  let hdr_size = ber_header_size (length pdu)
  if ltb (length content) (mp + hdr_size + length pdu) then err buffer_too_small else (do
    (headed, _) ← encode_tlv_header tag_get_response (length pdu) content mp
    filled ← store headed (mp + hdr_size) pdu
    slice filled 0 (mp + hdr_size + length pdu))

unfoldable pub encode_get_response :
    List ℕ → ℕ → List ℕ → ℕ → ℕ → List VarBind → Result EncodeError (List ℕ × ℕ)
unfolding varbind_list pdu_content message_content ber_header_size encode_tlv_header store
encode_get_response buf request_id community error_status error_index bindings = do
  vbl_bytes ← varbind_list bindings
  pdu ← pdu_content request_id error_status error_index vbl_bytes
  message ← message_content community pdu
  let hdr_size = ber_header_size (length message)
  if ltb (length buf) (hdr_size + length message) then err buffer_too_small else (do
    (headed, _) ← encode_tlv_header tag_sequence (length message) buf 0
    buf' ← store headed hdr_size message
    ok (buf', hdr_size + length message))

-- A TLV that must have the tag.
unfoldable pub expect : ℕ → List ℕ → ℕ → Result DecodeError Tlv
unfolding decode_tlv
expect tag xs pos = do
  tlv ← decode_tlv xs pos
  if not (tlv.tag == tag) then err invalid_data else (ok tlv)

unfoldable pub expect_integer : List ℕ → ℕ → Result DecodeError (ℕ × ℕ)
unfolding expect decode_integer
expect_integer xs pos = do
  tlv ← expect tag_integer xs pos
  v ← decode_integer xs tlv.value_start tlv.value_end
  ok (v, tlv.value_end)

-- The loop over the bindings: each takes two bytes at least.
unfoldable pub read_oids : ℕ → List ℕ → ℕ → List (List ℕ) → Result DecodeError (List (List ℕ))
unfolding expect decode_oid slice
read_oids zero vbl vp oids = stuck
read_oids (suc fuel) vbl vp oids = if leb (length vbl) vp then ok oids else (do
  tlv ← expect tag_sequence vbl vp
  vb ← slice vbl tlv.value_start tlv.value_end
  inner ← expect tag_oid vb 0
  oid ← decode_oid vb inner.value_start inner.value_end
  if leb 8 (length oids)
      then err invalid_data
      else (read_oids fuel vbl tlv.value_end (oids ++ (oid ∷ []))))

unfoldable pub decode_get_request : List ℕ → Result DecodeError SnmpRequest
unfolding expect expect_integer decode_tlv read_oids slice
decode_get_request xs = do
  outer ← expect tag_sequence xs 0
  msg ← slice xs outer.value_start outer.value_end
  (version, pos) ← expect_integer msg 0
  if not (version == 1) then err invalid_version else (do
    name ← expect tag_octet_string msg pos
    community ← slice msg name.value_start name.value_end
    if ltb 32 (length community) then err invalid_data else (do
      body ← decode_tlv msg name.value_end
      if not (body.tag == tag_get_request) && not (body.tag == tag_get_next_request)
          then err invalid_data
          else (do
            pdu ← slice msg body.value_start body.value_end
            (request_id, pp) ← expect_integer pdu 0
            status ← expect tag_integer pdu pp
            index ← expect tag_integer pdu status.value_end
            list ← expect tag_sequence pdu index.value_end
            vbl ← slice pdu list.value_start list.value_end
            oids ← read_oids (length vbl + 1) vbl 0 []
            ok (record {
              version = version;
              community = community;
              request_id = request_id;
              pdu_type = body.tag;
              oids = oids;
            }))))
