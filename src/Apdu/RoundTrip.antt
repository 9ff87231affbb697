-- ===== src/Apdu/RoundTrip.antt =====
-- Encoding then decoding, in bridge-core/src/apdu.rs: what `decode_apdu` makes of the bytes that the
-- encoding functions put into a buffer.
use micro_bacnet_bridge.Base.{ℕ, ◌<◌, ◌≡◌, refl, arith, List, [], ◌∷◌, ◌++◌, ok, take}
use micro_bacnet_bridge.Slice.{IsSlice, Encoder, ◌⟫◌}
use micro_bacnet_bridge.Slice.Writing.{Emits, Emits-emit, Emits-⟫, received}
use micro_bacnet_bridge.Bacnet.{ObjectId, PropertyId, property_code, BacnetValue}
use micro_bacnet_bridge.Bacnet.Values.{IsValue}
use micro_bacnet_bridge.Apdu.Types.{
  ReadPropertyRequest, ReadPropertyAnswer, WritePropertyRequest, read_property, read_property_ack,
  write_property,
}
use micro_bacnet_bridge.Apdu.Write.{
  encode_context_unsigned, encode_context_object_id, encode_opening_tag, encode_closing_tag,
  encode_app_value,
}
use micro_bacnet_bridge.Apdu.Encode.{
  encode_read_property, encode_read_property_ack, encode_write_property,
}
use micro_bacnet_bridge.Apdu.Decode.{decode_apdu}
use micro_bacnet_bridge.Apdu.Dispatch.{
  dispatch-read_property, dispatch-write_property, dispatch-read_property_ack,
}
use micro_bacnet_bridge.Apdu.Messages.{
  property_bytes, read_property_bytes, IsReadProperty, bracketed, read_property_ack_bytes,
  IsReadPropertyAnswer, write_property_bytes, IsWriteProperty,
}
use micro_bacnet_bridge.Apdu.WriteLaws.{
  Emits-context_unsigned, Emits-context_object_id, Emits-opening_tag, Emits-closing_tag,
  Emits-optional, Emits-app_value,
}
use micro_bacnet_bridge.Apdu.Requests.{
  Reads-read_property, Reads-read_property_ack, Reads-write_property,
}

Emits-property :
    (id : ObjectId) (p : PropertyId) {f : Encoder} {bs : List ℕ}
    → Emits f bs
    → Emits
        (encode_context_object_id 0 id ⟫ encode_context_unsigned 1 (property_code p) ⟫ f)
        (property_bytes id p bs)
Emits-property id p hf =
    Emits-⟫ (Emits-context_object_id 0 id (omega arith))
      (Emits-⟫ (Emits-context_unsigned 1 (property_code p) (omega arith)) hf)

pub Emits-bracketed :
    (tag : ℕ) (v : BacnetValue) {f : Encoder} {bs : List ℕ}
    → tag < 16
    → IsValue v
    → Emits f bs
    → Emits
        (encode_opening_tag tag ⟫ encode_app_value v ⟫ encode_closing_tag tag ⟫ f)
        (bracketed tag v bs)
Emits-bracketed tag v ht hv hf =
    Emits-⟫ (Emits-opening_tag tag ht)
      (Emits-⟫ (Emits-app_value v hv) (Emits-⟫ (Emits-closing_tag tag ht) hf))

pub Emits-bracketed_last :
    (tag : ℕ) (v : BacnetValue)
    → tag < 16
    → IsValue v
    → Emits
        (encode_opening_tag tag ⟫ encode_app_value v ⟫ encode_closing_tag tag)
        (bracketed tag v [])
Emits-bracketed_last tag v ht hv =
    Emits-⟫ (Emits-opening_tag tag ht) (Emits-⟫ (Emits-app_value v hv) (Emits-closing_tag tag ht))

abbrev pub confirmed : ℕ → ℕ → List ℕ
confirmed invoke_id service = 0x00 ∷ 0x05 ∷ invoke_id ∷ service ∷ []

Emits-read_property :
    (req : ReadPropertyRequest) (invoke_id : ℕ)
    → Emits
        (encode_read_property req invoke_id)
        (confirmed invoke_id 0x0C ++ read_property_bytes req)
unfolding encode_read_property
Emits-read_property req invoke_id =
    Emits-⟫ (Emits-emit 4 (confirmed invoke_id 0x0C) refl (omega arith)) (
      Emits-property req.object_id req.property_id (Emits-optional 2 req.array_index (omega arith)))

-- A ReadProperty request that was encoded into a buffer of fewer than 2 ^ 31 bytes is decoded to
-- itself, with its invoke id, where its fields are in the ranges of their Rust types, its instance
-- numbers have 22 bits, and its property is not a known one under its raw code.
pub read_property_round_trip :
    (fuel : ℕ) (req : ReadPropertyRequest) (invoke_id : ℕ) (buf : List ℕ) {buf' : List ℕ} {n : ℕ}
    → IsReadProperty req
    → IsSlice buf
    → encode_read_property req invoke_id buf 0 ≡ ok (buf', n)
    → decode_apdu fuel (take n buf') ≡ ok (read_property req invoke_id)
read_property_round_trip fuel req invoke_id buf v h e =
    received (decode_apdu fuel) (confirmed invoke_id 0x0C) (read_property_bytes req)
      (Emits-read_property req invoke_id) buf h e
      (dispatch-read_property fuel invoke_id (Reads-read_property req invoke_id v))

pub Emits-read_property_ack :
    (ack : ReadPropertyAnswer) (invoke_id : ℕ)
    → IsReadPropertyAnswer ack
    → Emits
        (encode_read_property_ack ack invoke_id)
        ((0x30 ∷ invoke_id ∷ 0x0C ∷ []) ++ read_property_ack_bytes ack)
unfolding encode_read_property_ack
Emits-read_property_ack ack invoke_id v =
    Emits-⟫ (Emits-emit 3 (0x30 ∷ invoke_id ∷ 0x0C ∷ []) refl (omega arith)) (
      Emits-property ack.object_id ack.property_id (
        Emits-⟫ (Emits-optional 2 ack.array_index (omega arith))
          (Emits-bracketed_last 3 ack.value (omega arith) v.value)))

-- A ReadProperty answer that was encoded into a buffer of fewer than 2 ^ 31 bytes is decoded to
-- itself, its value included, where its fields are in the ranges of their Rust types, its instance
-- numbers have 22 bits, and its property is not a known one under its raw code; a text is valid
-- UTF-8 of at most 64 bytes.
pub read_property_ack_round_trip :
    (fuel : ℕ) (ack : ReadPropertyAnswer) (invoke_id : ℕ) (buf : List ℕ) {buf' : List ℕ} {n : ℕ}
    → IsReadPropertyAnswer ack
    → IsSlice buf
    → encode_read_property_ack ack invoke_id buf 0 ≡ ok (buf', n)
    → decode_apdu fuel (take n buf') ≡ ok (read_property_ack ack invoke_id)
read_property_ack_round_trip fuel ack invoke_id buf v h e =
    received (decode_apdu fuel) (0x30 ∷ invoke_id ∷ 0x0C ∷ []) (read_property_ack_bytes ack)
      (Emits-read_property_ack ack invoke_id v) buf h e
      (dispatch-read_property_ack fuel invoke_id (Reads-read_property_ack ack invoke_id v))

pub Emits-write_property :
    (req : WritePropertyRequest) (invoke_id : ℕ)
    → IsWriteProperty req
    → Emits
        (encode_write_property req invoke_id)
        (confirmed invoke_id 0x0F ++ write_property_bytes req)
unfolding encode_write_property
Emits-write_property req invoke_id v =
    Emits-⟫ (Emits-emit 4 (confirmed invoke_id 0x0F) refl (omega arith)) (
      Emits-property req.object_id req.property_id (
        Emits-⟫ (Emits-optional 2 req.array_index (omega arith)) (
          Emits-bracketed 3 req.value (omega arith) v.value
            (Emits-optional 4 req.priority (omega arith)))))

-- A WriteProperty request that was encoded into a buffer of fewer than 2 ^ 31 bytes is decoded to
-- itself, its value, index and priority included, where its fields are in the ranges of their Rust
-- types, its instance numbers have 22 bits, and its property is not a known one under its raw
-- code; a text is valid UTF-8 of at most 64 bytes.
pub write_property_round_trip :
    (fuel : ℕ) (req : WritePropertyRequest) (invoke_id : ℕ) (buf : List ℕ) {buf' : List ℕ} {n : ℕ}
    → IsWriteProperty req
    → IsSlice buf
    → encode_write_property req invoke_id buf 0 ≡ ok (buf', n)
    → decode_apdu fuel (take n buf') ≡ ok (write_property req invoke_id)
write_property_round_trip fuel req invoke_id buf v h e =
    received (decode_apdu fuel) (confirmed invoke_id 0x0F) (write_property_bytes req)
      (Emits-write_property req invoke_id v) buf h e
      (dispatch-write_property fuel invoke_id (Reads-write_property req invoke_id v))
