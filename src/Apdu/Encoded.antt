-- ===== src/Apdu/Encoded.antt =====
-- The encoders of bridge-core/src/apdu.rs against the format of the standard: all the bytes or none.
use micro_bacnet_bridge.Base.{ℕ, List, [], ◌∷◌, ◌++◌, ◌≡◌, ap, ◌∙◌}
use micro_bacnet_bridge.Slice.{IsSlice}
use micro_bacnet_bridge.Slice.Writing.{written, Emits-start}
use micro_bacnet_bridge.Apdu.Types.{ReadPropertyAnswer, WritePropertyRequest, CovNotification}
use micro_bacnet_bridge.Apdu.Encode.{
  encode_read_property_ack, encode_write_property, encode_ucov_notification,
}
use micro_bacnet_bridge.Apdu.Messages.{IsReadPropertyAnswer, IsWriteProperty, IsNotification}
use micro_bacnet_bridge.Apdu.Standard.{
  IsStandardValue, AreStandard, standard_write_property, standard_read_property_ack, standard_ucov,
  write_property-standard, read_property_ack-standard, ucov-standard,
}
use micro_bacnet_bridge.Apdu.RoundTrip.{Emits-read_property_ack, Emits-write_property}
use micro_bacnet_bridge.Apdu.Discovery.{Emits-ucov}

-- A WriteProperty request is written as ASHRAE 135 has it, with the integers of its value in the
-- fewest octets, over the start of a buffer that holds it, and `BufferTooSmall` is returned for any
-- smaller buffer; no index is out of bounds. Its value is no signed integer that needs three octets,
-- its fields are in the ranges of their Rust types, its instance number has 22 bits, its property is
-- no known one under its raw code, and the buffer has fewer than 2 ^ 31 bytes.
pub encode_write_property_lem :
    (req : WritePropertyRequest) (invoke_id : ℕ) (buf : List ℕ)
    → IsWriteProperty req
    → IsStandardValue req.value
    → IsSlice buf
    → encode_write_property req invoke_id buf 0
      ≡ written [] ((0x00 ∷ 0x05 ∷ invoke_id ∷ 0x0F ∷ []) ++ standard_write_property req) buf
encode_write_property_lem req invoke_id buf v n h =
    Emits-start (Emits-write_property req invoke_id v) buf h
    ∙ ap (λ (bs : List ℕ). written [] ((0x00 ∷ 0x05 ∷ invoke_id ∷ 0x0F ∷ []) ++ bs) buf)
        (write_property-standard req v.value n)

-- A ReadProperty answer is written as ASHRAE 135 has it, with the integers of its value in the
-- fewest octets, over the start of a buffer that holds it, and `BufferTooSmall` is returned for any
-- smaller buffer. Its value is no signed integer that needs three octets, its fields are in the
-- ranges of their Rust types, its instance number has 22 bits, its property is no known one under its
-- raw code, and the buffer has fewer than 2 ^ 31 bytes.
pub encode_read_property_ack_lem :
    (ack : ReadPropertyAnswer) (invoke_id : ℕ) (buf : List ℕ)
    → IsReadPropertyAnswer ack
    → IsStandardValue ack.value
    → IsSlice buf
    → encode_read_property_ack ack invoke_id buf 0
      ≡ written [] ((0x30 ∷ invoke_id ∷ 0x0C ∷ []) ++ standard_read_property_ack ack) buf
encode_read_property_ack_lem ack invoke_id buf v n h =
    Emits-start (Emits-read_property_ack ack invoke_id v) buf h
    ∙ ap (λ (bs : List ℕ). written [] ((0x30 ∷ invoke_id ∷ 0x0C ∷ []) ++ bs) buf)
        (read_property_ack-standard ack v.value n)

-- A notification of at most eight values is written as ASHRAE 135 has it, with the integers of its
-- values in the fewest octets, over the start of a buffer that holds it, and `BufferTooSmall` is
-- returned for any smaller buffer. None of the values is a signed integer that needs three octets,
-- its fields are in the ranges of their Rust types, both instance numbers have 22 bits, no property is
-- a known one under its raw code, and the buffer has fewer than 2 ^ 31 bytes.
pub encode_ucov_notification_lem :
    (notif : CovNotification) (buf : List ℕ)
    → IsNotification notif
    → AreStandard notif.values
    → IsSlice buf
    → encode_ucov_notification notif buf 0
      ≡ written [] ((0x10 ∷ 0x02 ∷ []) ++ standard_ucov notif) buf
encode_ucov_notification_lem notif buf v n h =
    Emits-start (Emits-ucov notif v) buf h
    ∙ ap (λ (bs : List ℕ). written [] ((0x10 ∷ 0x02 ∷ []) ++ bs) buf)
        (ucov-standard notif v.entries n)
