-- ===== src/Apdu/Encode.antt =====
-- bridge-core/src/apdu.rs, the encoding functions: one request or answer, from the start of a buffer.
use micro_bacnet_bridge.Base.{ℕ, List, [], ◌∷◌, Option, none, some, if◌then◌else◌}
use micro_bacnet_bridge.Slice.{Encoder, emit, skip, ◌⟫◌}
use micro_bacnet_bridge.Bacnet.{PropertyId, BacnetValue, property_code}
use micro_bacnet_bridge.Apdu.Types.{
  IAmData, ReadPropertyRequest, ReadPropertyAnswer, WritePropertyRequest, SubscribeCovRequest,
  CovNotification, pdu_confirmed_request, pdu_unconfirmed_request, pdu_simple_ack, pdu_complex_ack,
  pdu_error, service_who_is, service_i_am, service_ucov_notification, service_subscribe_cov,
  service_read_property, service_write_property,
}
use micro_bacnet_bridge.Apdu.Write.{
  encode_app_unsigned, encode_context_unsigned, encode_app_object_id, encode_context_object_id,
  encode_app_enumerated, encode_opening_tag, encode_closing_tag, encode_app_value,
}

-- `if let Some(v) = … { encode_context_unsigned(tag, v, buf, &mut pos)?; }`
abbrev pub encode_optional : ℕ → Option ℕ → Encoder
encode_optional tag none = skip
encode_optional tag (some v) = encode_context_unsigned tag v

-- The limits are written only where both are given.
unfoldable pub encode_limits : Option ℕ → Option ℕ → Encoder
encode_limits none high = skip
encode_limits (some lo) none = skip
encode_limits (some lo) (some hi) = encode_context_unsigned 0 lo ⟫ encode_context_unsigned 1 hi

unfoldable pub encode_who_is : Option ℕ → Option ℕ → Encoder
unfolding encode_limits
encode_who_is low high =
    emit 2 (pdu_unconfirmed_request ∷ service_who_is ∷ []) ⟫ encode_limits low high

unfoldable pub encode_i_am : IAmData → Encoder
encode_i_am iam =
    emit 2 (pdu_unconfirmed_request ∷ service_i_am ∷ [])
    ⟫ encode_app_object_id iam.device_id
    ⟫ encode_app_unsigned iam.max_apdu
    ⟫ encode_app_enumerated iam.segmentation
    ⟫ encode_app_unsigned iam.vendor_id

unfoldable pub encode_read_property : ReadPropertyRequest → ℕ → Encoder
encode_read_property req invoke_id =
    emit 4 (pdu_confirmed_request ∷ 0x05 ∷ invoke_id ∷ service_read_property ∷ [])
    ⟫ encode_context_object_id 0 req.object_id
    ⟫ encode_context_unsigned 1 (property_code req.property_id)
    ⟫ encode_optional 2 req.array_index

unfoldable pub encode_read_property_ack : ReadPropertyAnswer → ℕ → Encoder
encode_read_property_ack ack invoke_id =
    emit 3 (pdu_complex_ack ∷ invoke_id ∷ service_read_property ∷ [])
    ⟫ encode_context_object_id 0 ack.object_id
    ⟫ encode_context_unsigned 1 (property_code ack.property_id)
    ⟫ encode_optional 2 ack.array_index
    ⟫ encode_opening_tag 3
    ⟫ encode_app_value ack.value
    ⟫ encode_closing_tag 3

unfoldable pub encode_write_property : WritePropertyRequest → ℕ → Encoder
encode_write_property req invoke_id =
    emit 4 (pdu_confirmed_request ∷ 0x05 ∷ invoke_id ∷ service_write_property ∷ [])
    ⟫ encode_context_object_id 0 req.object_id
    ⟫ encode_context_unsigned 1 (property_code req.property_id)
    ⟫ encode_optional 2 req.array_index
    ⟫ encode_opening_tag 3
    ⟫ encode_app_value req.value
    ⟫ encode_closing_tag 3
    ⟫ encode_optional 4 req.priority

unfoldable pub encode_simple_ack : ℕ → ℕ → Encoder
encode_simple_ack invoke_id service = emit 3 (pdu_simple_ack ∷ invoke_id ∷ service ∷ [])

unfoldable pub encode_error : ℕ → ℕ → ℕ → ℕ → Encoder
encode_error invoke_id service error_class error_code =
    emit 3 (pdu_error ∷ invoke_id ∷ service ∷ [])
    ⟫ encode_app_enumerated error_class
    ⟫ encode_app_enumerated error_code

unfoldable pub encode_subscribe_cov : SubscribeCovRequest → ℕ → Encoder
encode_subscribe_cov req invoke_id =
    emit 4 (pdu_confirmed_request ∷ 0x05 ∷ invoke_id ∷ service_subscribe_cov ∷ [])
    ⟫ encode_context_unsigned 0 req.subscriber_process_id
    ⟫ encode_context_object_id 1 req.monitored_object
    ⟫ encode_context_unsigned 2 (if req.issue_confirmed then 1 else 0)
    ⟫ encode_optional 3 req.lifetime

-- One turn of `for (prop, val) in &notif.values`, and the loop.
unfoldable pub encode_entry : PropertyId × BacnetValue → Encoder
encode_entry (prop, val) =
    encode_context_unsigned 0 (property_code prop)
    ⟫ encode_opening_tag 2
    ⟫ encode_app_value val
    ⟫ encode_closing_tag 2

unfoldable pub encode_entries : List (PropertyId × BacnetValue) → Encoder
encode_entries [] = skip
encode_entries (e ∷ es) = encode_entry e ⟫ encode_entries es

unfoldable pub encode_ucov_notification : CovNotification → Encoder
encode_ucov_notification notif =
    emit 2 (pdu_unconfirmed_request ∷ service_ucov_notification ∷ [])
    ⟫ encode_context_unsigned 0 notif.subscriber_process_id
    ⟫ encode_context_object_id 1 notif.initiating_device
    ⟫ encode_context_object_id 2 notif.monitored_object
    ⟫ encode_context_unsigned 3 notif.time_remaining
    ⟫ encode_opening_tag 4
    ⟫ encode_entries notif.values
    ⟫ encode_closing_tag 4
