-- ===== src/Apdu/Decode.antt =====
-- bridge-core/src/apdu.rs, `decode_apdu` and the services that it decodes.
use micro_bacnet_bridge.Base
use micro_bacnet_bridge.Base.{
  ℕ, zero, suc, ◌+◌, ◌%◌, ◌^◌, bit_and, List, [], ◌∷◌, ◌++◌, Bool, false,
}
use micro_bacnet_bridge.Base.{Option, none, some, not, ltb, ◌==◌, if◌then◌else◌, length, get_or}
use micro_bacnet_bridge.Base.{Result, ok, err, stuck, ok_or}
use micro_bacnet_bridge.Error.{DecodeError, unexpected_end, invalid_data}
use micro_bacnet_bridge.Slice.{add_usize, byte_at, slice_from, dneed}
use micro_bacnet_bridge.Slice.Decoder.{Decoder, ◌>>=◌, ◌>>◌, lift, pure}
use micro_bacnet_bridge.Bacnet.{ObjectId, PropertyId, property_from_code, BacnetValue}
use micro_bacnet_bridge.Bacnet.{object_id, unsigned_int, enumerated}
use micro_bacnet_bridge.Apdu.Types.{
  DecodedApdu, who_is, i_am, read_property, read_property_ack, write_property, subscribe_cov,
  unconfirmed_cov_notification, simple_ack, error, unknown, max_values, service_who_is,
  service_i_am, service_ucov_notification, service_subscribe_cov, service_read_property,
  service_write_property,
}
use micro_bacnet_bridge.Apdu.Read.{
  decode_tag, decode_unsigned, decode_app_value, decode_context_unsigned, decode_context_object_id,
  expect_opening_tag, expect_closing_tag, is_closing_tag,
}
use mathlib.Core.Option

-- `….ok_or(DecodeError::InvalidData)?` and the `match` of a value on one constructor.
unfoldable pub required {ℓ} : {A : Type ℓ} → Option A → Decoder A
required o = lift (ok_or o invalid_data)

unfoldable pub as_object_id : BacnetValue → Option ObjectId
as_object_id (object_id id) = some id
as_object_id _ = none

unfoldable pub as_unsigned : BacnetValue → Option ℕ
as_unsigned (unsigned_int v) = some v
as_unsigned _ = none

unfoldable pub as_enumerated : BacnetValue → Option ℕ
as_enumerated (enumerated v) = some v
as_enumerated _ = none

unfoldable pub decode_limits : Decoder DecodedApdu
decode_limits = do
  low ← decode_context_unsigned 0
  high ← decode_context_unsigned 1
  pure (who_is (record { low_limit = low; high_limit = high }))

unfoldable pub decode_who_is : Decoder DecodedApdu
decode_who_is xs pos =
    if length xs == 0
    then ok (who_is (record { low_limit = none; high_limit = none }), pos)
    else decode_limits xs pos

unfoldable pub decode_i_am : Decoder DecodedApdu
decode_i_am = do
  device_val ← decode_app_value
  device_id ← required (as_object_id device_val)
  max_apdu_val ← decode_app_value
  max_apdu ← required (as_unsigned max_apdu_val)
  seg_val ← decode_app_value
  segmentation ← required (as_enumerated seg_val)
  vendor_val ← decode_app_value
  vendor_id ← required (as_unsigned vendor_val)
  pure (
      i_am (record {
        device_id = device_id;
        max_apdu = max_apdu;
        segmentation = segmentation % 2 ^ 8;
        vendor_id = vendor_id % 2 ^ 16;
      }))

unfoldable pub decode_read_property : ℕ → Decoder DecodedApdu
decode_read_property invoke_id = do
  id ← decode_context_object_id 0
  id' ← required id
  prop ← decode_context_unsigned 1
  prop' ← required prop
  index ← decode_context_unsigned 2
  pure (
      read_property
        (record { object_id = id'; property_id = property_from_code prop'; array_index = index })
        invoke_id)

unfoldable pub decode_read_property_ack : ℕ → Decoder DecodedApdu
decode_read_property_ack invoke_id = do
  id ← decode_context_object_id 0
  id' ← required id
  prop ← decode_context_unsigned 1
  prop' ← required prop
  index ← decode_context_unsigned 2
  expect_opening_tag 3
  value ← decode_app_value
  expect_closing_tag 3
  pure (
      read_property_ack
        (record {
          object_id = id';
          property_id = property_from_code prop';
          array_index = index;
          value = value;
        })
        invoke_id)

unfoldable pub decode_write_property : ℕ → Decoder DecodedApdu
decode_write_property invoke_id = do
  id ← decode_context_object_id 0
  id' ← required id
  prop ← decode_context_unsigned 1
  prop' ← required prop
  index ← decode_context_unsigned 2
  expect_opening_tag 3
  value ← decode_app_value
  expect_closing_tag 3
  priority ← decode_context_unsigned 4
  pure (
      write_property
        (record {
          object_id = id';
          property_id = property_from_code prop';
          array_index = index;
          value = value;
          priority = Option.map (λ p. p % 2 ^ 8) priority;
        })
        invoke_id)

-- `.map(|v| v != 0).unwrap_or(false)`
unfoldable pub is_nonzero : Option ℕ → Bool
is_nonzero none = false
is_nonzero (some v) = not (v == 0)

unfoldable pub decode_subscribe_cov : ℕ → Decoder DecodedApdu
decode_subscribe_cov invoke_id = do
  process ← decode_context_unsigned 0
  process' ← required process
  id ← decode_context_object_id 1
  id' ← required id
  confirmed ← decode_context_unsigned 2
  lifetime ← decode_context_unsigned 3
  pure (
      subscribe_cov
        (record {
          subscriber_process_id = process';
          monitored_object = id';
          issue_confirmed = is_nonzero confirmed;
          lifetime = lifetime;
        })
        invoke_id)

-- One turn of the loop over the list of values.
unfoldable pub decode_entry : Decoder (PropertyId × BacnetValue)
decode_entry = do
  prop ← decode_context_unsigned 0
  prop' ← required prop
  skipped ← decode_context_unsigned 1
  expect_opening_tag 2
  val ← decode_app_value
  expect_closing_tag 2
  pure (property_from_code prop', val)

-- `let _ = values.push(…)`: a full vector drops the pair.
unfoldable pub push_value :
    List (PropertyId × BacnetValue) → PropertyId × BacnetValue → List (PropertyId × BacnetValue)
push_value vs v = if ltb (length vs) max_values then vs ++ (v ∷ []) else vs

-- `while !is_closing_tag(data, pos, 4)` with fuel.
unfoldable pub decode_entries :
    ℕ → List (PropertyId × BacnetValue) → Decoder (List (PropertyId × BacnetValue))
decode_entries zero vs xs pos = stuck
decode_entries (suc fuel) vs xs pos =
    let more = (decode_entry >>= λ v. decode_entries fuel (push_value vs v)) xs pos in
    if is_closing_tag xs pos 4 then ok (vs, pos) else more

-- `if pos < data.len() { … }`
unfoldable pub decode_values : ℕ → Decoder (List (PropertyId × BacnetValue))
decode_values fuel xs pos =
    let list =
      (do expect_opening_tag 4; vs ← decode_entries fuel []; expect_closing_tag 4; pure vs) xs
        pos in
    if ltb pos (length xs) then list else ok ([], pos)

unfoldable pub decode_ucov_notification : ℕ → Decoder DecodedApdu
decode_ucov_notification fuel = do
  process ← decode_context_unsigned 0
  process' ← required process
  device ← decode_context_object_id 1
  device' ← required device
  monitored ← decode_context_object_id 2
  monitored' ← required monitored
  time ← decode_context_unsigned 3
  time' ← required time
  values ← decode_values fuel
  pure (
      unconfirmed_cov_notification (record {
        subscriber_process_id = process';
        initiating_device = device';
        monitored_object = monitored';
        time_remaining = time';
        values = values;
      }))

-- An unsigned under any tag, cut to 16 bits, or 0 at the end of the data.
unfoldable pub decode_error_field : Decoder ℕ
unfolding decode_tag decode_unsigned
decode_error_field xs pos =
    if ltb pos (length xs)
    then Base.◌>>=◌ (decode_tag xs pos) (λ tag.
      let vpos = add_usize pos tag.header_len in
      Base.◌>>=◌ (decode_unsigned xs vpos tag.lvt) (λ v. ok (v % 2 ^ 16, add_usize vpos tag.lvt)))
    else ok (0, pos)

unfoldable pub decode_error : ℕ → ℕ → Decoder DecodedApdu
decode_error invoke_id service = do
  error_class ← decode_error_field
  error_code ← decode_error_field
  pure (error invoke_id service error_class error_code)

-- A decoder run on `&data[start..]`, from its start.
unfoldable pub run_from {ℓ} : {A : Type ℓ} → Decoder A → List ℕ → ℕ → Result DecodeError A
unfolding slice_from
run_from d xs start =
    Base.◌>>=◌ (slice_from xs start) (λ rest. Base.◌>>=◌ (d rest 0) (λ (x, pos). ok x))

unfoldable pub decode_unconfirmed : ℕ → List ℕ → Result DecodeError DecodedApdu
unfolding run_from dneed byte_at
decode_unconfirmed fuel xs = Base.◌>>=◌ (dneed xs 0 2) (λ _. Base.◌>>=◌ (byte_at xs 1) (λ service.
    if service == service_who_is
    then run_from decode_who_is xs 2
    else if service == service_i_am
    then run_from decode_i_am xs 2
    else if service == service_ucov_notification
    then run_from (decode_ucov_notification fuel) xs 2
    else ok (unknown 0x10 service)))

unfoldable pub decode_confirmed : List ℕ → Result DecodeError DecodedApdu
unfolding run_from dneed byte_at
decode_confirmed xs = Base.◌>>=◌ (dneed xs 0 4) (λ _. Base.◌>>=◌ (byte_at xs 2) (λ invoke_id.
    Base.◌>>=◌ (byte_at xs 3) (λ service.
      if service == service_read_property
      then run_from (decode_read_property invoke_id) xs 4
      else if service == service_write_property
      then run_from (decode_write_property invoke_id) xs 4
      else if service == service_subscribe_cov
      then run_from (decode_subscribe_cov invoke_id) xs 4
      else ok (unknown 0x00 service))))

-- The invoke id and the service code of an answer, checked to be there.
unfoldable pub with_service {ℓ} :
    {A : Type ℓ} → List ℕ → (ℕ → ℕ → Result DecodeError A) → Result DecodeError A
unfolding dneed byte_at
with_service xs k =
    Base.◌>>=◌ (dneed xs 0 3)
      (λ _. Base.◌>>=◌ (byte_at xs 1) (λ invoke_id. Base.◌>>=◌ (byte_at xs 2) (k invoke_id)))

unfoldable pub decode_complex_ack : List ℕ → Result DecodeError DecodedApdu
unfolding with_service run_from
decode_complex_ack xs = with_service xs (λ invoke_id service.
    if service == service_read_property
    then run_from (decode_read_property_ack invoke_id) xs 3
    else ok (unknown 0x30 service))

-- The error fields are read in the whole data, from index 3 on.
unfoldable pub decode_error_pdu : List ℕ → Result DecodeError DecodedApdu
unfolding with_service
decode_error_pdu xs =
    with_service xs
      (λ invoke_id service. Base.◌>>=◌ (decode_error invoke_id service xs 3) (λ (x, pos). ok x))

-- The fuel is for the loop over the values of a notification.
unfoldable pub decode_apdu : ℕ → List ℕ → Result DecodeError DecodedApdu
unfolding decode_unconfirmed decode_confirmed decode_complex_ack decode_error_pdu
decode_apdu fuel [] = err unexpected_end
decode_apdu fuel (b ∷ xs) =
    let pdu_type = bit_and b 0xF0 in
    if pdu_type == 0x10
    then decode_unconfirmed fuel (b ∷ xs)
    else if pdu_type == 0x00
    then decode_confirmed (b ∷ xs)
    else if pdu_type == 0x30
    then decode_complex_ack (b ∷ xs)
    else if pdu_type == 0x20
    then with_service (b ∷ xs) (λ invoke_id service. ok (simple_ack invoke_id service))
    else if pdu_type == 0x50
    then decode_error_pdu (b ∷ xs)
    else ok (unknown pdu_type (get_or (b ∷ xs) 1 0))
