-- ===== src/Tests/Services.antt =====
-- The services of bridge-core/src/apdu.rs and the identifiers of bridge-core/src/bacnet.rs at
-- concrete requests.
use micro_bacnet_bridge.Base.{
  ℕ, ◌^◌, ◌<◌, ◌≡◌, refl, arith, List, [], ◌∷◌, ◌++◌, true, none, some, take, replicate,
}
use micro_bacnet_bridge.Base.{ok}
use micro_bacnet_bridge.Slice.{◌⟫◌, emit}
use micro_bacnet_bridge.Slice.Writing.{written}
use micro_bacnet_bridge.Bacnet.{
  ObjectType, ObjectId, to_raw, from_raw, type_code, present_value, property_code,
  property_from_code, signed_int, real, char_string, enumerated,
}
use micro_bacnet_bridge.Bacnet.Codes.{from_raw-to_raw, to_raw-from_raw}
use micro_bacnet_bridge.Bacnet.Values.{is_utf8}
use micro_bacnet_bridge.Apdu.Types.{
  IAmData, ReadPropertyRequest, ReadPropertyAnswer, WritePropertyRequest, SubscribeCovRequest,
  CovNotification, who_is, i_am, read_property, read_property_ack, write_property, subscribe_cov,
  unconfirmed_cov_notification,
}
use micro_bacnet_bridge.Apdu.Write.{
  encode_minimal, encode_app_unsigned, encode_context_unsigned, encode_app_object_id,
  encode_context_object_id, encode_app_enumerated, encode_opening_tag, encode_closing_tag,
  encode_signed, encode_text, encode_app_value,
}
use micro_bacnet_bridge.Apdu.Encode.{
  encode_limits, encode_who_is, encode_i_am, encode_read_property, encode_read_property_ack,
  encode_write_property, encode_subscribe_cov, encode_entry, encode_entries,
  encode_ucov_notification,
}
use micro_bacnet_bridge.Apdu.Decode.{decode_apdu}
use micro_bacnet_bridge.Apdu.Messages.{
  IsProperty, IsReadPropertyAnswer, IsWriteProperty, IsNotification,
}
use micro_bacnet_bridge.Apdu.RoundTrip.{
  read_property_round_trip, read_property_ack_round_trip, write_property_round_trip,
}
use micro_bacnet_bridge.Apdu.Discovery.{
  i_am_round_trip, who_is_round_trip, subscribe_cov_round_trip, ucov_round_trip,
}
use micro_bacnet_bridge.Apdu.Wire.{int_bytes}
use micro_bacnet_bridge.Apdu.Write.{be_bytes}
use micro_bacnet_bridge.Apdu.Standard.{
  IsThreeOctets, without_signs, standard_write_property, standard_read_property_ack, standard_ucov,
}
use micro_bacnet_bridge.Apdu.Encoded.{
  encode_write_property_lem, encode_read_property_ack_lem, encode_ucov_notification_lem,
}

abbrev buffer : List ℕ
buffer = replicate 48 0

abbrev analog : ObjectId
analog = record { object_type = ObjectType.analog_value; instance_num = 7 }

abbrev device : ObjectId
device = record { object_type = ObjectType.device; instance_num = 389001 }

-- A setpoint of 21.5, at priority 8.
abbrev write_setpoint : WritePropertyRequest
write_setpoint = record {
  object_id = analog;
  property_id = present_value;
  array_index = none;
  value = real 0x41AC_0000;
  priority = some 8;
}

abbrev write_setpoint_wire : List ℕ
write_setpoint_wire =
    0x00 ∷ 0x05 ∷ 9 ∷ 0x0F ∷ 0x0C ∷ 0x00 ∷ 0x80 ∷ 0x00 ∷ 0x07 ∷ 0x19 ∷ 85 ∷ 0x3E ∷ 0x44 ∷ 0x41
    ∷ 0xAC ∷ 0x00 ∷ 0x00 ∷ 0x3F ∷ 0x49 ∷ 8 ∷ []

present_value-IsProperty : IsProperty present_value
unfolding property_code property_from_code
present_value-IsProperty = record { code = omega arith; canonical = refl }

write_setpoint-IsWriteProperty : IsWriteProperty write_setpoint
write_setpoint-IsWriteProperty = record {
  id = omega arith;
  property = present_value-IsProperty;
  index = tt;
  value = omega arith;
  priority = omega arith;
}

write_setpoint_sent :
    encode_write_property write_setpoint 9 buffer 0 ≡ ok (write_setpoint_wire ++ replicate 28 0, 20)
unfolding encode_write_property ◌⟫◌ emit encode_context_object_id encode_context_unsigned
    encode_minimal encode_opening_tag encode_app_value encode_closing_tag to_raw type_code
    property_code
write_setpoint_sent = refl

write_property_round_trip_example :
    decode_apdu 0 (take 20 (write_setpoint_wire ++ replicate 28 0))
    ≡ ok (write_property write_setpoint 9)
write_property_round_trip_example =
    write_property_round_trip 0 write_setpoint 9 buffer write_setpoint-IsWriteProperty (omega arith)
      write_setpoint_sent

encode_write_property_lem_example :
    encode_write_property write_setpoint 9 (replicate 19 0) 0
    ≡ written []
        ((0x00 ∷ 0x05 ∷ 9 ∷ 0x0F ∷ []) ++ standard_write_property write_setpoint)
        (replicate 19 0)
encode_write_property_lem_example =
    encode_write_property_lem write_setpoint 9 (replicate 19 0) write_setpoint-IsWriteProperty tt
      (omega arith)

abbrev read_value : ReadPropertyRequest
read_value = record { object_id = analog; property_id = present_value; array_index = some 300 }

read_value_sent :
    encode_read_property read_value 1 buffer 0
    ≡ ok (
      (0x00 ∷ 0x05 ∷ 1 ∷ 0x0C ∷ 0x0C ∷ 0x00 ∷ 0x80 ∷ 0x00 ∷ 0x07 ∷ 0x19 ∷ 85 ∷ 0x2A ∷ 1 ∷ 44 ∷ [])
          ++ replicate 34 0,
      14,
    )
unfolding encode_read_property ◌⟫◌ emit encode_context_object_id encode_context_unsigned
    encode_minimal to_raw type_code property_code
read_value_sent = refl

read_property_round_trip_example :
    decode_apdu 0 (
      take 14 (
        (0x00 ∷ 0x05 ∷ 1 ∷ 0x0C ∷ 0x0C ∷ 0x00 ∷ 0x80 ∷ 0x00 ∷ 0x07 ∷ 0x19 ∷ 85 ∷ 0x2A ∷ 1 ∷ 44 ∷ [])
        ++ replicate 34 0))
    ≡ ok (read_property read_value 1)
read_property_round_trip_example =
    read_property_round_trip 0 read_value 1 buffer
      (record { id = omega arith; property = present_value-IsProperty; index = omega arith })
      (omega arith) read_value_sent

-- The text is longer than a tag's own length field can say.
abbrev answer : ReadPropertyAnswer
answer = record {
  object_id = device;
  property_id = present_value;
  array_index = none;
  value = char_string (0x52 ∷ 0x6F ∷ 0x6F ∷ 0x6D ∷ 0xC2 ∷ 0xB0 ∷ []);
}

answer-IsReadPropertyAnswer : IsReadPropertyAnswer answer
unfolding is_utf8
answer-IsReadPropertyAnswer = record {
  id = omega arith;
  property = present_value-IsProperty;
  index = tt;
  value = record { fits = omega arith; bytes = omega arith; valid = refl };
}

abbrev answer_wire : List ℕ
answer_wire =
    0x30 ∷ 2 ∷ 0x0C ∷ 0x0C ∷ 0x02 ∷ 0x05 ∷ 0xEF ∷ 0x89 ∷ 0x19 ∷ 85 ∷ 0x3E ∷ 0x75 ∷ 7 ∷ 0x00 ∷ 0x52
    ∷ 0x6F ∷ 0x6F ∷ 0x6D ∷ 0xC2 ∷ 0xB0 ∷ 0x3F ∷ []

answer_sent : encode_read_property_ack answer 2 buffer 0 ≡ ok (answer_wire ++ replicate 27 0, 21)
unfolding encode_read_property_ack ◌⟫◌ emit encode_context_object_id encode_context_unsigned
    encode_minimal encode_opening_tag encode_app_value encode_text encode_closing_tag to_raw
    type_code property_code
answer_sent = refl

read_property_ack_round_trip_example :
    decode_apdu 0 (take 21 (answer_wire ++ replicate 27 0)) ≡ ok (read_property_ack answer 2)
read_property_ack_round_trip_example =
    read_property_ack_round_trip 0 answer 2 buffer answer-IsReadPropertyAnswer (omega arith)
      answer_sent

encode_read_property_ack_lem_example :
    encode_read_property_ack answer 2 buffer 0
    ≡ written [] ((0x30 ∷ 2 ∷ 0x0C ∷ []) ++ standard_read_property_ack answer) buffer
encode_read_property_ack_lem_example =
    encode_read_property_ack_lem answer 2 buffer answer-IsReadPropertyAnswer tt (omega arith)

abbrev announcement : IAmData
announcement = record { device_id = device; max_apdu = 480; segmentation = 3; vendor_id = 999 }

announcement_sent :
    encode_i_am announcement buffer 0
    ≡ ok (
      (0x10 ∷ 0x00 ∷ 0xC4 ∷ 0x02 ∷ 0x05 ∷ 0xEF ∷ 0x89 ∷ 0x22 ∷ 1 ∷ 224 ∷ 0x91 ∷ 3 ∷ 0x22 ∷ 3 ∷ 231
            ∷ [])
          ++ replicate 33 0,
      15,
    )
unfolding encode_i_am ◌⟫◌ emit encode_app_object_id encode_app_unsigned encode_app_enumerated
    encode_minimal to_raw type_code
announcement_sent = refl

i_am_round_trip_example :
    decode_apdu 0 (
      take 15 (
        (0x10 ∷ 0x00 ∷ 0xC4 ∷ 0x02 ∷ 0x05 ∷ 0xEF ∷ 0x89 ∷ 0x22 ∷ 1 ∷ 224 ∷ 0x91 ∷ 3 ∷ 0x22 ∷ 3 ∷ 231
          ∷ [])
        ++ replicate 33 0))
    ≡ ok (i_am announcement)
i_am_round_trip_example =
    i_am_round_trip 0 announcement buffer
      (record {
        id = omega arith;
        max_apdu = omega arith;
        segmentation = omega arith;
        vendor_id = omega arith;
      })
      (omega arith) announcement_sent

who_is_sent :
    encode_who_is (some 0) (some 70000) buffer 0
    ≡ ok ((0x10 ∷ 0x08 ∷ 0x09 ∷ 0 ∷ 0x1B ∷ 1 ∷ 17 ∷ 112 ∷ []) ++ replicate 40 0, 8)
unfolding encode_who_is encode_limits ◌⟫◌ emit encode_context_unsigned encode_minimal
who_is_sent = refl

who_is_round_trip_example :
    decode_apdu 0 (take 8 ((0x10 ∷ 0x08 ∷ 0x09 ∷ 0 ∷ 0x1B ∷ 1 ∷ 17 ∷ 112 ∷ []) ++ replicate 40 0))
    ≡ ok (who_is (record { low_limit = some 0; high_limit = some 70000 }))
who_is_round_trip_example =
    who_is_round_trip 0 (some 0) (some 70000) buffer (omega arith) (omega arith) (omega arith)
      who_is_sent

abbrev subscription : SubscribeCovRequest
subscription = record {
  subscriber_process_id = 5;
  monitored_object = analog;
  issue_confirmed = true;
  lifetime = some 600;
}

subscription_sent :
    encode_subscribe_cov subscription 3 buffer 0
    ≡ ok (
      (0x00 ∷ 0x05 ∷ 3 ∷ 0x05 ∷ 0x09 ∷ 5 ∷ 0x1C ∷ 0x00 ∷ 0x80 ∷ 0x00 ∷ 0x07 ∷ 0x29 ∷ 1 ∷ 0x3A ∷ 2
            ∷ 88 ∷ [])
          ++ replicate 32 0,
      16,
    )
unfolding encode_subscribe_cov ◌⟫◌ emit encode_context_object_id encode_context_unsigned
    encode_minimal to_raw type_code
subscription_sent = refl

subscribe_cov_round_trip_example :
    decode_apdu 0 (
      take 16 (
        (0x00 ∷ 0x05 ∷ 3 ∷ 0x05 ∷ 0x09 ∷ 5 ∷ 0x1C ∷ 0x00 ∷ 0x80 ∷ 0x00 ∷ 0x07 ∷ 0x29 ∷ 1 ∷ 0x3A ∷ 2
          ∷ 88 ∷ [])
        ++ replicate 32 0))
    ≡ ok (subscribe_cov subscription 3)
subscribe_cov_round_trip_example =
    subscribe_cov_round_trip 0 subscription 3 buffer
      (record { process = omega arith; id = omega arith; lifetime = omega arith }) (omega arith)
      subscription_sent

-- Two values, the first one negative.
abbrev notification : CovNotification
notification = record {
  subscriber_process_id = 5;
  initiating_device = device;
  monitored_object = analog;
  time_remaining = 60;
  values = (present_value, signed_int (0xFFFF_FFFE)) ∷ (present_value, enumerated 300) ∷ [];
}

notification-IsNotification : IsNotification notification
notification-IsNotification = record {
  process = omega arith;
  device = omega arith;
  monitored = omega arith;
  time = omega arith;
  entries = (present_value-IsProperty, omega arith, (present_value-IsProperty, omega arith, tt));
  fits = omega arith;
}

abbrev notification_wire : List ℕ
notification_wire =
    0x10 ∷ 0x02 ∷ 0x09 ∷ 5 ∷ 0x1C ∷ 0x02 ∷ 0x05 ∷ 0xEF ∷ 0x89 ∷ 0x2C ∷ 0x00 ∷ 0x80 ∷ 0x00 ∷ 0x07
    ∷ 0x39 ∷ 60 ∷ 0x4E ∷ 0x09 ∷ 85 ∷ 0x2E ∷ 0x31 ∷ 0xFE ∷ 0x2F ∷ 0x09 ∷ 85 ∷ 0x2E ∷ 0x92 ∷ 1 ∷ 44
    ∷ 0x2F ∷ 0x4F ∷ []

notification_sent :
    encode_ucov_notification notification buffer 0 ≡ ok (notification_wire ++ replicate 17 0, 31)
unfolding encode_ucov_notification encode_entries encode_entry ◌⟫◌ emit encode_context_object_id
    encode_context_unsigned encode_minimal encode_opening_tag encode_app_value encode_signed
    encode_app_enumerated encode_closing_tag to_raw type_code property_code
notification_sent = refl

ucov_round_trip_example :
    decode_apdu 3 (take 31 (notification_wire ++ replicate 17 0))
    ≡ ok (unconfirmed_cov_notification notification)
ucov_round_trip_example =
    ucov_round_trip 3 notification buffer notification-IsNotification (omega arith) (omega arith)
      notification_sent

-- -2 is written in one octet, as the standard has it.
two_bytes_short : ¬ IsThreeOctets 0xFFFF_FFFE
two_bytes_short (many, few) = ground (arith, many)

-- 65536 needs three octets and is written in four.
four_written : int_bytes 0x1_0000 ≡ 0 ∷ 1 ∷ 0 ∷ 0 ∷ []
four_written = refl

three_needed : without_signs (be_bytes 0x1_0000) ≡ 1 ∷ 0 ∷ 0 ∷ []
three_needed = refl

encode_ucov_notification_lem_example :
    encode_ucov_notification notification buffer 0
    ≡ written [] ((0x10 ∷ 0x02 ∷ []) ++ standard_ucov notification) buffer
encode_ucov_notification_lem_example =
    encode_ucov_notification_lem notification buffer notification-IsNotification
      (two_bytes_short, (tt, tt)) (omega arith)

from_raw-to_raw_example : from_raw (to_raw analog) ≡ some analog
from_raw-to_raw_example = from_raw-to_raw analog (omega arith)

analog_raw : from_raw 0x0080_0007 ≡ some analog
unfolding from_raw
analog_raw = refl

to_raw-from_raw_example : (to_raw analog ≡ 0x0080_0007) × (7 < 2 ^ 22)
to_raw-from_raw_example = to_raw-from_raw 0x0080_0007 (omega arith) analog_raw
