-- ===== src/Bacnet/Choices.antt =====
-- bridge-core/src/bacnet.rs: the APDU types and the service choices.
use micro_bacnet_bridge.Base.{ℕ, bit_and, Option, none, some, ◌==◌, if◌then◌else◌}

pub data ApduType : Type 0 where
  confirmed_request unconfirmed_request simple_ack complex_ack : ApduType
  segment_ack error reject abort : ApduType

-- `ApduType::from_byte`
unfoldable pub apdu_type_from_byte : ℕ → Option ApduType
apdu_type_from_byte b =
    let kind = bit_and b 0xF0 in
    if kind == 0x00
    then some confirmed_request
    else if kind == 0x10
    then some unconfirmed_request
    else if kind == 0x20
    then some simple_ack
    else if kind == 0x30
    then some complex_ack
    else if kind == 0x40
    then some segment_ack
    else if kind == 0x50
    then some error
    else if kind == 0x60
    then some reject
    else if kind == 0x70
    then some abort
    else none

-- `From<ApduType> for u8`
unfoldable pub apdu_type_byte : ApduType → ℕ
apdu_type_byte confirmed_request = 0x00
apdu_type_byte unconfirmed_request = 0x10
apdu_type_byte simple_ack = 0x20
apdu_type_byte complex_ack = 0x30
apdu_type_byte segment_ack = 0x40
apdu_type_byte error = 0x50
apdu_type_byte reject = 0x60
apdu_type_byte abort = 0x70

pub data ServiceChoice : Type 0 where
  subscribe_cov read_property read_property_multiple write_property : ServiceChoice
  i_am i_have time_synchronization who_has who_is : ServiceChoice

unfoldable pub confirmed_code : ServiceChoice → Option ℕ
confirmed_code subscribe_cov = some 5
confirmed_code read_property = some 12
confirmed_code read_property_multiple = some 14
confirmed_code write_property = some 15
confirmed_code _ = none

unfoldable pub unconfirmed_code : ServiceChoice → Option ℕ
unconfirmed_code i_am = some 0
unconfirmed_code i_have = some 1
unconfirmed_code time_synchronization = some 6
unconfirmed_code who_has = some 7
unconfirmed_code who_is = some 8
unconfirmed_code _ = none

unfoldable pub from_confirmed_code : ℕ → Option ServiceChoice
from_confirmed_code code =
    if code == 5
    then some subscribe_cov
    else if code == 12
    then some read_property
    else if code == 14
    then some read_property_multiple
    else if code == 15
    then some write_property
    else none

unfoldable pub from_unconfirmed_code : ℕ → Option ServiceChoice
from_unconfirmed_code code =
    if code == 0
    then some i_am
    else if code == 1
    then some i_have
    else if code == 6
    then some time_synchronization
    else if code == 7
    then some who_has
    else if code == 8
    then some who_is
    else none
