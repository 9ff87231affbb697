-- ===== src/Error.antt =====
-- bridge-core/src/error.rs: the error enums of the codecs.

pub data EncodeError : Type 0 where
  buffer_too_small string_too_long invalid_value : EncodeError

pub data DecodeError : Type 0 where
  unexpected_end invalid_data invalid_version length_out_of_bounds invalid_name_pointer :
      DecodeError

pub data BridgeError : Type 0 where
  encode : EncodeError → BridgeError
  decode : DecodeError → BridgeError
  invalid_config ring_buffer_full ipc_not_ready : BridgeError

-- `impl From<EncodeError>` and `impl From<DecodeError>`
pub from_encode_error : EncodeError → BridgeError
from_encode_error e = encode e

pub from_decode_error : DecodeError → BridgeError
from_decode_error e = decode e
