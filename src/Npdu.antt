-- ===== src/Npdu.antt =====
-- bridge-core/src/npdu.rs: the network layer header of BACnet.
pub mod Control
pub mod Fields
pub mod RoundTrip
use micro_bacnet_bridge.Base
use micro_bacnet_bridge.Base.{ℕ, ◌+◌, ◌*◌, ◌/◌, ◌%◌, ◌^◌, bit_and, bit_or, List, [], ◌∷◌, ◌++◌}
use micro_bacnet_bridge.Base.{
  Bool, true, false, not, ◌&&◌, length, take, drop, replicate, ltb, ◌==◌,
}
use micro_bacnet_bridge.Base.{if◌then◌else◌, Result, ok, err}
use micro_bacnet_bridge.Error.{
  EncodeError, buffer_too_small, invalid_value, DecodeError, unexpected_end, invalid_data,
  invalid_version,
}
use micro_bacnet_bridge.Slice.{byte_at, slice, slice_from, store}
use micro_bacnet_bridge.Slice.Decoder.{Decoder, ◌>>=◌, ◌>>◌, lift, pure}

abbrev pub npdu_version : ℕ
npdu_version = 0x01

abbrev pub max_mac_len : ℕ
max_mac_len = 7

-- A MAC address is an array of seven bytes, of which `…_mac_len` count.
pub record NpduHeader : Type 0 where
  pub version : ℕ
  pub is_network_layer_msg : Bool
  pub dest_present : Bool
  pub dest_net : ℕ
  pub dest_mac : List ℕ
  pub dest_mac_len : ℕ
  pub src_present : Bool
  pub src_net : ℕ
  pub src_mac : List ℕ
  pub src_mac_len : ℕ
  pub hop_count : ℕ
  pub expecting_reply : Bool
  pub priority : ℕ

abbrev pub no_mac : List ℕ
no_mac = replicate max_mac_len 0

-- `NpduHeader::local`
unfoldable pub local : Bool → NpduHeader
local expecting_reply = record {
  version = npdu_version;
  is_network_layer_msg = false;
  dest_present = false;
  dest_net = 0;
  dest_mac = no_mac;
  dest_mac_len = 0;
  src_present = false;
  src_net = 0;
  src_mac = no_mac;
  src_mac_len = 0;
  hop_count = 0;
  expecting_reply = expecting_reply;
  priority = 0;
}

-- `if flag { ctrl |= mask; }`
abbrev pub or_if : Bool → ℕ → ℕ → ℕ
or_if flag mask ctrl = if flag then bit_or ctrl mask else ctrl

unfoldable pub control : Bool → Bool → Bool → Bool → ℕ → ℕ
control net dest src reply priority =
    bit_or (or_if reply 0x04 (or_if src 0x08 (or_if dest 0x20 (or_if net 0x80 0))))
      (bit_and priority 0x03)

-- Network number, length and address; nothing where the specifier is absent.
abbrev pub specifier : Bool → ℕ → List ℕ → ℕ → List ℕ
specifier present net mac len =
    if present then net / 2 ^ 8 % 256 ∷ net % 256 ∷ len % 256 ∷ take len mac else []

-- The bytes in the order in which they are written, and the size that is computed before.
unfoldable pub npdu_bytes : NpduHeader → List ℕ → List ℕ
unfolding control
npdu_bytes h apdu =
    npdu_version
    ∷ control h.is_network_layer_msg h.dest_present h.src_present h.expecting_reply h.priority
    ∷ (specifier h.dest_present h.dest_net h.dest_mac h.dest_mac_len
        ++ (specifier h.src_present h.src_net h.src_mac h.src_mac_len
            ++ ((if h.dest_present then h.hop_count ∷ [] else []) ++ apdu)))

unfoldable pub needed : NpduHeader → List ℕ → ℕ
needed h apdu =
    2
    + (if h.dest_present then 2 + 1 + h.dest_mac_len else 0)
    + (if h.src_present then 2 + 1 + h.src_mac_len else 0)
    + (if h.dest_present then 1 else 0)
    + length apdu

unfoldable pub encode_npdu : NpduHeader → List ℕ → List ℕ → Result EncodeError (List ℕ × ℕ)
unfolding npdu_bytes needed store
encode_npdu h apdu buf =
    if h.dest_present && ltb max_mac_len h.dest_mac_len
    then err invalid_value
    else if h.src_present && ltb max_mac_len h.src_mac_len
    then err invalid_value
    else if ltb (length buf) (needed h apdu)
    then err buffer_too_small
    else Base.◌>>=◌ (store buf 0 (npdu_bytes h apdu))
        (λ buf'. ok (buf', length (npdu_bytes h apdu)))

pub record Address : Type 0 where
  pub net : ℕ
  pub mac : List ℕ
  pub len : ℕ

abbrev pub no_address : Address
no_address = record { net = 0; mac = no_mac; len = 0 }

-- `if data.len() < pos + n { return Err(DecodeError::UnexpectedEnd); }`, where no sum reaches 2 ^ 32.
unfoldable pub require : ℕ → Decoder (Unit {0})
require n xs pos = if ltb (length xs) (pos + n) then err unexpected_end else ok (tt, pos)

unfoldable pub next_byte : Decoder ℕ
unfolding byte_at
next_byte xs pos = Base.◌>>=◌ (byte_at xs pos) (λ b. ok (b, pos + 1))

-- `mac[..len].copy_from_slice(&data[pos..pos + len])` into seven zeros.
unfoldable pub read_mac : ℕ → Decoder (List ℕ)
unfolding slice
read_mac len xs pos =
    Base.◌>>=◌ (slice xs pos (pos + len)) (λ s. ok (s ++ drop len no_mac, pos + len))

unfoldable pub read_address : Decoder Address
read_address = do
  require 3
  hi ← next_byte
  lo ← next_byte
  len ← next_byte
  lift (if ltb max_mac_len len then err invalid_data else ok tt)
  require len
  mac ← read_mac len
  pure (record { net = bit_or (hi * 2 ^ 8 % 2 ^ 16) lo; mac = mac; len = len % 256 })

unfoldable pub read_hops : Decoder ℕ
read_hops = do require 1; next_byte

-- `if present { … }`, with what the header has where it is not.
abbrev pub read_if {ℓ} : {A : Type ℓ} → Bool → Decoder A → A → Decoder A
read_if true d x = d
read_if false d x = pure x

-- The specifiers and the hop count behind the control byte.
unfoldable pub read_header : ℕ → ℕ → Decoder NpduHeader
read_header version ctrl =
    let dest_present = not (bit_and ctrl 0x20 == 0) in
    let src_present = not (bit_and ctrl 0x08 == 0) in
    do
      dest ← read_if dest_present read_address no_address
      src ← read_if src_present read_address no_address
      hops ← read_if dest_present read_hops 0
      pure (record {
        version = version;
        is_network_layer_msg = not (bit_and ctrl 0x80 == 0);
        dest_present = dest_present;
        dest_net = dest.net;
        dest_mac = dest.mac;
        dest_mac_len = dest.len;
        src_present = src_present;
        src_net = src.net;
        src_mac = src.mac;
        src_mac_len = src.len;
        hop_count = hops;
        expecting_reply = not (bit_and ctrl 0x04 == 0);
        priority = bit_and ctrl 0x03;
      })

-- The header and `&data[pos..]`.
unfoldable pub decode_npdu : List ℕ → Result DecodeError (NpduHeader × List ℕ)
unfolding byte_at slice_from
decode_npdu xs =
    if ltb (length xs) 2
    then err unexpected_end
    else Base.◌>>=◌ (byte_at xs 0) (λ version.
      if not (version == npdu_version)
      then err invalid_version
      else Base.◌>>=◌ (byte_at xs 1) (λ ctrl.
        Base.◌>>=◌ (read_header version ctrl xs 2)
          (λ (h, pos). Base.◌>>=◌ (slice_from xs pos) (λ apdu. ok (h, apdu)))))
