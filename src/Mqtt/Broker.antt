-- ===== src/Mqtt/Broker.antt =====
-- What a broker makes of the packets that bridge-core/src/mqtt.rs sends.
use micro_bacnet_bridge.Base
use micro_bacnet_bridge.Base.{
  ℕ, ◌+◌, ◌-◌, ◌*◌, ◌/◌, ◌%◌, ◌^◌, ◌≤◌, ◌<◌, ◌≡◌, refl, ap, sym, ◌∙◌, arith, bit_and, inl, inr,
  List, [], ◌∷◌, ◌++◌, append-nil, length, length-append, take, take-append, drop, Bool, true,
  false, ltb, ltb→lt, if◌then◌else◌, Bool-cases, ◌==◌, Result, ok, err, get_elem?-append,
}
use micro_bacnet_bridge.Base.Bits.{high_nibble}
use micro_bacnet_bridge.Slice.{IsSlice, IsByte, byte_at, slice}
use micro_bacnet_bridge.Slice.Decoder.{Decoder, ◌>>=◌, pure}
use micro_bacnet_bridge.Slice.Writing.{written}
use micro_bacnet_bridge.Slice.Reading.{Reads, Reads-bind, Reads-map, Reads-start, slice-append}
use micro_bacnet_bridge.Mqtt.{
  max_remaining_length, packet_type_publish, read_u8, decode_remaining_length, encode_publish,
  decode_packet_type,
}
use micro_bacnet_bridge.Mqtt.Groups.{read_u8_run, Reads-remaining_length}
use micro_bacnet_bridge.Mqtt.Packets.{
  publish_content, packet, publish_first, published, encode_publish_lem,
}

-- The next `n` bytes.
unfoldable pub take_bytes : ℕ → Decoder (List ℕ)
unfolding slice
take_bytes n xs pos = Base.◌>>=◌ (slice xs pos (pos + n)) (λ s. ok (s, pos + n))

-- MQTT 3.1.1, section 3.3: the first byte, the topic and the payload of a PUBLISH packet with QoS 0.
unfoldable pub receive_publish : Decoder (ℕ × List ℕ × List ℕ)
unfolding read_u8 decode_remaining_length take_bytes ◌>>=◌ pure
receive_publish = do
  first ← read_u8
  remaining ← decode_remaining_length
  hi ← read_u8
  lo ← read_u8
  topic ← take_bytes (hi * 256 + lo)
  payload ← take_bytes (remaining - (2 + length topic))
  pure (first, topic, payload)

Reads-read_u8 : (b : ℕ) (rest : List ℕ) → Reads read_u8 (b ∷ []) rest b
Reads-read_u8 b rest = record {
  run = λ pre h. read_u8_run b (length pre) (pre ++ (b ∷ rest)) (get_elem?-append pre b rest) h;
}

Reads-take_bytes : (n : ℕ) (s rest : List ℕ) → n ≡ length s → Reads (take_bytes n) s rest s
unfolding take_bytes
Reads-take_bytes n s rest e = record {
  run = λ pre h. rw (e, slice-append pre s rest (length pre + length s) refl) refl;
}

Reads-receive_publish :
    (retain : Bool) (topic payload : List ℕ)
    → length topic ≤ 65535
    → length (publish_content topic payload) ≤ max_remaining_length
    → Reads receive_publish
        (packet (publish_first retain) (publish_content topic payload))
        []
        (publish_first retain, topic, payload)
unfolding receive_publish
Reads-receive_publish retain topic payload small fits =
    let whole : length topic / 256 % 256 * 256 + length topic % 256 ≡ length topic = omega arith in
    let left : length (publish_content topic payload) - (2 + length topic) ≡ length payload =
      omega (arith, length-append topic payload) in
    Reads-bind _ (Reads-read_u8 _ _) (
      Reads-bind _ (Reads-remaining_length _ _ fits) (
        Reads-bind _ (Reads-read_u8 _ _) (
          Reads-bind _ (Reads-read_u8 _ _) (
            Reads-bind _ (Reads-take_bytes _ topic _ whole) (
              Reads-map (λ s. (publish_first retain, topic, s))
                (Reads-take_bytes _ payload _ left))))))

-- The packet type and the remaining length of any packet are read back.
pub decode_packet_type-packet :
    (first : ℕ) (content : List ℕ)
    → IsByte first
    → length content ≤ max_remaining_length
    → IsSlice (packet first content)
    → decode_packet_type (packet first content) ≡ ok (first / 16, length content)
unfolding decode_packet_type byte_at
decode_packet_type-packet first content hb fits h =
    let some_bytes : (length (packet first content) == 0) ≡ false = ground arith in
    rw
      (
        some_bytes,
        (Reads-remaining_length (length content) content fits).run (first ∷ []) h,
        high_nibble first hb,
      )
      refl

first_IsByte : (retain : Bool) → IsByte (publish_first retain)
first_IsByte true = omega arith
first_IsByte false = omega arith

first_type : (retain : Bool) → publish_first retain / 16 ≡ packet_type_publish
first_type true = refl
first_type false = refl

published_ok :
    (buf topic payload : List ℕ) (retain : Bool) {buf' : List ℕ} {n : ℕ}
    → published buf topic payload retain ≡ ok (buf', n)
    → (length topic ≤ 65535)
      × (length (publish_content topic payload) ≤ max_remaining_length)
      × (written [] (packet (publish_first retain) (publish_content topic payload)) buf
          ≡ ok (buf', n))
published_ok buf topic payload retain e = ground (arith, e)

packet_sent :
    (bs buf : List ℕ) {buf' : List ℕ} {n : ℕ}
    → written [] bs buf ≡ ok (buf', n)
    → (take n buf' ≡ bs) × (length bs ≤ length buf)
packet_sent bs buf e = ground (arith, e, take-append bs (drop (length bs) buf))

-- A PUBLISH packet that `encode_publish` wrote, of a payload and into a buffer of fewer than 2 ^ 31
-- bytes each, is read by a broker as MQTT 3.1.1 says: its first byte with the retain bit, the topic
-- and the payload, with no byte left; and `decode_packet_type` finds the type PUBLISH and the length
-- of what follows.
pub publish_round_trip :
    (buf topic payload : List ℕ) (retain : Bool) {buf' : List ℕ} {n : ℕ}
    → IsSlice buf
    → IsSlice payload
    → encode_publish buf topic payload retain ≡ ok (buf', n)
    → (receive_publish (take n buf') 0
        ≡ ok ((publish_first retain, topic, payload), length (take n buf')))
      × (decode_packet_type (take n buf')
          ≡ ok (packet_type_publish, length (publish_content topic payload)))
publish_round_trip buf topic payload retain {buf'} {n} h hp e =
    let done =
      published_ok buf topic payload retain
        (sym (encode_publish_lem buf topic payload retain h hp) ∙ e) in
    let (short, fits, w) = done in
    let (same, room) =
      packet_sent (packet (publish_first retain) (publish_content topic payload)) buf w in
    let slice : IsSlice (packet (publish_first retain) (publish_content topic payload)) =
      omega arith in
    rw same (
      Reads-start (Reads-receive_publish retain topic payload short fits) slice,
      decode_packet_type-packet (publish_first retain) (publish_content topic payload)
            (first_IsByte retain) fits slice
          ∙ ap (λ (t : ℕ). ok (t, length (publish_content topic payload))) (first_type retain),
    )
