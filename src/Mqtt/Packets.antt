-- ===== src/Mqtt/Packets.antt =====
-- The packets of bridge-core/src/mqtt.rs, byte by byte, and a broker that reads them.
use micro_bacnet_bridge.Base.{
  ℕ, ◌+◌, ◌*◌, ◌/◌, ◌%◌, ◌^◌, ◌≤◌, ◌≡◌, refl, ap, sym, ◌∙◌, arith, bit_or, inl, inr, List, [], ◌∷◌,
  ◌++◌, length, length-append, Bool, true, false, Option, none, some, ltb, leb, leb→le, ltb→lt,
  le→ltb_false, lt→leb_false, if◌then◌else◌, Bool-cases, Result, err,
}
use micro_bacnet_bridge.Base.Bits.{and_low}
use micro_bacnet_bridge.Error.{EncodeError, buffer_too_small, string_too_long, invalid_value}
use micro_bacnet_bridge.Slice.{IsSlice, add_usize, Encoder, ◌⟫◌}
use micro_bacnet_bridge.Slice.Writing.{
  Emits, written, Emits-⟫, Emits-skip, Emits-start, store-append,
}
use micro_bacnet_bridge.Mqtt.{
  max_remaining_length, write_u8, write_u16, write_bytes, write_mqtt_str, write_remaining_length,
  write_optional, add_optional, remaining_length_encoded_size, connect_flags, connect_remaining,
  protocol_name, packet_type_publish, encode_connect, encode_publish,
}
use micro_bacnet_bridge.Mqtt.Groups.{
  remaining_bytes, Emits-write_u8, Emits-write_remaining_length, length-remaining_bytes,
}

abbrev pub u16_bytes : ℕ → List ℕ
u16_bytes v = v / 256 % 256 ∷ v % 256 ∷ []

write_u16_run :
    (v : ℕ) (pre old : List ℕ)
    → IsSlice (pre ++ old)
    → write_u16 v (pre ++ old) (length pre) ≡ written pre (u16_bytes v) old
unfolding write_u16
write_u16_run v pre old h = elim (Bool-cases (leb 2 (length old))) [
  | inl fits ↦
      let room = store-append {E = EncodeError} (u16_bytes v) pre old h (leb→le _ _ fits) in
      ground (arith, and_low 8 v, length-append pre old, room)
  | inr full ↦ ground (arith, length-append pre old)
]

Emits-write_u16 : (v : ℕ) → Emits (write_u16 v) (u16_bytes v)
Emits-write_u16 v = record { run = λ pre old h. write_u16_run v pre old h }

write_bytes_run :
    (bs pre old : List ℕ)
    → IsSlice bs
    → IsSlice (pre ++ old)
    → write_bytes bs (pre ++ old) (length pre) ≡ written pre bs old
unfolding write_bytes
write_bytes_run bs pre old small h = elim (Bool-cases (leb (length bs) (length old))) [
  | inl fits ↦
      let room = store-append {E = EncodeError} bs pre old h (leb→le _ _ fits) in
      let sum : ltb (length pre + length bs) (2 ^ 32) ≡ true =
        ground (arith, length-append pre old) in
      rw (sum) (ground (arith, length-append pre old, room))
  | inr full ↦
      let sum : ltb (length pre + length bs) (2 ^ 32) ≡ true =
        ground (arith, length-append pre old) in
      rw (sum) (ground (arith, length-append pre old))
]

Emits-write_bytes : (bs : List ℕ) → IsSlice bs → Emits (write_bytes bs) bs
Emits-write_bytes bs small = record { run = λ pre old h. write_bytes_run bs pre old small h }

-- A string is behind its length.
abbrev pub str_bytes : List ℕ → List ℕ
str_bytes s = u16_bytes (length s) ++ s

abbrev pub IsStr : List ℕ → Type 0
IsStr s = length s ≤ 65535

Emits-write_mqtt_str : (s : List ℕ) → IsStr s → Emits (write_mqtt_str s) (str_bytes s)
unfolding write_mqtt_str
Emits-write_mqtt_str s small =
    let whole : length s % 2 ^ 16 ≡ length s = omega arith in
    record {
      run = λ pre old h.
          rw (le→ltb_false 0xFFFF (length s) small, whole)
            ((Emits-⟫ (Emits-write_u16 (length s)) (Emits-write_bytes s (omega arith))).run pre old
              h);
    }

abbrev pub optional_bytes : Option (List ℕ) → List ℕ
optional_bytes none = []
optional_bytes (some s) = str_bytes s

abbrev pub IsOptionalStr : Option (List ℕ) → Type 0
IsOptionalStr none = Unit {0}
IsOptionalStr (some s) = IsStr s

Emits-write_optional :
    (o : Option (List ℕ)) → IsOptionalStr o → Emits (write_optional o) (optional_bytes o)
Emits-write_optional none small = Emits-skip
Emits-write_optional (some s) small = Emits-write_mqtt_str s small

-- What follows the remaining length of a CONNECT packet, and of a PUBLISH packet.
abbrev pub connect_content : List ℕ → ℕ → Option (List ℕ) → Option (List ℕ) → List ℕ
connect_content client_id keep_alive username password =
    u16_bytes 4
    ++ (protocol_name
        ++ ((4 ∷ [])
            ++ ((connect_flags username password ∷ [])
                ++ (u16_bytes keep_alive
                    ++ (str_bytes client_id
                        ++ (optional_bytes username ++ optional_bytes password))))))

abbrev pub publish_content : List ℕ → List ℕ → List ℕ
publish_content topic payload = u16_bytes (length topic) ++ (topic ++ payload)

-- A packet: its first byte, its remaining length and the content that it announces.
abbrev pub packet : ℕ → List ℕ → List ℕ
packet first content = (first ∷ []) ++ (remaining_bytes (length content) ++ content)

abbrev pub connect_first : ℕ
connect_first = 0x10

abbrev pub publish_first : Bool → ℕ
publish_first retain = if retain then 0x31 else 0x30

optional_size : (o : Option (List ℕ)) → IsOptionalStr o → length (optional_bytes o) ≤ 65537
optional_size none h = omega arith
optional_size (some s) h = omega arith

add_optional_lem :
    (n : ℕ) (o : Option (List ℕ))
    → IsOptionalStr o
    → n ≤ 2 ^ 20
    → add_optional n o ≡ n + length (optional_bytes o)
add_optional_lem n none h small = omega arith
add_optional_lem n (some s) h small = omega arith

-- The header's size and the content's make the packet's.
length-packet :
    (first : ℕ) (content : List ℕ)
    → length (packet first content)
      ≡ 1 + remaining_length_encoded_size (length content) + length content
length-packet first content = omega (
  arith,
  length-append (remaining_bytes (length content)) content,
  length-remaining_bytes (length content),
)

size_small : (n : ℕ) → remaining_length_encoded_size n ≤ 4
unfolding remaining_length_encoded_size
size_small n = ground arith

total_size :
    (first : ℕ) (content : List ℕ)
    → length content ≤ 2 ^ 31 + 2 ^ 17
    → add_usize (add_usize 1 (remaining_length_encoded_size (length content))) (length content)
      ≡ length (packet first content)
total_size first content small =
    let size = size_small (length content) in omega (arith, length-packet first content)

-- The check of the size in advance refuses exactly what `written` refuses.
checked_size :
    {e : Encoder} {bs : List ℕ}
    → Emits e bs
    → (buf : List ℕ) → IsSlice buf
    → (total : ℕ) → total ≡ length bs
    → (if ltb (length buf) total then err buffer_too_small else e buf 0) ≡ written [] bs buf
checked_size {bs} he buf h total same = elim (Bool-cases (ltb (length buf) total)) [
  | inl e ↦ rw (e, lt→leb_false (length bs) (length buf) (ground (arith, ltb→lt _ _ e))) refl
  | inr e ↦ rw e (Emits-start he buf h)
]

connect_remaining_lem :
    (client_id : List ℕ) (keep_alive : ℕ) (username password : Option (List ℕ))
    → IsStr client_id
    → IsOptionalStr username
    → IsOptionalStr password
    → (connect_remaining client_id username password
        ≡ length (connect_content client_id keep_alive username password))
      × (connect_remaining client_id username password ≤ 2 ^ 18)
connect_remaining_lem client_id keep_alive username password hc hu hp =
    let u = optional_size username hu in
    let p = optional_size password hp in
    let first = add_optional_lem (add_usize 2 (length client_id)) username hu (omega arith) in
    let second =
      add_optional_lem (add_optional (add_usize 2 (length client_id)) username) password hp
        (omega arith) in
    let tail = length-append client_id (optional_bytes username ++ optional_bytes password) in
    let last = length-append (optional_bytes username) (optional_bytes password) in
    (omega arith, omega arith)

-- `encode_connect`, with strings of at most 65535 bytes and on a slice, writes the CONNECT packet
-- of MQTT 3.1.1 and returns its length, or returns BufferTooSmall exactly where it does not fit.
pub encode_connect_lem :
    (buf client_id : List ℕ) (keep_alive : ℕ) (username password : Option (List ℕ))
    → IsSlice buf
    → IsStr client_id
    → IsOptionalStr username
    → IsOptionalStr password
    → encode_connect buf client_id keep_alive username password
      ≡ written []
          (packet connect_first (connect_content client_id keep_alive username password))
          buf
unfolding encode_connect
encode_connect_lem buf client_id keep_alive username password h hc hu hp =
    let (same, small) = connect_remaining_lem client_id keep_alive username password hc hu hp in
    let content = connect_content client_id keep_alive username password in
    let emits = Emits-⟫ (Emits-write_u8 connect_first) (
      Emits-⟫ (Emits-write_remaining_length (length content) (omega arith)) (
        Emits-⟫ (Emits-write_u16 4) (
          Emits-⟫ (Emits-write_bytes protocol_name (omega arith)) (
            Emits-⟫ (Emits-write_u8 4) (
              Emits-⟫ (Emits-write_u8 (connect_flags username password)) (
                Emits-⟫ (Emits-write_u16 keep_alive) (
                  Emits-⟫ (Emits-write_mqtt_str client_id hc) (
                    Emits-⟫ (Emits-write_optional username hu)
                      (Emits-write_optional password hp))))))))) in
    rw (same) (checked_size emits buf h _ (total_size connect_first content (omega arith)))

-- The outcome of encode_publish on every branch.
abbrev pub published : List ℕ → List ℕ → List ℕ → Bool → Result EncodeError (List ℕ × ℕ)
published buf topic payload retain =
    let content = publish_content topic payload in
    if ltb 65535 (length topic)
    then err string_too_long
    else if ltb (length buf) (length (packet (publish_first retain) content))
    then err buffer_too_small
    else if ltb max_remaining_length (length content)
    then err invalid_value
    else written [] (packet (publish_first retain) content) buf

first_byte :
    (retain : Bool)
    → bit_or (packet_type_publish * 2 ^ 4) (if retain then 0x01 else 0x00) ≡ publish_first retain
first_byte true = refl
first_byte false = refl

-- A length that is too large is refused after the first byte.
refused :
    (b len : ℕ) (e : Encoder) (buf : List ℕ)
    → IsSlice buf
    → 1 ≤ length buf
    → ltb max_remaining_length len ≡ true
    → (write_u8 b ⟫ write_remaining_length len ⟫ e) buf 0 ≡ err invalid_value
unfolding ◌⟫◌ write_remaining_length
refused b len e buf h room big =
    let fits : leb 1 (length buf) ≡ true = ground arith in
    rw (Emits-start (Emits-write_u8 b) buf h, fits, big) refl

pub publish-Emits :
    (topic payload : List ℕ) (retain : Bool)
    → length (publish_content topic payload) ≤ max_remaining_length
    → IsSlice payload
    → Emits
        (write_u8 (publish_first retain)
          ⟫ write_remaining_length (length (publish_content topic payload))
          ⟫ write_u16 (length topic)
          ⟫ write_bytes topic
          ⟫ write_bytes payload)
        (packet (publish_first retain) (publish_content topic payload))
publish-Emits topic payload retain fits hp = Emits-⟫ (Emits-write_u8 (publish_first retain)) (
    Emits-⟫ (Emits-write_remaining_length (length (publish_content topic payload)) fits) (
      Emits-⟫ (Emits-write_u16 (length topic)) (
        Emits-⟫ (Emits-write_bytes topic (omega (arith, length-append topic payload)))
          (Emits-write_bytes payload hp))))

pub encode_publish_lem :
    (buf topic payload : List ℕ) (retain : Bool)
    → IsSlice buf
    → IsSlice payload
    → encode_publish buf topic payload retain ≡ published buf topic payload retain
unfolding encode_publish
encode_publish_lem buf topic payload retain h hp = elim (Bool-cases (ltb 65535 (length topic))) [
  | inl long ↦ rw long refl
  | inr short ↦
      let content = publish_content topic payload in
      let small : length topic ≤ 65535 = ground arith in
      let same : add_usize (add_usize 2 (length topic)) (length payload) ≡ length content =
        omega (arith, length-append topic payload) in
      let total =
        total_size (publish_first retain) content (omega (arith, length-append topic payload)) in
      let whole : length topic % 2 ^ 16 ≡ length topic = omega arith in
      rw (short, same, total, first_byte retain, whole)
        (elim (Bool-cases (ltb (length buf) (length (packet (publish_first retain) content)))) [
          | inl full ↦ rw full refl
          | inr room ↦ rw room (elim (Bool-cases (ltb max_remaining_length (length content))) [
            | inl big ↦
                refused (publish_first retain) (length content)
                  (write_u16 (length topic) ⟫ write_bytes topic ⟫ write_bytes payload) buf h
                  (ground arith) big
                ∙ sym (
                    ap
                      (λ t.
                        if t
                        then err invalid_value
                        else written [] (packet (publish_first retain) content) buf)
                      big)
            | inr fits ↦
                Emits-start (publish-Emits topic payload retain (ground arith) hp) buf h
                ∙ sym (
                    ap
                      (λ t.
                        if t
                        then err invalid_value
                        else written [] (packet (publish_first retain) content) buf)
                      fits)
          ])
        ])
]
