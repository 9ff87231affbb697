-- ===== src/Apdu/Write.antt =====
-- bridge-core/src/apdu.rs, the tag encoding helpers: one application or context tag and its content.
use micro_bacnet_bridge.Base.{ℕ, ◌+◌, ◌-◌, ◌*◌, ◌/◌, ◌%◌, ◌^◌, bit_and, bit_or, List, [], ◌∷◌}
use micro_bacnet_bridge.Base.{Bool, ltb, leb, if◌then◌else◌, length, take, drop}
use micro_bacnet_bridge.Slice.{Encoder, emit}
use micro_bacnet_bridge.Bacnet.{ObjectId, to_raw, BacnetValue, null, boolean, unsigned_int}
use micro_bacnet_bridge.Bacnet.{signed_int, real, char_string, enumerated, object_id}

-- `(v >> k) as u8`
abbrev pub byte : ℕ → ℕ → ℕ
byte v k = v / 2 ^ k % 256

-- `u32::to_be_bytes`
abbrev pub be_bytes : ℕ → List ℕ
be_bytes v = byte v 24 ∷ byte v 16 ∷ byte v 8 ∷ byte v 0 ∷ []

-- The ladder that the three functions below share; they differ in the tag bytes for one to four
-- bytes of content.
unfoldable pub encode_minimal : ℕ → ℕ → ℕ → ℕ → ℕ → Encoder
encode_minimal tag1 tag2 tag3 tag4 v =
    if leb v 0xFF
    then emit 2 (tag1 ∷ byte v 0 ∷ [])
    else if leb v 0xFFFF
    then emit 3 (tag2 ∷ byte v 8 ∷ byte v 0 ∷ [])
    else if leb v 0xFF_FFFF
    then emit 4 (tag3 ∷ byte v 16 ∷ byte v 8 ∷ byte v 0 ∷ [])
    else emit 5 (tag4 ∷ byte v 24 ∷ byte v 16 ∷ byte v 8 ∷ byte v 0 ∷ [])

unfoldable pub encode_app_unsigned : ℕ → Encoder
unfolding encode_minimal
encode_app_unsigned v = encode_minimal 0x21 0x22 0x23 0x24 v

-- `(tag & 0x0F) << 4` on a `u8`
abbrev pub tag_high : ℕ → ℕ
tag_high tag = bit_and tag 0x0F * 2 ^ 4 % 256

unfoldable pub encode_context_unsigned : ℕ → ℕ → Encoder
unfolding encode_minimal
encode_context_unsigned tag v =
    let hi = tag_high tag in
    encode_minimal (bit_or hi 0x09) (bit_or hi 0x0A) (bit_or hi 0x0B) (bit_or hi 0x0C) v

unfoldable pub encode_app_object_id : ObjectId → Encoder
encode_app_object_id obj = emit 5 (0xC4 ∷ be_bytes (to_raw obj))

unfoldable pub encode_context_object_id : ℕ → ObjectId → Encoder
encode_context_object_id tag obj = emit 5 (bit_or (tag_high tag) 0x0C ∷ be_bytes (to_raw obj))

unfoldable pub encode_app_enumerated : ℕ → Encoder
unfolding encode_minimal
encode_app_enumerated v = encode_minimal 0x91 0x92 0x93 0x94 v

unfoldable pub encode_opening_tag : ℕ → Encoder
encode_opening_tag tag = emit 1 (bit_or (tag_high tag) 0x0E ∷ [])

unfoldable pub encode_closing_tag : ℕ → Encoder
encode_closing_tag tag = emit 1 (bit_or (tag_high tag) 0x0F ∷ [])

-- `-n <= v && v < n` of the `i32` with these 32 bits, for 0 < n.
abbrev pub within_i32 : ℕ → ℕ → Bool
within_i32 n v = if ltb v (2 ^ 31) then ltb v n else leb (2 ^ 32 - v) n

-- The last `len` of the four bytes, from `start` on.
unfoldable pub encode_signed : ℕ → ℕ → ℕ → Encoder
encode_signed start len v = emit (1 + len) (bit_or 0x30 len ∷ take len (drop start (be_bytes v)))

-- `slen` is the length of the text and its charset byte.
unfoldable pub encode_text : ℕ → List ℕ → Encoder
encode_text slen s =
    if leb slen 4
    then emit (1 + slen) (bit_or 0x70 (slen % 256) ∷ 0x00 ∷ s)
    else if leb slen 253
    then emit (2 + slen) (0x75 ∷ slen % 256 ∷ 0x00 ∷ s)
    else emit (4 + slen) (0x75 ∷ 0xFE ∷ byte slen 8 ∷ byte slen 0 ∷ 0x00 ∷ s)

unfoldable pub encode_app_value : BacnetValue → Encoder
unfolding encode_app_unsigned encode_app_enumerated encode_app_object_id encode_signed encode_text
encode_app_value null = emit 1 (0x00 ∷ [])
encode_app_value (boolean b) = emit 1 ((if b then 0x11 else 0x10) ∷ [])
encode_app_value (unsigned_int v) = encode_app_unsigned v
encode_app_value (signed_int v) =
    if within_i32 128 v
    then encode_signed 3 1 v
    else if within_i32 32768 v
    then encode_signed 2 2 v
    else encode_signed 0 4 v
encode_app_value (real v) = emit 5 (0x44 ∷ be_bytes v)
encode_app_value (char_string s) = encode_text (length s + 1) s
encode_app_value (enumerated v) = encode_app_enumerated v
encode_app_value (object_id obj) = encode_app_object_id obj
