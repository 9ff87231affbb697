-- ===== src/Apdu/Read.antt =====
-- bridge-core/src/apdu.rs, the tag decoding helpers: one application or context tag and its content.
use micro_bacnet_bridge.Base.{ℕ, zero, suc, ◌+◌, ◌-◌, ◌*◌, ◌/◌, ◌%◌, ◌^◌, bit_and, bit_or, List}
use micro_bacnet_bridge.Base.{Bool, false, not, ◌&&◌, ◌||◌, Option, none, some, ltb, leb, ◌==◌}
use micro_bacnet_bridge.Base.{if◌then◌else◌, length, take, get_elem?, get_or}
use micro_bacnet_bridge.Base.{Result, ok, err, ok_or, ◌>>=◌, ◌>>◌}
use micro_bacnet_bridge.Error.{DecodeError, invalid_data}
use micro_bacnet_bridge.Slice.{add_usize, byte_at, slice, dneed}
use micro_bacnet_bridge.Slice.Decoder.{Decoder}
use micro_bacnet_bridge.Bacnet.{ObjectId, from_raw, BacnetValue, null, boolean, unsigned_int}
use micro_bacnet_bridge.Bacnet.{signed_int, real, char_string, enumerated, object_id}
use micro_bacnet_bridge.Bacnet.Values.{is_utf8}

pub record TagInfo : Type 0 where
  pub number : ℕ
  pub context : Bool
  pub lvt : ℕ
  pub header_len : ℕ

-- `(hi << 8) | lo`, and four bytes so, of a `u32`.
abbrev pub be16 : ℕ → ℕ → ℕ
be16 hi lo = bit_or (hi * 2 ^ 8 % 2 ^ 32) lo

abbrev pub be32 : ℕ → ℕ → ℕ → ℕ → ℕ
be32 a b c d =
    bit_or (bit_or (bit_or (a * 2 ^ 24 % 2 ^ 32) (b * 2 ^ 16 % 2 ^ 32)) (c * 2 ^ 8 % 2 ^ 32)) d

-- The tag number and the bytes that it took: bits 7 to 4, or the next byte where those are all set.
tag_number : List ℕ → ℕ → ℕ → Result DecodeError (ℕ × ℕ)
tag_number xs pos b =
    if bit_and (b / 2 ^ 4) 0x0F == 0x0F
    then (do dneed xs pos 2; n ← byte_at xs (add_usize pos 1); ok (n, 2))
    else ok (bit_and (b / 2 ^ 4) 0x0F, 1)

-- An extended length of one, three or five bytes; `hlen` counts its first.
extended_length : List ℕ → ℕ → ℕ → ℕ → Result DecodeError (ℕ × ℕ)
extended_length xs pos ext hlen =
    if ltb ext 254
    then ok (ext, hlen)
    else if ext == 254
    then (do
      dneed xs pos (hlen + 2)
      hi ← byte_at xs (add_usize pos hlen)
      lo ← byte_at xs (add_usize (add_usize pos hlen) 1)
      ok (be16 hi lo, hlen + 2))
    else (do
      dneed xs pos (hlen + 4)
      a ← byte_at xs (add_usize pos hlen)
      b ← byte_at xs (add_usize (add_usize pos hlen) 1)
      c ← byte_at xs (add_usize (add_usize pos hlen) 2)
      d ← byte_at xs (add_usize (add_usize pos hlen) 3)
      ok (be32 a b c d, hlen + 4))

-- The length/value field and the bytes of the header.
tag_length : List ℕ → ℕ → ℕ → ℕ → Result DecodeError (ℕ × ℕ)
unfolding extended_length
tag_length xs pos lvt_raw hlen =
    if lvt_raw == 5
    then (do
      dneed xs pos (hlen + 1)
      ext ← byte_at xs (add_usize pos hlen)
      extended_length xs pos ext (hlen + 1))
    else ok (lvt_raw, hlen)

unfoldable pub decode_tag : List ℕ → ℕ → Result DecodeError TagInfo
unfolding tag_number tag_length
decode_tag xs pos = do
  dneed xs pos 1
  b ← byte_at xs pos
  (number, hlen) ← tag_number xs pos b
  let context = not (bit_and b 0x08 == 0)
  let lvt_raw = bit_and b 0x07
  (lvt, hlen') ←
      (if context && (lvt_raw == 6 || lvt_raw == 7)
        then ok (lvt_raw, hlen)
        else tag_length xs pos lvt_raw hlen)
  ok (record { number = number; context = context; lvt = lvt; header_len = hlen' })

-- `for i in 0..len { val = (val << 8) | data[pos + i]; }` with the rounds left.
unfoldable pub shift_in : List ℕ → ℕ → ℕ → ℕ → ℕ → Result DecodeError ℕ
shift_in xs pos i zero val = ok val
shift_in xs pos i (suc n) val = do
  b ← byte_at xs (add_usize pos i)
  shift_in xs pos (i + 1) n (bit_or (val * 2 ^ 8 % 2 ^ 32) b)

unfoldable pub decode_unsigned : List ℕ → ℕ → ℕ → Result DecodeError ℕ
unfolding shift_in
decode_unsigned xs pos len = do dneed xs pos len; shift_in xs pos 0 len 0

-- The first byte is read before the loop, for its sign.
unfoldable pub decode_signed : List ℕ → ℕ → ℕ → Result DecodeError ℕ
unfolding shift_in
decode_signed xs pos len = do
  dneed xs pos len
  b ← byte_at xs pos
  shift_in xs pos 0 len (if bit_and b 0x80 == 0 then 0 else 2 ^ 32 - 1)

-- `str::is_char_boundary` at an index up to the length.
is_char_boundary : List ℕ → ℕ → Bool
is_char_boundary s i = i == 0 || i == length s || ltb (get_or s i 0) 0x80 || leb 0xC0 (get_or s i 0)

-- `while end > 0 && !s.is_char_boundary(end) { end -= 1; }`
boundary_before : List ℕ → ℕ → ℕ
unfolding is_char_boundary
boundary_before s zero = 0
boundary_before s (suc n) =
    let lower = boundary_before s n in if is_char_boundary s (suc n) then suc n else lower

-- What a `String<64>` takes of a text.
unfoldable pub truncate_text : List ℕ → List ℕ
unfolding boundary_before
truncate_text s = if leb (length s) 64 then s else take (boundary_before s 64) s

unfoldable pub decode_text : List ℕ → ℕ → ℕ → Result DecodeError (List ℕ)
unfolding truncate_text
decode_text xs vpos vlen = if ltb vlen 1 then err invalid_data else (do
  dneed xs vpos vlen
  charset ← byte_at xs vpos
  let start = add_usize vpos 1
  s ← slice xs start (add_usize start (vlen - 1))
  if is_utf8 s then ok (truncate_text s) else err invalid_data)

unfoldable pub decode_real : List ℕ → ℕ → ℕ → Result DecodeError ℕ
decode_real xs vpos vlen =
    if vlen == 4
    then (do
      dneed xs vpos 4
      a ← byte_at xs vpos
      b ← byte_at xs (add_usize vpos 1)
      c ← byte_at xs (add_usize vpos 2)
      d ← byte_at xs (add_usize vpos 3)
      ok (be32 a b c d))
    else err invalid_data

unfoldable pub decode_object_id : List ℕ → ℕ → ℕ → Result DecodeError ObjectId
unfolding decode_unsigned
decode_object_id xs vpos vlen =
    if vlen == 4
    then (do r ← decode_unsigned xs vpos 4; ok_or (from_raw r) invalid_data)
    else err invalid_data

-- The content of an application tag: a value, and the position behind it.
unfoldable pub app_content : List ℕ → ℕ → ℕ → ℕ → Result DecodeError (BacnetValue × ℕ)
unfolding decode_unsigned decode_signed decode_real decode_text decode_object_id
app_content xs vpos number vlen =
    let end = add_usize vpos vlen in
    if number == 0
    then ok (null, end)
    else if number == 1
    then ok (boolean (not (vlen == 0)), vpos)
    else if number == 2
    then (do v ← decode_unsigned xs vpos vlen; ok (unsigned_int v, end))
    else if number == 3
    then (do v ← decode_signed xs vpos vlen; ok (signed_int v, end))
    else if number == 4
    then (do v ← decode_real xs vpos vlen; ok (real v, end))
    else if number == 7
    then (do s ← decode_text xs vpos vlen; ok (char_string s, end))
    else if number == 9
    then (do v ← decode_unsigned xs vpos vlen; ok (enumerated v, end))
    else if number == 12
    then (do id ← decode_object_id xs vpos vlen; ok (object_id id, end))
    else ok (null, end)

unfoldable pub decode_app_value : Decoder BacnetValue
unfolding decode_tag app_content
decode_app_value xs pos = do
  tag ← decode_tag xs pos
  if tag.context
      then err invalid_data
      else app_content xs (add_usize pos tag.header_len) tag.number tag.lvt

unfoldable pub decode_context_unsigned : ℕ → Decoder (Option ℕ)
unfolding decode_tag decode_unsigned
decode_context_unsigned expected xs pos = if leb (length xs) pos then ok (none, pos) else (do
  tag ← decode_tag xs pos
  let vpos = add_usize pos tag.header_len
  if not tag.context || not (tag.number == expected)
      then ok (none, pos)
      else (do v ← decode_unsigned xs vpos tag.lvt; ok (some v, add_usize vpos tag.lvt)))

unfoldable pub decode_context_object_id : ℕ → Decoder (Option ObjectId)
unfolding decode_tag decode_unsigned
decode_context_object_id expected xs pos = if leb (length xs) pos then ok (none, pos) else (do
  tag ← decode_tag xs pos
  let vpos = add_usize pos tag.header_len
  if not tag.context || not (tag.number == expected) || not (tag.lvt == 4)
      then ok (none, pos)
      else (do
        r ← decode_unsigned xs vpos 4
        id ← ok_or (from_raw r) invalid_data
        ok (some id, add_usize vpos 4)))

-- `expect_opening_tag` at 6, `expect_closing_tag` at 7.
unfoldable pub expect_bracket : ℕ → ℕ → Decoder (Unit {0})
unfolding decode_tag
expect_bracket lvt expected xs pos = do
  tag ← decode_tag xs pos
  if not tag.context || not (tag.number == expected) || not (tag.lvt == lvt)
      then err invalid_data
      else ok (tt, add_usize pos tag.header_len)

unfoldable pub expect_opening_tag : ℕ → Decoder (Unit {0})
unfolding expect_bracket
expect_opening_tag expected = expect_bracket 6 expected

unfoldable pub expect_closing_tag : ℕ → Decoder (Unit {0})
unfolding expect_bracket
expect_closing_tag expected = expect_bracket 7 expected

-- `false` past the end.
unfoldable pub is_closing_tag : List ℕ → ℕ → ℕ → Bool
is_closing_tag xs pos num = elim (get_elem? xs pos) [
  | none ↦ false
  | some b ↦ not (bit_and b 0x08 == 0) && bit_and (b / 2 ^ 4) 0x0F == num && bit_and b 0x07 == 7
]
