-- ===== src/Apdu/Wire.antt =====
-- The bytes that the writing helpers of bridge-core/src/apdu.rs put down, as lists with no buffer and
-- no position. They are the wire format of ASHRAE 135 clause 20.2 but for one thing: a signed integer
-- that needs three octets gets four (Apdu/Standard has the format of the standard).
use micro_bacnet_bridge.Base.{ℕ, ◌+◌, ◌*◌, List, [], ◌∷◌, Option, none, some}
use micro_bacnet_bridge.Base.{leb, if◌then◌else◌, length}
use micro_bacnet_bridge.Bacnet.{ObjectId, to_raw, BacnetValue, null, boolean}
use micro_bacnet_bridge.Bacnet.{unsigned_int, signed_int, real, char_string, enumerated, object_id}
use micro_bacnet_bridge.Apdu.Write.{byte, be_bytes, within_i32}

-- The fewest big-endian bytes, one at least, that hold an unsigned number.
abbrev pub uint_bytes : ℕ → List ℕ
uint_bytes v =
    if leb v 0xFF
    then byte v 0 ∷ []
    else if leb v 0xFFFF
    then byte v 8 ∷ byte v 0 ∷ []
    else if leb v 0xFF_FFFF
    then byte v 16 ∷ byte v 8 ∷ byte v 0 ∷ []
    else be_bytes v

-- The two's complement bytes of an `i32` as the code writes them: one, two or four, never three.
abbrev pub int_bytes : ℕ → List ℕ
int_bytes v =
    if within_i32 128 v
    then byte v 0 ∷ []
    else if within_i32 32768 v
    then byte v 8 ∷ byte v 0 ∷ []
    else be_bytes v

-- A tag whose low bits are the number of bytes that follow.
abbrev pub sized : ℕ → List ℕ → List ℕ
sized base bs = (base + length bs) ∷ bs

-- The first byte of a context tag, before its length.
abbrev pub context : ℕ → ℕ
context tag = tag * 16 + 8

abbrev pub context_uint : ℕ → ℕ → List ℕ
context_uint tag v = sized (context tag) (uint_bytes v)

abbrev pub context_id : ℕ → ObjectId → List ℕ
context_id tag id = sized (context tag) (be_bytes (to_raw id))

abbrev pub opening : ℕ → List ℕ
opening tag = (tag * 16 + 14) ∷ []

abbrev pub closing : ℕ → List ℕ
closing tag = (tag * 16 + 15) ∷ []

-- A text of at most 64 bytes, behind its charset byte.
abbrev pub text_bytes : List ℕ → List ℕ
text_bytes s =
    if leb (length s + 1) 4 then sized 0x70 (0x00 ∷ s) else 0x75 ∷ (length s + 1) ∷ 0x00 ∷ s

abbrev pub value_bytes : BacnetValue → List ℕ
value_bytes null = 0x00 ∷ []
value_bytes (boolean b) = (if b then 0x11 else 0x10) ∷ []
value_bytes (unsigned_int v) = sized 0x20 (uint_bytes v)
value_bytes (signed_int v) = sized 0x30 (int_bytes v)
value_bytes (real v) = sized 0x40 (be_bytes v)
value_bytes (char_string s) = text_bytes s
value_bytes (enumerated v) = sized 0x90 (uint_bytes v)
value_bytes (object_id id) = sized 0xC0 (be_bytes (to_raw id))

abbrev pub optional_bytes : ℕ → Option ℕ → List ℕ
optional_bytes tag none = []
optional_bytes tag (some v) = context_uint tag v
