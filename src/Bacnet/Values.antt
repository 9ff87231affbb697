-- ===== src/Bacnet/Values.antt =====
-- UTF-8 as `core::str::from_utf8` checks it, and the values that a Rust value of the types can hold.
use micro_bacnet_bridge.Base.{ℕ, ◌-◌, ◌^◌, ◌≤◌, ◌<◌, ◌≡◌, List, [], ◌∷◌, Bool, true, false, ◌&&◌}
use micro_bacnet_bridge.Base.{Option, none, some, ltb, leb, ◌==◌, if◌then◌else◌, length, All}
use micro_bacnet_bridge.Slice.{IsByte}
use micro_bacnet_bridge.Bacnet.{BacnetValue, null, boolean, unsigned_int, signed_int}
use micro_bacnet_bridge.Bacnet.{real, char_string, enumerated, object_id}
use micro_bacnet_bridge.Bacnet.Codes.{IsInstance}

-- What may follow: that many bytes, the first of them in a range, the others in 0x80 ..= 0xBF.
pub record Pending : Type 0 where
  pub count : ℕ
  pub low : ℕ
  pub high : ℕ

abbrev pub at_boundary : Pending
at_boundary = record { count = 0; low = 0x80; high = 0xBF }

abbrev pending : ℕ → ℕ → ℕ → Pending
pending n lo hi = record { count = n; low = lo; high = hi }

-- The first byte of a character.
utf8_first : ℕ → Option Pending
utf8_first b =
    if ltb b 0x80
    then some at_boundary
    else if ltb b 0xC2
    then none
    else if ltb b 0xE0
    then some (pending 1 0x80 0xBF)
    else if b == 0xE0
    then some (pending 2 0xA0 0xBF)
    else if b == 0xED
    then some (pending 2 0x80 0x9F)
    else if ltb b 0xF0
    then some (pending 2 0x80 0xBF)
    else if b == 0xF0
    then some (pending 3 0x90 0xBF)
    else if ltb b 0xF4
    then some (pending 3 0x80 0xBF)
    else if b == 0xF4
    then some (pending 3 0x80 0x8F)
    else none

utf8_next : Pending → ℕ → Option Pending
unfolding utf8_first
utf8_next s b =
    if s.count == 0
    then utf8_first b
    else if leb s.low b && leb b s.high
    then some (pending (s.count - 1) 0x80 0xBF)
    else none

utf8_run : Option Pending → List ℕ → Bool
unfolding utf8_next
utf8_run none bs = false
utf8_run (some s) [] = s.count == 0
utf8_run (some s) (b ∷ bs) = utf8_run (utf8_next s b) bs

unfoldable pub is_utf8 : List ℕ → Bool
unfolding utf8_run
is_utf8 bs = utf8_run (some at_boundary) bs

-- A `String<64>` holds at most 64 bytes of UTF-8.
pub record IsText (max_len : ℕ) (s : List ℕ) : Type 0 where
  pub fits : length s ≤ max_len
  pub bytes : All IsByte s
  pub valid : is_utf8 s ≡ true

abbrev pub IsU32 : ℕ → Type 0
IsU32 v = v < 2 ^ 32

abbrev pub IsValue : BacnetValue → Type 0
IsValue null = Unit {0}
IsValue (boolean b) = Unit {0}
IsValue (unsigned_int v) = IsU32 v
IsValue (signed_int v) = IsU32 v
IsValue (real v) = IsU32 v
IsValue (char_string s) = IsText 64 s
IsValue (enumerated v) = IsU32 v
IsValue (object_id id) = IsInstance id.instance_num
