-- ===== src/Ota/Json.antt =====
-- bridge-core/src/ota.rs: the scanner that finds keys, braces and values in a JSON text.
use micro_bacnet_bridge.Base.{
  ℕ, ◌+◌, ◌-◌, ◌*◌, ◌%◌, ◌^◌, min, bit_or, List, [], ◌∷◌, ◌++◌, length, take, Bool, true, false,
  ltb, leb, ◌==◌, not, ◌&&◌, ◌||◌, if◌then◌else◌, map, Option, none, some, Result, ok, err, ok_or,
  ◌>>=◌,
}
use mathlib.Core.Option
use micro_bacnet_bridge.Error.{DecodeError, invalid_data, length_out_of_bounds}
use micro_bacnet_bridge.Slice.{slice, slice_from, bytes_eq}
use micro_bacnet_bridge.Text.{push_all, latin1, is_digit}

-- `"`, `{`, `}`, `\` and `:`
abbrev pub quote : ℕ
quote = 34

abbrev pub open_brace : ℕ
open_brace = 123

abbrev pub close_brace : ℕ
close_brace = 125

abbrev pub backslash : ℕ
backslash = 92

abbrev pub colon : ℕ
colon = 58

-- `windows(needle.len()).position(|w| w == needle)`
unfoldable pub find_window : List ℕ → List ℕ → Option ℕ
find_window needle [] = none
find_window needle (x ∷ xs) =
    let rest = find_window needle xs in
    if bytes_eq (take (length needle) (x ∷ xs)) needle then some 0 else Option.map (λ i. i + 1) rest

unfoldable pub find_bytes : List ℕ → List ℕ → Option ℕ
unfolding find_window
find_bytes haystack needle = if length needle == 0 then some 0 else find_window needle haystack

-- `iter().position(|&x| x == b)`
unfoldable pub position_of : ℕ → List ℕ → Option ℕ
position_of b [] = none
position_of b (x ∷ xs) =
    let rest = position_of b xs in if x == b then some 0 else Option.map (λ i. i + 1) rest

unfoldable pub find_after : List ℕ → ℕ → ℕ → Result DecodeError (Option ℕ)
unfolding slice_from position_of
find_after xs start b = do
  rest ← slice_from xs start
  ok (Option.map (λ p. start + p) (position_of b rest))

-- `find_after(…).ok_or(DecodeError::InvalidData)?`
abbrev pub require_after : List ℕ → ℕ → ℕ → Result DecodeError ℕ
require_after xs start b = find_after xs start b >>= λ found. ok_or found invalid_data

-- The key in its quotes.
abbrev pub quoted : List ℕ → List ℕ
quoted key = quote ∷ (key ++ (quote ∷ []))

unfoldable pub build_quoted_key : List ℕ → Result DecodeError (List ℕ)
build_quoted_key key = if ltb 34 (length key + 2) then err length_out_of_bounds else ok (quoted key)

-- What the loop does with a byte: `depth` is an `i32`, as its 32 bits.
pub record Scan : Type 0 where
  pub depth : ℕ
  pub in_string : Bool
  pub escape : Bool

abbrev pub scan_start : Scan
scan_start = record { depth = 0; in_string = false; escape = false }

abbrev pub deeper : Scan → Scan
deeper s = record s { depth = (s.depth + 1) % 2 ^ 32 }

abbrev pub shallower : Scan → Scan
shallower s = record s { depth = (s.depth + (2 ^ 32 - 1)) % 2 ^ 32 }

abbrev pub scan_byte : ℕ → Scan → Scan
scan_byte b s =
    if s.escape
    then record s { escape = false }
    else if s.in_string
    then (if b == backslash
        then record s { escape = true }
        else (if b == quote then record s { in_string = false } else s))
    else if b == quote
    then record s { in_string = true }
    else if b == open_brace
    then deeper s
    else if b == close_brace
    then shallower s
    else s

-- A closing brace outside of a string that brings the depth to 0 ends the scan.
abbrev pub closes : ℕ → Scan → Bool
closes b s = not s.escape && (not s.in_string && ((b == close_brace) && ((shallower s).depth == 0)))

unfoldable pub scan : Scan → List ℕ → Option ℕ
scan s [] = none
scan s (b ∷ xs) =
    let rest = scan (scan_byte b s) xs in
    if closes b s then some 0 else Option.map (λ i. i + 1) rest

unfoldable pub find_closing_brace : List ℕ → ℕ → Result DecodeError (Option ℕ)
unfolding slice_from scan
find_closing_brace xs open_pos = do
  rest ← slice_from xs open_pos
  ok (Option.map (λ i. open_pos + i) (scan scan_start rest))

-- The position behind the key `"key"` in an object.
unfoldable pub find_key : List ℕ → List ℕ → Result DecodeError ℕ
unfolding find_bytes
find_key obj key = if ltb 66 (length key + 2) then err invalid_data else (do
  key_pos ← ok_or (find_bytes obj (quoted key)) invalid_data
  ok (key_pos + length (quoted key)))

unfoldable pub extract_string_field : List ℕ → List ℕ → Result DecodeError (List ℕ)
unfolding find_key find_after position_of slice_from slice
extract_string_field obj key = do
  after_key ← find_key obj key
  colon_pos ← require_after obj after_key colon
  value_quote ← require_after obj (colon_pos + 1) quote
  let value_start = value_quote + 1
  rest ← slice_from obj value_start
  closing ← ok_or (position_of quote rest) invalid_data
  slice obj value_start (value_start + closing)

-- The blanks before a number.
abbrev pub is_blank : ℕ → Bool
is_blank b = (b == 32) || ((b == 9) || (b == 10))

unfoldable pub skip_blanks : List ℕ → List ℕ
skip_blanks [] = []
skip_blanks (b ∷ xs) = let rest = skip_blanks xs in if is_blank b then rest else b ∷ xs

-- `value.saturating_mul(10).saturating_add(d)` over the digits, and whether there was one.
abbrev pub saturate : ℕ → ℕ
saturate n = min n (2 ^ 32 - 1)

unfoldable pub read_digits : ℕ → Bool → List ℕ → ℕ × Bool
read_digits value found [] = (value, found)
read_digits value found (b ∷ xs) =
    let rest = read_digits (saturate (saturate (value * 10) + (b - 48))) true xs in
    if is_digit b then rest else (value, found)

unfoldable pub extract_number_field : List ℕ → List ℕ → Result DecodeError ℕ
unfolding find_key find_after skip_blanks read_digits slice_from
extract_number_field obj key = do
  after_key ← find_key obj key
  colon_pos ← require_after obj after_key colon
  rest ← slice_from obj (colon_pos + 1)
  let (value, found) = read_digits 0 false (skip_blanks rest)
  if found then ok value else err invalid_data

unfoldable pub hex_nibble : ℕ → Result DecodeError ℕ
hex_nibble b =
    if leb 48 b && leb b 57
    then ok (b - 48)
    else if leb 97 b && leb b 102
    then ok (b - 97 + 10)
    else if leb 65 b && leb b 70
    then ok (b - 65 + 10)
    else err invalid_data

-- The pairs of digits, the first one highest.
unfoldable pub parse_hex : List ℕ → Result DecodeError (List ℕ)
unfolding hex_nibble
parse_hex [] = ok []
parse_hex (x ∷ []) = ok []
parse_hex (x ∷ y ∷ hex) = do
  hi ← hex_nibble x
  lo ← hex_nibble y
  rest ← parse_hex hex
  ok (bit_or (hi * 2 ^ 4 % 256) lo ∷ rest)

unfoldable pub parse_sha256_hex : List ℕ → Result DecodeError (List ℕ)
unfolding parse_hex
parse_sha256_hex hex = if not (length hex == 64) then err invalid_data else parse_hex hex

-- `push_bytes` into an empty `String<N>`
unfoldable pub push_bytes : ℕ → List ℕ → Result DecodeError (List ℕ)
push_bytes room bytes = ok_or (push_all room [] (map latin1 bytes)) length_out_of_bounds
