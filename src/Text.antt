-- ===== src/Text.antt =====
-- What the standard library and `heapless` do for the texts of the bridge: a text is its bytes, in a
-- `heapless::String<N>` or `heapless::Vec<u8, N>` of at most N of them.
use mathlib.Core.List.{foldl}
use micro_bacnet_bridge.Base.{
  ℕ, zero, suc, ◌+◌, ◌/◌, ◌%◌, List, [], ◌∷◌, ◌++◌, length, leb, ltb, if◌then◌else◌, ◌-◌, ◌*◌, ◌^◌,
  ◌==◌, ◌&&◌, Bool, Option, none, some, ◌≤◌, ◌≡◌, refl, le→leb,
}

-- `Display` of an unsigned integer: its decimal digits, at most ten for a `u32`.
unfoldable pub digits : ℕ → ℕ → List ℕ
digits zero n = []
digits (suc fuel) n =
    let more = digits fuel (n / 10) in
    if ltb n 10 then (48 + n) ∷ [] else more ++ ((48 + n % 10) ∷ [])

unfoldable pub decimal : ℕ → List ℕ
unfolding digits
decimal n = digits 10 n

-- `push_str`, `push` of an ASCII character and `write_str`: all of the text, or none of it.
abbrev pub push_str : ℕ → List ℕ → List ℕ → Option (List ℕ)
push_str cap text s = if leb (length text + length s) cap then some (text ++ s) else none

-- `write!`: the pieces in turn.
abbrev pub push_all : ℕ → List ℕ → List (List ℕ) → Option (List ℕ)
push_all cap text [] = some text
push_all cap text (s ∷ pieces) = elim (push_str cap text s) [
  | none ↦ none
  | some text' ↦ push_all cap text' pieces
]

-- `b as char`, in UTF-8
abbrev pub latin1 : ℕ → List ℕ
latin1 b = if ltb b 128 then b ∷ [] else (0xC0 + b / 64) ∷ (0x80 + b % 64) ∷ []

-- `s.split(c)`: an empty text has one empty part.
abbrev pub cons_head : ℕ → List (List ℕ) → List (List ℕ)
cons_head c [] = (c ∷ []) ∷ []
cons_head c (part ∷ parts) = (c ∷ part) ∷ parts

unfoldable pub split_on : ℕ → List ℕ → List (List ℕ)
split_on sep [] = [] ∷ []
split_on sep (c ∷ s) =
    let parts = split_on sep s in if c == sep then [] ∷ parts else cons_head c parts

-- `s.parse::<u32>()`: decimal digits behind an optional plus, with a value below 2 ^ 32.
abbrev pub is_digit : ℕ → Bool
is_digit c = leb 48 c && leb c 57

abbrev pub add_digit : Option ℕ → ℕ → Option ℕ
add_digit none c = none
add_digit (some n) c =
    if is_digit c && ltb (n * 10 + (c - 48)) (2 ^ 32) then some (n * 10 + (c - 48)) else none

unfoldable pub parse_u32 : List ℕ → Option ℕ
parse_u32 [] = none
parse_u32 (c ∷ []) = add_digit (some 0) c
parse_u32 (c ∷ d ∷ s) =
    if c == 43 then foldl add_digit (some 0) (d ∷ s) else foldl add_digit (some 0) (c ∷ d ∷ s)

pub push_all-cons :
    (room : ℕ) (text s : List ℕ) (pieces : List (List ℕ))
    → length text + length s ≤ room
    → push_all room text (s ∷ pieces) ≡ push_all room (text ++ s) pieces
push_all-cons room text s pieces fits =
    rw (push_all, le→leb (length text + length s) room fits) refl
