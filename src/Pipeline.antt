-- ===== src/Pipeline.antt =====
-- bridge-core/src/pipeline.rs: the processors between the bus and the display, and the modes of points
-- of bridge-core/src/config.rs.
pub mod Labels
pub mod Config
use micro_bacnet_bridge.Base.{ℕ, suc, ◌+◌, ◌-◌, List, [], ◌∷◌, ◌++◌, Bool, true, false, not, ◌||◌}
use micro_bacnet_bridge.Base.{Option, none, some, get_elem?, leb, if◌then◌else◌}
use micro_bacnet_bridge.Slice.{bytes_eq}
use micro_bacnet_bridge.Bacnet.{
  BacnetValue, null, boolean, unsigned_int, signed_int, real, char_string, enumerated, object_id,
}
use micro_bacnet_bridge.Bridge.{BridgeState, update_point}
use micro_bacnet_bridge.Bacnet.{ObjectId}

-- The operations on `f32`, on its bits: `*`, `+`, `-`, `/`, `as f32` from `u32` and from `i32`,
-- `== 0.0`, and `str::parse`.
pub record Floats : Type 0 where
  pub mul : ℕ → ℕ → ℕ
  pub add : ℕ → ℕ → ℕ
  pub sub : ℕ → ℕ → ℕ
  pub div : ℕ → ℕ → ℕ
  pub from_u32 : ℕ → ℕ
  pub from_i32 : ℕ → ℕ
  pub is_zero : ℕ → Bool
  pub parse : List ℕ → Option ℕ

pub data PointMode : Type 0 where
  ignore : PointMode
  passthrough : PointMode
  processed : PointMode

-- The factor and the offset of `scale` are `f32`; a label has at most twelve bytes.
pub data Processor : Type 0 where
  set_unit : ℕ → Processor
  scale : ℕ → ℕ → Processor
  map_states : List (List ℕ) → Processor

unfoldable pub is_active : PointMode → Bool
is_active ignore = false
is_active passthrough = true
is_active processed = true

-- The label of a state, which is counted from one.
unfoldable pub label_of : ℕ → List (List ℕ) → Option (List ℕ)
label_of n labels = if leb 1 n then get_elem? labels (n - 1) else none

-- A label fits a `String<64>`, so all its characters are copied.
unfoldable pub apply_map_states : BacnetValue → List (List ℕ) → BacnetValue
unfolding label_of
apply_map_states (enumerated n) labels = elim (label_of n labels) [
  | some l ↦ char_string l
  | none ↦ enumerated n
]
apply_map_states (unsigned_int n) labels = elim (label_of n labels) [
  | some l ↦ char_string l
  | none ↦ unsigned_int n
]
apply_map_states null labels = null
apply_map_states (boolean b) labels = boolean b
apply_map_states (signed_int n) labels = signed_int n
apply_map_states (real f) labels = real f
apply_map_states (char_string s) labels = char_string s
apply_map_states (object_id id) labels = object_id id

-- `str == str`, and a display value that is one of three keywords.
abbrev is_one_of : List ℕ → List ℕ → List ℕ → List ℕ → Bool
is_one_of s a b c = bytes_eq s a || bytes_eq s b || bytes_eq s c

-- "true", "Active" and "ON"; "false", "Inactive" and "OFF".
unfoldable pub parse_boolean : List ℕ → Option Bool
parse_boolean s =
    if is_one_of s (116 ∷ 114 ∷ 117 ∷ 101 ∷ []) (65 ∷ 99 ∷ 116 ∷ 105 ∷ 118 ∷ 101 ∷ [])
      (79 ∷ 78 ∷ [])
    then some true
    else if is_one_of s (102 ∷ 97 ∷ 108 ∷ 115 ∷ 101 ∷ [])
        (73 ∷ 110 ∷ 97 ∷ 99 ∷ 116 ∷ 105 ∷ 118 ∷ 101 ∷ []) (79 ∷ 70 ∷ 70 ∷ [])
    then some false
    else none

-- The first label, from the index `i` on, that is the display value.
unfoldable pub find_label : List ℕ → ℕ → List (List ℕ) → Option ℕ
find_label s i [] = none
find_label s i (l ∷ labels) =
    let rest = find_label s (i + 1) labels in if bytes_eq l s then some i else rest

abbrev pub reverse_list {ℓ} : {A : Type ℓ} → List A → List A → List A
reverse_list [] done = done
reverse_list (x ∷ xs) done = reverse_list xs (x ∷ done)

module _ (fl : Floats) where
  unfoldable pub apply_scale : BacnetValue → ℕ → ℕ → BacnetValue
  apply_scale (real f) factor offset = real (fl.add (fl.mul f factor) offset)
  apply_scale (signed_int n) factor offset = real (fl.add (fl.mul (fl.from_i32 n) factor) offset)
  apply_scale (unsigned_int n) factor offset = real (fl.add (fl.mul (fl.from_u32 n) factor) offset)
  apply_scale (enumerated n) factor offset = real (fl.add (fl.mul (fl.from_u32 n) factor) offset)
  apply_scale null factor offset = null
  apply_scale (boolean b) factor offset = boolean b
  apply_scale (char_string s) factor offset = char_string s
  apply_scale (object_id id) factor offset = object_id id

  unfoldable pub apply_processor : BacnetValue → Processor → BacnetValue
  unfolding apply_scale apply_map_states
  apply_processor value (set_unit u) = value
  apply_processor value (scale factor offset) = apply_scale value factor offset
  apply_processor value (map_states labels) = apply_map_states value labels

  -- `for proc in processors { current = apply_processor(current, proc); }`
  unfoldable pub apply_all : BacnetValue → List Processor → BacnetValue
  unfolding apply_processor
  apply_all current [] = current
  apply_all current (p ∷ ps) = apply_all (apply_processor current p) ps

  unfoldable pub process_value : BacnetValue → PointMode → List Processor → BacnetValue
  unfolding apply_all
  process_value value ignore processors = null
  process_value value passthrough processors = value
  process_value value processed processors = apply_all value processors

  -- What the strings "1", "0" and a number mean, by the value made of the number.
  unfoldable pub parse_number : List ℕ → (ℕ → ℕ) → Option BacnetValue
  parse_number s convert = elim (fl.parse s) [
    | none ↦ none
    | some parsed ↦
        if bytes_eq s (49 ∷ [])
        then some (boolean true)
        else if bytes_eq s (48 ∷ [])
        then some (boolean false)
        else some (real (convert parsed))
  ]

  unfoldable pub reverse_scale : List ℕ → ℕ → ℕ → Option BacnetValue
  unfolding parse_boolean parse_number
  reverse_scale s factor offset = elim (parse_boolean s) [
    | some b ↦ some (boolean b)
    | none ↦
        parse_number s
          (λ parsed. if fl.is_zero factor then parsed else fl.div (fl.sub parsed offset) factor)
  ]

  -- Where no processor takes the display value.
  unfoldable pub fallback : List ℕ → Option BacnetValue
  unfolding parse_boolean
  fallback s = elim (parse_boolean s) [
    | some b ↦ some (boolean b)
    | none ↦
        if bytes_eq s (49 ∷ [])
        then some (boolean true)
        else if bytes_eq s (48 ∷ [])
        then some (boolean false)
        else elim (fl.parse s) [ some parsed ↦ some (real parsed) | none ↦ none ]
  ]

  -- The walk over the processors, last one first.
  unfoldable pub reverse_walk : List ℕ → List Processor → Option BacnetValue
  unfolding find_label reverse_scale fallback
  reverse_walk s [] = fallback s
  reverse_walk s (set_unit u ∷ ps) = reverse_walk s ps
  reverse_walk s (map_states labels ∷ ps) = elim (find_label s 0 labels) [
    | some idx ↦ some (enumerated (idx + 1))
    | none ↦ reverse_walk s ps
  ]
  reverse_walk s (scale factor offset ∷ ps) = elim (reverse_scale s factor offset) [
    | some v ↦ some v
    | none ↦ reverse_walk s ps
  ]

  unfoldable pub reverse_value : List ℕ → List Processor → Option BacnetValue
  unfolding reverse_walk
  reverse_value s processors = reverse_walk s (reverse_list processors [])

  -- `BridgeStateInner::update_point_with_pipeline` of bridge-core/src/bridge.rs
  unfoldable pub update_point_with_pipeline :
      ℕ → ObjectId → BacnetValue → ℕ → PointMode → List Processor → BridgeState → BridgeState
  unfolding update_point process_value
  update_point_with_pipeline idx id raw unit ignore processors s = s
  update_point_with_pipeline idx id raw unit passthrough processors s =
      update_point idx id raw unit s
  update_point_with_pipeline idx id raw unit processed processors s =
      update_point idx id (process_value raw processed processors) unit s
