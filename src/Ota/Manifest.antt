-- ===== src/Ota/Manifest.antt =====
-- bridge-core/src/ota.rs: the manifest of the update server, and the order of versions.
use micro_bacnet_bridge.Base.{
  ℕ, ◌+◌, List, [], ◌∷◌, length, Bool, ltb, ◌==◌, ◌&&◌, ◌||◌, none, some, Result, ok, ok_or, ◌>>=◌,
}
use micro_bacnet_bridge.Error.{DecodeError, invalid_data}
use micro_bacnet_bridge.Slice.{slice, slice_from}
use micro_bacnet_bridge.Text.{split_on, parse_u32}
use micro_bacnet_bridge.Ota.Json.{
  open_brace, find_bytes, require_after, build_quoted_key, find_closing_brace, extract_string_field,
  extract_number_field, parse_sha256_hex, push_bytes,
}

-- `"channels"` in its quotes, and the names of the fields.
abbrev pub channels_key : List ℕ
channels_key = 34 ∷ 99 ∷ 104 ∷ 97 ∷ 110 ∷ 110 ∷ 101 ∷ 108 ∷ 115 ∷ 34 ∷ []

abbrev pub version_key : List ℕ
version_key = 118 ∷ 101 ∷ 114 ∷ 115 ∷ 105 ∷ 111 ∷ 110 ∷ []

abbrev pub url_key : List ℕ
url_key = 117 ∷ 114 ∷ 108 ∷ []

abbrev pub sha256_key : List ℕ
sha256_key = 115 ∷ 104 ∷ 97 ∷ 50 ∷ 53 ∷ 54 ∷ []

abbrev pub size_key : List ℕ
size_key = 115 ∷ 105 ∷ 122 ∷ 101 ∷ []

pub record ManifestEntry : Type 0 where
  pub version : List ℕ
  pub url : List ℕ
  pub sha256 : List ℕ
  pub size : ℕ

unfoldable pub parse_manifest : List ℕ → List ℕ → Result DecodeError ManifestEntry
unfolding find_bytes build_quoted_key find_closing_brace extract_string_field extract_number_field
    parse_sha256_hex push_bytes slice slice_from
parse_manifest json channel = do
  ch_pos ← ok_or (find_bytes json channels_key) invalid_data
  brace_pos ← require_after json (ch_pos + length channels_key) open_brace
  chan_key ← build_quoted_key channel
  channels ← slice_from json brace_pos
  chan_pos ← ok_or (find_bytes channels chan_key) invalid_data
  chan_brace ← require_after json (brace_pos + chan_pos + length chan_key) open_brace
  found ← find_closing_brace json chan_brace
  chan_end ← ok_or found invalid_data
  chan_obj ← slice json chan_brace (chan_end + 1)
  version_raw ← extract_string_field chan_obj version_key
  url_raw ← extract_string_field chan_obj url_key
  sha256_raw ← extract_string_field chan_obj sha256_key
  size_raw ← extract_number_field chan_obj size_key
  version ← push_bytes 32 version_raw
  url ← push_bytes 128 url_raw
  sha256 ← parse_sha256_hex sha256_raw
  ok (record { version = version; url = url; sha256 = sha256; size = size_raw })

-- `parts.next().and_then(|p| p.parse().ok()).unwrap_or(0)`, and the parts that are left.
abbrev pub next_number : List (List ℕ) → ℕ × List (List ℕ)
next_number [] = (0, [])
next_number (p ∷ parts) = (elim (parse_u32 p) [ none ↦ 0 | some n ↦ n ], parts)

abbrev pub first_part : List (List ℕ) → List ℕ → List ℕ
first_part [] s = s
first_part (p ∷ parts) s = p

unfoldable pub parse_semver : List ℕ → ℕ × ℕ × ℕ
unfolding split_on parse_u32
parse_semver s =
    let base = first_part (split_on 45 s) s in
    let (major, rest) = next_number (split_on 46 base) in
    let (minor, rest') = next_number rest in
    let (patch, _) = next_number rest' in (major, minor, patch)

-- `>` on triples: by the first component that differs.
abbrev pub greater : ℕ × ℕ × ℕ → ℕ × ℕ × ℕ → Bool
greater (a, b, c) (x, y, z) = ltb x a || ((x == a) && (ltb y b || ((y == b) && ltb z c)))

unfoldable pub is_newer_version : List ℕ → List ℕ → Bool
unfolding parse_semver
is_newer_version current available = greater (parse_semver available) (parse_semver current)
