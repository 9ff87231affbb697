-- ===== src/Tests/Agents.antt =====
-- Authentication, firmware updates and the SNMP agent at concrete inputs.
use micro_bacnet_bridge.Base.{
  ℕ, ◌+◌, ◌≡◌, ◌≢◌, ◌⊎◌, ◌↔◌, refl, arith, List, [], ◌∷◌, ◌++◌, true, false, some, take, replicate,
  length, ok, err,
}
use micro_bacnet_bridge.Base.{◌-◌, ◌^◌}
use micro_bacnet_bridge.Error.{DecodeError}
use micro_bacnet_bridge.Auth.{admin, operator, verify_password, find_token_role}
use micro_bacnet_bridge.Auth.Laws.{verify_password_iff}
use micro_bacnet_bridge.Ota.{validate_firmware_image, parse_uf2_block, block_too_short}
use micro_bacnet_bridge.Ota.Json.{find_closing_brace, extract_number_field}
use micro_bacnet_bridge.Ota.Manifest.{is_newer_version}
use micro_bacnet_bridge.Ota.Braces.{
  raw, escaped, nothing, other, string, braced, find_closing_brace-render,
}
use micro_bacnet_bridge.Base.{All}
use micro_bacnet_bridge.Snmp.{null, decode_oid}
use micro_bacnet_bridge.Snmp.Encode.{encode_integer, encode_oid, encode_varbind, encode_u32_app}
use micro_bacnet_bridge.Snmp.Agent.{oid_table, next_oid, oid_sys_contact, oid_sys_name}
use micro_bacnet_bridge.Snmp.Walk.{walk, Below, walk_lem}

abbrev fives : List ℕ
fives = replicate 32 5

abbrev salt : List ℕ
salt = replicate 32 4

-- A hash function for the tests: the first byte of the message, 32 times.
abbrev first_byte_hash : List ℕ → List ℕ
first_byte_hash [] = replicate 32 1
first_byte_hash (b ∷ bs) = replicate 32 (b + 1)

first_byte_hash_size : (message : List ℕ) → length (first_byte_hash message) ≡ 32
first_byte_hash_size [] = refl
first_byte_hash_size (b ∷ bs) = refl

verify_password_iff_example :
    ((verify_password first_byte_hash (120 ∷ []) salt fives ≡ ok true)
      ↔ ((fives ≢ replicate 32 0) × (first_byte_hash (salt ++ take 64 (120 ∷ [])) ≡ fives)))
    × ((verify_password first_byte_hash (120 ∷ []) salt fives ≡ ok true)
        ⊎ (verify_password first_byte_hash (120 ∷ []) salt fives ≡ ok false))
verify_password_iff_example =
    verify_password_iff first_byte_hash (120 ∷ []) salt fives refl refl first_byte_hash_size

-- The first token with the hash gives the role.
role_found :
    find_token_role first_byte_hash (7 ∷ []) (
      record { name = []; token_hash = replicate 32 9; role = admin; created_by = [] }
      ∷ record { name = []; token_hash = replicate 32 8; role = operator; created_by = [] }
      ∷ [])
    ≡ some operator
unfolding find_token_role
role_found = refl

-- 0x2004_1FFC and 0x1000_0101
image_accepted :
    validate_firmware_image {E = DecodeError}
      (0xFC ∷ 0x1F ∷ 0x04 ∷ 0x20 ∷ 0x01 ∷ 0x01 ∷ 0x00 ∷ 0x10 ∷ [])
    ≡ ok true
unfolding validate_firmware_image
image_accepted = refl

short_refused : parse_uf2_block (replicate 511 0) ≡ err block_too_short
unfolding parse_uf2_block
short_refused = refl

-- 0.1.99 and 0.2.0-pico2
newer :
    is_newer_version
      (48 ∷ 46 ∷ 49 ∷ 46 ∷ 57 ∷ 57 ∷ [])
      (48 ∷ 46 ∷ 50 ∷ 46 ∷ 48 ∷ 45 ∷ 112 ∷ 105 ∷ 99 ∷ 111 ∷ 50 ∷ [])
    ≡ true
unfolding is_newer_version
newer = refl

size_read :
    extract_number_field
      (123 ∷ 34 ∷ 115 ∷ 105 ∷ 122 ∷ 101 ∷ 34 ∷ 58 ∷ 32 ∷ 53 ∷ 50 ∷ 52 ∷ 50 ∷ 56 ∷ 56 ∷ 125 ∷ [])
      (115 ∷ 105 ∷ 122 ∷ 101 ∷ [])
    ≡ ok 524288
unfolding extract_number_field
size_read = refl

-- The text `x"}\""{y}` between two braces.
find_closing_brace-render_example :
    find_closing_brace
      (9 ∷ 123 ∷ 120 ∷ 34 ∷ 125 ∷ 92 ∷ 34 ∷ 34 ∷ 123 ∷ 121 ∷ 125 ∷ 125 ∷ 125 ∷ [])
      1
    ≡ ok (some 11)
find_closing_brace-render_example =
    find_closing_brace-render (9 ∷ [])
      (other 120 (string (raw 125 ∷ escaped 34 ∷ []) (braced (other 121 nothing) nothing)))
      (125 ∷ [])
      (
        λ e. omega (arith, e),
        λ e. omega (arith, e),
        λ e. omega (arith, e),
        (
          ((λ e. omega (arith, e), λ e. omega (arith, e)), (tt, tt)),
          ((λ e. omega (arith, e), λ e. omega (arith, e), λ e. omega (arith, e), tt), tt),
        ),
      )
      (omega arith)

-- The packets of the tests of the codec: -1, and the OID 1.3.6.1.2.1.1.1.0.
minus_one : encode_integer (2 ^ 32 - 1) (replicate 3 0) 0 ≡ ok (0x02 ∷ 0x01 ∷ 0xFF ∷ [], 3)
unfolding encode_integer
minus_one = refl

oid_sent :
    encode_oid (1 ∷ 3 ∷ 6 ∷ 1 ∷ 4 ∷ 1 ∷ 99999 ∷ 1 ∷ []) (replicate 11 0) 0
    ≡ ok (0x06 ∷ 9 ∷ 0x2B ∷ 6 ∷ 1 ∷ 4 ∷ 1 ∷ 0x86 ∷ 0x8D ∷ 0x1F ∷ 1 ∷ [], 11)
unfolding encode_oid
oid_sent = refl

oid_read :
    decode_oid (0x06 ∷ 9 ∷ 0x2B ∷ 6 ∷ 1 ∷ 4 ∷ 1 ∷ 0x86 ∷ 0x8D ∷ 0x1F ∷ 1 ∷ []) 2 11
    ≡ ok (1 ∷ 3 ∷ 6 ∷ 1 ∷ 4 ∷ 1 ∷ 99999 ∷ 1 ∷ [])
unfolding decode_oid
oid_read = refl

-- A binding is shifted left to its header.
varbind_sent :
    encode_varbind (record { oid = 1 ∷ 3 ∷ 6 ∷ []; value = null }) (replicate 10 7) 0
    ≡ ok (0x30 ∷ 6 ∷ 0x06 ∷ 2 ∷ 0x2B ∷ 6 ∷ 0x05 ∷ 0 ∷ 5 ∷ 0 ∷ [], 8)
unfolding encode_varbind
varbind_sent = refl

-- The counter 128 is written as one byte with its top bit set.
counter_sent : encode_u32_app 0x41 128 (replicate 3 0) 0 ≡ ok (0x41 ∷ 1 ∷ 128 ∷ [], 3)
unfolding encode_u32_app
counter_sent = refl

walk_lem_example :
    (skipped : List (List ℕ)) × (found : List (List ℕ)) × (walk 10 (1 ∷ 3 ∷ 6 ∷ 1 ∷ 2 ∷ [])
      ≡ some found)
    × (oid_table ≡ skipped ++ found)
    × All (λ (t : List ℕ). ¬ Below (1 ∷ 3 ∷ 6 ∷ 1 ∷ 2 ∷ []) t) skipped
    × All (Below (1 ∷ 3 ∷ 6 ∷ 1 ∷ 2 ∷ [])) found
walk_lem_example = walk_lem (1 ∷ 3 ∷ 6 ∷ 1 ∷ 2 ∷ []) 10 (omega arith)

after_contact : next_oid oid_sys_contact ≡ some oid_sys_name
unfolding next_oid
after_contact = refl
