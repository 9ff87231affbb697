-- ===== src/Auth.antt =====
-- bridge-core/src/auth.rs: passwords, bearer tokens and permissions. SHA-256 comes from the crate
-- `sha2` and is a parameter.
pub mod Laws
use Prim.Native.Nat.{bit_xor}
use micro_bacnet_bridge.Base.{
  ℕ, suc, ◌+◌, min, bit_or, List, [], ◌∷◌, length, take, replicate, Bool, true, false, ◌==◌, Option,
  none, some, if◌then◌else◌, Result, ok, ◌>>=◌,
}
use micro_bacnet_bridge.Error.{DecodeError}
use micro_bacnet_bridge.Slice.{store, slice, bytes_eq}

pub data UserRole : Type 0 where
  admin operator viewer : UserRole

pub record TokenConfig : Type 0 where
  pub name : List ℕ
  pub token_hash : List ℕ
  pub role : UserRole
  pub created_by : List ℕ

-- The loop over the indices of two arrays of 32 bytes.
unfoldable pub difference : ℕ → List ℕ → List ℕ → ℕ
difference diff [] ys = diff
difference diff (a ∷ xs) [] = diff
difference diff (a ∷ xs) (b ∷ ys) = difference (bit_or diff (bit_xor a b)) xs ys

unfoldable pub constant_time_eq : List ℕ → List ℕ → Bool
unfolding difference
constant_time_eq a b = difference 0 a b == 0

module _ (sha256 : List ℕ → List ℕ) where
  unfoldable pub hash_token : List ℕ → List ℕ
  hash_token token = sha256 token

  -- The salt and at most 64 bytes of the password, in a buffer of 96 bytes.
  unfoldable pub hash_password : List ℕ → List ℕ → Result DecodeError (List ℕ)
  unfolding store slice
  hash_password password salt = do
    let pw_len = min (length password) 64
    salted ← store (replicate 96 0) 0 salt
    buf ← store salted 32 (take pw_len password)
    message ← slice buf 0 (32 + pw_len)
    ok (sha256 message)

  -- A digest of zeros is that of an account that is not configured.
  unfoldable pub verify_password : List ℕ → List ℕ → List ℕ → Result DecodeError Bool
  unfolding hash_password constant_time_eq
  verify_password password salt stored_digest =
      if bytes_eq stored_digest (replicate 32 0)
      then ok false
      else (do computed ← hash_password password salt; ok (constant_time_eq computed stored_digest))

  -- The loop over the tokens, with the hash of the one that is shown.
  unfoldable pub find_hash : List ℕ → List TokenConfig → Option UserRole
  unfolding constant_time_eq
  find_hash computed [] = none
  find_hash computed (t ∷ tokens) =
      let rest = find_hash computed tokens in
      if constant_time_eq computed t.token_hash then some t.role else rest

  unfoldable pub find_token_role : List ℕ → List TokenConfig → Option UserRole
  unfolding hash_token find_hash
  find_token_role token tokens = find_hash (hash_token token) tokens

pub data Permission : Type 0 where
  view_dashboard view_config write_points edit_point_config edit_system_config : Permission
  manage_users manage_tls manage_firmware export_config : Permission

unfoldable pub has_permission : UserRole → Permission → Bool
has_permission role view_dashboard = true
has_permission role view_config = true
has_permission viewer write_points = false
has_permission operator write_points = true
has_permission admin write_points = true
has_permission viewer edit_point_config = false
has_permission operator edit_point_config = true
has_permission admin edit_point_config = true
has_permission admin edit_system_config = true
has_permission operator edit_system_config = false
has_permission viewer edit_system_config = false
has_permission admin manage_users = true
has_permission operator manage_users = false
has_permission viewer manage_users = false
has_permission admin manage_tls = true
has_permission operator manage_tls = false
has_permission viewer manage_tls = false
has_permission admin manage_firmware = true
has_permission operator manage_firmware = false
has_permission viewer manage_firmware = false
has_permission admin export_config = true
has_permission operator export_config = false
has_permission viewer export_config = false
