-- ===== src/Ota.antt =====
-- bridge-core/src/ota.rs: the checks of a firmware image and the blocks of a UF2 file.
pub mod Json
pub mod Manifest
pub mod Braces
use micro_bacnet_bridge.Base.{
  ℕ, ◌+◌, ◌-◌, ◌*◌, ◌%◌, ◌^◌, bit_and, List, [], ◌∷◌, length, Bool, true, false, ltb, leb, ◌==◌,
  not, ◌&&◌, ◌||◌, if◌then◌else◌, Result, ok, err, ◌>>=◌,
}
use micro_bacnet_bridge.Slice.{byte_at, slice}

abbrev pub max_firmware_size : ℕ
max_firmware_size = 1500000

abbrev pub flash_base : ℕ
flash_base = 0x10000000

abbrev pub flash_end_max : ℕ
flash_end_max = 0x10400000

abbrev pub ram_base : ℕ
ram_base = 0x20000000

abbrev pub ram_end_rp2040 : ℕ
ram_end_rp2040 = 0x20042000

abbrev pub ram_end_rp2350 : ℕ
ram_end_rp2350 = 0x20082000

-- `u32::from_le_bytes` of four bytes from `i` on
unfoldable pub read_le32 {ℓ} : {E : Type ℓ} → List ℕ → ℕ → Result E ℕ
unfolding byte_at
read_le32 xs i = do
  a ← byte_at xs i
  b ← byte_at xs (i + 1)
  c ← byte_at xs (i + 2)
  d ← byte_at xs (i + 3)
  ok (a + b * 2 ^ 8 + c * 2 ^ 16 + d * 2 ^ 24)

-- The initial stack pointer and the reset vector, whose lowest bit is masked off.
abbrev pub sp_valid : ℕ → Bool
sp_valid sp = (sp % 4 == 0) && (leb ram_base sp && (leb sp ram_end_rp2040 || leb sp ram_end_rp2350))

abbrev pub rv_valid : ℕ → Bool
rv_valid reset_vec = leb flash_base reset_vec && ltb reset_vec flash_end_max

unfoldable pub validate_firmware_image {ℓ} : {E : Type ℓ} → List ℕ → Result E Bool
unfolding read_le32
validate_firmware_image first_8_bytes = if ltb (length first_8_bytes) 8 then ok false else (do
  sp ← read_le32 first_8_bytes 0
  reset_raw ← read_le32 first_8_bytes 4
  ok (sp_valid sp && rv_valid (bit_and reset_raw (2 ^ 32 - 1 - 1))))

abbrev pub uf2_block_size : ℕ
uf2_block_size = 512

abbrev pub uf2_payload_size : ℕ
uf2_payload_size = 256

abbrev pub uf2_magic1 : ℕ
uf2_magic1 = 0x0A324655

abbrev pub uf2_magic2 : ℕ
uf2_magic2 = 0x9E5D5157

abbrev pub uf2_magic3 : ℕ
uf2_magic3 = 0x0AB16F30

unfoldable pub is_uf2 {ℓ} : {E : Type ℓ} → List ℕ → Result E Bool
unfolding read_le32
is_uf2 xs =
    if ltb (length xs) 4 then ok false else (do magic ← read_le32 xs 0; ok (magic == uf2_magic1))

-- The texts that the parser returns as errors.
pub data Uf2Error : Type 0 where
  block_too_short bad_magic1 bad_magic2 bad_magic3 payload_too_large : Uf2Error

-- `(target_addr, payload, block_num, total_blocks)`
unfoldable pub parse_uf2_block : List ℕ → Result Uf2Error (ℕ × List ℕ × ℕ × ℕ)
unfolding read_le32 slice
parse_uf2_block block = if ltb (length block) uf2_block_size then err block_too_short else (do
  magic1 ← read_le32 block 0
  magic2 ← read_le32 block 4
  flags ← read_le32 block 8
  target_addr ← read_le32 block 12
  payload_size ← read_le32 block 16
  block_num ← read_le32 block 20
  total_blocks ← read_le32 block 24
  magic3 ← read_le32 block 508
  if not (magic1 == uf2_magic1)
      then err bad_magic1
      else (if not (magic2 == uf2_magic2)
          then err bad_magic2
          else (if not (magic3 == uf2_magic3)
              then err bad_magic3
              else (if ltb uf2_payload_size payload_size then err payload_too_large else (do
                payload ← slice block 32 (32 + payload_size)
                ok (target_addr, payload, block_num, total_blocks))))))
