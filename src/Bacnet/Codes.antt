-- ===== src/Bacnet/Codes.antt =====
-- Codes and the values that they stand for.
use micro_bacnet_bridge.Base.{ℕ, ◌+◌, ◌*◌, ◌/◌, ◌%◌, ◌^◌, ◌<◌, ◌≡◌, refl, arith, bit_and}
use micro_bacnet_bridge.Base.{Option, none, some}
use mathlib.Core.Option
use micro_bacnet_bridge.Base.Bits.{or_disjoint, and_low}
use micro_bacnet_bridge.Bacnet.{ObjectType, type_code, type_from_code, ObjectId, to_raw, from_raw}
use micro_bacnet_bridge.Bacnet.{PropertyId, property_code, property_from_code}

pub type_from_code-type_code : (t : ObjectType) → type_from_code (type_code t) ≡ some t
unfolding type_from_code type_code
type_from_code-type_code ObjectType.analog_input = refl
type_from_code-type_code _ = refl

pub type_code-lt : (t : ObjectType) → type_code t < 1024
unfolding type_code
type_code-lt ObjectType.analog_input = omega arith
type_code-lt _ = omega arith

-- A known code is the code of the type that it stands for.
pub type_code-from : (c : ℕ) (t : ObjectType) → type_from_code c ≡ some t → type_code t ≡ c
unfolding type_from_code type_code
type_code-from c t h = ground arith

abbrev pub IsInstance : ℕ → Type 0
IsInstance n = n < 2 ^ 22

pub to_raw-sum :
    (id : ObjectId)
    → IsInstance id.instance_num
    → to_raw id ≡ type_code id.object_type * 2 ^ 22 + id.instance_num
unfolding to_raw
to_raw-sum id h =
    let t = type_code id.object_type in
    let fits : t * 2 ^ 22 % 2 ^ 32 ≡ t * 2 ^ 22 = omega (arith, type_code-lt id.object_type) in
    let low : bit_and id.instance_num 0x003F_FFFF ≡ id.instance_num =
      omega (arith, and_low 22 id.instance_num) in
    rw (low, fits) (or_disjoint 22 t id.instance_num h)

pub to_raw-lt : (id : ObjectId) → IsInstance id.instance_num → to_raw id < 2 ^ 32
to_raw-lt id h = omega (arith, to_raw-sum id h, type_code-lt id.object_type)

-- The two fields of a raw identifier.
from_raw_fields :
    (r : ℕ)
    → r < 2 ^ 32
    → (bit_and (r / 2 ^ 22) 0x3FF % 2 ^ 16 ≡ r / 2 ^ 22) × (bit_and r 0x003F_FFFF ≡ r % 2 ^ 22)
from_raw_fields r h = omega (arith, and_low 10 (r / 2 ^ 22), and_low 22 r)

-- An identifier with a 22-bit instance number survives its raw form.
pub from_raw-to_raw : (id : ObjectId) → IsInstance id.instance_num → from_raw (to_raw id) ≡ some id
unfolding from_raw
from_raw-to_raw id h =
    let (high, low) = from_raw_fields (to_raw id) (to_raw-lt id h) in
    let code : to_raw id / 2 ^ 22 ≡ type_code id.object_type = omega (arith, to_raw-sum id h) in
    let num : to_raw id % 2 ^ 22 ≡ id.instance_num = omega (arith, to_raw-sum id h) in
    rw (high, low, code, num, type_from_code-type_code id.object_type)

map_fields :
    (o : Option ObjectType) (n : ℕ) {id : ObjectId}
    → Option.map (λ t. let i : ObjectId = record { object_type = t; instance_num = n } in i) o
      ≡ some id
    → (o ≡ some id.object_type) × (n ≡ id.instance_num)
map_fields none n e = cc
map_fields (some t) n e = ground (arith, e)

-- A 32-bit word that `from_raw` accepts is the raw form of the identifier it returns, whose
-- instance number has 22 bits.
pub to_raw-from_raw :
    (r : ℕ) {id : ObjectId}
    → r < 2 ^ 32
    → from_raw r ≡ some id
    → (to_raw id ≡ r) × IsInstance id.instance_num
unfolding from_raw
to_raw-from_raw r {id} h e =
    let (high, low) = from_raw_fields r h in
    let (known, num) =
      map_fields (type_from_code (bit_and (r / 2 ^ 22) 0x3FF % 2 ^ 16)) (bit_and r 0x003F_FFFF) e in
    let code = type_code-from (bit_and (r / 2 ^ 22) 0x3FF % 2 ^ 16) id.object_type known in
    let inst : IsInstance id.instance_num = omega (arith, num, low) in
    (omega (arith, to_raw-sum id inst, code, high, num, low), inst)

-- Every code is kept by the property that it is read as.
pub property_code-from_code : (c : ℕ) → property_code (property_from_code c) ≡ c
unfolding property_code property_from_code
property_code-from_code c = ground arith

-- A property that is not a known one under its raw code.
abbrev pub IsCanonical : PropertyId → Type 0
IsCanonical p = property_from_code (property_code p) ≡ p

abbrev pub IsCode : PropertyId → Type 0
IsCode p = property_code p < 2 ^ 32
