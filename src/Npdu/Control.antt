-- ===== src/Npdu/Control.antt =====
-- The control byte of bridge-core/src/npdu.rs: its flags and its priority are read back.
use micro_bacnet_bridge.Base.{
  ℕ, ◌<◌, ◌≡◌, refl, arith, bit_and, Bool, true, false, not, ◌&&◌, ◌==◌, if◌then◌else◌,
}
use micro_bacnet_bridge.Base.Bits.{all_below, all_below_sound}
use micro_bacnet_bridge.Npdu.{control}

-- The byte, built from its parts, answers each test as the parts do.
abbrev agrees : Bool → Bool → Bool → Bool → ℕ → Bool
agrees net dest src reply p =
    let c = control net dest src reply p in
    (bit_and c 0x80 == (if net then 0x80 else 0))
    && (bit_and c 0x20 == (if dest then 0x20 else 0))
    && (bit_and c 0x08 == (if src then 0x08 else 0))
    && (bit_and c 0x04 == (if reply then 0x04 else 0))
    && (bit_and c 0x03 == p)

table : (net dest src reply : Bool) → all_below 4 (agrees net dest src reply) ≡ true
unfolding all_below control
table true true true true = refl
table true true true false = refl
table true true false true = refl
table true true false false = refl
table true false true true = refl
table true false true false = refl
table true false false true = refl
table true false false false = refl
table false true true true = refl
table false true true false = refl
table false true false true = refl
table false true false false = refl
table false false true true = refl
table false false true false = refl
table false false false true = refl
table false false false false = refl

pub control_fields :
    (net dest src reply : Bool) (p : ℕ)
    → p < 4
    → let c = control net dest src reply p in
      (not (bit_and c 0x80 == 0) ≡ net)
      × (not (bit_and c 0x20 == 0) ≡ dest)
      × (not (bit_and c 0x08 == 0) ≡ src)
      × (not (bit_and c 0x04 == 0) ≡ reply)
      × (bit_and c 0x03 ≡ p)
control_fields net dest src reply p h =
    let t : agrees net dest src reply p ≡ true =
      all_below_sound 4 (agrees net dest src reply) p (table net dest src reply) h in
    ground (arith, t)
