-- ===== src/Apdu/Standard.antt =====
-- The integers of ASHRAE 135 clause 20.2, in the fewest octets, and where bridge-core/src/apdu.rs
-- writes them so.
use micro_bacnet_bridge.Base.{ℕ, ◌≡◌, refl, ap, arith, List, [], ◌∷◌, ◌++◌}
use micro_bacnet_bridge.Base.{Bool, true, false, ◌&&◌, ◌||◌, ◌==◌, ltb, leb, if◌then◌else◌}
use micro_bacnet_bridge.Bacnet.{PropertyId, property_code, BacnetValue, null, boolean}
use micro_bacnet_bridge.Bacnet.{
  unsigned_int, signed_int, real, char_string, enumerated, object_id, to_raw,
}
use micro_bacnet_bridge.Bacnet.Values.{IsValue, IsU32}
use micro_bacnet_bridge.Apdu.Types.{ReadPropertyAnswer, WritePropertyRequest, CovNotification}
use micro_bacnet_bridge.Apdu.Write.{be_bytes, within_i32}
use micro_bacnet_bridge.Apdu.Wire.{
  uint_bytes, int_bytes, sized, context_uint, context_id, opening, closing, text_bytes, value_bytes,
  optional_bytes,
}
use micro_bacnet_bridge.Apdu.Messages.{
  property_bytes, entries_bytes, read_property_ack_bytes, write_property_bytes, ucov_bytes,
  AreEntries,
}

-- Leading octets that an unsigned number does not need: zeros.
abbrev pub without_zeros : List ℕ → List ℕ
without_zeros [] = []
without_zeros (a ∷ []) = a ∷ []
without_zeros (a ∷ b ∷ bs) =
    let rest = without_zeros (b ∷ bs) in if a == 0 then rest else a ∷ b ∷ bs

-- Leading octets that a number in two's complement does not need: those that only repeat the sign
-- of the next one.
abbrev pub repeats_sign : ℕ → ℕ → Bool
repeats_sign a b = ((a == 0) && ltb b 128) || ((a == 255) && leb 128 b)

abbrev pub without_signs : List ℕ → List ℕ
without_signs [] = []
without_signs (a ∷ []) = a ∷ []
without_signs (a ∷ b ∷ bs) =
    let rest = without_signs (b ∷ bs) in if repeats_sign a b then rest else a ∷ b ∷ bs

pub uint_bytes-without_zeros : (v : ℕ) → IsU32 v → uint_bytes v ≡ without_zeros (be_bytes v)
uint_bytes-without_zeros v h = ground (arith, h)

-- A signed number that needs three octets.
abbrev pub IsThreeOctets : ℕ → Type 0
IsThreeOctets v = (within_i32 0x8000 v ≡ false) × (within_i32 0x80_0000 v ≡ true)

int_bytes-without_signs :
    (v : ℕ) → IsU32 v → ¬ IsThreeOctets v → int_bytes v ≡ without_signs (be_bytes v)
int_bytes-without_signs v h n = ground (arith, h, n)

-- A property value, with the integers as the standard has them.
abbrev pub standard_value : BacnetValue → List ℕ
standard_value null = 0x00 ∷ []
standard_value (boolean b) = (if b then 0x11 else 0x10) ∷ []
standard_value (unsigned_int v) = sized 0x20 (without_zeros (be_bytes v))
standard_value (signed_int v) = sized 0x30 (without_signs (be_bytes v))
standard_value (real v) = sized 0x40 (be_bytes v)
standard_value (char_string s) = text_bytes s
standard_value (enumerated v) = sized 0x90 (without_zeros (be_bytes v))
standard_value (object_id id) = sized 0xC0 (be_bytes (to_raw id))

-- Every value but a signed number of three octets.
abbrev pub IsStandardValue : BacnetValue → Type 0
IsStandardValue (signed_int v) = ¬ IsThreeOctets v
IsStandardValue _ = Unit {0}

value_bytes-standard :
    (v : BacnetValue) → IsValue v → IsStandardValue v → value_bytes v ≡ standard_value v
value_bytes-standard null h n = refl
value_bytes-standard (boolean b) h n = refl
value_bytes-standard (unsigned_int v) h n = ap (sized 0x20) (uint_bytes-without_zeros v h)
value_bytes-standard (signed_int v) h n = ap (sized 0x30) (int_bytes-without_signs v h n)
value_bytes-standard (real v) h n = refl
value_bytes-standard (char_string s) h n = refl
value_bytes-standard (enumerated v) h n = ap (sized 0x90) (uint_bytes-without_zeros v h)
value_bytes-standard (object_id id) h n = refl

abbrev standard_bracketed : ℕ → BacnetValue → List ℕ → List ℕ
standard_bracketed tag v more = opening tag ++ (standard_value v ++ (closing tag ++ more))

-- What follows the fixed header of a message.
abbrev pub standard_read_property_ack : ReadPropertyAnswer → List ℕ
standard_read_property_ack ack =
    property_bytes ack.object_id ack.property_id
      (optional_bytes 2 ack.array_index ++ standard_bracketed 3 ack.value [])

abbrev pub standard_write_property : WritePropertyRequest → List ℕ
standard_write_property req = property_bytes req.object_id req.property_id (
    optional_bytes 2 req.array_index
    ++ standard_bracketed 3 req.value (optional_bytes 4 req.priority))

abbrev standard_entries : List (PropertyId × BacnetValue) → List ℕ
standard_entries [] = []
standard_entries (e ∷ es) =
    (context_uint 0 (property_code e.0) ++ standard_bracketed 2 e.1 []) ++ standard_entries es

abbrev pub standard_ucov : CovNotification → List ℕ
standard_ucov n =
    context_uint 0 n.subscriber_process_id
    ++ (context_id 1 n.initiating_device
        ++ (context_id 2 n.monitored_object
            ++ (context_uint 3 n.time_remaining
                ++ (opening 4 ++ (standard_entries n.values ++ closing 4)))))

abbrev pub AreStandard : List (PropertyId × BacnetValue) → Type 0
AreStandard [] = Unit {0}
AreStandard (e ∷ es) = IsStandardValue e.1 × AreStandard es

pub read_property_ack-standard :
    (ack : ReadPropertyAnswer)
    → IsValue ack.value
    → IsStandardValue ack.value
    → read_property_ack_bytes ack ≡ standard_read_property_ack ack
read_property_ack-standard ack h n = rw (value_bytes-standard ack.value h n) refl

pub write_property-standard :
    (req : WritePropertyRequest)
    → IsValue req.value
    → IsStandardValue req.value
    → write_property_bytes req ≡ standard_write_property req
write_property-standard req h n = rw (value_bytes-standard req.value h n) refl

entries_bytes-standard :
    (es : List (PropertyId × BacnetValue))
    → AreEntries es
    → AreStandard es
    → entries_bytes es ≡ standard_entries es
entries_bytes-standard [] h n = refl
entries_bytes-standard (e ∷ es) (p, v, h) (n, ns) =
    rw (value_bytes-standard e.1 v n, entries_bytes-standard es h ns) refl

pub ucov-standard :
    (n : CovNotification)
    → AreEntries n.values
    → AreStandard n.values
    → ucov_bytes n ≡ standard_ucov n
ucov-standard n h s = rw (entries_bytes-standard n.values h s) refl
