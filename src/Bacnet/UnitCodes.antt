-- ===== src/Bacnet/UnitCodes.antt =====
-- The codes of units, of APDU types and of services.
use micro_bacnet_bridge.Base.{◌≡◌, refl, some}
use micro_bacnet_bridge.Bacnet.Units.{EngineeringUnits, unit_code, unit_from_code}

-- A unit's code stands for the unit.
pub unit_from_code-unit_code : (u : EngineeringUnits) → unit_from_code (unit_code u) ≡ some u
unfolding unit_from_code unit_code
unit_from_code-unit_code EngineeringUnits.percent = refl
unit_from_code-unit_code _ = refl
