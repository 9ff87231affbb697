-- ===== src/Bacnet/Units/HomeAssistant.antt =====
-- bridge-core/src/bacnet.rs: the units that Home Assistant shows for the engineering units.
use micro_bacnet_bridge.Base.{ℕ, List, [], ◌∷◌}
use micro_bacnet_bridge.Bacnet.Units.{
  EngineeringUnits, percent, ppm, rpm, degrees_celsius, degrees_fahrenheit, kelvin, pascal,
  kilopascal, bar, psi, millimeters_water, centimeters_water, inches_of_mercury,
  centimeters_of_mercury, millimeters_of_mercury, joule, kilojoule, kilowatt_hour, megawatt_hour,
  watt_hour, btu, btu_per_hour, watt, kilowatt, megawatt, therm, ton_hour, cubic_meter_per_second,
  cubic_foot_per_second, cubic_foot_per_minute, cubic_meter_per_hour, gallon_per_minute,
  liter_per_second, liter_per_minute, millimeter, centimeter, meter, inch, foot, yard, kilometer,
  mile, gram, kilogram, metric_ton, pound, ounce, ton, cubic_meter, cubic_foot, gallon, liter,
  milliliter, ampere, milliampere, volt, millivolt, hertz, gigahertz, lux, lumen, decibel,
  decibel_milliwatt, meter_per_second, kilometer_per_hour, mile_per_hour, millimeter_per_day,
  inch_per_day, second, minute, hour, day, week, month, year, horsepower, no_units,
}

-- `EngineeringUnits::ha_unit_str`, in UTF-8
unfoldable pub ha_unit_str : EngineeringUnits → List ℕ
ha_unit_str degrees_celsius = 194 ∷ 176 ∷ 67 ∷ []
ha_unit_str degrees_fahrenheit = 194 ∷ 176 ∷ 70 ∷ []
ha_unit_str kelvin = 75 ∷ []
ha_unit_str pascal = 80 ∷ 97 ∷ []
ha_unit_str kilopascal = 107 ∷ 80 ∷ 97 ∷ []
ha_unit_str bar = 98 ∷ 97 ∷ 114 ∷ []
ha_unit_str psi = 112 ∷ 115 ∷ 105 ∷ []
ha_unit_str inches_of_mercury = 105 ∷ 110 ∷ 72 ∷ 103 ∷ []
ha_unit_str millimeters_of_mercury = 109 ∷ 109 ∷ 72 ∷ 103 ∷ []
ha_unit_str millimeters_water = 80 ∷ 97 ∷ []
ha_unit_str centimeters_water = 80 ∷ 97 ∷ []
ha_unit_str centimeters_of_mercury = 109 ∷ 109 ∷ 72 ∷ 103 ∷ []
ha_unit_str joule = 87 ∷ 104 ∷ []
ha_unit_str kilojoule = 87 ∷ 104 ∷ []
ha_unit_str watt_hour = 87 ∷ 104 ∷ []
ha_unit_str kilowatt_hour = 107 ∷ 87 ∷ 104 ∷ []
ha_unit_str megawatt_hour = 77 ∷ 87 ∷ 104 ∷ []
ha_unit_str btu = 87 ∷ 104 ∷ []
ha_unit_str btu_per_hour = 87 ∷ []
ha_unit_str watt = 87 ∷ []
ha_unit_str kilowatt = 107 ∷ 87 ∷ []
ha_unit_str megawatt = 77 ∷ 87 ∷ []
ha_unit_str therm = 87 ∷ 104 ∷ []
ha_unit_str ton_hour = 87 ∷ 104 ∷ []
ha_unit_str horsepower = 87 ∷ []
ha_unit_str cubic_meter_per_second = 109 ∷ 194 ∷ 179 ∷ 47 ∷ 115 ∷ []
ha_unit_str cubic_foot_per_second = 109 ∷ 194 ∷ 179 ∷ 47 ∷ 115 ∷ []
ha_unit_str cubic_foot_per_minute = 76 ∷ 47 ∷ 109 ∷ 105 ∷ 110 ∷ []
ha_unit_str cubic_meter_per_hour = 109 ∷ 194 ∷ 179 ∷ 47 ∷ 104 ∷ []
ha_unit_str gallon_per_minute = 76 ∷ 47 ∷ 109 ∷ 105 ∷ 110 ∷ []
ha_unit_str liter_per_second = 76 ∷ 47 ∷ 109 ∷ 105 ∷ 110 ∷ []
ha_unit_str liter_per_minute = 76 ∷ 47 ∷ 109 ∷ 105 ∷ 110 ∷ []
ha_unit_str millimeter = 109 ∷ 109 ∷ []
ha_unit_str centimeter = 99 ∷ 109 ∷ []
ha_unit_str meter = 109 ∷ []
ha_unit_str inch = 105 ∷ 110 ∷ []
ha_unit_str foot = 102 ∷ 116 ∷ []
ha_unit_str yard = 121 ∷ 100 ∷ []
ha_unit_str kilometer = 107 ∷ 109 ∷ []
ha_unit_str mile = 109 ∷ 105 ∷ []
ha_unit_str gram = 103 ∷ []
ha_unit_str kilogram = 107 ∷ 103 ∷ []
ha_unit_str metric_ton = 107 ∷ 103 ∷ []
ha_unit_str pound = 108 ∷ 98 ∷ []
ha_unit_str ounce = 111 ∷ 122 ∷ []
ha_unit_str ton = 108 ∷ 98 ∷ []
ha_unit_str cubic_meter = 109 ∷ 194 ∷ 179 ∷ []
ha_unit_str cubic_foot = 102 ∷ 116 ∷ 194 ∷ 179 ∷ []
ha_unit_str gallon = 103 ∷ 97 ∷ 108 ∷ []
ha_unit_str liter = 76 ∷ []
ha_unit_str milliliter = 109 ∷ 76 ∷ []
ha_unit_str ampere = 65 ∷ []
ha_unit_str milliampere = 109 ∷ 65 ∷ []
ha_unit_str volt = 86 ∷ []
ha_unit_str millivolt = 109 ∷ 86 ∷ []
ha_unit_str hertz = 72 ∷ 122 ∷ []
ha_unit_str gigahertz = 71 ∷ 72 ∷ 122 ∷ []
ha_unit_str lux = 108 ∷ 120 ∷ []
ha_unit_str lumen = 108 ∷ 109 ∷ []
ha_unit_str decibel = 100 ∷ 66 ∷ []
ha_unit_str decibel_milliwatt = 100 ∷ 66 ∷ 109 ∷ []
ha_unit_str meter_per_second = 109 ∷ 47 ∷ 115 ∷ []
ha_unit_str kilometer_per_hour = 107 ∷ 109 ∷ 47 ∷ 104 ∷ []
ha_unit_str mile_per_hour = 109 ∷ 112 ∷ 104 ∷ []
ha_unit_str millimeter_per_day = 109 ∷ 109 ∷ 47 ∷ 100 ∷ []
ha_unit_str inch_per_day = 105 ∷ 110 ∷ 47 ∷ 100 ∷ []
ha_unit_str second = 115 ∷ []
ha_unit_str minute = 109 ∷ 105 ∷ 110 ∷ []
ha_unit_str hour = 104 ∷ []
ha_unit_str day = 100 ∷ []
ha_unit_str week = 119 ∷ 101 ∷ 101 ∷ 107 ∷ []
ha_unit_str month = 109 ∷ 111 ∷ 110 ∷ 116 ∷ 104 ∷ []
ha_unit_str year = 121 ∷ 101 ∷ 97 ∷ 114 ∷ []
ha_unit_str percent = 37 ∷ []
ha_unit_str ppm = 112 ∷ 112 ∷ 109 ∷ []
ha_unit_str rpm = 114 ∷ 112 ∷ 109 ∷ []
ha_unit_str no_units = []

-- The operations on `f32` that the conversions need, on its bits: `*`, `/` and the nearest number to a
-- decimal literal, given as its digits and the count of those behind the point.
pub record UnitFloats : Type 0 where
  pub mul : ℕ → ℕ → ℕ
  pub div : ℕ → ℕ → ℕ
  pub literal : ℕ → ℕ → ℕ

module _ (fl : UnitFloats) where
  -- The factor of a unit that Home Assistant has not.
  unfoldable pub converted : EngineeringUnits → ℕ → ℕ
  converted millimeters_water value = fl.mul value (fl.literal 980665 5)
  converted centimeters_water value = fl.mul value (fl.literal 980665 4)
  converted centimeters_of_mercury value = fl.mul value (fl.literal 10 0)
  converted joule value = fl.div value (fl.literal 3600 0)
  converted kilojoule value = fl.div value (fl.literal 36 1)
  converted btu value = fl.mul value (fl.literal 293071 6)
  converted btu_per_hour value = fl.mul value (fl.literal 293071 6)
  converted therm value = fl.mul value (fl.literal 293071 0)
  converted ton_hour value = fl.mul value (fl.literal 3517000 0)
  converted horsepower value = fl.mul value (fl.literal 7457 1)
  converted gallon_per_minute value = fl.mul value (fl.literal 3785 3)
  converted cubic_foot_per_minute value = fl.mul value (fl.literal 471947 6)
  converted liter_per_second value = fl.mul value (fl.literal 60 0)
  converted cubic_foot_per_second value = fl.mul value (fl.literal 283168 7)
  converted metric_ton value = fl.mul value (fl.literal 1000 0)
  converted ton value = fl.mul value (fl.literal 907185 3)
  converted percent value = value
  converted ppm value = value
  converted rpm value = value
  converted degrees_celsius value = value
  converted degrees_fahrenheit value = value
  converted kelvin value = value
  converted pascal value = value
  converted kilopascal value = value
  converted bar value = value
  converted psi value = value
  converted inches_of_mercury value = value
  converted millimeters_of_mercury value = value
  converted kilowatt_hour value = value
  converted megawatt_hour value = value
  converted watt_hour value = value
  converted watt value = value
  converted kilowatt value = value
  converted megawatt value = value
  converted cubic_meter_per_second value = value
  converted cubic_meter_per_hour value = value
  converted liter_per_minute value = value
  converted millimeter value = value
  converted centimeter value = value
  converted meter value = value
  converted inch value = value
  converted foot value = value
  converted yard value = value
  converted kilometer value = value
  converted mile value = value
  converted gram value = value
  converted kilogram value = value
  converted pound value = value
  converted ounce value = value
  converted cubic_meter value = value
  converted cubic_foot value = value
  converted gallon value = value
  converted liter value = value
  converted milliliter value = value
  converted ampere value = value
  converted milliampere value = value
  converted volt value = value
  converted millivolt value = value
  converted hertz value = value
  converted gigahertz value = value
  converted lux value = value
  converted lumen value = value
  converted decibel value = value
  converted decibel_milliwatt value = value
  converted meter_per_second value = value
  converted kilometer_per_hour value = value
  converted mile_per_hour value = value
  converted millimeter_per_day value = value
  converted inch_per_day value = value
  converted second value = value
  converted minute value = value
  converted hour value = value
  converted day value = value
  converted week value = value
  converted month value = value
  converted year value = value
  converted no_units value = value

  unfoldable pub convert_for_ha : EngineeringUnits → ℕ → ℕ × List ℕ
  unfolding converted ha_unit_str
  convert_for_ha u value = (converted u value, ha_unit_str u)
