-- ===== src/Bacnet/Units.antt =====
-- bridge-core/src/bacnet.rs: the engineering units and their codes.
pub mod HomeAssistant
use micro_bacnet_bridge.Base.{ℕ, Option, none, some, ◌==◌, if◌then◌else◌}

pub data EngineeringUnits : Type 0 where
  percent ppm rpm degrees_celsius degrees_fahrenheit : EngineeringUnits
  kelvin pascal kilopascal bar psi : EngineeringUnits
  millimeters_water centimeters_water inches_of_mercury centimeters_of_mercury
        millimeters_of_mercury :
      EngineeringUnits
  joule kilojoule kilowatt_hour megawatt_hour watt_hour : EngineeringUnits
  btu btu_per_hour watt kilowatt megawatt : EngineeringUnits
  therm ton_hour cubic_meter_per_second cubic_foot_per_second cubic_foot_per_minute :
      EngineeringUnits
  cubic_meter_per_hour gallon_per_minute liter_per_second liter_per_minute millimeter :
      EngineeringUnits
  centimeter meter inch foot yard : EngineeringUnits
  kilometer mile gram kilogram metric_ton : EngineeringUnits
  pound ounce ton cubic_meter cubic_foot : EngineeringUnits
  gallon liter milliliter ampere milliampere : EngineeringUnits
  volt millivolt hertz gigahertz lux : EngineeringUnits
  lumen decibel decibel_milliwatt meter_per_second kilometer_per_hour : EngineeringUnits
  mile_per_hour millimeter_per_day inch_per_day second minute : EngineeringUnits
  hour day week month year : EngineeringUnits
  horsepower no_units : EngineeringUnits

-- `EngineeringUnits::code`
unfoldable pub unit_code : EngineeringUnits → ℕ
unit_code percent = 95
unit_code ppm = 97
unit_code rpm = 123
unit_code degrees_celsius = 0
unit_code degrees_fahrenheit = 1
unit_code kelvin = 2
unit_code pascal = 3
unit_code kilopascal = 4
unit_code bar = 5
unit_code psi = 6
unit_code millimeters_water = 7
unit_code centimeters_water = 8
unit_code inches_of_mercury = 9
unit_code centimeters_of_mercury = 10
unit_code millimeters_of_mercury = 11
unit_code joule = 12
unit_code kilojoule = 13
unit_code kilowatt_hour = 14
unit_code megawatt_hour = 15
unit_code watt_hour = 16
unit_code btu = 17
unit_code btu_per_hour = 18
unit_code watt = 19
unit_code kilowatt = 20
unit_code megawatt = 21
unit_code therm = 22
unit_code ton_hour = 23
unit_code cubic_meter_per_second = 24
unit_code cubic_foot_per_second = 25
unit_code cubic_foot_per_minute = 26
unit_code cubic_meter_per_hour = 27
unit_code gallon_per_minute = 28
unit_code liter_per_second = 29
unit_code liter_per_minute = 30
unit_code millimeter = 32
unit_code centimeter = 33
unit_code meter = 34
unit_code inch = 35
unit_code foot = 36
unit_code yard = 37
unit_code kilometer = 38
unit_code mile = 39
unit_code gram = 41
unit_code kilogram = 42
unit_code metric_ton = 43
unit_code pound = 44
unit_code ounce = 45
unit_code ton = 46
unit_code cubic_meter = 48
unit_code cubic_foot = 49
unit_code gallon = 50
unit_code liter = 51
unit_code milliliter = 52
unit_code ampere = 58
unit_code milliampere = 59
unit_code volt = 60
unit_code millivolt = 61
unit_code hertz = 65
unit_code gigahertz = 66
unit_code lux = 71
unit_code lumen = 72
unit_code decibel = 73
unit_code decibel_milliwatt = 74
unit_code meter_per_second = 62
unit_code kilometer_per_hour = 63
unit_code mile_per_hour = 64
unit_code millimeter_per_day = 67
unit_code inch_per_day = 68
unit_code second = 69
unit_code minute = 70
unit_code hour = 75
unit_code day = 76
unit_code week = 77
unit_code month = 78
unit_code year = 79
unit_code horsepower = 80
unit_code no_units = 196

-- `EngineeringUnits::from_code`
unfoldable pub unit_from_code : ℕ → Option EngineeringUnits
unit_from_code code =
    if code == 0
    then some degrees_celsius
    else if code == 1
    then some degrees_fahrenheit
    else if code == 2
    then some kelvin
    else if code == 3
    then some pascal
    else if code == 4
    then some kilopascal
    else if code == 5
    then some bar
    else if code == 6
    then some psi
    else if code == 7
    then some millimeters_water
    else if code == 8
    then some centimeters_water
    else if code == 9
    then some inches_of_mercury
    else if code == 10
    then some centimeters_of_mercury
    else if code == 11
    then some millimeters_of_mercury
    else if code == 12
    then some joule
    else if code == 13
    then some kilojoule
    else if code == 14
    then some kilowatt_hour
    else if code == 15
    then some megawatt_hour
    else if code == 16
    then some watt_hour
    else if code == 17
    then some btu
    else if code == 18
    then some btu_per_hour
    else if code == 19
    then some watt
    else if code == 20
    then some kilowatt
    else if code == 21
    then some megawatt
    else if code == 22
    then some therm
    else if code == 23
    then some ton_hour
    else if code == 24
    then some cubic_meter_per_second
    else if code == 25
    then some cubic_foot_per_second
    else if code == 26
    then some cubic_foot_per_minute
    else if code == 27
    then some cubic_meter_per_hour
    else if code == 28
    then some gallon_per_minute
    else if code == 29
    then some liter_per_second
    else if code == 30
    then some liter_per_minute
    else if code == 32
    then some millimeter
    else if code == 33
    then some centimeter
    else if code == 34
    then some meter
    else if code == 35
    then some inch
    else if code == 36
    then some foot
    else if code == 37
    then some yard
    else if code == 38
    then some kilometer
    else if code == 39
    then some mile
    else if code == 41
    then some gram
    else if code == 42
    then some kilogram
    else if code == 43
    then some metric_ton
    else if code == 44
    then some pound
    else if code == 45
    then some ounce
    else if code == 46
    then some ton
    else if code == 48
    then some cubic_meter
    else if code == 49
    then some cubic_foot
    else if code == 50
    then some gallon
    else if code == 51
    then some liter
    else if code == 52
    then some milliliter
    else if code == 58
    then some ampere
    else if code == 59
    then some milliampere
    else if code == 60
    then some volt
    else if code == 61
    then some millivolt
    else if code == 62
    then some meter_per_second
    else if code == 63
    then some kilometer_per_hour
    else if code == 64
    then some mile_per_hour
    else if code == 65
    then some hertz
    else if code == 66
    then some gigahertz
    else if code == 67
    then some millimeter_per_day
    else if code == 68
    then some inch_per_day
    else if code == 69
    then some second
    else if code == 70
    then some minute
    else if code == 71
    then some lux
    else if code == 72
    then some lumen
    else if code == 73
    then some decibel
    else if code == 74
    then some decibel_milliwatt
    else if code == 75
    then some hour
    else if code == 76
    then some day
    else if code == 77
    then some week
    else if code == 78
    then some month
    else if code == 79
    then some year
    else if code == 80
    then some horsepower
    else if code == 95
    then some percent
    else if code == 97
    then some ppm
    else if code == 123
    then some rpm
    else if code == 196
    then some no_units
    else none
