-- ===== src/Router/Values.antt =====
-- The way of a value from an answer on the bus, by the rule of its point, to the table, as
-- firmware/src/bacnet_router.rs takes it.
use mathlib.Core.List.{foldl}
use micro_bacnet_bridge.Base.{ℕ}
use micro_bacnet_bridge.Base.{List}
use micro_bacnet_bridge.Base.{Option, none, some}
use micro_bacnet_bridge.Bacnet.{ObjectId, BacnetValue}
use micro_bacnet_bridge.Bridge.{PointEntry}
use micro_bacnet_bridge.Bridge.Points.{after_update}
use micro_bacnet_bridge.Pipeline.{
  Floats, PointMode, ignore, passthrough, processed, Processor, apply_processor,
}

abbrev pub unit_before : Option PointEntry → ℕ
unit_before none = 0
unit_before (some p) = p.unit

-- The point behind an answer, by what was there: its unit is kept.
abbrev pub point_behind :
    Floats
    → PointMode
    → List Processor
    → ObjectId
    → BacnetValue
    → Option PointEntry
    → Option PointEntry
point_behind fl ignore ps id value old = old
point_behind fl passthrough ps id value old = some (after_update id value (unit_before old) old)
point_behind fl processed ps id value old =
    some (after_update id (foldl (apply_processor fl) value ps) (unit_before old) old)
