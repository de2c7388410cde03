-- ===== src/Poll/Round.antt =====
-- One round of the acquisition loop of main.go: all function groups of a device are read, the rule
-- engine is applied after each, and one report is sent.
use text.Mathlib.Text.{◌==◌ as str_eq}
use sensor_edge.Prelude.Int.{to_unsigned}
use sensor_edge.Value.{float64, int, nil, Value, PointValue}
use sensor_edge.Poll.Points.{
  extract_point_addresses, PointMapping, FunctionPointGroup, DevicePointSetV2,
}
use sensor_edge.Poll.Retry.{read_with_retry, Protocol}
use sensor_edge.Prelude.{◌||◌, ◌^◌, if◌then◌else◌, none, some, ◌∷◌, [], ℕ, Option, String, List}
use sensor_edge.Poll.Convert.{convert, Numerics}
use sensor_edge.Go.{◌>>=◌, panic, err, ok, Outcome}
use sensor_edge.Edge.{AlarmInfo, RuleEngine, Govaluate, apply_rules}
use sensor_edge.Prelude.Dict.{Dict, lookup, insert}

-- schema.DataReport
pub record DataReport : Type 0 where
  pub device_id : String
  pub timestamp : ℕ
  pub values : Dict Value  -- Data
  pub alarms : List AlarmInfo
  pub metrics : Dict Value

-- `for _, p := range funcGroup.Points { allPointValues[p.Name] = nil }`
unfoldable pub declare_points : List PointMapping → Dict Value → Dict Value
declare_points [] all = all
declare_points (p ∷ ps) all = declare_points ps (insert p.name nil all)

-- The first point whose address or name the value carries.
unfoldable pub find_point : String → List PointMapping → Option PointMapping
find_point id [] = none
find_point id (p ∷ ps) =
    if str_eq id p.address || str_eq id p.name then some p else find_point id ps

abbrev pub with_value : String → Dict Value → Outcome Value → Outcome (Dict Value)
with_value name all (ok v) = ok (insert name v all)
with_value name all (err e) = ok all
with_value name all panic = panic

module _ (n : Numerics) where
  abbrev pub store_at : Option PointMapping → Value → Dict Value → Outcome (Dict Value)
  store_at none v all = ok all
  store_at (some p) v all = with_value p.name all (convert n p v)

  -- `for _, v := range values { for _, p := range funcGroup.Points { … break } }`
  unfoldable pub store_values :
      List PointMapping → List PointValue → Dict Value → Outcome (Dict Value)
  store_values points [] all = ok all
  store_values points (v ∷ vs) all = do
    all' ← store_at (find_point v.point_id points) v.value all
    store_values points vs all'

-- The values of a read that failed are none.
abbrev pub values_or_none : Outcome (List PointValue) → Outcome (List PointValue)
values_or_none (ok vs) = ok vs
values_or_none (err e) = ok []
values_or_none panic = panic

pub record Poll (P : Type 0) : Type 0 where
  pub driver : P
  pub engine : RuleEngine

module _ {P : Type 0} (c : Protocol P) (n : Numerics) (g : Govaluate) where
  abbrev pub apply_to : String → Outcome (Dict Value) → Poll P → Outcome (Dict Value) × Poll P
  apply_to dev (ok all) s =
      (ok all, record s { engine = (apply_rules g n.floats dev all s.engine).0 })
  apply_to dev r s = (r, s)

  -- One function group, from the values so far. The alarms and the metrics that are collected here
  -- are bound inside the loop's body, and nothing reads them.
  unfoldable pub poll_group :
      String → FunctionPointGroup → Dict Value → Poll P → Outcome (Dict Value) × Poll P
  poll_group dev group all s =
      let declared = declare_points group.points all in
      let (r, p) =
        read_with_retry c dev group.function (extract_point_addresses group.points) 3 s.driver in
      let stored = values_or_none r >>= λ vs. store_values n group.points vs declared in
      apply_to dev stored (record s { driver = p })

  abbrev pub next_groups :
      (Dict Value → Poll P → Outcome (Dict Value) × Poll P)
      → Outcome (Dict Value) × Poll P
      → Outcome (Dict Value) × Poll P
  next_groups more (ok all, s) = more all s
  next_groups more (r, s) = (r, s)

  unfoldable pub poll_groups :
      String → List FunctionPointGroup → Dict Value → Poll P → Outcome (Dict Value) × Poll P
  poll_groups dev [] all s = (ok all, s)
  poll_groups dev (group ∷ groups) all s =
      next_groups (poll_groups dev groups) (poll_group dev group all s)

  -- The slave id of the configuration, where it is an int or a float64.
  unfoldable pub choose_slave : Option Value → P → P
  choose_slave (some (int v)) p = c.set_slave (to_unsigned (2 ^ 8) v) p
  choose_slave (some (float64 v)) p = c.set_slave (to_unsigned (2 ^ 8) (n.floats.to_int v)) p
  choose_slave _ p = p

  abbrev pub report_of : String → ℕ → Outcome (Dict Value) → Outcome DataReport
  report_of dev now (ok all) =
      ok (record { device_id = dev; timestamp = now; values = all; alarms = []; metrics = [] })
  report_of dev now (err e) = err e
  report_of dev now panic = panic

  -- The round up to EncodeDataReport: allAlarms and the outer metrics are still empty then. `now` is
  -- the time of the report.
  unfoldable pub poll_round :
      DevicePointSetV2 → Dict Value → ℕ → Poll P → Outcome DataReport × Poll P
  poll_round set config now s =
      let t = record s { driver = choose_slave (lookup "slave_id" config) s.driver } in
      let (r, u) = poll_groups set.device_id set.functions [] t in
      (report_of set.device_id now r, u)
