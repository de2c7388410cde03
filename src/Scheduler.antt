-- ===== src/Scheduler.antt =====
-- core/scheduler.go, with types/config.go and the point sets of types/point.go.
pub mod Start
pub mod Files
pub mod Started
pub mod Interval
pub mod Mapped
pub mod Ticks
use sensor_edge.Poll.Round.{DataReport}
use sensor_edge.Uplink.Manager.{send_to_all, encode_data_report, Uplink, Channels}
use sensor_edge.Go.{◌>>=◌, panic, err, ok, Outcome}
use sensor_edge.Poll.Points.{PointMapping}
use sensor_edge.Floats.{Floats}
use sensor_edge.Edge.{is_true, eval_expression, apply_rules, RuleEngine, AlarmInfo, Govaluate}
use sensor_edge.Prelude.Dict.{lookup, insert, Dict}
use text.Mathlib.Text.{◌==◌ as str_eq}
use sensor_edge.Value.{nil, PointValue, Value}
use sensor_edge.Prelude.{ℕ, ◌++◌, ◌&&◌, if◌then◌else◌, ℤ, Option, String, List, none, some, [], ◌∷◌}

-- types.DeviceConfig
pub record DeviceConfig : Type 0 where
  pub id : String
  pub protocol : String
  pub interval : ℤ
  pub config : Dict Value

pub record DevicePointSet : Type 0 where
  pub device_id : String
  pub protocol : String
  pub protocol_name : String
  pub points : List PointMapping

-- pointMap: the points of the last set of a device.
unfoldable pub point_map : List DevicePointSet → Dict (List PointMapping) → Dict (List PointMapping)
point_map [] all = all
point_map (set ∷ sets) all = point_map sets (insert set.device_id set.points all)

-- raw[v.PointID] = v.Value
unfoldable pub raw_values : List PointValue → Dict Value → Dict Value
raw_values [] raw = raw
raw_values (v ∷ vs) raw = raw_values vs (insert v.point_id v.value raw)

-- What a tick of the collecting loop does and prints.
pub record Collected : Type 0 where
  pub mapped : Dict Value
  pub alarms : List AlarmInfo
  pub controls : List (String × String × Value)

module _ (g : Govaluate) (fl : Floats) where
  abbrev pub result_or : Value → Option Value → Value
  result_or val none = val
  result_or val (some v) = v

  -- raw[p.Address], and its transform where there is one that evaluates.
  abbrev pub mapped_value : Dict Value → PointMapping → Value
  mapped_value raw p =
      let val = result_or nil (lookup p.address raw) in
      if str_eq p.transform "" then val else result_or val (eval_expression g p.transform val)

  abbrev pub point_alarm : PointMapping → Value → List AlarmInfo
  point_alarm p val =
      if p.alarm.enable && is_true (eval_expression g p.alarm.condition val)
      then record { name = p.name; level = p.alarm.level; message = p.alarm.message } ∷ []
      else []

  -- The loop over the points. The alarms are printed, and by the third scheduler also collected.
  unfoldable pub map_points :
      Dict Value → List PointMapping → Dict Value × List AlarmInfo → Dict Value × List AlarmInfo
  map_points raw [] (mapped, alarms) = (mapped, alarms)
  map_points raw (p ∷ ps) (mapped, alarms) =
      let val = mapped_value raw p in
      map_points raw ps (insert p.name val mapped, alarms ++ point_alarm p val)

  -- The body of a tick after Read gave values, up to ApplyRules.
  abbrev pub collect :
      String → List PointMapping → List PointValue → RuleEngine → Collected × RuleEngine
  collect device points values re =
      let (mapped, alarms) = map_points (raw_values values []) points ([], []) in
      let (re', controls) = apply_rules g fl device mapped re in
      (record { mapped = mapped; alarms = alarms; controls = controls }, re')

  module _ {P : Type 0} (read : String → P → Outcome (List PointValue) × P) where
    abbrev tick_result :
        String
        → List PointMapping
        → RuleEngine
        → Outcome (List PointValue) × P
        → Outcome (Option Collected) × P × RuleEngine
    tick_result device points re (ok values, p) =
        let (out, re') = collect device points values re in (ok (some out), p, re')
    tick_result device points re (err e, p) = (ok none, p, re)
    tick_result device points re (panic, p) = (panic, p, re)

    -- A tick of StartScheduler and of StartSchedulerWithRuleEngine: a Read that fails is printed, and the
    -- loop goes on.
    unfoldable pub tick :
        String → List PointMapping → P → RuleEngine → Outcome (Option Collected) × P × RuleEngine
    tick device points p re = tick_result device points re (read device p)

    module _ {W : Type 0} (lib : Channels W) (marshal : DataReport → List ℕ) (now : W → ℕ)
        (uplinks : List Uplink) where
      abbrev tick_sent : String → Outcome (Option Collected) → W → Outcome (Option Collected) × W
      tick_sent device (ok (some out)) w =
          let payload = encode_data_report marshal (now w) device out.mapped out.alarms [] in
          let (r, w') = send_to_all lib uplinks payload w in (r >>= (λ x. ok (some out)), w')
      tick_sent device (ok none) w = (ok none, w)
      tick_sent device (err e) w = (err e, w)
      tick_sent device panic w = (panic, w)

      -- A tick of StartSchedulerWithRuleEngineAndUplink.
      unfoldable pub tick_with_uplink :
          String
          → List PointMapping
          → P
          → RuleEngine
          → W
          → Outcome (Option Collected) × P × RuleEngine × W
      unfolding tick
      tick_with_uplink device points p re w =
          let (r, p', re') = tick device points p re in
          let (r', w') = tick_sent device r w in (r', p', re', w')
