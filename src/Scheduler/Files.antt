-- ===== src/Scheduler/Files.antt =====
-- core/scheduler.go: the three schedulers as a whole. Each reads its files, whose errors are dropped, and
-- starts its loops; a loop takes its ticks (tick, tick_with_uplink) with the points of its device.
use sensor_edge.Poll.Points.{PointMapping}
use sensor_edge.Prelude.Dict.{lookup, Dict}
use sensor_edge.Go.{Error, Outcome}
use sensor_edge.Prelude.{none, [], some, some, ◌≡◌, [], ℕ, String, List}
use sensor_edge.Scheduler.{DeviceConfig, point_map}
use sensor_edge.Scheduler.Start.{start_scheduler, DeviceRunner}
use sensor_edge.Loaders.{
  Decoders, Loaded, load_point_mappings, load_aggregate_rules, load_alarm_rules_edge,
  load_linkage_rules,
}
use sensor_edge.Edge.{RuleEngine, new_rule_engine}
use sensor_edge.Poll.Setup.Clients.{Driver}

-- What the caller gets, the loops that run, and what these share.
pub record Launched (P : Type 0) : Type 0 where
  pub result : Outcome (List (DeviceRunner P))
  pub runners : List (DeviceRunner P)
  pub points : Dict (List PointMapping)  -- pointMap
  pub engine : RuleEngine

-- pointMap[r.ID]
unfoldable pub points_for : {P : Type 0} → DeviceRunner P → Launched P → List PointMapping
points_for r l = elim (lookup r.id l.points) [ none ↦ [] | some points ↦ points ]

module _ {P : Type 0} (read_file : String → Loaded (List ℕ)) (decode : Decoders) (d : Driver P)
    (registry : Dict P) where
  abbrev launched : String → RuleEngine → List DeviceConfig → Launched P
  launched file re devices =
      let (result, runners) = start_scheduler d registry devices in
      record {
        result = result;
        runners = runners;
        points = point_map (load_point_mappings read_file decode file).0 [];
        engine = re;
      }

  -- The rule engine is made of three readings of one file.
  unfoldable pub start_scheduler_from_files : List DeviceConfig → Launched P
  start_scheduler_from_files = launched "configs/points.yaml" (
      new_rule_engine (load_aggregate_rules read_file decode "configs/edge_rules.yaml").0
        (load_alarm_rules_edge read_file decode "configs/edge_rules.yaml").0
        (load_linkage_rules read_file decode "configs/edge_rules.yaml").0)

  unfoldable pub start_scheduler_with_rule_engine : RuleEngine → List DeviceConfig → Launched P
  start_scheduler_with_rule_engine re devices = launched "configs/points.yaml" re devices

  unfoldable pub start_scheduler_with_rule_engine_and_uplink :
      RuleEngine → List DeviceConfig → Launched P
  start_scheduler_with_rule_engine_and_uplink re devices = launched "config/points.yaml" re devices

  -- The third scheduler reads a file of another directory. Where it is not there, no loop has points.
  pub points_for-missing :
      (re : RuleEngine) (devices : List DeviceConfig) (r : DeviceRunner P) (bytes : List ℕ)
      (e : Error)
      → read_file "config/points.yaml" ≡ (bytes, some e)
      → points_for r (start_scheduler_with_rule_engine_and_uplink re devices) ≡ []
  unfolding start_scheduler_with_rule_engine_and_uplink points_for lookup point_map
  points_for-missing re devices r bytes e missing = rw missing
