-- ===== src/Loaders.antt =====
-- config/: the loaders of the configuration files. os.ReadFile and the decoders of yaml.v3 and
-- encoding/json are parameters; a decoder gives a value even where it gives an error.
use sensor_edge.Poll.Setup.Config.{DeviceConfigWithMeta}
use sensor_edge.Edge.{AlarmRuleEdge, LinkageRule, AggregateRule}
use sensor_edge.Edge.Extract.{DeviceEdgeRules}
use sensor_edge.Go.{err, ok, Outcome, Error}
use sensor_edge.Poll.Points.{DevicePointSetV2}
use sensor_edge.Uplink.Manager.{UplinkConfig}
use sensor_edge.Scheduler.{DeviceConfig, DevicePointSet}
use sensor_edge.Prelude.{ℕ, List, String, Option, none, some, []}

-- What `(T, error)` gives a caller, who can see both.
abbrev pub Loaded : Type 0 → Type 0
Loaded A = A × Option Error

abbrev pub decoded : {A : Type 0} → (List ℕ → Loaded A) → A → Loaded (List ℕ) → Loaded A
decoded unmarshal zero (content, none) = unmarshal content
decoded unmarshal zero (content, some e) = (zero, some e)

-- A decoder of each type that is loaded.
pub record Decoders : Type 0 where
  pub devices_yaml : List ℕ → Loaded (List DeviceConfigWithMeta)
  pub devices_json : List ℕ → Loaded (List DeviceConfigWithMeta)
  pub aggregate_rules : List ℕ → Loaded (List AggregateRule)
  pub alarm_rules : List ℕ → Loaded (List AlarmRuleEdge)
  pub linkage_rules : List ℕ → Loaded (List LinkageRule)
  pub device_edge_rules : List ℕ → Loaded (List DeviceEdgeRules)
  pub config : List ℕ → Loaded (List DeviceConfig)
  pub point_sets : List ℕ → Loaded (List DevicePointSet)
  pub point_sets_v2 : List ℕ → Loaded (List DevicePointSetV2)
  pub uplinks : List ℕ → Loaded (List UplinkConfig)

module _ (read_file : String → Loaded (List ℕ)) (decode : Decoders) where
  abbrev pub load_devices_from_yaml : String → Loaded (List DeviceConfigWithMeta)
  load_devices_from_yaml file = decoded decode.devices_yaml [] (read_file file)

  abbrev pub load_devices_from_json : String → Loaded (List DeviceConfigWithMeta)
  load_devices_from_json file = decoded decode.devices_json [] (read_file file)

  abbrev pub load_aggregate_rules : String → Loaded (List AggregateRule)
  load_aggregate_rules file = decoded decode.aggregate_rules [] (read_file file)

  abbrev pub load_alarm_rules_edge : String → Loaded (List AlarmRuleEdge)
  load_alarm_rules_edge file = decoded decode.alarm_rules [] (read_file file)

  abbrev pub load_linkage_rules : String → Loaded (List LinkageRule)
  load_linkage_rules file = decoded decode.linkage_rules [] (read_file file)

  abbrev pub load_device_edge_rules : String → Loaded (List DeviceEdgeRules)
  load_device_edge_rules file = decoded decode.device_edge_rules [] (read_file file)

  -- types.Config is the list of its devices. LoadConfig gives no configuration beside an error.
  abbrev loaded_config : Loaded (List DeviceConfig) → Outcome (List DeviceConfig)
  loaded_config (devices, none) = ok devices
  loaded_config (devices, some e) = err e

  abbrev pub load_config : String → Outcome (List DeviceConfig)
  load_config file = loaded_config (decoded decode.config [] (read_file file))

  abbrev pub load_point_mappings : String → Loaded (List DevicePointSet)
  load_point_mappings file = decoded decode.point_sets [] (read_file file)

  abbrev pub load_point_mappings_v2 : String → Loaded (List DevicePointSetV2)
  load_point_mappings_v2 file = decoded decode.point_sets_v2 [] (read_file file)

  abbrev pub load_uplink_configs : String → Loaded (List UplinkConfig)
  load_uplink_configs file = decoded decode.uplinks [] (read_file file)
