-- ===== src/Poll/Main.antt =====
-- main.go: main, up to where it blocks. The goroutines that it has started by then take their steps in
-- Poll/Running, and so do the two BACnet listeners, which it starts first and does not wait for.
pub mod Launched
pub mod Sets
pub mod Starts
pub mod Reporting
use sensor_edge.Edge.Extract.{extract_linkage_rules, extract_alarm_rules, extract_aggregate_rules}
use sensor_edge.Poll.Points.{DevicePointSetV2}
use sensor_edge.Edge.{new_rule_engine, RuleEngine}
use sensor_edge.Floats.{Floats}
use sensor_edge.Poll.Setup.Devices.{device_map, add_discovered}
use sensor_edge.Poll.Setup.Config.{DeviceConfigWithMeta}
use sensor_edge.Value.{Value}
use sensor_edge.Prelude.Dict.{Dict}
use sensor_edge.Bacnet.Write.{BacnetDeviceInfo}
use sensor_edge.Prelude.{false, [], map, ℤ, Option, none, some, ℕ, String, List}
use sensor_edge.Go.{◌>>=◌, err, panic, ok, Outcome}
use sensor_edge.Poll.Running.{Loop, starting, System}
use sensor_edge.Poll.Setup.Start.{start_all, Started, Acquisition}
use sensor_edge.Poll.Setup.Clients.{Driver, ClientPool}
use sensor_edge.Bacnet.Registry.{no_devices}
use sensor_edge.Bacnet.Sockets.{Udp, discover_devices_real}
use sensor_edge.Uplink.Manager.{UplinkConfig, new_uplink_manager_from_config, Channels, Uplink}
use sensor_edge.Loaders.{
  Decoders, Loaded, decoded, load_devices_from_yaml, load_point_mappings_v2, load_device_edge_rules,
  load_uplink_configs,
}

-- `if err != nil { panic(err) }`
abbrev pub must : {A : Type 0} → Loaded A → Outcome A
must (a, none) = ok a
must (a, some e) = panic

abbrev pub with_discovered :
    Outcome (List BacnetDeviceInfo) → Dict DeviceConfigWithMeta → Dict DeviceConfigWithMeta
with_discovered (ok devices) all = add_discovered devices all
with_discovered _ all = all

abbrev pub new_loop : Started → Loop
new_loop s = record { started = s; phase = starting }

-- A run of main: its uplinks, and its goroutines with what they share.
pub record Program (P W : Type 0) : Type 0 where
  pub uplinks : List Uplink
  pub system : System P W

module _ {P W : Type 0} (read_file : String → Loaded (List ℕ)) (decode : Decoders)
    (decode_protocols : List ℕ → Loaded (Dict (List (Dict Value)))) (udp : Udp W) (lib : Channels W)
    (d : Driver P) (fl : Floats) (parse_duration : String → Option ℤ) (registry : Dict P) where
  abbrev pub load_protocols : Loaded (Dict (List (Dict Value)))
  load_protocols = decoded decode_protocols [] (read_file "configs/protocols.yaml")

  abbrev pub load_devices : Loaded (List DeviceConfigWithMeta)
  load_devices = load_devices_from_yaml read_file decode "configs/devices.yaml"

  -- An error in one of the following three is dropped.
  abbrev pub load_point_sets : List DevicePointSetV2
  load_point_sets = (load_point_mappings_v2 read_file decode "configs/points.yaml").0

  abbrev pub load_engine : RuleEngine
  load_engine =
      let rules = (load_device_edge_rules read_file decode "configs/edge_rules.yaml").0 in
      new_rule_engine (extract_aggregate_rules rules) (extract_alarm_rules rules)
        (extract_linkage_rules rules)

  abbrev pub load_uplinks : List UplinkConfig
  load_uplinks = (load_uplink_configs read_file decode "configs/uplinks.yaml").0

  abbrev pub no_clients : ClientPool P
  no_clients = record { cache = []; clients = [] }

  abbrev pub program_of :
      List Uplink → W → Outcome (List Started) × Acquisition P → Outcome (Program P W)
  program_of ups w (ok started, a) = ok (record {
    uplinks = ups;
    system = record {
      loops = map new_loop started;
      shared = record { clients = a.pool.clients; engine = load_engine; world = w; sent = [] };
      registry = no_devices;
      crashed = false;
    };
  })
  program_of ups w (err e, a) = err e
  program_of ups w (panic, a) = panic

  abbrev pub start_with :
      Dict (List (Dict Value)) → List DeviceConfigWithMeta → W → Outcome (Program P W)
  start_with protocols devs w =
      let (ups, w') = new_uplink_manager_from_config lib load_uplinks w in
      let (found, w'') = discover_devices_real udp w' in
      program_of ups w'' (
        start_all d fl parse_duration registry protocols load_point_sets []
          (record { devices = with_discovered found (device_map devs []); pool = no_clients }))

  unfoldable pub main_start : W → Outcome (Program P W)
  main_start w = do
    protocols ← must load_protocols
    devs ← must load_devices
    start_with protocols devs w
