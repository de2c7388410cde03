-- ===== src/Examples/Program.antt =====
-- The program with one meter behind a gateway, from its files to its reports.
use sensor_edge.Bacnet.Registry.{no_devices}
use sensor_edge.Poll.Running.Reload.{run-hot_reload}
use sensor_edge.Edge.{apply_rules, new_rule_engine}
use sensor_edge.Poll.Retry.{read_with_retry}
use sensor_edge.Poll.Running.Follows.{KeepsWindows, HasRules}
use sensor_edge.Poll.Round.{DataReport, choose_slave, store_values, declare_points, poll_group}
use sensor_edge.Value.{int, string, Value}
use sensor_edge.Poll.Points.{DevicePointSetV2}
use sensor_edge.Go.{panic, eof, err, ok}
use sensor_edge.Poll.Setup.Start.{Started}
use sensor_edge.Prelude.Dict.{insert, lookup, Dict}
use sensor_edge.Poll.Setup.Config.{meta_fields, DeviceConfigWithMeta}
use sensor_edge.Prelude.{
  map, ◌≢◌, refl, ◌++◌, false, some, ℤ, none, Option, [], pos, ◌≡◌, ℕ, ◌∷◌, List, String,
}
use sensor_edge.Examples.Starting.{counter, drivers, gateway, line1}
use sensor_edge.Examples.Channels.{offline}
use sensor_edge.Examples.Engine.{equality, grouped}
use sensor_edge.Examples.Values.{counting, doubling, mapping}
use sensor_edge.Examples.Polling.{slow}
use sensor_edge.Poll.Main.{Program, main_start}
use sensor_edge.Poll.Main.Starts.{sets_loaded, main_at, main_start-IsLaunched, IsLaunched}
use sensor_edge.Poll.Main.Reporting.{run-AllReported}
use sensor_edge.Poll.Running.{heard_by_main, Event, turn, sighup, run, advance, step, starting}
use sensor_edge.Poll.Running.Collected.{AllReported}
use sensor_edge.Loaders.{Decoders, Loaded}
use sensor_edge.Bacnet.Sockets.{main_listening, Udp, discover_devices_real}
use sensor_edge.Poll.Setup.Start.{start_all, start_device}
use sensor_edge.Poll.Setup.Devices.{device_map, interval_of}
use sensor_edge.Poll.Setup.Config.{
  find_params, effective_config, put_all_missing, put_missing, inject_device_meta,
}
use sensor_edge.Poll.Setup.Clients.{get_or_create_client, cached, create}
use sensor_edge.Uplink.Manager.{new_uplink_manager_from_config, uplinks_from}
use sensor_edge.Edge.Extract.{
  reload_rules, extract_aggregate_rules, extract_alarm_rules, extract_linkage_rules,
}
use sensor_edge.Poll.Round.{find_point}
use sensor_edge.Poll.Convert.{convert, format_value, transform_value}
use sensor_edge.Format.Cast.{parse_and_cast_format}
use sensor_edge.Uplink.Manager.{send_to_all}

abbrev pub watched : DeviceConfigWithMeta
watched = record (gateway (pos 1)) { config = some [] }

abbrev pub meter : String → DevicePointSetV2
meter instance_name = record {
  device_id = "meter";
  protocol = "";
  protocol_name = instance_name;
  functions = record { function = "03"; points = mapping "t1" "UINT" "" ∷ [] } ∷ [];
}

-- Every file is read, and its decoder knows what it holds.
abbrev files : String → Loaded (List ℕ)
files path = ([], none)

abbrev decoders : Decoders
decoders = record {
  devices_yaml = λ bytes. (watched ∷ [], none);
  devices_json = λ bytes. ([], none);
  aggregate_rules = λ bytes. ([], none);
  alarm_rules = λ bytes. ([], none);
  linkage_rules = λ bytes. ([], none);
  device_edge_rules = λ bytes. ([], some eof);
  config = λ bytes. ([], none);
  point_sets = λ bytes. ([], none);
  point_sets_v2 = λ bytes. (meter "" ∷ [], none);
  uplinks = λ bytes. ([], none);
}

abbrev pub instances : Dict (List (Dict Value))
instances = ("modbus_tcp", line1 ∷ line2 ∷ []) ∷ []
  where
    line2 : Dict Value
    line2 = ("name", string "line2") ∷ ("timeout", int (pos 9000)) ∷ []

abbrev decode_instances : List ℕ → Loaded (Dict (List (Dict Value)))
decode_instances bytes = (instances, none)

abbrev no_network : Udp ℕ
no_network = record {
  listen = λ address w. (err eof, w);
  send_to = λ conn bytes address w. w;
  read_until = λ conn w. ([], w);
  close = λ conn w. w;
}

abbrev pub no_durations : String → Option ℤ
no_durations s = none

abbrev pub full_config : Dict Value
full_config = meta_fields watched.device_meta ++ ("timeout", int (pos 2000)) ∷ []

abbrev pub started_meter : Started
started_meter = record {
  set = meter "";
  config = full_config;
  client = 0;
  interval = pos 5000000000;
}

abbrev pub program : Program ℕ ℕ
program = record {
  uplinks = [];
  system = record {
    loops = record { started = started_meter; phase = starting } ∷ [];
    shared = record {
      clients = 1 ∷ [];
      engine = record {
        agg_rules = [];
        alarm_rules = [];
        linkage_rules = [];
        buffers = [];
        last_alarms = [];
      };
      world = 0;
      sent = [];
    };
    registry = no_devices;
    crashed = false;
  };
}

program_starts :
    main_at files decoders decode_instances no_network offline counter counting no_durations drivers
      0
    ≡ ok program
unfolding main_start start_all start_device lookup discover_devices_real device_map insert
    find_params get_or_create_client cached create new_uplink_manager_from_config effective_config
    interval_of new_rule_engine uplinks_from put_all_missing extract_aggregate_rules
    extract_alarm_rules extract_linkage_rules put_missing inject_device_meta
program_starts = refl

main_start-IsLaunched_example :
    IsLaunched files decoders decode_instances no_network offline counter counting no_durations
      drivers 0
      (instances, none)
      (watched ∷ [], none)
      (main_at files decoders decode_instances no_network offline counter counting no_durations
        drivers 0)
main_start-IsLaunched_example =
    main_start-IsLaunched files decoders decode_instances no_network offline counter counting
      no_durations drivers quiet 0
  where
    quiet : (config : Dict Value) (p : ℕ) → (counter.initialise config p).0 ≢ panic
    quiet config p e = cc

-- The meter's goroutine makes its ticker, and its first round reports; in between the rules are read
-- again, and a listener hears a datagram that is no I-Am.
abbrev events : List Event
events =
    turn 0
    ∷ heard_by_main (some ([], "10.0.0.9"))
    ∷ turn 0
    ∷ sighup (grouped, none)
    ∷ turn 0
    ∷ turn 0
    ∷ []

run-AllReported_example :
    AllReported
      (sets_loaded files decoders decode_instances no_network offline counter counting no_durations
        drivers)
      (run slow doubling equality offline
        (λ report. [])
        (λ w. w)
        []
        events
        program.system).shared.sent
run-AllReported_example =
    run-AllReported files decoders decode_instances no_network offline counter doubling no_durations
      drivers slow equality (λ report. []) (λ w. w) 0 program events program_starts

reported_once :
    map
      (λ (r : DataReport). r.device_id)
      (run slow doubling equality offline
        (λ report. [])
        (λ w. w)
        []
        events
        program.system).shared.sent
    ≡ "meter" ∷ []
unfolding run advance step poll_group read_with_retry declare_points store_values insert apply_rules
    choose_slave lookup reload_rules find_point convert format_value parse_and_cast_format
    transform_value send_to_all main_listening
reported_once = refl

still_runs :
    (run slow doubling equality offline (λ report. []) (λ w. w) [] events program.system).crashed
    ≡ false
unfolding run advance step poll_group read_with_retry declare_points store_values insert apply_rules
    choose_slave lookup reload_rules find_point convert format_value parse_and_cast_format
    transform_value send_to_all main_listening
still_runs = refl

no_rules_at_first : HasRules [] program.system.shared.engine
unfolding extract_aggregate_rules extract_alarm_rules extract_linkage_rules
no_rules_at_first = record { aggregates = refl; alarms = refl; linkages = refl }

run-hot_reload_example :
    let sys = run slow doubling equality offline (λ report. []) (λ w. w) [] events program.system in
    HasRules grouped sys.shared.engine
    × KeepsWindows program.system.shared.engine.buffers sys.shared.engine.buffers
run-hot_reload_example =
    run-hot_reload slow doubling equality offline (λ report. []) (λ w. w) [] events program.system
      [] no_rules_at_first still_runs
