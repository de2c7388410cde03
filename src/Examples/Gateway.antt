-- ===== src/Examples/Gateway.antt =====
-- A hot meter, two meters behind one gateway, and two point sets of one meter.
use sensor_edge.Bacnet.Registry.{no_devices}
use sensor_edge.Poll.Running.Alone.{turns-poll_round, IsSent}
use sensor_edge.Poll.Round.{poll_round, poll_groups, Poll, DataReport}
use sensor_edge.Go.{Outcome}
use sensor_edge.Poll.Setup.Precedence.{first_of}
use sensor_edge.Poll.Setup.SharedConfig.{start_all-shared_config, params_found, first_in}
use sensor_edge.Poll.Running.Slaves.{rounds-other_slave}
use sensor_edge.Poll.Running.Windows.{run-bounded}
use sensor_edge.Prelude.Int.{pos_part, to_unsigned}
use sensor_edge.Modbus.Batch.Outage.{modbus_protocol}
use sensor_edge.Modbus.Session.{Session}
use sensor_edge.Edge.{PointBuffer, AggregateRule, apply_rules, new_rule_engine}
use sensor_edge.Poll.Retry.{Protocol, read_with_retry}
use sensor_edge.Poll.Round.{choose_slave, store_values, declare_points, poll_group}
use sensor_edge.Value.{float64, int, string, Value}
use sensor_edge.Go.{ok}
use sensor_edge.Poll.Setup.Start.{params_of, Acquisition}
use sensor_edge.Prelude.Dict.{insert, lookup, Dict}
use sensor_edge.Poll.Setup.Config.{meta_fields}
use sensor_edge.Prelude.{
  arith, ◌^◌, ◌+◌, ◌≤◌, get_elem?, length, replicate, refl, false, some, ℤ, none, [], pos, ◌≡◌, ℕ,
  ◌∷◌, List,
}
use sensor_edge.Examples.Starting.{counter, drivers}
use sensor_edge.Examples.Channels.{offline}
use sensor_edge.Examples.Engine.{averaging, equality}
use sensor_edge.Examples.Values.{counting, doubling, mapping}
use sensor_edge.Examples.Device.{memory, online, plant}
use sensor_edge.Poll.Running.{
  Loop, System, Event, turn, run, advance, step, starting, waiting, collecting,
}
use sensor_edge.Poll.Setup.Start.{start_all, start_device}
use sensor_edge.Poll.Setup.Devices.{interval_of}
use sensor_edge.Poll.Setup.Config.{
  find_params, effective_config, put_all_missing, put_missing, inject_device_meta,
}
use sensor_edge.Poll.Setup.Clients.{get_or_create_client, cached, create}
use sensor_edge.Uplink.Manager.{send_to_all}
use sensor_edge.Poll.Round.{find_point}
use sensor_edge.Edge.{aggregate_all, aggregate, add}
use sensor_edge.Poll.Convert.{type_value, convert, format_value, transform_value}
use sensor_edge.Format.Cast.{parse_and_cast_format}
use sensor_edge.Examples.Program.{
  watched, meter, instances, no_durations, full_config, started_meter, program,
}

-- A driver whose only point is always at 90.
abbrev heated : Protocol ℕ
heated = record {
  read_batch = λ dev function addrs n. (
    ok (record { point_id = "t1"; value = float64 90; quality = "good"; timestamp = n } ∷ []),
    n + 1,
  );
  reconnect = λ n. (ok none, n);
  set_slave = λ slave n. n;
}

abbrev averaged : AggregateRule
averaged = record (averaging (pos 2)) { device_id = "meter"; point = "t1" }

abbrev averaging_program : System ℕ ℕ
averaging_program = record program.system {
  loops =
      record {
        started = record started_meter {
          set = record (meter "") {
            functions = record { function = "03"; points = mapping "t1" "" "" ∷ [] } ∷ [];
          };
        };
        phase = starting;
      }
      ∷ [];
  shared = record program.system.shared {
    engine = record program.system.shared.engine { agg_rules = averaged ∷ [] };
  };
}

-- Three rounds.
abbrev nine_turns : List Event
nine_turns = replicate 10 (turn 0)

window_full :
    lookup "meter.t1"
      (run heated doubling equality offline
        (λ report. [])
        (λ w. w)
        []
        nine_turns
        averaging_program).shared.engine.buffers
    ≡ some (record { values = 90 ∷ 90 ∷ []; size = pos 2 })
unfolding run advance step poll_group read_with_retry declare_points store_values insert apply_rules
    choose_slave lookup find_point convert format_value parse_and_cast_format transform_value
    send_to_all aggregate_all aggregate type_value add
window_full = refl

is_new : averaging_program.shared.engine ≡ new_rule_engine (averaged ∷ []) [] []
unfolding new_rule_engine
is_new = refl

abbrev full_window : PointBuffer
full_window = record { values = 90 ∷ 90 ∷ []; size = pos 2 }

run-bounded_example : length full_window.values ≤ pos_part full_window.size
run-bounded_example =
    run-bounded heated doubling equality offline (λ report. []) (λ w. w) [] nine_turns
      averaging_program (averaged ∷ []) [] [] "meter.t1" full_window is_new window_full

-- Two meters behind one gateway.
abbrev meter_loop : ℤ → Loop
meter_loop slave = record {
  started = record started_meter { config = ("slave_id", int slave) ∷ [] };
  phase = waiting;
}

abbrev two_meters : System (Session ℕ) ℕ
two_meters = record {
  loops = meter_loop (pos 1) ∷ meter_loop (pos 2) ∷ [];
  shared = record {
    clients = online ∷ [];
    engine = program.system.shared.engine;
    world = 0;
    sent = [];
  };
  registry = no_devices;
  crashed = false;
}

second_slave : lookup "slave_id" (meter_loop (pos 2)).started.config ≡ some (int (pos 2))
unfolding lookup
second_slave = refl

rounds-other_slave_example :
    let sys' =
      run
        (modbus_protocol memory)
        doubling
        equality
        offline
        (λ report. [])
        (λ w. w)
        []
        (turn 0 ∷ turn 1 ∷ [])
        two_meters in
    (s' : Session ℕ) × (get_elem? sys'.shared.clients 0 ≡ some s')
    × (s'.m.handler ≡ some (record plant { slave_id = to_unsigned (2 ^ 8) (pos 2) }))
    × (get_elem? sys'.loops 0
        ≡ some (record (meter_loop (pos 1)) {
          phase = collecting (meter_loop (pos 1)).started.set.functions [];
        }))
rounds-other_slave_example =
    rounds-other_slave memory doubling equality offline (λ report. []) (λ w. w) [] two_meters 0 1
      (meter_loop (pos 1)) (meter_loop (pos 2)) online plant (pos 2) (λ e. omega arith) refl refl
      refl refl refl refl refl refl second_slave

-- Two point sets of the meter, which name two protocol instances.
abbrev at_first : Acquisition ℕ
at_first = record { devices = ("meter", watched) ∷ []; pool = record { cache = []; clients = [] } }

abbrev second_instance : Dict Value
second_instance = ("name", string "line2") ∷ ("timeout", int (pos 9000)) ∷ []

first_started :
    (start_all counter counting no_durations drivers instances (meter "" ∷ []) [] at_first).0
    ≡ ok (started_meter ∷ [])
unfolding start_all start_device lookup insert find_params get_or_create_client cached create
    effective_config interval_of put_all_missing put_missing inject_device_meta
first_started = refl

second_started :
    (start_device counter counting no_durations drivers instances
      (meter "line2")
      (start_all counter counting no_durations drivers instances (meter "" ∷ []) [] at_first).1).0
    ≡ ok (some (record started_meter { set = meter "line2" }))
unfolding start_all start_device lookup insert find_params get_or_create_client cached create
    effective_config interval_of put_all_missing put_missing inject_device_meta
second_started = refl

meter_known : lookup "meter" at_first.devices ≡ some watched
unfolding lookup
meter_known = refl

second_found : params_of instances (meter "line2") watched ≡ some second_instance
unfolding find_params lookup
second_found = refl

start_all-shared_config_example :
    lookup "timeout" full_config
    ≡ first_of (lookup "timeout" []) (
        first_of (lookup "timeout" (meta_fields watched.device_meta)) (
          first_of
            (first_in "timeout" (params_found instances "meter" watched (meter "" ∷ [])))
            (lookup "timeout" second_instance)))
start_all-shared_config_example =
    start_all-shared_config counter counting no_durations drivers instances "meter" watched
      (meter "" ∷ []) (meter "line2") [] (started_meter ∷ []) at_first [] second_instance
      (record started_meter { set = meter "line2" }) refl meter_known second_found first_started
      second_started "timeout"

-- A meter that waits for its next round.
abbrev waiting_loop : Loop
waiting_loop = record {
  started = record started_meter {
    set = record (meter "") {
      functions = record { function = "03"; points = mapping "t1" "" "" ∷ [] } ∷ [];
    };
  };
  phase = waiting;
}

abbrev waiting_program : System ℕ ℕ
waiting_program = record program.system { loops = waiting_loop ∷ [] }

abbrev hot_report : DataReport
hot_report = record {
  device_id = "meter";
  timestamp = 0;
  values = ("t1", float64 90) ∷ [];
  alarms = [];
  metrics = [];
}

abbrev hot : Poll ℕ
hot = record { driver = 1; engine = program.system.shared.engine }

abbrev polled : Outcome DataReport × Poll ℕ
polled =
    poll_round heated doubling equality waiting_loop.started.set waiting_loop.started.config 0 hot

polled_meter : polled ≡ (ok hot_report, polled.1)
unfolding poll_round poll_groups poll_group read_with_retry declare_points store_values insert
    apply_rules choose_slave lookup find_point convert format_value parse_and_cast_format
    transform_value type_value
polled_meter = refl

turns-poll_round_example :
    IsSent heated doubling equality offline
      (λ report. [])
      (λ w. w)
      []
      0
      waiting_loop
      0
      []
      hot_report
      polled.1
      (run heated doubling equality offline
        (λ report. [])
        (λ w. w)
        []
        (replicate 3 (turn 0))
        waiting_program)
turns-poll_round_example =
    turns-poll_round heated doubling equality offline (λ report. []) (λ w. w) [] 0 waiting_loop 0 []
      1 waiting_program hot_report polled.1 (refl, refl, refl, refl, refl, refl) polled_meter
