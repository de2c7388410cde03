-- ===== src/Examples/Channels.antt =====
-- The channels, the scheduler and the device manager before a network that is down.
use sensor_edge.Poll.Setup.Clients.{create}
use sensor_edge.Uplink.Renaming.{apply_mapping-IsRenamed, IsRenamed}
use sensor_edge.Uplink.Mapping.{apply_mapping}
use sensor_edge.Devices.{Device, register_device, check_health, new_device_manager, DeviceManager}
use sensor_edge.Devices.Monitors.{
  check_health-IsMonitored, dialled, registered, IsMonitored, Event, happen,
}
use sensor_edge.Poll.Setup.Config.{DeviceConfigWithMeta}
use sensor_edge.Prelude.Dict.{insert, Dict, lookup}
use sensor_edge.Scheduler.Ticks.{tick_with_uplink-IsCollected, IsCollected, sent_report}
use sensor_edge.Examples.Values.{counting}
use sensor_edge.Examples.Engine.{equality}
use sensor_edge.Value.{Value, string, float64, PointValue}
use sensor_edge.Edge.{RuleEngine}
use sensor_edge.Poll.Points.{PointMapping}
use sensor_edge.Scheduler.Start.{start_scheduler}
use sensor_edge.Uplink.Everyone.{
  before_nil, send_each, has_no_client, send_to_all-new_uplink_manager_from_config, is_redis, any,
}
use sensor_edge.Uplink.Http.{failed}
use sensor_edge.Scheduler.{Collected, tick_with_uplink, DeviceConfig}
use sensor_edge.Examples.Starting.{drivers, counter}
use sensor_edge.Scheduler.Started.{start_scheduler-IsStarted, IsStarted}
use sensor_edge.Uplink.Manager.{
  nats, new_uplink_manager_from_config, UplinkConfig, Channels, send_to_all,
}
use sensor_edge.Go.{Outcome, panic, eof, ok}
use sensor_edge.Prelude.{
  none, false, inl, ◌⊎◌, pos, ◌+◌, if◌then◌else◌, Bool, ℕ, refl, List, ◌≡◌, String, none, some, [],
  ◌∷◌, true,
}
use sensor_edge.Scheduler.Interval.{
  Loop, started, set_interval, set_interval-waiting, tick, wait, done, step,
}

-- Every request is refused.
abbrev pub offline : Channels ℕ
offline = record {
  http_library = record {
    new_request = λ method url. none;
    canonical = λ key. key;
    perform = λ request w. (failed eof, w + 1);
    string_of = λ b. "";
  };
  mqtt_connect = λ broker id credentials w. (some eof, (0, w));
  mqtt_publish = λ client topic payload w. (some eof, w);
  redis_publish = λ client topic payload w. (some eof, w);
}

abbrev entry : String → Bool → UplinkConfig
entry kind enable = record {
  kind = kind;
  name = kind;
  enable = enable;
  broker = "";
  client_id = "";
  username = "";
  password = "";
  topic = "data";
  url = "http://10.0.0.1/in";
  method = "POST";
  headers = [];
  brokers = [];
  server = "";
  subject = "";
}

abbrev channels : List UplinkConfig
channels = entry "http" true ∷ entry "redis" true ∷ entry "kafka" true ∷ []

send_to_all-new_uplink_manager_from_config_example :
    let ups = (new_uplink_manager_from_config offline channels 0).0 in
    ((send_to_all offline ups (1 ∷ []) 0).0 ≡ (if any is_redis channels then panic else ok tt))
    × ((send_to_all offline ups (1 ∷ []) 0).1 ≡ send_each offline (1 ∷ []) (before_nil ups) 0)
send_to_all-new_uplink_manager_from_config_example =
    send_to_all-new_uplink_manager_from_config offline channels (1 ∷ []) 0 0

abbrev configured_devices : List DeviceConfig
configured_devices =
    record { id = "plc"; protocol = "modbus_tcp"; interval = pos 5; config = [] }
    ∷ record { id = "boiler"; protocol = "opcua"; interval = pos 5; config = [] }
    ∷ record { id = "meter"; protocol = "modbus_tcp"; interval = pos 5; config = [] }
    ∷ []

start_scheduler-IsStarted_example :
    IsStarted counter drivers configured_devices []
      (start_scheduler counter drivers configured_devices)
start_scheduler-IsStarted_example = start_scheduler-IsStarted counter drivers configured_devices

-- The loop ticks once and waits again.
abbrev working : Loop
working = record { ticker = 0; stopped = []; waiting = none }

set_interval-waiting_example : (set_interval 1 (started 0)).waiting ≡ some 0
set_interval-waiting_example =
    set_interval-waiting 0 1 0 (started 0) (set_interval 1 (started 0))
      (step (started 0) working (started 0) (tick (started 0) 0 refl refl)
        (step working (started 0) (started 0) (wait working refl) (done (started 0))))
      refl (done (set_interval 1 (started 0)))

-- A driver that reads 90 from d100, whose state counts its reads.
abbrev reads : String → ℕ → Outcome (List PointValue) × ℕ
reads device n = (
  ok (record { point_id = "d100"; value = float64 90; quality = "good"; timestamp = n } ∷ []),
  n + 1,
)

abbrev temperature : PointMapping
temperature = record {
  address = "d100";
  name = "temperature";
  kind = "float";
  unit = "C";
  transform = "";
  format = "";
  alarm = record { enable = true; condition = "value == 90"; level = "warning"; message = "hot" };
}

abbrev no_rules : RuleEngine
no_rules = record {
  agg_rules = [];
  alarm_rules = [];
  linkage_rules = [];
  buffers = [];
  last_alarms = [];
}

tick_with_uplink-IsCollected_example :
    let r =
      tick_with_uplink equality counting reads offline
        (λ report. [])
        (λ w. w)
        (nats ∷ [])
        "plc1"
        (temperature ∷ [])
        0
        no_rules
        5 in
    (out : Collected) × (r.0 ≡ (if any has_no_client (nats ∷ []) then panic else ok (some out)))
    × (r.1 ≡ 1)
    × IsCollected equality counting reads offline
        (λ report. [])
        (λ w. w)
        (nats ∷ [])
        "plc1"
        (temperature ∷ [])
        (record { point_id = "d100"; value = float64 90; quality = "good"; timestamp = 0 } ∷ [])
        no_rules
        out
        r.2
    × (r.3
        ≡ (sent_report equality counting reads offline
            (λ report. [])
            (λ w. w)
            (nats ∷ [])
            "plc1"
            out
            5).1)
tick_with_uplink-IsCollected_example =
    tick_with_uplink-IsCollected equality counting reads offline (λ report. []) (λ w. w) (nats ∷ [])
      "plc1" (temperature ∷ []) 0 1 no_rules 5
      (record { point_id = "d100"; value = float64 90; quality = "good"; timestamp = 0 } ∷ []) refl

abbrev received : Dict Value
received = ("t1", float64 90) ∷ ("t2", float64 7) ∷ []

abbrev template : Dict String
template = ("t1", "boiler") ∷ ("t3", "pump") ∷ []

apply_mapping-IsRenamed_example :
    ((lookup "boiler" (apply_mapping received template) ≡ none)
      × (¬ ((val : Value) × IsRenamed received template "boiler" val)))
    ⊎ ((val : Value) × (lookup "boiler" (apply_mapping received template) ≡ some val)
        × IsRenamed received template "boiler" val)
apply_mapping-IsRenamed_example = apply_mapping-IsRenamed received template "boiler"

abbrev own_settings : Dict Value
own_settings = ("ip", string "10.0.0.1") ∷ []

abbrev watched : DeviceConfigWithMeta
watched = record {
  device_meta = record {
    id = "meter";
    name = "Meter";
    description = "";
    protocol = "modbus_tcp";
    protocol_name = "line1";
    interval = "10s";
    enable_ping = true;
    ip = "";
    port = pos 502;
    slave_id = pos 1;
  };
  config = some own_settings;
}

abbrev history : List Event
history = registered watched ∷ dialled "meter" true ∷ []

is_watched :
    IsMonitored "meter" own_settings
      (happen counter (λ point v n. n) drivers history new_device_manager).monitors
unfolding happen lookup register_device create insert
is_watched = inl (refl, refl)

check_health-IsMonitored_example :
    (m' : DeviceManager ℕ) × (dev : Device ℕ) × ((check_health {W = ℕ}
        (λ address w. (false, w))
        "meter"
        own_settings
        (happen counter (λ point v n. n) drivers history new_device_manager)
        5).0
      ≡ ok m')
    × (lookup "meter" m'.devices ≡ some dev)
    × (dev.healthy ≡ false)
check_health-IsMonitored_example =
    check_health-IsMonitored counter (λ point v n. n) drivers (λ address w. (false, w)) history
      "meter" "10.0.0.1" own_settings 5 is_watched (unfold lookup in refl)
