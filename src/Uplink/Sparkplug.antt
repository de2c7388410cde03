-- ===== src/Uplink/Sparkplug.antt =====
-- uplink/sparkplugb/sparkplugb.go.
pub mod Options
use sensor_edge.Go.Show.{int_text}
use sensor_edge.Go.{panic, err, ◌>>=◌, ok, Error, Outcome}
use sensor_edge.Prelude.{some, none, List, pos, Bool, if◌then◌else◌, ℤ, Option, String, ℕ}
use Prim.Native.String
use sensor_edge.Queue.{new_outbound_queue, OutboundQueue, Storage}

pub record SparkplugBConfig : Type 0 where
  pub client_id : String
  pub group_id : String
  pub node_id : String
  pub group_path : Bool
  pub offline_cache : Bool
  pub cache_mem_mb : ℤ
  pub cache_disk_mb : ℤ
  pub cache_interval : ℤ
  pub host : String
  pub port : ℤ
  pub username : String
  pub password : String
  pub ssl : Bool
  pub ca_file : String
  pub cert_file : String
  pub key_file : String
  pub key_password : String

pub record SimMetric : Type 0 where
  pub name : String
  pub datatype : ℤ
  pub double_value : ℕ  -- a float64
  pub int_value : ℤ
  pub string_value : String
  pub timestamp : ℕ

-- The metrics are a slice: nil is `none`.
pub record SimPayload : Type 0 where
  pub sent_at : ℕ  -- Timestamp
  pub metrics : Option (List SimMetric)
  pub seq : ℤ

-- The client of the MQTT library, json.Marshal and the clock in milliseconds. Connect and Publish wait
-- for their token and give its error.
pub record SparkplugLibrary (W : Type 0) : Type 0 where
  pub connect : W → Option Error × W
  pub publish : String → List ℕ → W → Option Error × W  -- QoS 1, not retained
  pub marshal : SimPayload → Outcome (List ℕ)
  pub now_ms : W → ℕ

-- The address of the broker, "%s://%s:%d".
abbrev pub broker_url : SparkplugBConfig → String
broker_url cfg =
    String.◌++◌ (if cfg.ssl then "ssl" else "tcp")
      (String.◌++◌ "://" (String.◌++◌ cfg.host (String.◌++◌ ":" (int_text cfg.port))))

pub record SparkplugBUplink (S : Type 0) : Type 0 where
  pub config : SparkplugBConfig
  pub name_v : String
  pub queue : OutboundQueue S

-- The end of NewSparkplugBUplink, which makes the queue over a nil storage.
unfoldable pub new_sparkplugb_uplink :
    {S : Type 0} → Storage S → SparkplugBConfig → Outcome (SparkplugBUplink S)
new_sparkplugb_uplink st cfg =
    new_outbound_queue st none
    >>= (λ q. ok (record { config = cfg; name_v = "sparkplugb"; queue = q }))

abbrev pub build_sim_metric_double : ℕ → String → ℕ → SimMetric
build_sim_metric_double now name v = record {
  name = name;
  datatype = pos 8;
  double_value = v;
  int_value = pos 0;
  string_value = "";
  timestamp = now;
}

abbrev pub build_sim_metric_int : ℕ → String → ℤ → SimMetric
build_sim_metric_int now name v = record {
  name = name;
  datatype = pos 10;
  double_value = 0;
  int_value = v;
  string_value = "";
  timestamp = now;
}

abbrev pub build_sim_metric_string : ℕ → String → String → SimMetric
build_sim_metric_string now name v = record {
  name = name;
  datatype = pos 12;
  double_value = 0;
  int_value = pos 0;
  string_value = v;
  timestamp = now;
}

-- "spBv1.0/%s/<kind>/%s"
abbrev pub node_topic : String → SparkplugBConfig → String
node_topic kind cfg =
    String.◌++◌ "spBv1.0/"
      (String.◌++◌ cfg.group_id (String.◌++◌ "/" (String.◌++◌ kind (String.◌++◌ "/" cfg.node_id))))

abbrev pub device_topic : String → SparkplugBConfig → String → String
device_topic kind cfg device = String.◌++◌ (node_topic kind cfg) (String.◌++◌ "/" device)

module _ {W : Type 0} (lib : SparkplugLibrary W) where
  abbrev publish_payload : String → Outcome (List ℕ) → W → Outcome (Unit {0}) × W
  publish_payload topic (ok buf) w = published (lib.publish topic buf w)
    where
      published : Option Error × W → Outcome (Unit {0}) × W
      published (none, w') = (ok tt, w')
      published (some e, w') = (err e, w')
  publish_payload topic (err e) w = (err e, w)
  publish_payload topic panic w = (panic, w)

  -- The body that the five functions share: connect, marshal and publish.
  abbrev connected_send :
      String → Option (List SimMetric) → Option Error × W → Outcome (Unit {0}) × W
  connected_send topic metrics (some e, w) = (err e, w)
  connected_send topic metrics (none, w) =
      publish_payload topic
        (lib.marshal (record { sent_at = lib.now_ms w; metrics = metrics; seq = pos 0 })) w

  unfoldable pub send_sim_nbirth :
      SparkplugBConfig → Option (List SimMetric) → W → Outcome (Unit {0}) × W
  send_sim_nbirth cfg metrics w = connected_send (node_topic "NBIRTH" cfg) metrics (lib.connect w)

  unfoldable pub send_sim_ndata :
      SparkplugBConfig → Option (List SimMetric) → W → Outcome (Unit {0}) × W
  send_sim_ndata cfg metrics w = connected_send (node_topic "NDATA" cfg) metrics (lib.connect w)

  unfoldable pub send_sim_dbirth :
      SparkplugBConfig → String → Option (List SimMetric) → W → Outcome (Unit {0}) × W
  send_sim_dbirth cfg device metrics w =
      connected_send (device_topic "DBIRTH" cfg device) metrics (lib.connect w)

  unfoldable pub send_sim_ndeath : SparkplugBConfig → W → Outcome (Unit {0}) × W
  send_sim_ndeath cfg w = connected_send (node_topic "NDEATH" cfg) none (lib.connect w)

  unfoldable pub send_sim_ddeath : SparkplugBConfig → String → W → Outcome (Unit {0}) × W
  send_sim_ddeath cfg device w =
      connected_send (device_topic "DDEATH" cfg device) none (lib.connect w)
