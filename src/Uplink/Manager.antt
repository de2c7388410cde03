-- ===== src/Uplink/Manager.antt =====
-- uplink/manager.go, uplink/encoder.go, uplink/uplink.go and the channels uplink/mqtt, kafka, nats and
-- redis. The log file that SendToAll writes is not modelled.
use sensor_edge.Edge.{AlarmInfo}
use sensor_edge.Prelude.Dict.{Dict}
use sensor_edge.Go.{err, ok, panic, Outcome, Error}
use sensor_edge.Poll.Round.{DataReport}
use sensor_edge.Prelude.{
  ◌&&◌, not, ◌++◌, none, some, Bool, ℕ, [], ◌∷◌, if◌then◌else◌, Option, List, String,
}
use sensor_edge.Uplink.Http.{HttpUplink, HttpLibrary}
use text.Mathlib.Text.{◌==◌ as str_eq}
use sensor_edge.Value.{Value}
use sensor_edge.Uplink.Http

-- config.UplinkConfig
pub record UplinkConfig : Type 0 where
  pub kind : String  -- Type
  pub name : String
  pub enable : Bool
  pub broker : String
  pub client_id : String
  pub username : String
  pub password : String
  pub topic : String
  pub url : String
  pub method : String
  pub headers : Dict String
  pub brokers : List String
  pub server : String
  pub subject : String

-- The channels. A client of MQTT or Redis is a number, and a nil one is `none`.
pub data Uplink : Type 0 where
  mqtt : (client : Option ℕ) → (topic name : String) → Uplink
  http : HttpUplink → Uplink
  kafka : (topic name : String) → Uplink
  nats : Uplink
  redis : (client : Option ℕ) → (topic name : String) → Uplink

-- The libraries of the channels over the world `W`.
pub record Channels (W : Type 0) : Type 0 where
  pub http_library : HttpLibrary W
  -- mqtt.NewClient and Connect: broker, client id, and the user and password that are set
  pub mqtt_connect : String → String → Option (String × String) → W → Option Error × (ℕ × W)
  pub mqtt_publish : ℕ → String → List ℕ → W → Option Error × W  -- QoS 1, not retained
  pub redis_publish : ℕ → String → List ℕ → W → Option Error × W

abbrev pub uplink_name : Uplink → String
uplink_name (mqtt client topic name) = name
uplink_name (http c) = "http"
uplink_name (kafka topic name) = name
uplink_name nats = "nats"
uplink_name (redis client topic name) = name

abbrev pub uplink_type : Uplink → String
uplink_type (mqtt client topic name) = "mqtt"
uplink_type (http c) = "POST"
uplink_type (kafka topic name) = "kafka"
uplink_type nats = "NATS"
uplink_type (redis client topic name) = "redis"

-- UplinkFactory.NewUplink; a nil interface is `none`.
unfoldable pub new_uplink : String → Option Uplink
new_uplink kind =
    if str_eq kind "mqtt"
    then some (mqtt none "" "")
    else if str_eq kind "http"
    then some (http (record { url = ""; method = ""; headers = [] }))
    else if str_eq kind "nats"
    then some nats
    else if str_eq kind "redis"
    then some (redis none "" "")
    else if str_eq kind "kafka"
    then some (kafka "" "")
    else none

module _ {W : Type 0} (lib : Channels W) where
  -- Send of each channel: a nil client panics.
  abbrev pub sent : Option Error × W → Outcome (Unit {0}) × W
  sent (none, w) = (ok tt, w)
  sent (some e, w) = (err e, w)

  unfoldable pub send : Uplink → List ℕ → W → Outcome (Unit {0}) × W
  send (mqtt none topic name) payload w = (panic, w)
  send (mqtt (some c) topic name) payload w = sent (lib.mqtt_publish c topic payload w)
  send (http c) payload w = sent (Http.send lib.http_library c payload w)
  send (kafka topic name) payload w = (ok tt, w)
  send nats payload w = (ok tt, w)
  send (redis none topic name) payload w = (panic, w)
  send (redis (some c) topic name) payload w = sent (lib.redis_publish c topic payload w)

  -- The user and the password are set where neither is empty.
  abbrev pub credentials : UplinkConfig → Option (String × String)
  credentials c =
      if not (str_eq c.username "") && not (str_eq c.password "")
      then some (c.username, c.password)
      else none

  abbrev pub mqtt_uplink : UplinkConfig → Option Error × (ℕ × W) → Option Uplink × W
  mqtt_uplink c (some e, (n, w)) = (none, w)
  mqtt_uplink c (none, (n, w)) = (some (mqtt (some n) c.topic c.name), w)

  -- The switch over one entry; a kind that is not known adds nothing.
  unfoldable pub uplink_of : UplinkConfig → W → Option Uplink × W
  uplink_of c w =
      let connected = mqtt_uplink c (lib.mqtt_connect c.broker c.client_id (credentials c) w) in
      if not c.enable
      then (none, w)
      else if str_eq c.kind "mqtt"
      then connected
      else if str_eq c.kind "http"
      then (some (http (record { url = c.url; method = c.method; headers = c.headers })), w)
      else if str_eq c.kind "kafka"
      then (some (kafka c.topic c.name), w)
      else if str_eq c.kind "nats"
      then (some nats, w)
      else if str_eq c.kind "redis"
      then (some (redis none "" ""), w)
      else (none, w)

  abbrev pub append_option : List Uplink → Option Uplink → List Uplink
  append_option ups none = ups
  append_option ups (some up) = ups ++ up ∷ []

  unfoldable pub uplinks_from : List UplinkConfig → List Uplink → W → List Uplink × W
  uplinks_from [] ups w = (ups, w)
  uplinks_from (c ∷ cs) ups w =
      let (o, w') = uplink_of c w in uplinks_from cs (append_option ups o) w'

  -- NewUplinkManagerFromConfig: the uplinks of the manager.
  unfoldable pub new_uplink_manager_from_config : List UplinkConfig → W → List Uplink × W
  new_uplink_manager_from_config cfgs w = uplinks_from cfgs [] w

  -- SendToAll: an error of a channel is only logged, and the next one is sent to.
  abbrev pub next_uplink :
      (W → Outcome (Unit {0}) × W) → Outcome (Unit {0}) × W → Outcome (Unit {0}) × W
  next_uplink others (ok x, w) = others w
  next_uplink others (err e, w) = others w
  next_uplink others (panic, w) = (panic, w)

  unfoldable pub send_to_all : List Uplink → List ℕ → W → Outcome (Unit {0}) × W
  send_to_all [] payload w = (ok tt, w)
  send_to_all (up ∷ ups) payload w = next_uplink (send_to_all ups payload) (send up payload w)

-- EncodeDataReport; json.Marshal is a parameter, and its error is dropped.
unfoldable pub encode_data_report :
    (DataReport → List ℕ) → ℕ → String → Dict Value → List AlarmInfo → Dict Value → List ℕ
encode_data_report marshal now device points alarms metrics = marshal (record {
  device_id = device;
  timestamp = now;
  values = points;
  alarms = alarms;
  metrics = metrics;
})
