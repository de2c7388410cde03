-- ===== src/Devices.antt =====
-- core/device_manager.go and devices/manager.go.
pub mod Monitors
use sensor_edge.Drivers.Net.{string_at}
use sensor_edge.Go.{wrap, msg, panic, err, ok, Outcome}
use sensor_edge.Poll.Setup.Config.{entries, DeviceConfigWithMeta, DeviceMeta}
use sensor_edge.Prelude.Dict.{lookup, insert, Dict}
use sensor_edge.Poll.Setup.Clients.{create, Driver}
use Prim.Native.String
use text.Mathlib.Text.{◌==◌ as str_eq}
use sensor_edge.Value.{int, Value}
use sensor_edge.Prelude.{
  ◌++◌, true, Option, pos, ◌&&◌, Bool, if◌then◌else◌, List, String, none, some, [], ◌∷◌,
}

-- Device of core.
pub record Device (P : Type 0) : Type 0 where
  pub meta : DeviceMeta
  pub client : P
  pub healthy : Bool

-- The devices, and the ids and settings that startHealthMonitor runs for.
pub record DeviceManager (P : Type 0) : Type 0 where
  pub devices : Dict (Device P)
  pub monitors : List (String × Dict Value)

abbrev pub new_device_manager : {P : Type 0} → DeviceManager P
new_device_manager = record { devices = []; monitors = [] }

module _ {P : Type 0} (d : Driver P) (write : String → Value → P → P) (registry : Dict P) where
  -- The first value of the HTTP device plc2, whose error is dropped.
  abbrev pub written : DeviceMeta → P → P
  written meta client =
      if str_eq meta.protocol "http" && str_eq meta.id "plc2"
      then write "d200" (int (pos 0)) client
      else client

  abbrev pub keep_device :
      DeviceConfigWithMeta
      → DeviceManager P
      → Outcome (Unit {0}) × P
      → Outcome (Unit {0}) × DeviceManager P
  keep_device dev m (ok x, client) =
      let made : Device P = record {
        meta = dev.device_meta;
        client = written dev.device_meta client;
        healthy = true;
      } in
      (
        ok tt,
        record {
          devices = insert dev.device_meta.id made m.devices;
          monitors =
              if dev.device_meta.enable_ping
              then m.monitors ++ (dev.device_meta.id, entries dev.config) ∷ []
              else m.monitors;
        },
      )
  keep_device dev m (err e, client) = (err (wrap "init error" e), m)
  keep_device dev m (panic, client) = (panic, m)

  abbrev pub with_client :
      DeviceConfigWithMeta → DeviceManager P → Outcome P → Outcome (Unit {0}) × DeviceManager P
  with_client dev m (ok client) = keep_device dev m (d.initialise (entries dev.config) client)
  with_client dev m (err e) =
      (err (msg (String.◌++◌ "unsupported protocol: " dev.device_meta.protocol)), m)
  with_client dev m panic = (panic, m)

  -- Register of the manager.
  unfoldable pub register_device :
      DeviceConfigWithMeta → DeviceManager P → Outcome (Unit {0}) × DeviceManager P
  register_device dev m = with_client dev m (create dev.device_meta.protocol registry)

-- A round of startHealthMonitor: the dialled address answers or not. A setting ip that is no string, and
-- a device that is not registered, panic.
abbrev pub set_healthy : {P : Type 0} → String → Bool → DeviceManager P → Outcome (DeviceManager P)
set_healthy {P = P} id up m = of_device (lookup id m.devices)
  where
    of_device : Option (Device P) → Outcome (DeviceManager P)
    of_device none = panic
    of_device (some dev) =
        ok (record m { devices = insert id (record dev { healthy = up }) m.devices })

unfoldable pub check_health :
    {P W : Type 0}
    → (dial : String → W → Bool × W) → String
    → Dict Value
    → DeviceManager P
    → W
    → Outcome (DeviceManager P) × W
check_health {P = P} {W = W} dial id config m w = dialled (string_at "ip" config)
  where
    dialled : Outcome String → Outcome (DeviceManager P) × W
    dialled (ok ip) = let (up, w') = dial (String.◌++◌ ip ":80") w in (set_healthy id up m, w')
    dialled _ = (panic, w)

-- Device and Manager of devices: a driver and its points.
pub record PlainDevice (P : Type 0) : Type 0 where
  pub device_id : String
  pub protocol : P
  pub points : Dict Value

abbrev pub new_manager : {P : Type 0} → Dict (PlainDevice P)
new_manager = []

abbrev pub add_plain_device :
    {P : Type 0} → PlainDevice P → Dict (PlainDevice P) → Dict (PlainDevice P)
add_plain_device device all = insert device.device_id device all
