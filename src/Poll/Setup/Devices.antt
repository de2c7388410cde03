-- ===== src/Poll/Setup/Devices.antt =====
-- main.go: the map of the devices, those that BACnet discovers, and the interval of a device.
use sensor_edge.Go.Time.{nanoseconds}
use sensor_edge.Prelude.Dict.{lookup, insert, Dict}
use sensor_edge.Poll.Setup.Config.{DeviceConfigWithMeta}
use sensor_edge.Floats.{Floats}
use sensor_edge.Prelude.{ℤ, Option, String, pos, List, none, some, [], ◌∷◌, false}
use sensor_edge.Value.{int, float64, string, Value}
use sensor_edge.Bacnet.Write.{BacnetDeviceInfo}

-- devMap: the last device of an id.
unfoldable pub device_map :
    List DeviceConfigWithMeta → Dict DeviceConfigWithMeta → Dict DeviceConfigWithMeta
device_map [] all = all
device_map (dev ∷ devs) all = device_map devs (insert dev.device_meta.id dev all)

abbrev pub discovered_config : BacnetDeviceInfo → DeviceConfigWithMeta
discovered_config dev = record {
  device_meta = record {
    id = dev.device_id;
    name = dev.model;
    description = "";
    protocol = "bacnet";
    protocol_name = "auto_discovered";
    interval = "";
    enable_ping = false;
    ip = dev.address;
    port = pos 0;
    slave_id = pos 0;
  };
  config = some (("object_device", string dev.device_id) ∷ ("ip", string dev.address) ∷ []);
}

-- A device that is known already is left as it is.
unfoldable pub add_discovered :
    List BacnetDeviceInfo → Dict DeviceConfigWithMeta → Dict DeviceConfigWithMeta
add_discovered [] all = all
add_discovered (dev ∷ devs) all = add_discovered devs (add_new (lookup dev.device_id all))
  where
    add_new : Option DeviceConfigWithMeta → Dict DeviceConfigWithMeta
    add_new (some known) = all
    add_new none = insert dev.device_id (discovered_config dev) all

-- The time between two rounds, in nanoseconds. time.ParseDuration is a parameter.
unfoldable pub interval_of : Floats → (String → Option ℤ) → Option Value → ℤ
interval_of fl parse_duration (some (int v)) = nanoseconds v
interval_of fl parse_duration (some (float64 v)) = nanoseconds (fl.to_int v)
interval_of fl parse_duration (some (string s)) = elim (parse_duration s) [
  | none ↦ nanoseconds (pos 5)
  | some d ↦ d
]
interval_of fl parse_duration _ = nanoseconds (pos 5)
