-- ===== src/Bacnet/Registry.antt =====
-- protocols/bacnet/discover.go: the discovered devices, RegisterDevice and RegisterAndStartPolling. Both
-- hold the lock while they test and set, so that registrations come one after another.
use sensor_edge.Prelude.Decimal.{decimal_text}
use sensor_edge.Prelude.Dict.{insert, lookup, Dict}
use sensor_edge.Bacnet.Iam.{DeviceInfo}
use sensor_edge.Prelude.{none, ◌++◌, some, Option, true, Bool, ◌∷◌, ℕ, [], List, String}
use Prim.Native.String

pub record Device : Type 0 where
  pub id : String
  pub ip : String
  pub device_id : ℕ
  pub vendor_id : ℕ
  pub online : Bool
  pub fail_count : ℕ
  pub point_names : List String

-- A goroutine that was started, for the device of this key.
pub data Task : Type 0 where
  start_polling_task : String → Task
  generate_points_task : String → Task

-- devMap, and the goroutines started so far, the first one first.
pub record Registry : Type 0 where
  pub devices : Dict Device
  pub tasks : List Task

abbrev pub no_devices : Registry
no_devices = record { devices = []; tasks = [] }

-- fmt.Sprintf("bacnet_%d", info.DeviceID)
abbrev pub device_key : ℕ → String
device_key n = String.◌++◌ "bacnet_" (decimal_text n)

abbrev pub new_device : DeviceInfo → Device
new_device info = record {
  id = device_key info.device_id;
  ip = info.ip;
  device_id = info.device_id;
  vendor_id = info.vendor_id;
  online = true;
  fail_count = 0;
  point_names = [];
}

abbrev pub add_device : List Task → DeviceInfo → Registry → Option Device → Registry
add_device tasks info r (some dev) = r
add_device tasks info r none = record {
  devices = insert (device_key info.device_id) (new_device info) r.devices;
  tasks = r.tasks ++ tasks;
}

unfoldable pub register_device : DeviceInfo → Registry → Registry
register_device info r =
    let key = device_key info.device_id in
    add_device (start_polling_task key ∷ []) info r (lookup key r.devices)

unfoldable pub register_and_start_polling : DeviceInfo → Registry → Registry
register_and_start_polling info r =
    let key = device_key info.device_id in
    add_device (generate_points_task key ∷ start_polling_task key ∷ []) info r
      (lookup key r.devices)
