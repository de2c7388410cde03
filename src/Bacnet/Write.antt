-- ===== src/Bacnet/Write.antt =====
-- protocols/bacnet/bacnet.go: Write, Close, Reconnect, DiscoverDevices and GetPointModel.
use text.Mathlib.Text.{◌==◌ as str_eq}
use sensor_edge.Prelude.Dict.{insert, Dict}
use sensor_edge.Bacnet.Points.{
  type_object_id, type_time, type_date, type_enumerated, type_bit_string, type_character_string,
  type_octet_string, type_double, type_real, type_signed_int, type_unsigned_int, type_boolean,
  type_null, PropertyValueType, BacnetPoint,
}
use sensor_edge.Go.{msg, ok, panic, err, Outcome, Error}
use sensor_edge.Value.{
  other, words, string, float64, float32, uint64, uint32, uint16, uint, int64, int32, int16, nil,
  int, bool, bools, bytes, object_id, Value,
}
use sensor_edge.Bacnet.Client.{not_connected, resolve, BacnetClient}
use sensor_edge.Prelude.{
  ◌==◌, get_or, ◌&&◌, length, [], ltb, ◌∷◌, some, true, false, none, if◌then◌else◌, Option, ℕ,
  String, List,
}
use Prim.Native.String

-- reflect.TypeOf(v).Kind(), by its text; nil has no type. `other` stands for values of none of the
-- kinds that Write asks for.
unfoldable pub kind_of : Value → Option String
kind_of nil = none
kind_of (bool b) = some "bool"
kind_of (int v) = some "int"
kind_of (int16 v) = some "int16"
kind_of (int32 v) = some "int32"
kind_of (int64 v) = some "int64"
kind_of (uint v) = some "uint"
kind_of (uint16 v) = some "uint16"
kind_of (uint32 v) = some "uint32"
kind_of (uint64 v) = some "uint64"
kind_of (float32 v) = some "float32"
kind_of (float64 v) = some "float64"
kind_of (string s) = some "string"
kind_of (bytes bs) = some "slice"
kind_of (words ws) = some "slice"
kind_of (bools bs) = some "slice"
kind_of (object_id kind number) = some "struct"
kind_of other = some "other"

abbrev pub point_error : String → String → Error
point_error point text = msg (String.◌++◌ "bacnet: point " (String.◌++◌ point text))

-- typeCheck(expect, reflect.TypeOf(value).Kind()), where a nil value panics
abbrev type_check : String → String → Option String → Outcome (Unit {0})
type_check point expect none = panic
type_check point expect (some actual) =
    if str_eq actual expect
    then ok tt
    else err (
        point_error point
          (String.◌++◌ " expect " (String.◌++◌ expect (String.◌++◌ " value, got " actual))))

abbrev check_bytes : String → Value → Outcome (Unit {0})
check_bytes point nil = panic
check_bytes point (bytes bs) = ok tt
check_bytes point _ = err (point_error point " expect []byte value")

abbrev check_bools : String → Value → Outcome (Unit {0})
check_bools point nil = panic
check_bools point (bools bs) = ok tt
check_bools point _ = err (point_error point " expect []bool value")

abbrev check_object_id : String → Value → Outcome (Unit {0})
check_object_id point (object_id kind number) = ok tt
check_object_id point _ = err (point_error point " expect ObjectID value")

-- The switch over pt.PropertyValueType.
unfoldable pub check_type : String → PropertyValueType → Value → Outcome (Unit {0})
unfolding kind_of
check_type point type_null v = ok tt
check_type point type_boolean v = type_check point "bool" (kind_of v)
check_type point type_unsigned_int v = type_check point "uint64" (kind_of v)
check_type point type_signed_int v = type_check point "int" (kind_of v)
check_type point type_real v = type_check point "float64" (kind_of v)
check_type point type_double v = type_check point "float64" (kind_of v)
check_type point type_octet_string v = check_bytes point v
check_type point type_character_string v = type_check point "string" (kind_of v)
check_type point type_bit_string v = check_bools point v
check_type point type_enumerated v = type_check point "int" (kind_of v)
check_type point type_date v = type_check point "string" (kind_of v)
check_type point type_time v = type_check point "string" (kind_of v)
check_type point type_object_id v = check_object_id point v

abbrev pub set_value : BacnetClient → String → BacnetPoint → Value → BacnetClient
set_value c name pt v = record c { points = insert name (record pt { value = v }) c.points }

abbrev pub checked :
    BacnetClient
    → String
    → BacnetPoint
    → Value
    → Outcome (Unit {0})
    → Outcome (Unit {0}) × BacnetClient
checked c name pt v (ok _) = (ok tt, set_value c name pt v)
checked c name pt v (err e) = (err e, c)
checked c name pt v panic = (panic, c)

abbrev pub write_to :
    BacnetClient
    → String
    → Value
    → Option (String × BacnetPoint)
    → Outcome (Unit {0}) × BacnetClient
write_to c key v none = (err (point_error key " not found"), c)
write_to c key v (some (name, pt)) =
    if pt.writable
    then checked c name pt v (check_type name pt.property_value_type v)
    else (err (point_error name " is not writable"), c)

unfoldable pub write : String → Value → BacnetClient → Outcome (Unit {0}) × BacnetClient
write key v c = if c.connected then write_to c key v (resolve c key) else (err not_connected, c)

unfoldable pub close : BacnetClient → Outcome (Unit {0}) × BacnetClient
close c = (ok tt, record c { connected = false })

unfoldable pub reconnect : BacnetClient → Outcome (Unit {0}) × BacnetClient
reconnect c = (ok tt, record c { connected = true })

pub record BacnetDeviceInfo : Type 0 where
  pub device_id : String
  pub address : String
  pub vendor : String
  pub model : String

-- The two devices that the simulation finds.
unfoldable pub discover_devices : BacnetClient → Outcome (List BacnetDeviceInfo) × BacnetClient
discover_devices c = (
  ok (
      record {
        device_id = "2228316";
        address = "192.168.1.10";
        vendor = "SimVendor";
        model = "SimModelA";
      }
      ∷ record {
        device_id = "2228317";
        address = "192.168.1.11";
        vendor = "SimVendor";
        model = "SimModelB";
      }
      ∷ []),
  record c { discovered = true },
)

-- The answers of DiscoverDevicesReal, each a datagram in a buffer of 1024 bytes with its sender: the
-- packets up to the deadline. The second byte of a packet decides, the id is a fixed text.
unfoldable pub discovered_devices : List (List ℕ × String) → List BacnetDeviceInfo
discovered_devices [] = []
discovered_devices ((packet, sender) ∷ more) =
    let rest = discovered_devices more in
    if ltb 10 (length packet) && get_or packet 1 0 == 0x0a
    then record {
      device_id = "解析DeviceID";
      address = sender;
      vendor = "Unknown";
      model = "Unknown";
    }
      ∷ rest
    else rest

-- A copy of the points.
unfoldable pub get_point_model : BacnetClient → Dict BacnetPoint
get_point_model c = c.points
