-- ===== src/Examples/Building.antt =====
-- A BACnet client with two points, and devices that announce themselves.
use sensor_edge.Poll.Retry.{read_with_retry}
use sensor_edge.Bacnet.Recovers.{read_with_retry-close, bacnet_protocol}
use sensor_edge.Prelude.Decimal.{decimal_text}
use sensor_edge.Bacnet.Registry.{new_device, no_devices}
use sensor_edge.Bacnet.Iam.{parse_iam-frame, parse_i_am, frame, heard, DeviceInfo}
use sensor_edge.Examples.Engine.{equality}
use sensor_edge.Bacnet.Polling.{start_polling-three_in_a_row, three_in_a_row, start_polling}
use sensor_edge.Examples.Values.{counting}
use sensor_edge.Go.Show.{int_text, sprint, Printer}
use sensor_edge.Prelude.Dict.{insert, lookup, Dict}
use sensor_edge.Bacnet.Calls.{
  read_batch-write, reopen, shut, initialise, Call, perform, perform_all-IsIndexed, perform_all,
}
use sensor_edge.Bacnet.Accepts.{write-permitted, written, permitted, is_ok}
use sensor_edge.Bacnet.Index.{IsIndexed}
use sensor_edge.Go.{err, Error, eof, ok}
use sensor_edge.Prelude.{
  map, arith, not, Option, refl, if◌then◌else◌, pos, List, ◌≡◌, none, some, [], ◌∷◌, true,
}
use sensor_edge.Value.{int, bool, float64, string, Value}
use sensor_edge.Bacnet.Client.{
  value_at, not_connected, BacnetClient, resolve, new_bacnet_client, store_point, store_all, init,
  read_batch,
}
use sensor_edge.Bacnet.Points.{point_of, fill_from_address, parse_address_fields, BacnetPoint}
use sensor_edge.Bacnet.Write.{close, reconnect, write, check_type}
use sensor_edge.Bacnet.Once.{
  keys, polled, first_device, register_all, Heard, by_listener, by_main, register_all-first_device,
}

-- Texts of what the tests do not print.
abbrev pub plain : Printer
plain = record {
  float32_text = λ v. "float";
  float64_text = λ v. "float";
  other_text = "other";
  wrong_verb = λ v. "%!s";
}

abbrev fan : Dict Value
fan =
    ("name", string "fan")
    ∷ ("id", int (pos 7))
    ∷ ("address", string "AV:1")
    ∷ ("property_value_type", string "REAL")
    ∷ ("writable", bool true)
    ∷ []

abbrev pump : Dict Value
pump = ("name", string "pump") ∷ ("id", int (pos 8)) ∷ ("init_value", float64 5) ∷ []

abbrev configured : List Call
configured =
    initialise (("device_id", int (pos 3)) ∷ []) (some (some fan ∷ none ∷ some pump ∷ []))
    ∷ shut
    ∷ reopen
    ∷ []

perform_all-IsIndexed_example : IsIndexed (perform_all plain counting configured new_bacnet_client)
perform_all-IsIndexed_example = perform_all-IsIndexed plain counting configured

abbrev building : BacnetClient
building = perform_all plain counting configured new_bacnet_client

write-permitted_example :
    (is_ok (write "7" (float64 9) building).0
      ≡ permitted building (float64 9) (resolve building "7"))
    × ((write "7" (float64 9) building).1 ≡ (
        if permitted building (float64 9) (resolve building "7")
        then written building (float64 9) (resolve building "7")
        else building))
write-permitted_example = write-permitted "7" (float64 9) building

abbrev fan_point : BacnetPoint
fan_point = point_of plain counting "3" fan

abbrev pump_point : BacnetPoint
pump_point = point_of plain counting "3" pump

finds_fan : resolve building "7" ≡ some ("fan", fan_point)
unfolding perform_all perform init store_all store_point resolve lookup reconnect close insert
    point_of fill_from_address parse_address_fields sprint int_text decimal_text
finds_fan = refl

finds_pump : resolve building "pump" ≡ some ("pump", pump_point)
unfolding perform_all perform init store_all store_point resolve lookup reconnect close insert
    point_of fill_from_address parse_address_fields sprint int_text decimal_text
finds_pump = refl

takes_it : (write "7" (float64 9) building).0 ≡ ok tt
unfolding write check_type perform_all perform init store_all store_point resolve lookup reconnect
    close insert point_of fill_from_address parse_address_fields sprint int_text decimal_text
takes_it = refl

has_no_transform : fan_point.transform ≡ ""
unfolding point_of fill_from_address lookup parse_address_fields sprint
has_no_transform = refl

read_batch-write_example :
    (read_batch equality 60 ("7" ∷ []) (write "7" (float64 9) building).1
      ≡ ok (record { point_id = "fan"; value = float64 9; quality = "good"; timestamp = 60 } ∷ []))
    × (read_batch equality 60 ("pump" ∷ []) (write "7" (float64 9) building).1
        ≡ read_batch equality 60 ("pump" ∷ []) building)
read_batch-write_example =
    read_batch-write plain counting equality 60 configured "7" "pump" "fan" "pump" fan_point
      pump_point (float64 9) finds_fan finds_pump takes_it has_no_transform (λ e. cc) refl

abbrev chiller : DeviceInfo
chiller = record { device_id = 42; vendor_id = 260; model_name = "Unknown"; ip = "10.0.0.8" }

parse_iam-frame_example :
    (heard (frame 0x81 0 24 1 42 260 (9 ∷ [])) "10.0.0.8" ≡ some chiller)
    × (parse_i_am (frame 0x81 0 24 1 42 260 (9 ∷ [])) "10.0.0.8" ≡ ok chiller)
parse_iam-frame_example =
    parse_iam-frame 0x81 0 24 1 42 260 (9 ∷ []) "10.0.0.8" (omega arith) (omega arith)

-- The same device again, with another address.
abbrev announced : List Heard
announced = by_listener chiller ∷ by_main (record chiller { ip = "10.0.0.9" }) ∷ []

register_all-first_device_example :
    let r = register_all announced no_devices in
    (lookup "bacnet_42" r.devices ≡ first_device "bacnet_42" announced)
    × (polled r.tasks ≡ keys r.devices)
register_all-first_device_example = register_all-first_device announced "bacnet_42"

abbrev polls : List (Option Error)
polls = some eof ∷ some eof ∷ none ∷ some eof ∷ []

start_polling-three_in_a_row_example :
    (start_polling polls (new_device chiller)).online ≡ not (three_in_a_row polls)
start_polling-three_in_a_row_example = start_polling-three_in_a_row polls chiller

read_with_retry-close_example :
    let closed = bacnet_protocol equality 60 in
    let first = read_with_retry closed "ahu" "" ("7" ∷ "x" ∷ []) 3 (close building).1 in
    (first.0 ≡ err not_connected)
    × ((read_with_retry closed "ahu" "" ("7" ∷ "x" ∷ []) 3 first.1).0
        ≡ ok (map (λ key. value_at equality 60 key (resolve building key)) ("7" ∷ "x" ∷ [])))
read_with_retry-close_example =
    read_with_retry-close equality 60 "ahu" "" ("7" ∷ "x" ∷ []) building 2 2
