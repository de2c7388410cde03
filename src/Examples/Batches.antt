-- ===== src/Examples/Batches.antt =====
-- Batch reads of a small device.
use sensor_edge.Modbus.Batch.Outage.{read_with_retry-panics, modbus_protocol}
use sensor_edge.Poll.Retry.{once, read_with_retry}
use sensor_edge.Modbus.Batch.RegisterValues.{expected}
use sensor_edge.Modbus.Batch.Memory.{Through, untimed}
use sensor_edge.Go.{eof, wrap, err, net_error, ok, panic}
use sensor_edge.Modbus.Batch.{
  read_group, read_groups, read_points, read_batch, plain, read_discrete_inputs_batch,
  read_input_registers_batch, read_coils_batch, read_batch_with_format,
}
use sensor_edge.Examples.Device.{
  memory-input_registers, memory-discrete_inputs, memory-holding_registers, memory-coils, plant,
  cell, cell_in, flag, flag_in, memory, online, down,
}
use sensor_edge.Modbus.Address.{sscanf_d, parse_address}
use sensor_edge.Value.{PointConfig, PointValue}
use sensor_edge.Modbus.Points.{place, sort_points, AddrPoint, collect_points, reg_count}
use sensor_edge.Modbus.Session.{client_read, Session, force_reconnect}
use sensor_edge.Prelude.{arith, false, refl, some, map, ℕ, ◌≡◌, String, List, [], ◌∷◌}
use sensor_edge.Modbus.Batch.RegisterBatch.{register_batches-expected}
use sensor_edge.Modbus.Batch.Coils.{bit_batches-expected}
use sensor_edge.Modbus.Batch.Coils

abbrev point : String → String → String → PointConfig
point id address format = record {
  point_id = id;
  address = address;
  kind = "";
  unit = "";
  transform = "";
  format = format;
}

-- Out of order: two neighbours, of one and two registers, and a point far off.
abbrev temperatures : List PointConfig
temperatures =
    point "t2" "40012" "Float AB CD" ∷ point "t1" "40011" "INT" ∷ point "t3" "40900" "UINT" ∷ []

abbrev temperatures_at : List AddrPoint
temperatures_at =
    record { addr = 11; name = "t2"; format = "Float AB CD" }
    ∷ record { addr = 10; name = "t1"; format = "INT" }
    ∷ record { addr = 899; name = "t3"; format = "UINT" }
    ∷ []

collect_temperatures : collect_points temperatures ≡ ok temperatures_at
unfolding collect_points parse_address sscanf_d
collect_temperatures = refl

register_batches-expected_example :
    ((vs : List PointValue) × (t : Session ℕ) × (read_batch_with_format memory temperatures online
        ≡ (ok vs, t))
      × (map untimed vs ≡ map (expected cell) (sort_points temperatures_at))
      × Through plant t)
    × ((vs : List PointValue) × (t : Session ℕ) × (read_input_registers_batch memory temperatures
            online
          ≡ (ok vs, t))
        × (map untimed vs ≡ map (expected cell_in) (sort_points temperatures_at))
        × Through plant t)
unfolding reg_count
register_batches-expected_example =
    register_batches-expected memory plant cell cell_in temperatures temperatures_at online
      collect_temperatures (omega arith, (omega arith, (omega arith, tt))) (refl, refl)
      memory-holding_registers memory-input_registers

bit_batches-expected_example :
    ((vs : List PointValue) × (t : Session ℕ) × (read_coils_batch memory temperatures online
        ≡ (ok vs, t))
      × (map untimed vs ≡ map (Coils.expected flag) (sort_points temperatures_at))
      × Through plant t)
    × ((vs : List PointValue) × (t : Session ℕ) × (read_discrete_inputs_batch memory temperatures
            online
          ≡ (ok vs, t))
        × (map untimed vs ≡ map (Coils.expected flag_in) (sort_points temperatures_at))
        × Through plant t)
bit_batches-expected_example =
    bit_batches-expected memory plant flag flag_in temperatures temperatures_at online
      collect_temperatures (refl, refl) memory-coils memory-discrete_inputs

abbrev addresses : List String
addresses = "40012" ∷ "40011" ∷ []

abbrev addresses_at : List AddrPoint
addresses_at =
    record { addr = 11; name = "40012"; format = "" }
    ∷ record { addr = 10; name = "40011"; format = "" }
    ∷ []

-- The driver after its first request was answered by the end of the connection.
abbrev broken : Session ℕ
broken = (read_batch down "03" addresses online).1

first_fails :
    read_batch down "03" addresses online ≡ (err (wrap "modbus batch read failed" eof), broken)
unfolding read_batch read_batch_with_format read_points collect_points parse_address sscanf_d
    read_groups sort_points place read_group client_read
first_fails = refl

no_route : (force_reconnect down broken).0 ≡ ok (some (net_error false "no route to host"))
unfolding force_reconnect
no_route = refl

collect_downs : collect_points (map (plain down) addresses) ≡ ok addresses_at
unfolding collect_points parse_address sscanf_d
collect_downs = refl

read_with_retry-panics_example :
    let first = read_with_retry (modbus_protocol down) "meter" "03" addresses 1 online in
    (first.0 ≡ err (wrap "modbus batch read failed" eof))
    × ((read_with_retry (modbus_protocol down) "meter" "01" addresses 3 first.1).0 ≡ panic)
read_with_retry-panics_example =
    read_with_retry-panics down "meter" "03" "01" "40012" addresses ("40011" ∷ []) addresses_at 1 2
      online broken (wrap "modbus batch read failed" eof) (net_error false "no route to host")
      (once first_fails) no_route collect_downs
