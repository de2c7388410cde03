-- ===== src/Examples/Connections.antt =====
-- Reads, reconnects and writes over devices that answer, restart, echo and are unreachable.
use sensor_edge.Modbus.Library.{holding_registers}
use sensor_edge.Prelude.Int.{minus, to_unsigned}
use sensor_edge.Examples.Device.{device, online, plant, restarting, down, memory, echo}
use sensor_edge.Modbus.Write.{write_multiple_coils, write_multiple_registers}
use sensor_edge.Go.{panic, eof, ok}
use sensor_edge.Modbus.Bits.{pack_bits, pack_registers}
use sensor_edge.Modbus.Session.{
  new_modbus_tcp, read_coils, read_holding_registers, set_slave, Session, is_conn_error,
  read_retrying, force_reconnect,
}
use sensor_edge.Prelude.{◌≢◌, pos, ◌^◌, false, some, none, refl, true, arith, ℕ, List, ◌≡◌, [], ◌∷◌}
use sensor_edge.Modbus.Session.Safety.{
  choose_slave, reconnect, read_many, perform_all, Returns, reads_never_crash,
}
use sensor_edge.Modbus.Session.Retry.{
  second_read, read_retrying-second_read, force_reconnect-set_slave,
}
use sensor_edge.Modbus.Write.Effects.{write_then_read}
use sensor_edge.Modbus.Address.{parse_address, parse_address-decimal}

down_returns : Returns down
down_returns t h a q w = λ e. cc

reads_never_crash_example :
    (read_retrying down holding_registers 0 4 (
      perform_all down
        (reconnect ∷ read_many "03" ("40011" ∷ []) ∷ choose_slave 9 ∷ reconnect ∷ [])
        (record { m = new_modbus_tcp; world = 0 }))).0
    ≢ panic
reads_never_crash_example =
    reads_never_crash down
      (reconnect ∷ read_many "03" ("40011" ∷ []) ∷ choose_slave 9 ∷ reconnect ∷ []) 0
      holding_registers 0 4 down_returns

eof_is_lost : is_conn_error eof ≡ true
unfolding is_conn_error
eof_is_lost = refl

read_retrying-second_read_example :
    read_retrying restarting holding_registers 4 2 online
    ≡ second_read restarting holding_registers 4 2 eof online (none, 1)
read_retrying-second_read_example =
    read_retrying-second_read restarting holding_registers 4 2 plant eof 1 online refl refl refl
      eof_is_lost

slave_forgotten : (force_reconnect memory (set_slave memory 9 online).1).1.m.handler ≡ some plant
unfolding force_reconnect set_slave
slave_forgotten = refl

reconnect_works : (force_reconnect memory (set_slave memory 9 online).1).0 ≡ ok none
unfolding force_reconnect set_slave
reconnect_works = refl

force_reconnect-set_slave_example : plant.slave_id ≡ online.m.slave_id
force_reconnect-set_slave_example =
    force_reconnect-set_slave memory 9 plant online reconnect_works slave_forgotten

abbrev echoing : Session (List ℕ)
echoing = record { m = device; world = [] }

write_then_read_example :
    let written = (write_multiple_registers echo 8 (700 ∷ 65535 ∷ []) echoing).1 in
    let switched = (write_multiple_coils echo 8 (true ∷ false ∷ true ∷ []) echoing).1 in
    ((write_multiple_registers echo 8 (700 ∷ 65535 ∷ []) echoing).0 ≡ ok none)
    × ((read_holding_registers echo 8 2 written).0 ≡ ok (700 ∷ 65535 ∷ []))
    × ((write_multiple_coils echo 8 (true ∷ false ∷ true ∷ []) echoing).0 ≡ ok none)
    × ((read_coils echo 8 3 switched).0 ≡ ok (true ∷ false ∷ true ∷ []))
write_then_read_example =
    write_then_read echo 8 (700 ∷ 65535 ∷ []) (true ∷ false ∷ true ∷ []) plant
      (pack_registers (700 ∷ 65535 ∷ [])) (pack_registers (700 ∷ 65535 ∷ []))
      (pack_bits (true ∷ false ∷ true ∷ [])) (pack_bits (true ∷ false ∷ true ∷ [])) echoing
      (refl, refl) (omega arith, (omega arith, tt)) (omega arith) (omega arith) refl refl refl refl

parse_address-decimal_example :
    parse_address "40012" ≡ ok (to_unsigned (2 ^ 16) (minus (pos 40012) 40001))
parse_address-decimal_example =
    parse_address-decimal "40012" 4 (0 ∷ 0 ∷ 1 ∷ 2 ∷ []) [] refl (omega arith)
      (omega arith, (omega arith, (omega arith, (omega arith, (omega arith, tt))))) refl
      (omega arith)
