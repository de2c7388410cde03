-- ===== src/Modbus/Library.antt =====
-- github.com/goburrow/modbus and the network behind it: what the driver calls. The world `W` is the
-- state of the connections and of the devices; the clock is read from it.
use sensor_edge.Prelude.{ℕ, ℤ, String, List, Option}
use sensor_edge.Go.{Error, Outcome}

-- The four tables of a Modbus device, each with its function code for reading.
pub data Table : Type 0 where
  coils discrete_inputs holding_registers input_registers : Table

-- modbus.TCPClientHandler: the address that it dials, and the slave that its requests name.
pub record Handler : Type 0 where
  pub ip : String
  pub port : ℤ
  pub slave_id : ℕ

pub record Library (W : Type 0) : Type 0 where
  pub connect : Handler → W → Option Error × W
  pub close : Handler → W → Option Error × W
  -- ReadCoils, ReadDiscreteInputs, ReadHoldingRegisters, ReadInputRegisters: address, quantity
  pub read : Table → Handler → ℕ → ℕ → W → Outcome (List ℕ) × W
  pub write_single_coil : Handler → ℕ → ℕ → W → Option Error × W
  pub write_single_register : Handler → ℕ → ℕ → W → Option Error × W
  pub write_multiple_coils : Handler → ℕ → ℕ → List ℕ → W → Option Error × W
  pub write_multiple_registers : Handler → ℕ → ℕ → List ℕ → W → Option Error × W
  pub unix : W → ℕ  -- time.Now().Unix()
