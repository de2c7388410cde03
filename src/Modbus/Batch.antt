-- ===== src/Modbus/Batch.antt =====
-- The batch reads of protocols/modbus/modbus_tcp.go: the points are sorted by address and read in
-- groups of neighbours, each in one request.
pub mod Groups
pub mod Sort
pub mod Memory
pub mod Registers
pub mod RegisterValues
pub mod RegisterBatch
pub mod Runs
pub mod Coils
pub mod Disconnected
pub mod Words
pub mod Codes
pub mod Outage
use text.Mathlib.Text.{◌==◌ as str_eq}
use sensor_edge.Value.{PointValue, PointConfig}
use sensor_edge.Go.{failing, panic, wrap, err, ok, Outcome}
use sensor_edge.Modbus.Points.{
  sort_points, values_of, max_inputs, max_coils, u16, collect_points, register_scheme, Group,
  bit_scheme, AddrPoint, Scheme,
}
use sensor_edge.Prelude.{zero, ◌++◌, suc, if◌then◌else◌, [], length, map, ◌∷◌, ℕ, List, String}
use sensor_edge.Modbus.Library.{input_registers, discrete_inputs, coils, holding_registers, Library}
use sensor_edge.Go.Exec.{pure, crash, lift, gets, continue, ◌>>=◌, ◌>>◌}
use sensor_edge.Modbus.Session.{Session, M, client_read}

module _ {W : Type 0} (lib : Library W) where
  -- One round of the outer loop: the group that begins with p, read in one request.
  unfoldable pub read_group : Scheme → AddrPoint → Group → M lib (List PointValue)
  read_group k p g = do
    r ← client_read lib k.table p.addr (u16 g.max_addr 1 p.addr)
    bytes ← lift (failing k.failure r)
    now ← gets (λ s. lib.unix s.world)
    lift (values_of k.value_of bytes p.addr now (p ∷ g.members))

  -- The outer loop over i. Each round takes a point at least, so that as much fuel as there are
  -- points is enough.
  unfoldable pub read_groups : Scheme → ℕ → List AddrPoint → M lib (List PointValue)
  read_groups k fuel [] = pure []
  read_groups k zero (p ∷ ps) = crash
  read_groups k (suc fuel) (p ∷ ps) = do
    vs ← read_group k p (k.extend p.addr (k.first_max p) ps)
    more ← read_groups k fuel (k.extend p.addr (k.first_max p) ps).rest
    pure (vs ++ more)

  unfoldable pub read_points : Scheme → List PointConfig → M lib (List PointValue)
  read_points k points = do
    aps ← lift (collect_points points)
    read_groups k (length aps) (sort_points aps)

  abbrev pub batch : Scheme → List PointConfig → M lib (List PointValue)
  batch k [] = pure []
  batch k (p ∷ ps) = read_points k (p ∷ ps)

  unfoldable pub read_batch_with_format : List PointConfig → M lib (List PointValue)
  read_batch_with_format = batch (register_scheme holding_registers "modbus batch read failed")

  unfoldable pub read_input_registers_batch : List PointConfig → M lib (List PointValue)
  read_input_registers_batch =
      batch (register_scheme input_registers "modbus input batch read failed")

  unfoldable pub read_coils_batch : List PointConfig → M lib (List PointValue)
  read_coils_batch = batch (bit_scheme coils max_coils "modbus coils batch read failed")

  unfoldable pub read_discrete_inputs_batch : List PointConfig → M lib (List PointValue)
  read_discrete_inputs_batch =
      batch (bit_scheme discrete_inputs max_inputs "modbus discrete inputs batch read failed")

  abbrev pub plain : String → PointConfig
  plain pt = record {
    point_id = pt;
    address = pt;
    kind = "";
    unit = "";
    transform = "";
    format = "";
  }

  -- ReadBatch: by function code, 03 if it is empty or unknown, and with no format.
  unfoldable pub read_batch : String → List String → M lib (List PointValue)
  read_batch function points =
      let configs = map plain points in
      let code = if str_eq function "" then "03" else function in
      if str_eq code "03"
      then read_batch_with_format configs
      else if str_eq code "04"
      then read_input_registers_batch configs
      else if str_eq code "01"
      then read_coils_batch configs
      else if str_eq code "02"
      then read_discrete_inputs_batch configs
      else read_batch_with_format configs
