-- ===== src/Modbus/Session/Methods.antt =====
-- The batch reads, Read and the writes keep m.handler and m.client together.
use text.Mathlib.Text.{◌==◌ as str_eq}
use sensor_edge.Go.{Outcome, Error, failing, ok, err, panic}
use sensor_edge.Go.Exec.{gets, pure}
use sensor_edge.Go.Exec.Keeps.{Keeps, Keeps-lift, Keeps-bind}
use sensor_edge.Modbus.Address.{parse_address}
use sensor_edge.Modbus.Batch.{
  plain, read_group, read_groups, read_points, read_batch, read_batch_with_format,
  read_input_registers_batch, read_coils_batch, read_discrete_inputs_batch, batch,
}
use sensor_edge.Modbus.Bits.{unpack_registers}
use sensor_edge.Modbus.Library.{Handler, Library, holding_registers}
use sensor_edge.Modbus.Points.{
  AddrPoint, Group, Scheme, collect_points, sort_points, u16, values_of,
}
use sensor_edge.Modbus.Session.{Session, M}
use sensor_edge.Modbus.Session.Pairing.{IsPaired, client_read-IsPaired}
use sensor_edge.Modbus.Write.{
  client_write, write, write_value, write_single_coil, write_single_register, write_multiple_coils,
  write_multiple_registers, read, numbered,
}
use sensor_edge.Prelude.{
  if◌then◌else◌, ◌/◌, zero, suc, true, false, some, map, length, arith, Bool, [], ◌∷◌, ℕ, List,
  String, Option,
}
use sensor_edge.Value.{PointConfig, Value}

module _ {W : Type 0} (lib : Library W) where
  read_group-IsPaired :
      (k : Scheme) (p : AddrPoint) (g : Group) → Keeps (IsPaired lib) (read_group lib k p g)
  unfolding read_group
  read_group-IsPaired k p g =
      Keeps-bind _ _ (client_read-IsPaired lib k.table p.addr (u16 g.max_addr 1 p.addr)) λ r.
        Keeps-bind _ _ (Keeps-lift (failing k.failure r)) λ bytes.
          Keeps-bind (gets (λ s. lib.unix s.world)) _ (record { after = λ s i. i })
            λ now. Keeps-lift (values_of k.value_of bytes p.addr now (p ∷ g.members))

  read_groups-IsPaired :
      (k : Scheme) (fuel : ℕ) (aps : List AddrPoint)
      → Keeps (IsPaired lib) (read_groups lib k fuel aps)
  unfolding read_groups
  read_groups-IsPaired k fuel [] = record { after = λ s i. i }
  read_groups-IsPaired k zero (p ∷ ps) = record { after = λ s i. i }
  read_groups-IsPaired k (suc fuel) (p ∷ ps) =
      Keeps-bind _ _ (read_group-IsPaired k p (k.extend p.addr (k.first_max p) ps)) λ vs.
        Keeps-bind _ _ (read_groups-IsPaired k fuel (k.extend p.addr (k.first_max p) ps).rest)
          λ more. record { after = λ s i. i }

  batch-IsPaired :
      (k : Scheme) (points : List PointConfig) → Keeps (IsPaired lib) (batch lib k points)
  unfolding read_points
  batch-IsPaired k [] = record { after = λ s i. i }
  batch-IsPaired k (p ∷ ps) =
      Keeps-bind _ _ (Keeps-lift (collect_points (p ∷ ps)))
        λ aps. read_groups-IsPaired k (length aps) (sort_points aps)

  pub read_batch_with_format-IsPaired :
      (points : List PointConfig) → Keeps (IsPaired lib) (read_batch_with_format lib points)
  unfolding read_batch_with_format
  read_batch_with_format-IsPaired points = batch-IsPaired _ points

  one_of-IsPaired :
      {A : Type 0} (b : Bool) (x y : M lib A)
      → Keeps (IsPaired lib) x
      → Keeps (IsPaired lib) y
      → Keeps (IsPaired lib) (if b then x else y)
  one_of-IsPaired true x y h k = h
  one_of-IsPaired false x y h k = k

  read_input_registers_batch-IsPaired :
      (points : List PointConfig) → Keeps (IsPaired lib) (read_input_registers_batch lib points)
  unfolding read_input_registers_batch
  read_input_registers_batch-IsPaired points = batch-IsPaired _ points

  read_coils_batch-IsPaired :
      (points : List PointConfig) → Keeps (IsPaired lib) (read_coils_batch lib points)
  unfolding read_coils_batch
  read_coils_batch-IsPaired points = batch-IsPaired _ points

  read_discrete_inputs_batch-IsPaired :
      (points : List PointConfig) → Keeps (IsPaired lib) (read_discrete_inputs_batch lib points)
  unfolding read_discrete_inputs_batch
  read_discrete_inputs_batch-IsPaired points = batch-IsPaired _ points

  pub read_batch-IsPaired :
      (function : String) (points : List String)
      → Keeps (IsPaired lib) (read_batch lib function points)
  unfolding read_batch
  read_batch-IsPaired function points =
      let configs = map (plain lib) points in
      let code = if str_eq function "" then "03" else function in
      let holding = read_batch_with_format-IsPaired configs in
      one_of-IsPaired (str_eq code "03") _ _ holding (
        one_of-IsPaired (str_eq code "04") _ _ (read_input_registers_batch-IsPaired configs) (
          one_of-IsPaired (str_eq code "01") _ _ (read_coils_batch-IsPaired configs) (
            one_of-IsPaired (str_eq code "02") _ _ (read_discrete_inputs_batch-IsPaired configs)
              holding)))

  client_write-IsPaired :
      (f : Handler → W → Option Error × W) → Keeps (IsPaired lib) (client_write lib f)
  unfolding client_write
  client_write-IsPaired f = record { after = λ s p. ground arith }

  pub write_single_coil-IsPaired :
      (a : ℕ) (v : Bool) → Keeps (IsPaired lib) (write_single_coil lib a v)
  unfolding write_single_coil
  write_single_coil-IsPaired a v = client_write-IsPaired _

  pub write_single_register-IsPaired :
      (a v : ℕ) → Keeps (IsPaired lib) (write_single_register lib a v)
  unfolding write_single_register
  write_single_register-IsPaired a v = client_write-IsPaired _

  pub write_multiple_coils-IsPaired :
      (a : ℕ) (vs : List Bool) → Keeps (IsPaired lib) (write_multiple_coils lib a vs)
  unfolding write_multiple_coils
  write_multiple_coils-IsPaired a vs = client_write-IsPaired _

  pub write_multiple_registers-IsPaired :
      (a : ℕ) (vs : List ℕ) → Keeps (IsPaired lib) (write_multiple_registers lib a vs)
  unfolding write_multiple_registers
  write_multiple_registers-IsPaired a vs = client_write-IsPaired _

  pub write-IsPaired : (point : String) (v : Value) → Keeps (IsPaired lib) (write lib point v)
  unfolding write client_write
  write-IsPaired point v = record { after = λ s p. by_address (parse_address point) s p }
    where
      by_address :
          (r : Outcome ℕ) (s : Session W)
          → IsPaired lib s
          → IsPaired lib
              (elim r as (λ _. Outcome (Option Error) × Session W) [
                | ok addr ↦ write_value lib addr v s
                | err e ↦ (ok (some e), s)
                | panic ↦ (panic, s)
              ]).1
      by_address (ok addr) s p = ground arith
      by_address (err e) s p = p
      by_address panic s p = p

  pub read-IsPaired : Keeps (IsPaired lib) (read lib)
  unfolding read
  read-IsPaired = Keeps-bind _ _ (client_read-IsPaired lib holding_registers 0 10) λ r.
      Keeps-bind _ _ (Keeps-lift r) λ regs.
        Keeps-bind _ _ (Keeps-lift (unpack_registers regs 0 (length regs / 2))) λ vals.
          Keeps-bind (gets (λ s. lib.unix s.world)) (λ now. pure (numbered lib now 0 vals))
            (record { after = λ s i. i }) λ now. record { after = λ s i. i }
