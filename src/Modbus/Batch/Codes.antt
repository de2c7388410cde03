-- ===== src/Modbus/Batch/Codes.antt =====
-- ReadBatch with any function code.
use text.Mathlib.Text.{◌==◌ as str_eq}
use text.Mathlib.TextEquality.{eq_iff}
use sensor_edge.Modbus.Batch.{plain, read_batch}
use sensor_edge.Modbus.Batch.Memory.{Through, ServesRegisters, ServesBits, untimed}
use sensor_edge.Modbus.Batch.Words.{read_batch-word}
use sensor_edge.Modbus.Batch.Coils.{bit_batches-expected}
use sensor_edge.Modbus.Session.{Session}
use sensor_edge.Modbus.Library.{
  Library, Handler, holding_registers, input_registers, coils, discrete_inputs,
}
use sensor_edge.Modbus.Points.{collect_points, AddrPoint, sort_points}
use sensor_edge.Go.{ok}
use sensor_edge.Value.{uint16, bool, PointValue, Value}
use sensor_edge.Prelude.{
  map, true, false, Bool, Bool-cases, inl, inr, refl, sym, String, ◌≡◌, ℕ, List,
}
use mathlib.Core.Path.{subst}

-- A device's four tables.
pub record Memory : Type 0 where
  pub coil_at : ℕ → Bool
  pub discrete_at : ℕ → Bool
  pub holding_at : ℕ → ℕ
  pub input_at : ℕ → ℕ

-- By whether the function code is 01, 02 or 04.
abbrev cell : Memory → Bool → Bool → Bool → ℕ → Value
cell mem true is2 is4 a = bool (mem.coil_at a)
cell mem false true is4 a = bool (mem.discrete_at a)
cell mem false false true a = uint16 (mem.input_at a)
cell mem false false false a = uint16 (mem.holding_at a)

-- What a device holds for a function code: a coil for 01, a discrete input for 02, an input register
-- for 04, and a holding register for any other.
abbrev pub held : Memory → String → ℕ → Value
held mem function = cell mem (str_eq function "01") (str_eq function "02") (str_eq function "04")

-- A point's own value.
abbrev pub own_value : (ℕ → Value) → AddrPoint → String × Value × String
own_value value a = (a.name, value a.addr, "good")

module _ {W : Type 0} (lib : Library W) (h : Handler) (mem : Memory) where
  -- Through h, each table is answered from its own part of the memory.
  abbrev pub ServesMemory : Type 0
  ServesMemory =
      ServesRegisters lib holding_registers h mem.holding_at
      × ServesRegisters lib input_registers h mem.input_at
      × ServesBits lib coils h mem.coil_at
      × ServesBits lib discrete_inputs h mem.discrete_at

  module _ (points : List String) (aps : List AddrPoint) (s : Session W) where
    -- The values are read for this function code, and the driver stays connected.
    abbrev pub IsFetched : String → Type 0
    IsFetched function =
        (vs : List PointValue) × (t : Session W) × (read_batch lib function points s ≡ (ok vs, t))
        × (map untimed vs ≡ map (own_value (held mem function)) (sort_points aps))
        × Through h t

    -- Any other function code reads holding registers.
    other_code :
        (function : String)
        → str_eq function "" ≡ false
        → str_eq function "03" ≡ false
        → str_eq function "04" ≡ false
        → str_eq function "01" ≡ false
        → str_eq function "02" ≡ false
        → IsFetched "03"
        → IsFetched function
    unfolding read_batch
    other_code function e0 e3 e4 e1 e2 (vs, t, e, v, k) =
        let others : cell mem (str_eq function "01") (str_eq function "02") (str_eq function "04")
            ≡ cell mem false false false =
          rw e1 (rw e2 (rw e4 refl)) in
        (
          vs,
          t,
          rw e0 (rw e3 (rw e4 (rw e1 (rw e2 e)))),
          subst (λ value. map untimed vs ≡ map (own_value value) (sort_points aps)) (sym others) v,
          k,
        )

    empty_code : IsFetched "03" → IsFetched ""
    unfolding read_batch
    empty_code f = f

    pub read_batch-IsFetched :
        (function : String)
        → collect_points (map (plain lib) points) ≡ ok aps
        → Through h s
        → ServesMemory
        → IsFetched function
    unfolding read_batch
    read_batch-IsFetched function e c (holding, input, bits, inputs) =
        let (r3, r4) =
          read_batch-word lib h mem.holding_at mem.input_at points aps s e c holding input in
        let (r1, r2) =
          bit_batches-expected lib h mem.coil_at mem.discrete_at (map (plain lib) points) aps s e c
            bits inputs in
        let at : (code : String)
            → str_eq function code ≡ true
            → IsFetched code
            → IsFetched function =
          λ code is f. subst IsFetched (sym ((eq_iff function code).0 is)) f in
        elim (Bool-cases (str_eq function "")) [
          | inl is ↦ at "" is (empty_code r3)
          | inr e0 ↦ elim (Bool-cases (str_eq function "03")) [
            | inl is ↦ at "03" is r3
            | inr e3 ↦ elim (Bool-cases (str_eq function "04")) [
              | inl is ↦ at "04" is r4
              | inr e4 ↦ elim (Bool-cases (str_eq function "01")) [
                | inl is ↦ at "01" is r1
                | inr e1 ↦ elim (Bool-cases (str_eq function "02")) [
                  | inl is ↦ at "02" is r2
                  | inr e2 ↦ other_code function e0 e3 e4 e1 e2 r3
                ]
              ]
            ]
          ]
        ]
