-- ===== src/Modbus/Batch/RegisterBatch.antt =====
-- A batch of register points returns for each point what its own registers hold.
use sensor_edge.Go.{ok}
use sensor_edge.Modbus.Session.{Session}
use sensor_edge.Modbus.Batch.{
  read_input_registers_batch, read_batch_with_format, batch, read_points,
}
use sensor_edge.Value.{PointValue, PointConfig}
use sensor_edge.Modbus.Batch.RegisterValues.{untimed-timed, values_of-timed, timed, Holds, expected}
use sensor_edge.Modbus.Batch.Groups.{read_groups_answered, Answered}
use sensor_edge.Modbus.Batch.Registers.{
  Covers, extend_registers_split, extend_registers-GroupBounds, GroupBounds, reg_count_bounds,
  need_of,
}
use sensor_edge.Modbus.Batch.Sort.{sort_points-Fits, length-sort_points, All, Fits}
use sensor_edge.Modbus.Batch.Memory.{untimed, Through, ServesRegisters}
use sensor_edge.Modbus.Points.{
  sort_points, collect_points, reg_count, u16, extend_registers, register_scheme, AddrPoint, Group,
}
use sensor_edge.Prelude.{
  ◌∙◌, ap, refl, length, ◌^◌, map, ◌-◌, [], arith, ◌≤◌, ◌∷◌, ◌≡◌, ◌+◌, List, String, ℕ,
}
use sensor_edge.Modbus.Library.{input_registers, holding_registers, Handler, Table, Library}

All-covers :
    (start q : ℕ) (g : Group) (ps : List AddrPoint)
    → g.max_addr + 1 ≡ start + q
    → All (λ p. (start ≤ p.addr) × (p.addr + need_of p ≤ g.max_addr + 1)) ps
    → All (λ p. (start ≤ p.addr) × (p.addr + need_of p ≤ start + q)) ps
All-covers start q g [] e a = tt
All-covers start q g (p ∷ ps) e a = ((a.0.0, omega arith), All-covers start q g ps e a.1)

module _ {W : Type 0} (lib : Library W) (table : Table) (failure : String) (h : Handler)
    (mem : ℕ → ℕ) where
  answered_group :
      ServesRegisters lib table h mem
      → (p : AddrPoint) (g : Group) (q : ℕ) → g.max_addr + 1 ≡ p.addr + q
      → 1 ≤ q
      → q ≤ 125
      → p.addr + q ≤ 2 ^ 16
      → p.addr + need_of p ≤ g.max_addr + 1
      → Covers p.addr g g.members
      → u16 g.max_addr 1 p.addr ≡ q
      → Answered lib (register_scheme table failure) h (expected mem) p g
  answered_group serves p g q e lo hi small first covers quantity w =
      let (bs, w', r, size, each) = serves p.addr q w lo hi in
      let holds : Holds mem p.addr q bs = record { size = size; each = each } in
      let all : All (λ x. (p.addr ≤ x.addr) × (x.addr + need_of x ≤ p.addr + q)) (p ∷ g.members) =
        ((omega arith, omega arith), All-covers p.addr q g g.members e covers) in
      (
        bs,
        w',
        ap (λ n. lib.read table h p.addr n w) quantity ∙ r,
        λ now. (
          map (timed mem now) (p ∷ g.members),
          values_of-timed mem p.addr q now bs (p ∷ g.members) holds small all,
          untimed-timed mem now (p ∷ g.members),
        ),
      )

  answered_bounds :
      ServesRegisters lib table h mem
      → (p : AddrPoint) (m : ℕ) (g : Group) → GroupBounds p.addr m g
      → m + 1 ≡ p.addr + need_of p
      → Answered lib (register_scheme table failure) h (expected mem) p g
  answered_bounds serves p m g b last =
      answered_group serves p g (g.max_addr + 1 - p.addr)
        (omega (arith, b.grows, reg_count_bounds p.format))
        (omega (arith, b.grows, reg_count_bounds p.format)) (omega (arith, b.below))
        (omega (arith, b.grows, b.fits)) (omega (arith, b.grows)) b.covers
        (omega (arith, b.grows, b.fits, reg_count_bounds p.format))

  first_max :
      (p : AddrPoint)
      → p.addr + need_of p ≤ 2 ^ 16
      → u16 p.addr (reg_count p.format) 1 + 1 ≡ p.addr + need_of p
  first_max p f = omega (arith, reg_count_bounds p.format)

  answered :
      ServesRegisters lib table h mem
      → (p : AddrPoint) (ps : List AddrPoint) → Fits need_of (p ∷ ps)
      → Answered lib
          (register_scheme table failure)
          h
          (expected mem)
          p
          (extend_registers p.addr (u16 p.addr (reg_count p.format) 1) ps)
  answered serves p ps f =
      let last = first_max p f.0 in
      answered_bounds serves p (u16 p.addr (reg_count p.format) 1)
        (extend_registers p.addr (u16 p.addr (reg_count p.format) 1) ps)
        (extend_registers-GroupBounds p.addr (u16 p.addr (reg_count p.format) 1) ps
          (omega (arith, last, reg_count_bounds p.format))
          (omega (arith, last, reg_count_bounds p.format)) (omega (arith, last)) f.1 f.2)
        last

  read_points_lem :
      ServesRegisters lib table h mem
      → (points : List PointConfig) (aps : List AddrPoint) (s : Session W)
      → collect_points points ≡ ok aps
      → All (λ p. p.addr + need_of p ≤ 2 ^ 16) aps
      → Through h s
      → (vs : List PointValue) × (t : Session W) × (read_points lib
            (register_scheme table failure)
            points
            s
          ≡ (ok vs, t))
        × (map untimed vs ≡ map (expected mem) (sort_points aps))
        × Through h t
  unfolding read_points
  read_points_lem serves points aps s e a c =
      let (vs, t, r, m, c') =
        read_groups_answered lib (register_scheme table failure) h (expected mem) need_of
          extend_registers_split (answered serves) (length aps) (sort_points aps) s
          (omega (arith, length-sort_points aps)) (sort_points-Fits need_of aps a) c in
      (vs, t, rw (e, r) refl, m, c')

  batch_lem :
      ServesRegisters lib table h mem
      → (points : List PointConfig) (aps : List AddrPoint) (s : Session W)
      → collect_points points ≡ ok aps
      → All (λ p. p.addr + need_of p ≤ 2 ^ 16) aps
      → Through h s
      → (vs : List PointValue) × (t : Session W) × (batch lib
            (register_scheme table failure)
            points
            s
          ≡ (ok vs, t))
        × (map untimed vs ≡ map (expected mem) (sort_points aps))
        × Through h t
  unfolding collect_points sort_points
  batch_lem serves [] [] s e a c = ([], s, refl, refl, c)
  batch_lem serves [] (p ∷ ps) s e a c = cc
  batch_lem serves (p ∷ ps) aps s e a c = read_points_lem serves (p ∷ ps) aps s e a c

-- On a connected driver whose library answers from the holding registers `mem` and from the input
-- registers `mem_in`, a batch of points whose addresses parse and whose registers lie below 65536
-- succeeds, for function 03 out of the holding registers and for function 04 out of the input
-- registers: in the order of the addresses it returns each point once, with quality good and with the
-- registers from the point's own address on, one as a word, two or four as words, as if each point
-- had been read alone. The driver stays connected.
pub register_batches-expected :
    {W : Type 0} (lib : Library W) (h : Handler) (mem mem_in : ℕ → ℕ) (points : List PointConfig)
    (aps : List AddrPoint) (s : Session W)
    → collect_points points ≡ ok aps
    → All (λ p. p.addr + need_of p ≤ 2 ^ 16) aps
    → Through h s
    → ServesRegisters lib holding_registers h mem
    → ServesRegisters lib input_registers h mem_in
    → ((vs : List PointValue) × (t : Session W) × (read_batch_with_format lib points s ≡ (ok vs, t))
        × (map untimed vs ≡ map (expected mem) (sort_points aps))
        × Through h t)
      × ((vs : List PointValue) × (t : Session W) × (read_input_registers_batch lib points s
            ≡ (ok vs, t))
          × (map untimed vs ≡ map (expected mem_in) (sort_points aps))
          × Through h t)
unfolding read_batch_with_format read_input_registers_batch
register_batches-expected lib h mem mem_in points aps s e a c holding input = (
  batch_lem lib holding_registers _ h mem holding points aps s e a c,
  batch_lem lib input_registers _ h mem_in input points aps s e a c,
)
