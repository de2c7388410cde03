-- ===== src/Modbus/Batch/Registers.antt =====
-- A batch of register points returns for each point what its own registers hold.
use sensor_edge.Modbus.Batch.Sort.{Fits, All}
use sensor_edge.Prelude.{
  inl, ◌&&◌, inr, leb, Bool, Bool-cases, true, refl, ltb, [], if◌then◌else◌, ◌^◌, ◌∷◌, ◌<◌, ◌≡◌,
  arith, ◌+◌, ◌++◌, ◌≤◌, List, String, ℕ,
}
use sensor_edge.Modbus.Points.{max_regs, u16, Group, reg_count, AddrPoint, extend_registers}

abbrev pub need_of : AddrPoint → ℕ
need_of p = reg_count p.format

pub reg_count_bounds : (format : String) → (1 ≤ reg_count format) × (reg_count format ≤ 4)
unfolding reg_count
reg_count_bounds format = ground arith

pub extend_registers_split :
    (start max : ℕ) (ps : List AddrPoint)
    → (extend_registers start max ps).members ++ (extend_registers start max ps).rest ≡ ps
unfolding extend_registers
extend_registers_split start max [] = refl
extend_registers_split start max (p ∷ ps) = ground (
  arith,
  extend_registers_split start
      (if ltb max (u16 p.addr (reg_count p.format) 1)
        then u16 p.addr (reg_count p.format) 1
        else max)
      ps,
)

-- The registers of each member lie between the first address and the last one of the group.
abbrev pub Covers : ℕ → Group → List AddrPoint → Type 0
Covers start g = All (λ p. (start ≤ p.addr) × (p.addr + need_of p ≤ g.max_addr + 1))

pub record GroupBounds (start max : ℕ) (g : Group) : Type 0 where
  pub grows : max ≤ g.max_addr
  pub below : g.max_addr < start + 125
  pub fits : g.max_addr < 2 ^ 16
  pub covers : Covers start g g.members

abbrev taken : ℕ → ℕ → ℕ → ℕ → Bool
taken start max addr n = leb addr (u16 max 1 0) && ltb (u16 addr n start) max_regs

abbrev next_max : ℕ → ℕ → ℕ → ℕ
next_max max addr n = let last = u16 addr n 1 in if ltb max last then last else max

record Taken (start max addr n : ℕ) : Type 0 where
  grows : max ≤ next_max max addr n
  below : next_max max addr n < start + 125
  fits : next_max max addr n < 2 ^ 16
  covers : addr + n ≤ next_max max addr n + 1

taken-Taken :
    (start max addr n : ℕ)
    → 1 ≤ n
    → n ≤ 4
    → start ≤ max
    → max < start + 125
    → max < 2 ^ 16
    → start ≤ addr
    → addr + n ≤ 2 ^ 16
    → taken start max addr n ≡ true
    → Taken start max addr n
taken-Taken start max addr n h1 h2 a b c d e g = ground arith

pub extend_registers-GroupBounds :
    (start max : ℕ) (ps : List AddrPoint)
    → start ≤ max
    → max < start + 125
    → max < 2 ^ 16
    → All (λ q. start ≤ q.addr) ps
    → Fits need_of ps
    → GroupBounds start max (extend_registers start max ps)
unfolding extend_registers
extend_registers-GroupBounds start max [] a b c d f = record {
  grows = omega arith;
  below = b;
  fits = c;
  covers = tt;
}
extend_registers-GroupBounds start max (p ∷ ps) a b c d f =
    elim (Bool-cases (taken start max p.addr (reg_count p.format))) [
      | inr e ↦ rw e (record { grows = omega arith; below = b; fits = c; covers = tt })
      | inl e ↦
          let (n1, n4) = reg_count_bounds p.format in
          let t = taken-Taken start max p.addr (reg_count p.format) n1 n4 a b c d.0 f.0 e in
          let ih =
            extend_registers-GroupBounds start (next_max max p.addr (reg_count p.format)) ps
              (omega arith) t.below t.fits d.1 f.2 in
          rw e (record {
            grows = omega (arith, t.grows, ih.grows);
            below = ih.below;
            fits = ih.fits;
            covers = ((d.0, omega (arith, t.covers, ih.grows)), ih.covers);
          })
    ]
