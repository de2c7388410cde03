-- ===== src/Modbus/Batch/Runs.antt =====
-- The runs of coils that one request covers, and their bounds.
use sensor_edge.Modbus.Batch.Sort.{All, Fits}
use sensor_edge.Prelude.{
  inl, refl, inr, [], Bool-cases, ltb, arith, true, ◌&&◌, ◌^◌, ◌∷◌, ◌+◌, ◌≡◌, ◌<◌, ◌==◌, ◌++◌, ◌≤◌,
  Bool, List, ℕ,
}
use sensor_edge.Modbus.Points.{u16, Group, extend_bits, AddrPoint}

abbrev pub one_bit : AddrPoint → ℕ
one_bit p = 1

pub extend_bits_split :
    (limit start max : ℕ) (ps : List AddrPoint)
    → (extend_bits limit start max ps).members ++ (extend_bits limit start max ps).rest ≡ ps
unfolding extend_bits
extend_bits_split limit start max [] = refl
extend_bits_split limit start max (p ∷ ps) = ground (arith, extend_bits_split limit start p.addr ps)

abbrev pub Within : ℕ → ℕ → AddrPoint → Type 0
Within start max p = (start ≤ p.addr) × (p.addr ≤ max)

pub record BitBounds (start max : ℕ) (g : Group) : Type 0 where
  pub grows : max ≤ g.max_addr
  pub below : g.max_addr < start + 2000
  pub fits : g.max_addr < 2 ^ 16
  pub covers : All (Within start g.max_addr) g.members

abbrev taken : ℕ → ℕ → ℕ → Bool
taken start max addr = addr == u16 max 1 0 && ltb (u16 addr 0 start) 2000

taken_next :
    (start max addr : ℕ)
    → start ≤ max
    → max < start + 2000
    → max < 2 ^ 16
    → start ≤ addr
    → addr + 1 ≤ 2 ^ 16
    → taken start max addr ≡ true
    → (addr ≡ max + 1) × (addr < start + 2000)
taken_next start max addr a b c d e t = ground arith

pub extend_bits-BitBounds :
    (start max : ℕ) (ps : List AddrPoint)
    → start ≤ max
    → max < start + 2000
    → max < 2 ^ 16
    → All (λ q. start ≤ q.addr) ps
    → Fits one_bit ps
    → BitBounds start max (extend_bits 2000 start max ps)
unfolding extend_bits
extend_bits-BitBounds start max [] a b c d f = record {
  grows = omega arith;
  below = b;
  fits = c;
  covers = tt;
}
extend_bits-BitBounds start max (p ∷ ps) a b c d f = elim (Bool-cases (taken start max p.addr)) [
  | inr e ↦ rw e (record { grows = omega arith; below = b; fits = c; covers = tt })
  | inl e ↦
      let (next, small) = taken_next start max p.addr a b c d.0 f.0 e in
      let ih = extend_bits-BitBounds start p.addr ps (omega arith) small (omega arith) d.1 f.2 in
      rw e (record {
        grows = omega (arith, next, ih.grows);
        below = ih.below;
        fits = ih.fits;
        covers = ((d.0, ih.grows), ih.covers);
      })
]
