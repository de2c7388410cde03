-- ===== src/Modbus/Batch/RegisterValues.antt =====
-- The values of a register group, out of bytes that hold the device's registers.
use sensor_edge.Modbus.Batch.Sort.{All}
use sensor_edge.Modbus.Batch.Memory.{registers, untimed}
use sensor_edge.Modbus.Batch.Registers.{reg_count_bounds, need_of}
use sensor_edge.Value.{Value, PointValue}
use sensor_edge.Prelude.{
  false, ◌/◌, zero, refl, ltb, ◌∙◌, ◌-◌, suc, [], arith, ◌<◌, ap, ◌∷◌, ◌*◌, ◌≡◌, ◌^◌, String, ◌≤◌,
  length, ◌+◌, map, List, ℕ,
}
use sensor_edge.Modbus.Points.{u16, boxed, point_value, AddrPoint, values_of, register_value}
use sensor_edge.Modbus.Bits.{register_at, unpack_registers}
use sensor_edge.Go.{ok}

-- The bytes hold q registers of the memory from `base` on.
pub record Holds (mem : ℕ → ℕ) (base q : ℕ) (bs : List ℕ) : Type 0 where
  pub size : length bs ≡ 2 * q
  pub each : (i : ℕ) → i < q → register_at bs i ≡ ok (mem (base + i))

unpack_registers-registers :
    (mem : ℕ → ℕ) (base q off n : ℕ) (bs : List ℕ)
    → Holds mem base q bs
    → off + n ≤ q
    → unpack_registers bs off n ≡ ok (registers mem (base + off) n)
unfolding unpack_registers
unpack_registers-registers mem base q off zero bs h le = refl
unpack_registers-registers mem base q off (suc n) bs h le = rw (
  h.each off (omega arith),
  unpack_registers-registers mem base q (off + 1) n bs h (omega arith)
      ∙ ap (λ a. ok (registers mem a n)) {x = base + (off + 1)} {y = base + off + 1} (omega arith),
)

abbrev pub timed : (ℕ → ℕ) → ℕ → AddrPoint → PointValue
timed mem now p =
    point_value p.name (boxed (need_of p) (registers mem p.addr (need_of p))) "good" now

-- What the point's own registers hold.
abbrev pub expected : (ℕ → ℕ) → AddrPoint → String × Value × String
expected mem p = (p.name, boxed (need_of p) (registers mem p.addr (need_of p)), "good")

register_value_lem :
    (mem : ℕ → ℕ) (base q now : ℕ) (bs : List ℕ) (p : AddrPoint)
    → Holds mem base q bs
    → base ≤ p.addr
    → p.addr + need_of p ≤ base + q
    → p.addr + need_of p ≤ 2 ^ 16
    → register_value bs base now p ≡ ok (timed mem now p)
unfolding register_value
register_value_lem mem base q now bs p h lo hi fits =
    let offset : u16 p.addr 0 base ≡ p.addr - base = omega (arith, reg_count_bounds p.format) in
    let enough : ltb (length bs / 2) (p.addr - base + need_of p) ≡ false = ground (arith, h.size) in
    rw (
      offset,
      enough,
      unpack_registers-registers mem base q (p.addr - base) (need_of p) bs h (omega arith)
          ∙ ap (λ a. ok (registers mem a (need_of p))) {x = base + (p.addr - base)} {y = p.addr}
              (omega arith),
    )

pub values_of-timed :
    (mem : ℕ → ℕ) (base q now : ℕ) (bs : List ℕ) (ps : List AddrPoint)
    → Holds mem base q bs
    → base + q ≤ 2 ^ 16
    → All (λ p. (base ≤ p.addr) × (p.addr + need_of p ≤ base + q)) ps
    → values_of register_value bs base now ps ≡ ok (map (timed mem now) ps)
unfolding values_of
values_of-timed mem base q now bs [] h small a = refl
values_of-timed mem base q now bs (p ∷ ps) h small a = rw (
  register_value_lem mem base q now bs p h a.0.0 a.0.1 (omega arith),
  values_of-timed mem base q now bs ps h small a.1,
)

pub untimed-timed :
    (mem : ℕ → ℕ) (now : ℕ) (ps : List AddrPoint)
    → map untimed (map (timed mem now) ps) ≡ map (expected mem) ps
untimed-timed mem now [] = refl
untimed-timed mem now (p ∷ ps) = ap (λ l. expected mem p ∷ l) (untimed-timed mem now ps)
