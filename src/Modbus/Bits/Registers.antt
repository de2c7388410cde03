-- ===== src/Modbus/Bits/Registers.antt =====
-- Registers in bytes: what WriteMultipleRegisters packs, the read loops unpack.
use sensor_edge.Format.Bytes.{put16}
use sensor_edge.Go.{ok}
use sensor_edge.Prelude.{
  refl, zero, ◌%◌, ◌/◌, ◌∙◌, get_or, ap, ◌++◌, [], arith, ◌+◌, ◌≡◌, ◌^◌, ◌*◌, length, suc, ◌<◌, ◌∷◌,
  List, ℕ,
}
use sensor_edge.Modbus.Bits.{unpack_registers, pack_registers, register_at}

abbrev pub AllWords : List ℕ → Type 0
AllWords [] = Unit
AllWords (v ∷ vs) = (v < 2 ^ 16) × AllWords vs

-- If `vs` are the registers i, i + 1, … of the bytes, the read loop returns `vs`.
pub unpack_registers-register_at :
    (bytes : List ℕ) (i : ℕ) (vs : List ℕ)
    → ((j : ℕ) → j < length vs → register_at bytes (i + j) ≡ ok (get_or vs j 0))
    → unpack_registers bytes i (length vs) ≡ ok vs
unfolding unpack_registers
unpack_registers-register_at bytes i [] same = refl
unpack_registers-register_at bytes i (v ∷ vs) same = rw (
  ap (register_at bytes) {x = i} {y = i + 0} (omega arith) ∙ same 0 (omega arith),
  unpack_registers-register_at bytes (i + 1) vs (λ j h.
      ap (register_at bytes) {x = i + 1 + j} {y = i + suc j} (omega arith)
      ∙ same (suc j) (omega arith)),
)

twice_suc : (j : ℕ) → 2 * suc j ≡ suc (suc (2 * j))
twice_suc j = omega arith

plus_one_in : (n : ℕ) → suc (suc n) + 1 ≡ suc (suc (n + 1))
plus_one_in n = omega arith

register_at-skip :
    (a b : ℕ) (rest : List ℕ) (j : ℕ) → register_at (a ∷ b ∷ rest) (suc j) ≡ register_at rest j
unfolding register_at
register_at-skip a b rest j = rw (twice_suc j, plus_one_in (2 * j))

register_at-first : (v : ℕ) (rest : List ℕ) → v < 2 ^ 16 → register_at (put16 v ++ rest) 0 ≡ ok v
unfolding register_at
register_at-first v rest h = ground arith

-- One register of the packed ones.
pub register_at-pack_registers :
    (vs : List ℕ) (j : ℕ)
    → AllWords vs
    → j < length vs
    → register_at (pack_registers vs) j ≡ ok (get_or vs j 0)
unfolding pack_registers
register_at-pack_registers [] j w h = elim h [ ]
register_at-pack_registers (v ∷ vs) zero w h = register_at-first v (pack_registers vs) w.0
register_at-pack_registers (v ∷ vs) (suc j) w h =
    register_at-skip (v / 2 ^ 8 % 256) (v % 256) (pack_registers vs) j
    ∙ register_at-pack_registers vs j w.1 (omega arith)

-- Registers that WriteMultipleRegisters packs are the registers that ReadHoldingRegisters and
-- ReadInputRegisters unpack, for words below 2 ^ 16.
pub unpack_registers-pack_registers :
    (values : List ℕ)
    → AllWords values
    → unpack_registers (pack_registers values) 0 (length values) ≡ ok values
unpack_registers-pack_registers values w =
    unpack_registers-register_at (pack_registers values) 0 values λ j h.
      ap (register_at (pack_registers values)) {x = 0 + j} {y = j} (omega arith)
      ∙ register_at-pack_registers values j w h
