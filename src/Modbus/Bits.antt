-- ===== src/Modbus/Bits.antt =====
-- Coils in bytes, and registers in bytes: the loops of ReadCoils, ReadDiscreteInputs,
-- ReadHoldingRegisters, ReadInputRegisters, WriteMultipleCoils and WriteMultipleRegisters.
pub mod RoundTrip
pub mod Registers
use Prim.Native.Nat.{bit_or}
use sensor_edge.Prelude.{
  ℕ, zero, suc, ◌+◌, ◌*◌, ◌/◌, ◌%◌, ◌^◌, Bool, true, false, Option, none, some, List, [], ◌∷◌, ◌++◌,
  ◌==◌, if◌then◌else◌, length, get_elem?, get_or, set, replicate,
}
use sensor_edge.Go.{Outcome, ok, err, panic, ◌>>=◌}
use sensor_edge.Format.Bytes.{put16, be16}

-- b[i], where an index out of range panics
abbrev pub at {ℓ} : {A : Type ℓ} → List A → ℕ → Outcome A
at xs i = elim (get_elem? xs i) [ none ↦ panic | some x ↦ ok x ]

-- (b >> k) & 0x01 == 0x01
abbrev pub bit : ℕ → ℕ → Bool
bit b k = b / 2 ^ k % 2 == 1

-- results[i/8] >> (i%8) & 1
pub bit_at : List ℕ → ℕ → Outcome Bool
bit_at results i = do b ← at results (i / 8); ok (bit b (i % 8))

-- The loop of ReadCoils over the indices i, i + 1, …, i + n - 1.
unfoldable pub unpack_bits : List ℕ → ℕ → ℕ → Outcome (List Bool)
unpack_bits results i zero = ok []
unpack_bits results i (suc n) = do
  b ← bit_at results i
  bs ← unpack_bits results (i + 1) n
  ok (b ∷ bs)

-- binary.BigEndian.Uint16(results[2*i : 2*i+2]) for i, …, i + n - 1. The library's slices are taken
-- to have no spare capacity, so that a slice past the end panics.
unfoldable pub register_at : List ℕ → ℕ → Outcome ℕ
unfolding be16
register_at results i = do
  hi ← at results (2 * i)
  lo ← at results (2 * i + 1)
  ok (be16 (hi ∷ lo ∷ []))

unfoldable pub unpack_registers : List ℕ → ℕ → ℕ → Outcome (List ℕ)
unpack_registers results i zero = ok []
unpack_registers results i (suc n) = do
  r ← register_at results i
  rs ← unpack_registers results (i + 1) n
  ok (r ∷ rs)

-- `for i, b := range values { if b { buf[i/8] |= 1 << (uint(i) % 8) } }`
unfoldable pub pack_from : ℕ → List Bool → List ℕ → List ℕ
pack_from i [] buf = buf
pack_from i (b ∷ bs) buf =
    pack_from (i + 1) bs
      (if b then set buf (i / 8) (bit_or (get_or buf (i / 8) 0) (2 ^ (i % 8))) else buf)

unfoldable pub pack_bits : List Bool → List ℕ
pack_bits values = pack_from 0 values (replicate ((length values + 7) / 8) 0)

-- The buffer of WriteMultipleRegisters.
unfoldable pub pack_registers : List ℕ → List ℕ
pack_registers [] = []
pack_registers (v ∷ vs) = put16 v ++ pack_registers vs
