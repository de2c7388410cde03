-- ===== src/Modbus/Batch/Memory.antt =====
-- A device that answers from its registers or its coils, as an assumption on the library.
use sensor_edge.Modbus.Bits.{register_at, bit_at}
use sensor_edge.Go.{ok}
use sensor_edge.Modbus.Session.{Session}
use sensor_edge.Prelude.{
  zero, ◌*◌, ◌+◌, length, some, ◌∷◌, ◌<◌, true, suc, Bool, [], ◌≡◌, ◌≤◌, String, List, ℕ,
}
use sensor_edge.Modbus.Library.{Table, Handler, Library}
use sensor_edge.Value.{Value, PointValue}

-- A value without its time stamp.
abbrev pub untimed : PointValue → String × Value × String
untimed v = (v.point_id, v.value, v.quality)

-- The driver is connected through `h`.
abbrev pub Through : {W : Type 0} → Handler → Session W → Type 0
Through h s = (s.m.client ≡ true) × (s.m.handler ≡ some h)

abbrev pub registers : (ℕ → ℕ) → ℕ → ℕ → List ℕ
registers mem a zero = []
registers mem a (suc n) = mem a ∷ registers mem (a + 1) n

module _ {W : Type 0} (lib : Library W) (table : Table) (h : Handler) where
  -- Through `h`, a request for 1 to 125 registers of the table is answered with their bytes; what
  -- else the request does to the world is left open.
  abbrev pub ServesRegisters : (ℕ → ℕ) → Type 0
  ServesRegisters mem =
      (a q : ℕ) (w : W)
      → 1 ≤ q
      → q ≤ 125
      → (bs : List ℕ) × (w' : W) × (lib.read table h a q w ≡ (ok bs, w'))
        × (length bs ≡ 2 * q)
        × ((i : ℕ) → i < q → register_at bs i ≡ ok (mem (a + i)))

  -- The same for 1 to 2000 coils or discrete inputs.
  abbrev pub ServesBits : (ℕ → Bool) → Type 0
  ServesBits mem =
      (a q : ℕ) (w : W)
      → 1 ≤ q
      → q ≤ 2000
      → (bs : List ℕ) × (w' : W) × (lib.read table h a q w ≡ (ok bs, w'))
        × ((i : ℕ) → i < q → bit_at bs i ≡ ok (mem (a + i)))
