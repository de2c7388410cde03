-- ===== src/Modbus/Write/Effects.antt =====
-- What the writes do, and that the reads return what they wrote.
use sensor_edge.Modbus.Bits.RoundTrip.{unpack_bits-pack_bits}
use sensor_edge.Modbus.Bits.{pack_bits, pack_registers}
use sensor_edge.Modbus.Address.{parse_address-ne-panic, parse_address}
use sensor_edge.Modbus.Bits.Registers.{unpack_registers-pack_registers, AllWords}
use sensor_edge.Modbus.Batch.Memory.{Through}
use sensor_edge.Prelude.Int.{to_unsigned}
use sensor_edge.Go.{Outcome, panic, msg, err, ok, Error}
use sensor_edge.Modbus.Session.{
  read_coils, client_read, read_holding_registers, Session, ensure_connected, read_retrying,
}
use sensor_edge.Modbus.Write.{
  write_value, write_multiple_coils, client_write, write_multiple_registers, write,
}
use sensor_edge.Prelude.{
  ◌%◌, inl, inr, none, refl, ◌<◌, length, arith, some, ◌^◌, ◌⊎◌, List, false, Option, ℤ, true, ◌≡◌,
  String, ℕ, Bool,
}
use sensor_edge.Modbus.Library.{coils, holding_registers, Table, Handler, Library}
use sensor_edge.Value.{int, uint16, bool, Value}

abbrev pub is_writable : Value → Bool
is_writable (bool v) = true
is_writable (uint16 v) = true
is_writable (int v) = true
is_writable _ = false

module _ {W : Type 0} (lib : Library W) where
  refused :
      (a : ℕ) (v : Value) (s : Session W)
      → is_writable v ≡ false
      → write_value lib a v s ≡ (ok (some (msg "unsupported value type")), s)
  refused a (bool v) s h = cc
  refused a (uint16 v) s h = cc
  refused a (int v) s h = cc
  refused a _ s h = refl

  -- Write with a value that is no bool, uint16 or int, or with a point whose address does not parse,
  -- returns an error, and neither the driver nor the device is touched.
  pub write_refused :
      (point : String) (v : Value) (s : Session W)
      → (is_writable v ≡ false) ⊎ ((e : Error) × (parse_address point ≡ err e))
      → (e : Error) × (write lib point v s ≡ (ok (some e), s))
  unfolding write
  write_refused point v s (inr (e, bad)) = (e, rw (bad, write))
  write_refused point v s (inl h) = by_address (parse_address point) refl
    where
      by_address :
          (r : Outcome ℕ)
          → parse_address point ≡ r
          → (e : Error) × (write lib point v s ≡ (ok (some e), s))
      by_address (ok a) q = (msg "unsupported value type", rw (q, write) (refused a v s h))
      by_address (err e) q = (e, rw (q, write))
      by_address panic q = absurd (parse_address-ne-panic point q)

  -- An int is written as its low 16 bits.
  pub write_int :
      (point : String) (v : ℤ) (s : Session W)
      → write lib point (int v) s ≡ write lib point (uint16 (to_unsigned (2 ^ 16) v)) s
  unfolding write
  write_int point v s = ground arith

  client_write_connected :
      (f : Handler → W → Option Error × W) (h : Handler) (o : Option Error) (w : W) (s : Session W)
      → Through h s
      → f h s.world ≡ (o, w)
      → client_write lib f s ≡ (ok o, record s { world = w })
  unfolding client_write
  client_write_connected f h o w s c e = rw (c.0, c.1, e)

  read_retrying_connected :
      (t : Table) (a q : ℕ) (h : Handler) (bs : List ℕ) (w : W) (s : Session W)
      → Through h s
      → lib.read t h a q s.world ≡ (ok bs, w)
      → read_retrying lib t a q s ≡ (ok bs, record s { world = w })
  unfolding read_retrying ensure_connected client_read
  read_retrying_connected t a q h bs w s c e = rw (c.0, c.1, e)

  -- On a connected driver: registers below 2 ^ 16, fewer than 65536 of them, that the device took
  -- from WriteMultipleRegisters and sends back unchanged are what ReadHoldingRegisters returns, and
  -- so are coils from WriteMultipleCoils through ReadCoils.
  pub write_then_read :
      (a : ℕ) (values : List ℕ) (flags : List Bool) (h : Handler) (w w' v v' : W) (s : Session W)
      → Through h s
      → AllWords values
      → length values < 2 ^ 16
      → length flags < 2 ^ 16
      → lib.write_multiple_registers h a (length values) (pack_registers values) s.world ≡ (none, w)
      → lib.read holding_registers h a (length values) w ≡ (ok (pack_registers values), w')
      → lib.write_multiple_coils h a (length flags) (pack_bits flags) s.world ≡ (none, v)
      → lib.read coils h a (length flags) v ≡ (ok (pack_bits flags), v')
      → ((write_multiple_registers lib a values s).0 ≡ ok none)
        × ((read_holding_registers lib a
              (length values)
              (write_multiple_registers lib a values s).1).0
            ≡ ok values)
        × ((write_multiple_coils lib a flags s).0 ≡ ok none)
        × ((read_coils lib a (length flags) (write_multiple_coils lib a flags s).1).0 ≡ ok flags)
  unfolding write_multiple_registers write_multiple_coils read_holding_registers read_coils
  write_then_read a values flags h w w' v v' s c words short few wrote back wrote' back' =
      let n : length values % 2 ^ 16 ≡ length values = omega arith in
      let k : length flags % 2 ^ 16 ≡ length flags = omega arith in
      let x =
        client_write_connected
          (λ h. lib.write_multiple_registers h a (length values) (pack_registers values)) h none w s
          c wrote in
      let y =
        client_write_connected (λ h. lib.write_multiple_coils h a (length flags) (pack_bits flags))
          h none v s c wrote' in
      let r =
        read_retrying_connected holding_registers a (length values) h (pack_registers values) w'
          (record s { world = w }) c back in
      let z =
        read_retrying_connected coils a (length flags) h (pack_bits flags) v'
          (record s { world = v }) c back' in
      (
        rw (n, x) refl,
        rw (n, x, r, unpack_registers-pack_registers values words) refl,
        rw (k, y) refl,
        rw (k, y, z, unpack_bits-pack_bits flags) refl,
      )
